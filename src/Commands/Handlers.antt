-- ===== src/Commands/Handlers.antt =====
-- commands.py: which handler a command has.
mod Rooms
mod Fights
mod Talks
pub mod Does
pub mod Returns
use alzendor.Prelude.{String, Option}
use alzendor.Text.{Unicode}
use alzendor.Commands.Data.{Verb, Context, Around, Deed, Tried}
use Rooms
use Fights
use Talks
pub use Talks.{command_in}

module _ (u : Unicode) (ctx : Context) (w : Around) where
  unfoldable pub handle : Verb → String → Tried Deed
  handle Verb.look rest = Rooms.look u ctx w rest
  handle Verb.inspect rest = Rooms.inspect u ctx w rest
  handle Verb.inventory rest = Rooms.inventory u ctx w rest
  handle Verb.who rest = Rooms.who u ctx w rest
  handle Verb.weather rest = Rooms.weather u ctx w rest
  handle Verb.discuss rest = Rooms.discuss u ctx w rest
  handle Verb.greet rest = Rooms.greet u ctx w rest
  handle Verb.accept rest = Rooms.accept u ctx w rest
  handle Verb.decline rest = Rooms.decline u ctx w rest
  handle Verb.whatnow rest = Rooms.whatnow u ctx w rest
  handle Verb.what rest = Rooms.what u ctx w rest
  handle Verb.give rest = Rooms.give u ctx w rest
  handle Verb.choose rest = Rooms.choose u ctx w rest
  handle Verb.flee rest = Rooms.flee u ctx w rest
  handle Verb.travel rest = Rooms.travel u ctx w rest
  handle Verb.move rest = Rooms.move u ctx w rest
  handle Verb.creep rest = Rooms.creep u ctx w rest
  handle Verb.disarm rest = Rooms.disarm u ctx w rest
  handle Verb.say rest = Rooms.say u ctx w rest
  handle Verb.emote rest = Rooms.emote u ctx w rest
  handle (Verb.fixed verb plain targeted) rest = Rooms.fixed u ctx w verb plain targeted rest
  handle Verb.describe rest = Rooms.describe u ctx w rest
  handle Verb.use_slot rest = Fights.use_slot u ctx w rest
  handle Verb.learn rest = Fights.learn u ctx w rest
  handle Verb.attune rest = Fights.attune u ctx w rest
  handle Verb.respec rest = Fights.respec u ctx w rest
  handle Verb.quests rest = Fights.quests u ctx w rest
  handle Verb.equip rest = Fights.equip u ctx w rest
  handle Verb.unequip rest = Fights.unequip u ctx w rest
  handle Verb.gear rest = Fights.gear u ctx w rest
  handle Verb.wear rest = Fights.wear u ctx w rest
  handle Verb.hold rest = Fights.hold u ctx w rest
  handle Verb.remove rest = Fights.remove u ctx w rest
  handle Verb.dodge rest = Fights.dodge u ctx w rest
  handle Verb.block rest = Fights.block u ctx w rest
  handle Verb.unblock rest = Fights.unblock u ctx w rest
  handle Verb.stats rest = Fights.stats u ctx w rest
  handle Verb.train rest = Fights.train u ctx w rest
  handle Verb.get rest = Fights.get u ctx w rest
  handle Verb.drop rest = Fights.drop u ctx w rest
  handle Verb.tell rest = Talks.tell u ctx w rest
  handle Verb.chat rest = Talks.chat u ctx w rest
  handle Verb.channels rest = Talks.channels u ctx w rest
  handle Verb.join rest = Talks.join u ctx w rest
  handle Verb.leave rest = Talks.leave u ctx w rest
  handle Verb.create rest = Talks.create u ctx w rest
  handle Verb.announce rest = Talks.announce u ctx w rest
  handle Verb.setweather rest = Talks.setweather u ctx w rest
  handle Verb.goto rest = Talks.goto u ctx w rest
  handle Verb.setclock rest = Talks.setclock u ctx w rest
  handle Verb.help rest = Talks.help u ctx w rest
  handle Verb.quit rest = Talks.quit u ctx w rest
  handle Verb.logout rest = Talks.logout u ctx w rest
