-- ===== src/Commands/Table/Rows.antt =====
-- commands.py: the registrations with @command, section by section.
use alzendor.Prelude.{String, true, false, List, [], ◌∷◌}
use alzendor.Commands.Data.{Verb, Command}

-- command(name, usage, summary, aliases)
abbrev pub listed : String → String → String → Verb → List String → Command
listed name usage summary handler aliases = record {
  name = name;
  usage = usage;
  summary = summary;
  handler = handler;
  aliases = aliases;
  admin = false;
  hidden = false;
}

-- The same, with admin=True.
abbrev pub admin_only : String → String → String → Verb → List String → Command
admin_only name usage summary handler aliases = record (listed name usage summary handler aliases) {
  admin = true;
}

-- The same, with hidden=True.
abbrev pub unlisted : String → String → String → Verb → List String → Command
unlisted name usage summary handler aliases = record (listed name usage summary handler aliases) {
  hidden = true;
}

-- Looking around, and talking to people.
abbrev pub looking : List Command
looking =
    listed "look" "LOOK [<thing or direction>]"
      "Describe the room, something in it, or what's that way (LOOK NORTH, L N)." Verb.look
      ("l" ∷ [])
    ∷ listed "inspect" "INSPECT <thing>" "Examine something closely." Verb.inspect
        ("examine" ∷ "x" ∷ [])
    ∷ listed "inventory" "INVENTORY" "List what you're carrying." Verb.inventory ("i" ∷ "inv" ∷ [])
    ∷ listed "who" "WHO" "List who is online." Verb.who ([])
    ∷ listed "weather" "WEATHER"
        "The weather here, what's on the ground, and the forecast if you can read these skies."
        Verb.weather ("forecast" ∷ "sky" ∷ [])
    ∷ listed "discuss" "DISCUSS [<topic>] [WITH <someone>]"
        "Talk something over with your target, e.g. DISCUSS WEATHER, or DISCUSS SIGNET WITH NAN. DISCUSS alone lists what they'll talk about with you."
        Verb.discuss ("ask" ∷ "talk" ∷ [])
    ∷ listed "greet" "GREET [<someone>]"
        "Greet your target. People who have work for you will say so." Verb.greet
        ("hello" ∷ "hi" ∷ [])
    ∷ listed "accept" "ACCEPT" "Take on the quest you've just been offered." Verb.accept
        ("yes" ∷ [])
    ∷ listed "decline" "DECLINE"
        "Turn down the quest you've just been offered (ask them again later)." Verb.decline
        ("no" ∷ [])
    ∷ listed "whatnow" "WHATNOW (or WHAT NOW)"
        "What you're meant to be doing: your quest, or a pull towards someone with work."
        Verb.whatnow ("hint" ∷ [])
    ∷ unlisted "what" "WHAT NOW" "What you're meant to be doing." Verb.what ([])
    ∷ listed "give" "GIVE <item> [TO <someone>]"
        "Hand something to your target (or whoever you name), e.g. GIVE SIGNET TO NAN." Verb.give
        ([])
    ∷ []

-- Moving.
abbrev pub moving : List Command
moving =
    listed "choose" "CHOOSE <number>" "Make a choice in a travel event, e.g. CHOOSE 2." Verb.choose
      ("pick" ∷ [])
    ∷ listed "flee" "FLEE"
        "In a fight, fleeing is the flee key (F by default): steady first, it runs back the way you came, and the toughest enemy gets one parting blow. On the road it runs from an ambush, and leaves you in the wilds."
        Verb.flee ("run" ∷ [])
    ∷ listed "travel" "TRAVEL [<destination>]"
        "List the ferries, coaches, portals and other routes from here, or take one, e.g. TRAVEL VILLAGE GREEN."
        Verb.travel ("enter" ∷ "board" ∷ "ride" ∷ [])
    ∷ listed "move" "MOVE <direction>"
        "Walk somewhere. Shorthand: N, S, E, W, NE, NW, SE, SW, U, D." Verb.move
        ("go" ∷ "walk" ∷ [])
    ∷ listed "creep" "CREEP <direction>"
        "Step somewhere carefully: three times as slow, but much likelier to get past a trap (and sure to, if you've read its sign)."
        Verb.creep ("careful" ∷ "sneak" ∷ [])
    ∷ listed "disarm" "DISARM <direction>"
        "Try to disarm a trap you know of next door: a check, and failing springs it on you."
        Verb.disarm ([])
    ∷ []

-- Acting in the room.
abbrev pub acting : List Command
acting =
    listed "say" "SAY <message>"
      "Speak to everyone in the room (addressed to your target, if you have one). Shorthand: 'message (an apostrophe first)"
      Verb.say ([])
    ∷ listed "emote" "EMOTE <action>" "Act something out, e.g. EMOTE STRETCHES. Shorthand: :action"
        Verb.emote ("me" ∷ [])
    ∷ []

-- After the fixed verbs.
abbrev pub describing : List Command
describing =
    listed "describe" "DESCRIBE <text>"
      "Set the short description others see, e.g. 'tall, with a scarred lip'." Verb.describe ([])
    ∷ []

-- Combat.
abbrev pub fighting : List Command
fighting =
    listed "use" "USE <slot> [<target>] | USE <item> [ON <thing>]"
      "Use what's in slot 1, 2 or 3 (shorthand: 1, 2, 3; in the web client, your slot keys, J, K and L unless you've changed them in Settings): in a fight, from your balance, or use something you carry, e.g. USE TAR ON HULL."
      Verb.use_slot ([])
    ∷ listed "learn" "LEARN <talent or passive>"
        "Learn a talent from your class (at levels 3, 6, 9 … 18) or a passive from your ancestry (at 5, 10, 15 and 20)."
        Verb.learn ([])
    ∷ listed "attune" "ATTUNE <passive> <slot>"
        "Choose which slot a slot passive (like Moonlit Edge) belongs to." Verb.attune ([])
    ∷ listed "respec" "RESPEC"
        "At a trainer, forget your talents and passives and choose again, for 10 coins a level."
        Verb.respec ([])
    ∷ listed "quests" "QUESTS" "List your quests and what each needs next." Verb.quests
        ("journal" ∷ "q" ∷ [])
    ∷ listed "equip" "EQUIP <gear> [<slot>]"
        "Put gear in a slot (EQUIP SWORD 2), or put on anything worn or held (EQUIP TORCH). GEAR lists it all."
        Verb.equip ("wield" ∷ [])
    ∷ listed "unequip" "UNEQUIP <slot>" "Empty a slot." Verb.unequip ([])
    ∷ listed "gear" "GEAR" "List your gear and what's in your slots." Verb.gear
        ("slots" ∷ "loadout" ∷ [])
    ∷ listed "wear" "WEAR <item>" "Put on worn gear (head, chest, legs), e.g. WEAR HAT." Verb.wear
        ("don" ∷ [])
    ∷ listed "hold" "HOLD <item>"
        "Take something in your hand: a torch, a shield, an orb, e.g. HOLD TORCH." Verb.hold ([])
    ∷ listed "remove" "REMOVE <item or place>"
        "Take off worn gear, or empty your hand, e.g. REMOVE HAND." Verb.remove ("doff" ∷ [])
    ∷ listed "dodge" "DODGE"
        "In a fight: be untouchable for a moment, then wobble. In the web client, Space by default."
        Verb.dodge ([])
    ∷ listed "block" "BLOCK"
        "In a fight, with a shield in hand: brace (steady, and blows cut) until UNBLOCK. In the web client, hold Shift (by default)."
        Verb.block ("brace" ∷ [])
    ∷ listed "unblock" "UNBLOCK" "Lower your shield, so you can strike again." Verb.unblock
        ("lower" ∷ [])
    ∷ []

-- The character.
abbrev pub training : List Command
training =
    listed "stats" "STATS" "Your level, stats, perks and reputation." Verb.stats
      ("character" ∷ "sheet" ∷ "reputation" ∷ "rep" ∷ [])
    ∷ listed "train" "TRAIN <stat>"
        "Spend a stat point: vigor, poise, focus, presence or resilience." Verb.train ([])
    ∷ listed "get" "GET <item>" "Pick something up." Verb.get ("take" ∷ [])
    ∷ listed "drop" "DROP <item>" "Put something down." Verb.drop ([])
    ∷ []

-- Talking.
abbrev pub talking : List Command
talking =
    listed "tell" "TELL <player> <message>" "Send a private message to a player." Verb.tell
      ("whisper" ∷ "dm" ∷ [])
    ∷ listed "chat" "CHAT <channel> <message>" "Talk on a chat channel you've joined." Verb.chat
        ("c" ∷ [])
    ∷ listed "channels" "CHANNELS" "List chat channels." Verb.channels ([])
    ∷ listed "join" "JOIN <channel>" "Join a chat channel." Verb.join ([])
    ∷ listed "leave" "LEAVE <channel>" "Leave a chat channel." Verb.leave ([])
    ∷ listed "create" "CREATE <channel>" "Create a new chat channel and join it." Verb.create ([])
    ∷ []

-- Admin.
abbrev pub ruling : List Command
ruling =
    admin_only "announce" "ANNOUNCE AREA|REGION|REALM <message>"
      "Announce to your whole area, region or realm." Verb.announce ([])
    ∷ admin_only "setweather" "SETWEATHER <temperature> <energy> <precipitation> | CLEAR"
        "Pin the weather in your region (each -1 to 1) for testing, or let it run free."
        Verb.setweather ([])
    ∷ admin_only "goto" "GOTO <room id>" "Jump to any room, for testing." Verb.goto ([])
    ∷ admin_only "setclock" "SETCLOCK <hour> | CLEAR"
        "Pin the time of day (0-23) for testing, or let the clock run." Verb.setclock ([])
    ∷ []

-- Session.
abbrev pub leaving : List Command
leaving =
    listed "help" "HELP [<command>]" "List commands, or explain one." Verb.help
      ("?" ∷ "commands" ∷ [])
    ∷ listed "quit" "QUIT" "Leave the world (you stay signed in on this device)." Verb.quit ([])
    ∷ listed "logout" "LOGOUT" "Leave the world and sign out." Verb.logout ([])
    ∷ []
