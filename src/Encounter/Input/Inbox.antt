-- ===== src/Encounter/Input/Inbox.antt =====
-- The owner's inbox: every message is taken, and leaves the players as the owner keeps them.
use alzendor.Prelude.{
  ◌≡◌, refl, ◌∙◌, ap, String, ◌||◌, Bool-cases, inl, inr, List, [], ◌∷◌, some, str_eq, Succeeds,
  Succeeds-some, Succeeds-bind,
}
use alzendor.Real.{Real}
use alzendor.Encounter.Data.{Npc, Player, Call}
use alzendor.Encounter.Turn.{has_player}
use alzendor.Encounter.Turn.Here.{Distinct}
use alzendor.Encounter.Turn.Landings.{AllKept}
use alzendor.Encounter.Input.{
  Texts, Message, Around, input, Post, end, sync, of_player, Desk, answer, take_post, take_inbox,
}
use alzendor.Encounter.Input.Safe.{Held-input}

module _ {F : Type 0} ⦃r : Real F⦄ where
  -- Kept players, each of whom is who they were.
  record Same (ps qs : List (Player F)) : Type 0 where
    kept : AllKept qs
    here : (pid : String) → has_player qs pid ≡ has_player ps pid
    distinct : Distinct ps → Distinct qs

  Same-refl : (ps : List (Player F)) → AllKept ps → Same ps ps
  Same-refl ps h = record { kept = h; here = λ pid. refl; distinct = λ d. d }

  Same-answer :
      (around : Around F) (m : Message) (ps : List (Player F))
      → AllKept ps
      → Succeeds (λ (x : List (Player F) × List Call). Same ps x.0) (answer around m ps)
  unfolding answer
  Same-answer around m [] h = Succeeds-some _ (Same-refl [] tt)
  Same-answer around m (p ∷ ps) h = elim (Bool-cases (str_eq p.pid m.pid)) [
    | inl mine ↦ rw mine (
        Succeeds-bind (input around p m) _ (Held-input around p m h.0) λ a k.
          Succeeds-some _ (record {
            kept = (k.kept, h.1);
            here = λ pid. ap (λ x. str_eq x pid || has_player ps pid) k.pid;
            distinct = λ d. (ap (has_player ps) k.pid ∙ d.0, d.1);
          }))
    | inr other ↦ rw other (
        Succeeds-bind (answer around m ps) _ (Same-answer around m ps h.1) λ (qs, late) k.
          Succeeds-some _ (record {
            kept = (h.0, k.kept);
            here = λ pid. ap (λ b. str_eq p.pid pid || b) (k.here pid);
            distinct = λ d. (k.here p.pid ∙ d.0, k.distinct d.1);
          }))
  ]

  Same-take_post :
      (texts : Texts) (words : String → String × String) (npcs : List (Npc F)) (d : Desk F)
      (m : Post)
      → AllKept d.players
      → Succeeds (λ (x : Desk F). Same d.players x.players) (take_post texts words npcs d m)
  unfolding take_post
  Same-take_post texts words npcs d end h = Succeeds-some _ (Same-refl d.players h)
  Same-take_post texts words npcs d sync h = Succeeds-some _ (Same-refl d.players h)
  Same-take_post texts words npcs d (of_player m) h =
      let around : Around F = record {
        texts = texts;
        words = words;
        npcs = npcs;
        players = d.players;
      } in
      Succeeds-bind (answer around m d.players) _ (Same-answer around m d.players h)
        λ x k. Succeeds-some _ k

  Same-take_inbox :
      (texts : Texts) (words : String → String × String) (npcs : List (Npc F)) (d : Desk F)
      (ms : List Post)
      → AllKept d.players
      → Succeeds (λ (x : Desk F). Same d.players x.players) (take_inbox texts words npcs d ms)
  unfolding take_inbox
  Same-take_inbox texts words npcs d [] h = Succeeds-some _ (Same-refl d.players h)
  Same-take_inbox texts words npcs d (m ∷ ms) h =
      Succeeds-bind (take_post texts words npcs d m) _ (Same-take_post texts words npcs d m h)
        λ d' k.
          let s = Same-take_inbox texts words npcs d' ms k.kept in
          record {
            value = s.value;
            succeeds = s.succeeds;
            holds = record {
              kept = s.holds.kept;
              here = λ pid. s.holds.here pid ∙ k.here pid;
              distinct = λ x. s.holds.distinct (k.distinct x);
            };
          }

  -- Whatever messages come for an encounter whose players have different pids and are as the owner
  -- keeps them: the inbox is taken without raising anything, the players are the same ones, with
  -- different pids, and are again as the owner keeps them.
  pub take_inbox_safe :
      (texts : Texts) (words : String → String × String) (npcs : List (Npc F)) (d : Desk F)
      (ms : List Post)
      → Distinct d.players
      → AllKept d.players
      → (x : Desk F) × (take_inbox texts words npcs d ms ≡ some x)
        × AllKept x.players
        × Distinct x.players
        × ((pid : String) → has_player x.players pid ≡ has_player d.players pid)
  take_inbox_safe texts words npcs d ms distinct h =
      let s = Same-take_inbox texts words npcs d ms h in
      (s.value, s.succeeds, s.holds.kept, s.holds.distinct distinct, s.holds.here)
