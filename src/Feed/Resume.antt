-- ===== src/Feed/Resume.antt =====
-- A resumed feed has the channels that the player was in at its cursor.
use alzendor.Prelude.{
  ℕ, ◌≡◌, refl, sym, ap, String, Bool, true, false, ◌||◌, Bool-cases, inl, inr, Option, none, some,
  List, [], ◌∷◌, arith, str_eq, eq_iff, if◌then◌else◌,
}
use alzendor.Feed.{
  Event, said, kick, change_subs, other_control, Logged, Subs, set_sub, leave, join, undo_adds,
  undo_event, undo, open_feed,
}

abbrev pub is_in : Option ℕ → Bool
is_in none = false
is_in (some joined) = true

abbrev pub listed : String → List String → Bool
listed channel [] = false
listed channel (c ∷ cs) = let rest = listed channel cs in str_eq c channel || rest

-- What the world does to a player's channels, as their feed is told of it.
abbrev pub change : Subs → Logged → Event → Subs
change s e (change_subs add remove) = join e.seq add (leave remove s)
change s e _ = s

-- The world adds channels that the player is not in, and removes ones that they are in; their own
-- is neither.
abbrev pub IsChange : String → Subs → Event → Type 0
IsChange own s (change_subs add remove) =
    (c : String)
    → str_eq c own ≡ false
    → (listed c add ≡ true → is_in (s c) ≡ false) × (listed c remove ≡ true → is_in (s c) ≡ true)
IsChange own s _ = Unit

unfoldable pub since_then : Subs → List Logged → Subs
since_then s [] = s
since_then s (e ∷ es) = since_then (change s e e.event) es

abbrev pub AreChanges : String → Subs → List Logged → Type 0
AreChanges own s [] = Unit
AreChanges own s (e ∷ es) = IsChange own s e.event × AreChanges own (change s e e.event) es

abbrev pub events_of : List Logged → List Event
events_of [] = []
events_of (e ∷ es) = e.event ∷ events_of es

is_in-join :
    (seq : ℕ) (add : List String) (s : Subs) (c : String)
    → is_in (join seq add s c) ≡ (if listed c add then true else is_in (s c))
is_in-join seq [] s c = refl
is_in-join seq (a ∷ add) s c =
    let rest = is_in-join seq add (set_sub a (some seq) s) c in ground (arith, rest)

is_in-leave :
    (remove : List String) (s : Subs) (c : String)
    → is_in (leave remove s c) ≡ (if listed c remove then false else is_in (s c))
is_in-leave [] s c = refl
is_in-leave (a ∷ remove) s c =
    let rest = is_in-leave remove (set_sub a none s) c in ground (arith, rest)

same_text : (s t : String) → str_eq s t ≡ true → s ≡ t
same_text s t h = (eq_iff s t).0 h

not_both : (a c own : String) → str_eq a own ≡ true → str_eq c own ≡ false → str_eq a c ≡ false
not_both a c own mine other = elim (Bool-cases (str_eq a c)) [
  | inl same ↦
      let e : str_eq a own ≡ str_eq c own = ap (λ x. str_eq x own) (same_text a c same) in
      absurd (ground (arith, e, mine, other))
  | inr differ ↦ differ
]

other_way : (a b : String) → str_eq a b ≡ false → str_eq b a ≡ false
other_way a b h = elim (Bool-cases (str_eq b a)) [
  | inl same ↦
      let back : str_eq a b ≡ true = (eq_iff a b).1 (sym (same_text b a same)) in
      absurd (ground (arith, back, h))
  | inr differ ↦ differ
]

is_in-undo_adds :
    (own : String) (add : List String) (s : Subs) (c : String)
    → str_eq c own ≡ false
    → is_in (undo_adds own add s c) ≡ (if listed c add then false else is_in (s c))
is_in-undo_adds own [] s c h = refl
is_in-undo_adds own (a ∷ add) s c h = elim (Bool-cases (str_eq a own)) [
  | inl mine ↦
      let other : str_eq a c ≡ false = not_both a c own mine h in
      let rest = is_in-undo_adds own add s c h in rw (mine, other) rest
  | inr theirs ↦
      let rest = is_in-undo_adds own add (set_sub a none s) c h in rw theirs (ground (arith, rest))
]

is_in-undo :
    (own : String) (s t : Subs) (e : Logged) (x : Event) (c : String)
    → str_eq c own ≡ false
    → IsChange own s x
    → is_in (t c) ≡ is_in (change s e x c)
    → is_in (undo_event own x t c) ≡ is_in (s c)
is_in-undo own s t e (said text) c other h same = same
is_in-undo own s t e (kick session reason) c other h same = same
is_in-undo own s t e other_control c other h same = same
is_in-undo own s t e (change_subs add remove) c other h same =
    let (absent, present) = h c other in
    let back = is_in-join 0 remove (undo_adds own add t) c in
    let gone = is_in-undo_adds own add t c other in
    let joined = is_in-join e.seq add (leave remove s) c in
    let left = is_in-leave remove s c in
    ground (arith, back, gone, joined, left, same, absent, present)

is_in-undo_event :
    (own : String) (s t : Subs) (e : Logged) (c : String)
    → str_eq c own ≡ false
    → IsChange own s e.event
    → is_in (t c) ≡ is_in (change s e e.event c)
    → is_in (undo_event own e.event t c) ≡ is_in (s c)
is_in-undo_event own s t e c other h same = is_in-undo own s t e e.event c other h same

is_in-undo_all :
    (own : String) (s : Subs) (since : List Logged) (c : String)
    → str_eq c own ≡ false
    → AreChanges own s since
    → is_in (undo own (events_of since) (since_then s since) c) ≡ is_in (s c)
unfolding undo since_then
is_in-undo_all own s [] c other h = refl
is_in-undo_all own s (e ∷ es) c other h =
    is_in-undo_event own s (undo own (events_of es) (since_then (change s e e.event) es)) e c other
      h.0 (is_in-undo_all own (change s e e.event) es c other h.1)

-- A feed opened at a cursor, from the channels that the player is in now and from what their own
-- stream holds since the cursor, where each change adds channels that they were not in and removes
-- ones that they were in: it reads the channels that the player was in at the cursor, their own
-- stream beside them, and no other, and it has not ended.
pub open_feed_lem :
    (own session_id : String) (cursor : ℕ) (s : Subs) (since : List Logged) (c : String)
    → AreChanges own s since
    → let f = open_feed own session_id cursor (since_then s since) (events_of since) in
      (str_eq own c ≡ true → f.subs c ≡ some 0)
      × (str_eq own c ≡ false → is_in (f.subs c) ≡ is_in (s c))
      × (f.ended ≡ none)
      × (f.cursor ≡ cursor)
unfolding open_feed
open_feed_lem own session_id cursor s since c h = (
  λ mine. rw mine refl,
  λ other. rw other (is_in-undo_all own s since c (other_way own c other) h),
  refl,
  refl,
)
