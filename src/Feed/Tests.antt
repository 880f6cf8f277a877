-- ===== src/Feed/Tests.antt =====
-- A feed over a small world, and each theorem on feed.py at it.
use alzendor.Prelude.{
  ℕ, ◌≡◌, refl, subst, ap, ◌∙◌, true, false, Bool-cases, inl, inr, none, some, List, [], ◌∷◌, arith,
  ltb, str_eq, eq_iff, if◌then◌else◌,
}
use alzendor.Feed.{
  said, kick, change_subs, Logged, Subs, Feed, insert, in_order, take, reads, open_feed,
}
use alzendor.Feed.View.{after, asked, view, Ascends}
use alzendor.Feed.Batch.{Ascends-weaken}
use alzendor.Feed.Reads.{Answers, reads-eq-view}
use alzendor.Feed.Resume.{since_then, events_of, is_in, AreChanges, open_feed_lem}

insert-least : (e : Logged) (es : List Logged) → Ascends e.seq es → insert e es ≡ e ∷ es
insert-least e [] a = refl
insert-least e (d ∷ ds) a =
    let later : ltb d.seq e.seq ≡ false = ground (arith, a.0) in rw later refl

in_order-ascending : (n : ℕ) (es : List Logged) → Ascends n es → in_order es ≡ es
in_order-ascending n [] a = refl
in_order-ascending n (e ∷ es) a =
    ap (insert e) (in_order-ascending e.seq es a.1) ∙ insert-least e es a.1

Ascends-asked : (s : Subs) (n : ℕ) (es : List Logged) → Ascends n es → Ascends n (asked s es)
Ascends-asked s n [] a = tt
Ascends-asked s n (e ∷ es) a = elim (Bool-cases (after (s e.channel) e.seq)) [
  | inl seen ↦ rw seen (a.0, Ascends-asked s e.seq es a.1)
  | inr skipped ↦
      rw skipped
        (Ascends-weaken n e.seq (asked s es) (omega (arith, a.0)) (Ascends-asked s e.seq es a.1))
]

-- Ann walks from the hall to the yard.
abbrev world : List Logged
world =
    record { seq = 3; channel = "hall"; event = said "hello" }
    ∷ record { seq = 4; channel = "ann"; event = change_subs ("yard" ∷ []) ("hall" ∷ []) }
    ∷ record { seq = 5; channel = "hall"; event = said "unheard" }
    ∷ record { seq = 6; channel = "yard"; event = said "birds" }
    ∷ record { seq = 7; channel = "ann"; event = kick "s1" none }
    ∷ record { seq = 8; channel = "yard"; event = said "too late" }
    ∷ []

abbrev world_ascends : Ascends 2 world
world_ascends =
    (omega arith, (omega arith, (omega arith, (omega arith, (omega arith, (omega arith, tt))))))

abbrev redis : Subs → List Logged
redis s = asked s world

Answers-redis : Answers redis world
Answers-redis = record {
  all = λ s. in_order-ascending 2 (asked s world) (Ascends-asked s 2 world world_ascends);
}

abbrev ann_feed : Feed
ann_feed = record {
  session_id = "s1";
  cursor = 2;
  subs = λ c. if str_eq c "hall" then some 1 else if str_eq c "ann" then some 0 else none;
  ended = none;
}

reads-eq-view_example : reads redis 2 ann_feed ≡ view ann_feed world
reads-eq-view_example =
    reads-eq-view redis world 2 ann_feed Answers-redis refl world_ascends (omega arith)

-- She hears what was said where she was.
view-world :
    (view ann_feed world).1
    ≡ record { seq = 3; event = "hello" } ∷ record { seq = 6; event = "birds" } ∷ []
unfolding view take
view-world = refl

abbrev walk : List Logged
walk = record { seq = 4; channel = "ann"; event = change_subs ("yard" ∷ []) ("hall" ∷ []) } ∷ []

AreChanges-walk : AreChanges "ann" ann_feed.subs walk
AreChanges-walk = (
  λ c other. (
    λ added.
        let yard : "yard" ≡ c = (eq_iff "yard" c).0 (ground (arith, added)) in
        subst (λ x. is_in (ann_feed.subs x) ≡ false) yard refl,
    λ removed.
        let hall : "hall" ≡ c = (eq_iff "hall" c).0 (ground (arith, removed)) in
        subst (λ x. is_in (ann_feed.subs x) ≡ true) hall refl,
  ),
  tt,
)

open_feed_lem_example :
    let f = open_feed "ann" "s2" 2 (since_then ann_feed.subs walk) (events_of walk) in
    (str_eq "ann" "hall" ≡ true → f.subs "hall" ≡ some 0)
    × (str_eq "ann" "hall" ≡ false → is_in (f.subs "hall") ≡ is_in (ann_feed.subs "hall"))
    × (f.ended ≡ none)
    × (f.cursor ≡ 2)
open_feed_lem_example = open_feed_lem "ann" "s2" 2 ann_feed.subs walk "hall" AreChanges-walk
