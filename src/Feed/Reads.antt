-- ===== src/Feed/Reads.antt =====
-- Reads deliver what the player should see, in order.
use alzendor.Prelude.{
  ℕ, zero, suc, ◌≤◌, ◌<◌, ◌≡◌, refl, sym, ap, ◌∙◌, String, true, false, Bool-cases, inl, inr,
  Option, none, some, List, [], arith,
}
use alzendor.Feed.{
  Logged, Subs, Feed, Delivered, has_ended, deliver, in_order, streams, read, reads,
}
use alzendor.Feed.View.{
  asked, view, changes, Ascends, left, batch, view-batch, append-nil, carry, go_on,
}
use alzendor.Feed.Batch.{asked-streams, cursor-batch, Through-batch-or-Broke}

-- XREAD answers with the entries of each stream after the number that is asked, each once.
pub record Answers (xread : Subs → List Logged) (log : List Logged) : Type 0 where
  pub all : (s : Subs) → in_order (xread s) ≡ asked s log

still_open : (ended : Option String) → has_ended ended ≡ false → ended ≡ none
still_open none h = refl
still_open (some reason) h = absurd (ground arith)

module _ (xread : Subs → List Logged) (log : List Logged) (answers : Answers xread log) where
  -- A feed that has ended reads no more, and one with nothing to read gets nothing.
  reads-ended : (k : ℕ) (g : Feed) → has_ended g.ended ≡ true → reads xread k g ≡ (g, [])
  unfolding reads
  reads-ended zero g h = refl
  reads-ended (suc k) g h = rw h refl

  reads-idle : (k : ℕ) (g : Feed) → asked (streams g) log ≡ [] → reads xread k g ≡ (g, [])
  unfolding reads deliver
  reads-idle zero g h = refl
  reads-idle (suc k) g h =
      let none_read : in_order (xread (streams g)) ≡ [] = answers.all (streams g) ∙ h in
      elim (Bool-cases (has_ended g.ended)) [
        | inl over ↦ rw over refl
        | inr on ↦ rw (on, none_read, reads-idle k g h) refl
      ]

  -- The reads after a batch.
  reads-go_on :
      (k : ℕ) (x : Feed × List Delivered) (es : List Logged)
      → (has_ended x.0.ended ≡ false → reads xread k x.0 ≡ view x.0 es)
      → carry x.1 (reads xread k x.0) ≡ go_on x es
  reads-go_on k x es h = elim (Bool-cases (has_ended x.0.ended)) [
    | inl over ↦
        rw over (ap (carry x.1) (reads-ended k x.0 over) ∙ ap (λ ds. (x.0, ds)) (append-nil x.1))
    | inr on ↦ rw on (ap (carry x.1) (h on))
  ]

  reads-from :
      (k : ℕ) (f : Feed) (es : List Logged)
      → f.ended ≡ none
      → Ascends f.cursor es
      → ((h : Feed) → f.cursor ≤ h.cursor → asked (streams h) log ≡ asked (streams h) es)
      → changes es < k
      → reads xread k f ≡ view f es
  unfolding reads view
  reads-from zero f es h a sees enough = absurd (omega arith)
  reads-from (suc k) f es h a sees enough =
      let x = batch f es in
      let past : f.cursor ≤ x.0.cursor = cursor-batch f f.subs es a in
      let first : read xread f ≡ x = ap (deliver f) (
        answers.all (streams f)
        ∙ sees f (omega arith)
        ∙ asked-streams f f.cursor es (omega arith) a) in
      let later : has_ended x.0.ended ≡ false → reads xread k x.0 ≡ view x.0 (left f es) = λ on.
        elim (Through-batch-or-Broke f es a) [
          | inl t ↦
              reads-idle k x.0 (sees x.0 past ∙ t.none_asked) ∙ ap (view x.0) (sym t.none_left)
          | inr b ↦
              reads-from k x.0 (left f es) (still_open x.0.ended on) b.ahead
                (λ g since. sees g (omega (arith, past, since)) ∙ b.asked_on g since)
                (let fewer = b.fewer on in omega (arith, fewer, enough))
        ] in
      let on : has_ended f.ended ≡ false = ap has_ended h in
      rw on (
        ap (λ y. carry y.1 (reads xread k y.0)) first
        ∙ reads-go_on k x (left f es) later
        ∙ sym (view-batch f es h))

-- For a feed that has not ended, the world's events after its cursor in their order, and Redis
-- answering with what each stream holds: more reads than the player's channels change among the
-- events deliver exactly the view of them, in order, and leave the feed as the view does. So none
-- is delivered from a channel that the player has left by then, or before they joined it, and none
-- is missed, however many the reads are.
pub reads-eq-view :
    (xread : Subs → List Logged) (log : List Logged) (k : ℕ) (f : Feed)
    → Answers xread log
    → f.ended ≡ none
    → Ascends f.cursor log
    → changes log < k
    → reads xread k f ≡ view f log
reads-eq-view xread log k f answers h a enough =
    reads-from xread log answers k f log h a (λ g later. refl) enough
