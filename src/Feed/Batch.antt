-- ===== src/Feed/Batch.antt =====
-- Where a batch stops, and what the next read asks for.
use alzendor.Prelude.{
  ℕ, ◌≤◌, ◌<◌, ◌≡◌, ◌⊎◌, refl, sym, subst, ap, ◌∙◌, true, false, Bool-cases, inl, inr, Option, none,
  some, List, [], ◌∷◌, arith,
}
use alzendor.Feed.{Logged, Subs, Feed, has_ended, take, deliver, from_cursor, streams}
use alzendor.Feed.View.{after, asked, changes, Ascends, left, batch, Took-take}

after-from_cursor :
    (cursor seq : ℕ) (joined : Option ℕ)
    → cursor < seq
    → after (from_cursor cursor joined) seq ≡ after joined seq
after-from_cursor cursor seq none h = refl
after-from_cursor cursor seq (some joined) h = ground arith

-- What the feed asks of the streams, where all is after its cursor: its channels.
pub asked-streams :
    (f : Feed) (n : ℕ) (es : List Logged)
    → f.cursor ≤ n
    → Ascends n es
    → asked (streams f) es ≡ asked f.subs es
asked-streams f n [] h a = refl
asked-streams f n (e ∷ es) h a =
    let same : after (streams f e.channel) e.seq ≡ after (f.subs e.channel) e.seq =
      after-from_cursor f.cursor e.seq (f.subs e.channel) (omega (arith, h, a.0)) in
    let rest = asked-streams f e.seq es (omega (arith, h, a.0)) a.1 in rw (same, rest) refl

pub Ascends-weaken : (n m : ℕ) (es : List Logged) → n ≤ m → Ascends m es → Ascends n es
Ascends-weaken n m [] h a = tt
Ascends-weaken n m (e ∷ es) h a = (omega (arith, h, a.0), a.1)

-- A batch moves the cursor on, within the events.
pub cursor-batch :
    (f : Feed) (s : Subs) (es : List Logged)
    → Ascends f.cursor es
    → f.cursor ≤ (deliver f (asked s es)).0.cursor
unfolding deliver
cursor-batch f s [] a = omega arith
cursor-batch f s (e ∷ es) a = elim (Bool-cases (after (s e.channel) e.seq)) [
  | inl seen ↦
      let t = take f e in
      let at : t.feed.cursor ≡ e.seq = (Took-take f e).cursor in
      let later = cursor-batch t.feed s es (rw at a.1) in
      elim (Bool-cases t.breaks) [
        | inl breaks ↦ rw (seen, breaks) (omega (arith, at, a.0))
        | inr on ↦ rw (seen, on) (omega (arith, at, a.0, later))
      ]
  | inr skipped ↦
      rw skipped (cursor-batch f s es (Ascends-weaken f.cursor e.seq es (omega (arith, a.0)) a.1))
]

passed_by_cursor :
    (cursor seq : ℕ) (joined : Option ℕ)
    → seq ≤ cursor
    → after (from_cursor cursor joined) seq ≡ false
passed_by_cursor cursor seq none h = refl
passed_by_cursor cursor seq (some joined) h = ground arith

passed_by_joining :
    (cursor seq : ℕ) (joined : Option ℕ)
    → after joined seq ≡ false
    → after (from_cursor cursor joined) seq ≡ false
passed_by_joining cursor seq none h = refl
passed_by_joining cursor seq (some joined) h = ground arith

-- An entry that a feed does not ask for.
asked-passed :
    (g : Feed) (e : Logged) (es : List Logged)
    → after (streams g e.channel) e.seq ≡ false
    → asked (streams g) (e ∷ es) ≡ asked (streams g) es
asked-passed g e es h = rw h refl

-- A batch that went through all of the events.
pub record Through (f : Feed) (es : List Logged) (g : Feed) : Type 0 where
  pub none_left : left f es ≡ []
  pub same_subs : g.subs ≡ f.subs
  pub none_asked : asked (streams g) es ≡ []

-- A batch that broke off: what it read is behind the cursor, and the rest is before it.
pub record Broke (f : Feed) (es : List Logged) (g : Feed) : Type 0 where
  pub behind : (n : ℕ) → Ascends n es → n < g.cursor
  pub ahead : Ascends g.cursor (left f es)
  pub asked_on :
      (h : Feed) → g.cursor ≤ h.cursor → asked (streams h) es ≡ asked (streams h) (left f es)
  pub fewer : has_ended g.ended ≡ false → changes (left f es) < changes es

left-skipped :
    (f : Feed) (e : Logged) (es : List Logged)
    → after (f.subs e.channel) e.seq ≡ false
    → left f (e ∷ es) ≡ left f es
left-skipped f e es h = rw h refl

left-broken :
    (f : Feed) (e : Logged) (es : List Logged)
    → after (f.subs e.channel) e.seq ≡ true
    → (take f e).breaks ≡ true
    → left f (e ∷ es) ≡ es
left-broken f e es h b = rw (h, b) refl

left-on :
    (f : Feed) (e : Logged) (es : List Logged)
    → after (f.subs e.channel) e.seq ≡ true
    → (take f e).breaks ≡ false
    → left f (e ∷ es) ≡ left (take f e).feed es
left-on f e es h b = rw (h, b) refl

-- From the events after the next one, which the feed skips or takes, to all of them.
Through-cons :
    (f t g : Feed) (e : Logged) (es : List Logged)
    → left f (e ∷ es) ≡ left t es
    → t.subs ≡ f.subs
    → (g.subs ≡ f.subs → after (streams g e.channel) e.seq ≡ false)
    → Through t es g
    → Through f (e ∷ es) g
Through-cons f t g e es same subs passed k = record {
  none_left = same ∙ k.none_left;
  same_subs = k.same_subs ∙ subs;
  none_asked = asked-passed g e es (passed (k.same_subs ∙ subs)) ∙ k.none_asked;
}

Broke-cons :
    (f t g : Feed) (e : Logged) (es : List Logged)
    → left f (e ∷ es) ≡ left t es
    → Ascends e.seq es
    → Broke t es g
    → Broke f (e ∷ es) g
Broke-cons f t g e es same a k = record {
  behind = λ n b. k.behind n (Ascends-weaken n e.seq es (omega (arith, b.0)) b.1);
  ahead = subst (λ xs. Ascends g.cursor xs) (sym same) k.ahead;
  asked_on = λ h later.
      let past : e.seq < g.cursor = k.behind e.seq a in
      asked-passed h e es
        (passed_by_cursor h.cursor e.seq (h.subs e.channel) (omega (arith, past, later)))
      ∙ k.asked_on h later
      ∙ ap (asked (streams h)) (sym same);
  fewer = λ on. let rest = k.fewer on in let c = ap changes same in omega (arith, rest, c);
}

Broke-now :
    (f : Feed) (e : Logged) (es : List Logged)
    → after (f.subs e.channel) e.seq ≡ true
    → (take f e).breaks ≡ true
    → Ascends e.seq es
    → Broke f (e ∷ es) (take f e).feed
Broke-now f e es seen breaks a =
    let t = take f e in
    let k = Took-take f e in
    let same = left-broken f e es seen breaks in
    record {
      behind = λ n b. omega (arith, b.0, k.cursor);
      ahead = rw (same, k.cursor) a;
      asked_on = λ h later.
          asked-passed h e es
            (passed_by_cursor h.cursor e.seq (h.subs e.channel) (omega (arith, later, k.cursor)))
          ∙ ap (asked (streams h)) (sym same);
      fewer = λ on.
          let change = k.breaks_for breaks on in
          let c = ap changes same in ground (arith, change, c);
    }

pub Through-batch-or-Broke :
    (f : Feed) (es : List Logged)
    → Ascends f.cursor es
    → Through f es (batch f es).0 ⊎ Broke f es (batch f es).0
unfolding deliver
Through-batch-or-Broke f [] a =
    inl (record { none_left = refl; same_subs = refl; none_asked = refl })
Through-batch-or-Broke f (e ∷ es) a = elim (Bool-cases (after (f.subs e.channel) e.seq)) [
  | inr skipped ↦
      let g = (batch f es).0 in
      let same = left-skipped f e es skipped in
      let passed : g.subs ≡ f.subs → after (streams g e.channel) e.seq ≡ false = λ s.
        passed_by_joining g.cursor e.seq (g.subs e.channel)
          (ap (λ (s : Subs). after (s e.channel) e.seq) s ∙ skipped) in
      rw skipped
        (elim (Through-batch-or-Broke f es
          (Ascends-weaken f.cursor e.seq es (omega (arith, a.0)) a.1)) [
            | inl k ↦ inl (Through-cons f f g e es same refl passed k)
            | inr k ↦ inr (Broke-cons f f g e es same a.1 k)
          ])
  | inl seen ↦ elim (Bool-cases (take f e).breaks) [
    | inl breaks ↦ rw (seen, breaks) (inr (Broke-now f e es seen breaks a.1))
    | inr on ↦
        let t = take f e in
        let took = Took-take f e in
        let subs = took.goes_on on in
        let g = (deliver t.feed (asked f.subs es)).0 in
        let same = left-on f e es seen on in
        let a' : Ascends t.feed.cursor es = rw took.cursor a.1 in
        let past = cursor-batch t.feed f.subs es a' in
        let passed : after (streams g e.channel) e.seq ≡ false =
          passed_by_cursor g.cursor e.seq (g.subs e.channel) (omega (arith, past, took.cursor)) in
        let rest =
          subst
            (λ s.
              Through t.feed es (deliver t.feed (asked s es)).0
              ⊎ Broke t.feed es (deliver t.feed (asked s es)).0)
            subs (Through-batch-or-Broke t.feed es a') in
        rw (seen, on)
          (elim rest [
            | inl k ↦ inl (Through-cons f t.feed g e es same subs (λ s. passed) k)
            | inr k ↦ inr (Broke-cons f t.feed g e es same a.1 k)
          ])
  ]
]
