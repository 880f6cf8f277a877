-- ===== src/Feed/View.antt =====
-- What a player should see, and what one batch of it is.
use alzendor.Prelude.{
  ℕ, ◌+◌, ◌<◌, ◌≡◌, refl, sym, subst, ap, ◌∙◌, String, Bool, true, false, Bool-cases, inl, inr,
  Option, none, some, List, [], ◌∷◌, ◌++◌, arith, ltb, str_eq, if◌then◌else◌,
}
use alzendor.Feed.{
  Event, said, kick, change_subs, other_control, Logged, Subs, Feed, Delivered, Taken, has_ended,
  kicked, take_event, take, deliver,
}

-- Whether what is asked of the streams holds an entry: its stream is read from before it.
abbrev pub after : Option ℕ → ℕ → Bool
after none seq = false
after (some joined) seq = ltb joined seq

abbrev pub asked : Subs → List Logged → List Logged
asked s [] = []
asked s (e ∷ es) = let rest = asked s es in if after (s e.channel) e.seq then e ∷ rest else rest

-- What a player should see of the world's events, the next one first: those on the channels that
-- they are in when it comes, and that they joined before it.
unfoldable pub view : Feed → List Logged → Feed × List Delivered
unfolding take
view f [] = (f, [])
view f (e ∷ es) =
    let t = take f e in
    let (g, more) = view t.feed es in
    let skipped = view f es in
    if after (f.subs e.channel) e.seq
    then (if has_ended t.feed.ended then (t.feed, t.out) else (g, t.out ++ more))
    else skipped

-- In order, and all after a sequence number.
abbrev pub Ascends : ℕ → List Logged → Type 0
Ascends n [] = Unit
Ascends n (e ∷ es) = (n < e.seq) × Ascends e.seq es

-- What is left of the events after a batch that the feed read of them.
abbrev pub left : Feed → List Logged → List Logged
left f [] = []
left f (e ∷ es) =
    let t = take f e in
    let rest = left t.feed es in
    let skipped = left f es in
    if after (f.subs e.channel) e.seq then (if t.breaks then es else rest) else skipped

abbrev pub is_change : Event → Bool
is_change (change_subs add remove) = true
is_change _ = false

-- How often the player's channels change.
abbrev pub changes : List Logged → ℕ
changes [] = 0
changes (e ∷ es) = (if is_change e.event then 1 else 0) + changes es

-- A batch of the events.
abbrev pub batch : Feed → List Logged → Feed × List Delivered
batch f es = deliver f (asked f.subs es)

-- What a take does besides: it moves the cursor; where it does not break, the channels stay; and
-- where it ends the feed, it breaks.
pub record Took (f : Feed) (e : Logged) (t : Taken) : Type 0 where
  pub cursor : t.feed.cursor ≡ e.seq
  pub goes_on : t.breaks ≡ false → t.feed.subs ≡ f.subs
  pub same_end : t.breaks ≡ false → t.feed.ended ≡ f.ended
  pub breaks_for : t.breaks ≡ true → has_ended t.feed.ended ≡ false → is_change e.event ≡ true

Took-kicked :
    (mine : Bool) (f : Feed) (e : Logged) (reason : Option String)
    → Took f e (kicked mine (record f { cursor = e.seq }) reason)
Took-kicked true f e reason = record {
  cursor = refl;
  goes_on = λ h. absurd (ground arith);
  same_end = λ h. absurd (ground arith);
  breaks_for = λ h over. absurd (ground arith);
}
Took-kicked false f e reason = record {
  cursor = refl;
  goes_on = λ h. refl;
  same_end = λ h. refl;
  breaks_for = λ h. absurd (ground arith);
}

Took-take_event :
    (f : Feed) (e : Logged) (x : Event)
    → e.event ≡ x
    → Took f e (take_event (record f { cursor = e.seq }) e x)
Took-take_event f e (said text) is = record {
  cursor = refl;
  goes_on = λ h. refl;
  same_end = λ h. refl;
  breaks_for = λ h. absurd (ground arith);
}
Took-take_event f e (kick session reason) is = Took-kicked (str_eq session f.session_id) f e reason
Took-take_event f e (change_subs add remove) is = record {
  cursor = refl;
  goes_on = λ h. absurd (ground arith);
  same_end = λ h. absurd (ground arith);
  breaks_for = λ h over. ap is_change is;
}
Took-take_event f e other_control is = record {
  cursor = refl;
  goes_on = λ h. refl;
  same_end = λ h. refl;
  breaks_for = λ h. absurd (ground arith);
}

pub Took-take : (f : Feed) (e : Logged) → Took f e (take f e)
unfolding take
Took-take f e = Took-take_event f e e.event refl

pub append-nil : {A : Type 0} (xs : List A) → xs ++ [] ≡ xs
append-nil [] = refl
append-nil (x ∷ xs) = ap (λ ys. x ∷ ys) (append-nil xs)

append_assoc : {A : Type 0} (xs ys zs : List A) → (xs ++ ys) ++ zs ≡ xs ++ (ys ++ zs)
append_assoc [] ys zs = refl
append_assoc (x ∷ xs) ys zs = ap (λ us. x ∷ us) (append_assoc xs ys zs)

-- The rest of a view, after a part of it.
abbrev pub carry : List Delivered → Feed × List Delivered → Feed × List Delivered
carry out x = (x.0, out ++ x.1)

-- What is left of a view after a batch: nothing, where the feed has ended.
abbrev pub go_on : Feed × List Delivered → List Logged → Feed × List Delivered
go_on x es = if has_ended x.0.ended then x else carry x.1 (view x.0 es)

carry-go_on :
    (out : List Delivered) (x : Feed × List Delivered) (es : List Logged)
    → carry out (go_on x es) ≡ go_on (carry out x) es
carry-go_on out x es = elim (Bool-cases (has_ended x.0.ended)) [
  | inl over ↦ rw over refl
  | inr on ↦ rw on (ap (λ ds. ((view x.0 es).0, ds)) (sym (append_assoc out x.1 (view x.0 es).1)))
]

pub view-batch :
    (f : Feed) (es : List Logged) → f.ended ≡ none → view f es ≡ go_on (batch f es) (left f es)
unfolding view deliver
view-batch f [] h = rw h refl
view-batch f (e ∷ es) h = elim (Bool-cases (after (f.subs e.channel) e.seq)) [
  | inl seen ↦ elim (Bool-cases (take f e).breaks) [
    | inl breaks ↦ rw (seen, breaks) refl
    | inr on ↦
        let t = take f e in
        let k = Took-take f e in
        let open_still : t.feed.ended ≡ none = k.same_end on ∙ h in
        let still : has_ended t.feed.ended ≡ false = ap has_ended open_still in
        let rest =
          subst (λ s. view t.feed es ≡ go_on (deliver t.feed (asked s es)) (left t.feed es))
            (k.goes_on on) (view-batch t.feed es open_still) in
        let x = deliver t.feed (asked f.subs es) in
        rw (seen, on, still) (ap (carry t.out) rest ∙ carry-go_on t.out x (left t.feed es))
  ]
  | inr skipped ↦ rw skipped (view-batch f es h)
]
