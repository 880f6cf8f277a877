-- ===== src/Session/Forward/Newest.antt =====
-- The newest state of a fight is never lost on its way to a client of session.py.
use alzendor.Prelude.{
  String, Bool, not, ◌&&◌, ◌≡◌, ◌≢◌, ◌⊎◌, refl, sym, ap, ◌∙◌, Option, none, some, List, [], ◌∷◌,
  ◌++◌, Bool-cases, inl, inr, arith, if◌then◌else◌,
}
use alzendor.Session.Forward.{
  Sender, Outbox, Move, is_player, awake, is_refusal, is_state, forward, send_step, run,
}

-- The last of some texts, or one before them.
abbrev pub last_or : Option String → List String → Option String
last_or o [] = o
last_or o (t ∷ ts) = last_or (some t) ts

last_or-append :
    (o : Option String) (ts : List String) (t : String) → last_or o (ts ++ (t ∷ [])) ≡ some t
last_or-append o [] t = refl
last_or-append o (x ∷ xs) t = last_or-append (some x) xs t

-- The newest state that waits, is on its way or was sent, in this order.
abbrev on_way : Sender → Option String → Option String
on_way Sender.done sent = sent
on_way Sender.looks sent = sent
on_way (Sender.sends text) sent = some text

abbrev waits_or : Option String → Option String → Option String
waits_or none o = o
waits_or (some text) o = some text

abbrev pub newest : Outbox → Option String
newest o = waits_or o.next_state (on_way o.sender (last_or none o.sent))

-- A task that is done has left no state waiting.
abbrev pub IsServed : Outbox → Type 0
IsServed o = (o.sender ≡ Sender.done) → (o.next_state ≡ none)

done_or : (k : Sender) → (k ≡ Sender.done) ⊎ (k ≢ Sender.done)
done_or Sender.done = inl refl
done_or Sender.looks = inr (λ e. cc)
done_or (Sender.sends text) = inr (λ e. cc)

awake-ne : (k : Sender) → awake k ≢ Sender.done
awake-ne Sender.done e = cc
awake-ne Sender.looks e = cc
awake-ne (Sender.sends text) e = cc

module _ (pid_in : String → Option String) (pid : String) where
  -- The last state that came for the player.
  abbrev is_for : String → Bool
  is_for text = not (is_refusal text && not (is_player pid (pid_in text))) && is_state text

  abbrev pub last_state : Option String → List Move → Option String
  last_state o [] = o
  last_state o (Move.goes ∷ ms) = last_state o ms
  last_state o (Move.comes text ∷ ms) = last_state (if is_for text then some text else o) ms

  forward-newest :
      (o : Outbox) (text : String)
      → newest (forward pid_in pid o text) ≡ (if is_for text then some text else newest o)
  unfolding forward
  forward-newest o text = ground arith

  forward-IsServed :
      (o : Outbox) (text : String) → IsServed o → IsServed (forward pid_in pid o text)
  unfolding forward
  forward-IsServed o text s =
      elim (Bool-cases (is_refusal text && not (is_player pid (pid_in text)))) [
        | inl e ↦ rw e s
        | inr e ↦ elim (Bool-cases (is_state text)) [
          | inl f ↦ rw (e, f) (λ d. absurd (awake-ne o.sender d))
          | inr f ↦ rw (e, f) s
        ]
      ]

-- The same for the task's step, by what it is at and what waits.
send_step-newest_at :
    (n : Option String) (k : Sender) (sent others : List String)
    → let o : Outbox = record { next_state = n; sender = k; sent = sent; others = others } in
      newest (send_step o) ≡ newest o
unfolding send_step
send_step-newest_at n Sender.done sent others = refl
send_step-newest_at none Sender.looks sent others = refl
send_step-newest_at (some t) Sender.looks sent others = refl
send_step-newest_at none (Sender.sends text) sent others = last_or-append none sent text
send_step-newest_at (some t) (Sender.sends text) sent others = refl

send_step-newest : (o : Outbox) → newest (send_step o) ≡ newest o
send_step-newest o = send_step-newest_at o.next_state o.sender o.sent o.others

send_step-IsServed_at :
    (n : Option String) (k : Sender) (sent others : List String)
    → let o : Outbox = record { next_state = n; sender = k; sent = sent; others = others } in
      IsServed o → IsServed (send_step o)
unfolding send_step
send_step-IsServed_at n Sender.done sent others s = s
send_step-IsServed_at none Sender.looks sent others s = λ d. refl
send_step-IsServed_at (some t) Sender.looks sent others s = λ d. refl
send_step-IsServed_at n (Sender.sends text) sent others s = λ d. absurd (cc (d))

send_step-IsServed : (o : Outbox) → IsServed o → IsServed (send_step o)
send_step-IsServed o s = send_step-IsServed_at o.next_state o.sender o.sent o.others s

module _ (pid_in : String → Option String) (pid : String) where
  run-newest :
      (o : Outbox) (ms : List Move)
      → newest (run pid_in pid o ms) ≡ last_state pid_in pid (newest o) ms
  unfolding run
  run-newest o [] = refl
  run-newest o (Move.goes ∷ ms) =
      run-newest (send_step o) ms ∙ ap (λ n. last_state pid_in pid n ms) (send_step-newest o)
  run-newest o (Move.comes text ∷ ms) =
      run-newest (forward pid_in pid o text) ms
      ∙ ap (λ n. last_state pid_in pid n ms) (forward-newest pid_in pid o text)

  run-IsServed : (o : Outbox) (ms : List Move) → IsServed o → IsServed (run pid_in pid o ms)
  unfolding run
  run-IsServed o [] s = s
  run-IsServed o (Move.goes ∷ ms) s = run-IsServed (send_step o) ms (send_step-IsServed o s)
  run-IsServed o (Move.comes text ∷ ms) s =
      run-IsServed (forward pid_in pid o text) ms (forward-IsServed pid_in pid o text s)

  abbrev pub idle : Outbox
  idle = record { next_state = none; sender = Sender.done; sent = []; others = [] }

  done_sent : (o : Outbox) → IsServed o → o.sender ≡ Sender.done → newest o ≡ last_or none o.sent
  done_sent o s d = rw (s d) (rw d refl)

  -- Whatever an encounter's owner sends, and however the task of a session that sends its states
  -- gets its turns, the last state that came for the player is the newest of those that wait, are on
  -- their way or were sent; and once the task is done, it is the last that was sent.
  pub newest_sent :
      (ms : List Move)
      → let o = run pid_in pid idle ms in
        (newest o ≡ last_state pid_in pid none ms)
        × ((o.sender ≢ Sender.done) ⊎ (last_or none o.sent ≡ last_state pid_in pid none ms))
  newest_sent ms = (
    run-newest idle ms,
    elim (done_or (run pid_in pid idle ms).sender) [
      | inl d ↦ inr (
          sym (done_sent (run pid_in pid idle ms) (run-IsServed idle ms (λ d'. refl)) d)
          ∙ run-newest idle ms)
      | inr n ↦ inl n
    ],
  )
