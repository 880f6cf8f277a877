-- ===== src/Session/Handle/Limit.antt =====
-- What any messages of a player come to, by `_handle` of session.py, and how often commands run.
use alzendor.Prelude.{
  ℕ, ◌+◌, ◌-◌, ◌*◌, ◌≤◌, ◌≡◌, refl, String, Bool, true, false, not, Option, none, some, List, [],
  ◌∷◌, leb, Bool-cases, inl, inr, arith, if◌then◌else◌,
}
use alzendor.Text.{Unicode, is_empty}
use alzendor.Commands.Data.{Context, Around, Effect}
use alzendor.Commands.Parse.{target_id}
use alzendor.Commands.Parse.Tidy.{HasBlank}
use alzendor.Commands.Dispatch.{dispatch}
use alzendor.Session.Data.{Message, Session}
use alzendor.Session.Rate.{take_allowance, take_input}
use alzendor.Session.Rate.Bounds.{Until, Until-le, take_allowance_lem}
use alzendor.Session.Handle.{
  Reply, Sent, text_in, ping, input_of, answered, command, command_text, cmd_text, handle, handles,
}
use alzendor.Session.Handle.Safe.{IsSafe, handle-Safe}

-- A command that ran.
abbrev pub cost : Reply → ℕ
cost (Reply.effects es) = 1000
cost (Reply.error why) = 0
cost Reply.nothing = 0
cost (Reply.pong t) = 0
cost (Reply.input e o fields) = 0

-- What commands that ran have cost, in thousandths.
abbrev pub costs : List Reply → ℕ
costs [] = 0
costs (r ∷ rs) = cost r + costs rs

abbrev pub AllSafe : Bool → List Reply → Type 0
AllSafe admin [] = Unit
AllSafe admin (r ∷ rs) = IsSafe admin r × AllSafe admin rs

abbrev pub times_of : List Sent → List ℕ
times_of [] = []
times_of (m ∷ ms) = m.now ∷ times_of ms

Until-earlier : (a from last : ℕ) (ts : List ℕ) → a ≤ from → Until from last ts → Until a last ts
Until-earlier a from last [] h u = omega (arith, h, u)
Until-earlier a from last (t ∷ ts) h u = (omega (arith, h, u.0), u.1)

-- What a message leaves of the allowance, with what its command cost, is no more than there was and
-- what has come in since.
record Spends (s : Session) (now : ℕ) (r : Session × Reply) : Type 0 where
  onward : s.last_command ≤ r.0.last_command
  until : r.0.last_command ≤ now
  spent : r.0.allowance + cost r.1 ≤ s.allowance + 4 * (r.0.last_command - s.last_command)

answered-cost : (o : Option (List Effect)) → cost (answered o) ≤ 1000
answered-cost none = omega arith
answered-cost (some es) = omega arith

module _ (s : Session) (now : ℕ) (from : s.last_command ≤ now) where
  Spends-if :
      (b : Bool) (x y : Session × Reply)
      → Spends s now x
      → Spends s now y
      → Spends s now (if b then x else y)
  Spends-if true x y h k = h
  Spends-if false x y h k = k

  -- No command: the allowance and its clock stay.
  free :
      (s' : Session) (r : Reply)
      → s'.last_command ≡ s.last_command
      → s'.allowance ≡ s.allowance
      → cost r ≡ 0
      → Spends s now (s', r)
  free s' r e a c = record {
    onward = omega (arith, e);
    until = omega (arith, e, from);
    spent = omega (arith, e, a, c);
  }

  ping-Spends : (m : Message) → Spends s now (ping s now m)
  ping-Spends m =
      Spends-if (leb 200 (now - s.last_ping)) _ _ (free _ _ refl refl refl)
        (free _ _ refl refl refl)

  input_of-Spends : (pid : String) (m : Message) → Spends s now (input_of pid s now m)
  unfolding input_of
  input_of-Spends pid m =
      Spends-if (not (take_input (not (is_empty s.encounter)) s.inputs now).1) _ _
        (free _ _ refl refl refl) (free _ _ refl refl refl)

module _ (u : Unicode) (ctx : Context) (w : Around) (s : Session) (now : ℕ)
    (from : s.last_command ≤ now) where
  command-Spends : (m : Message) (text : String) → Spends s now (command u ctx w s now m text)
  unfolding command
  command-Spends m text =
      let (s', ok) = take_allowance (record s { last_active = now }) now in
      let (at_now, full, kept) = take_allowance_lem (record s { last_active = now }) now from in
      elim (Bool-cases ok) [
        | inl e ↦
            let kept' : s'.allowance + 1000 ≤ s.allowance + 4 * (now - s.last_command) =
              (rw e at kept) in
            let reply =
              dispatch (record ctx { target = target_id (text_in (m "target")) }) w u text in
            rw e (record {
              onward = omega (arith, at_now, from);
              until = omega (arith, at_now);
              spent = omega (arith, at_now, kept', answered-cost reply);
            })
        | inr e ↦
            let kept' : s'.allowance + 0 ≤ s.allowance + 4 * (now - s.last_command) =
              (rw e at kept) in
            rw e (record {
              onward = omega (arith, at_now, from);
              until = omega (arith, at_now);
              spent = omega (arith, at_now, kept');
            })
      ]

  command_text-Spends :
      (m : Message) (o : Option String) → Spends s now (command_text u ctx w s now m o)
  command_text-Spends m none = free s now from s _ refl refl refl
  command_text-Spends m (some text) = command-Spends m text

  handle-Spends : (m : Message) → Spends s now (handle u ctx w s now m)
  unfolding handle
  handle-Spends m = Spends-if s now from _ _ _ (ping-Spends s now from m) (
      Spends-if s now from _ _ _ (input_of-Spends s now from ctx.pid m)
        (command_text-Spends m (cmd_text m)))

module _ (u : Unicode) (ctx : Context) where
  handles-costs :
      (s : Session) (last : ℕ) (ms : List Sent)
      → Until s.last_command last (times_of ms)
      → costs (handles u ctx s ms) ≤ s.allowance + 4 * (last - s.last_command)
  unfolding handles
  handles-costs s last [] h = omega arith
  handles-costs s last (m ∷ ms) h =
      let r = handle u ctx m.around s m.now m.message in
      let one = handle-Spends u ctx m.around s m.now h.0 m.message in
      let later : Until r.0.last_command last (times_of ms) =
        Until-earlier r.0.last_command m.now last (times_of ms) one.until h.1 in
      let rest : costs (handles u ctx r.0 ms) ≤ r.0.allowance + 4 * (last - r.0.last_command) =
        handles-costs r.0 last ms later in
      omega (arith, one.onward, one.spent, rest, Until-le r.0.last_command last (times_of ms) later)

  handles-AllSafe :
      (s : Session) (ms : List Sent) → HasBlank u → AllSafe ctx.is_admin (handles u ctx s ms)
  unfolding handles
  handles-AllSafe s [] b = tt
  handles-AllSafe s (m ∷ ms) b =
      let r = handle u ctx m.around s m.now m.message in
      ((handle-Safe u ctx m.around b s m.now m.message).safe, handles-AllSafe r.0 ms b)

  -- Where the blank is a space and prints, whatever messages a player sends, pings, inputs, commands
  -- and others in any order, at times that do not go back and end by the last: no more commands
  -- run than the allowance at the start and four a second since the last message have room for;
  -- none of them has an effect of an admin's unless the player is one; and no message is answered
  -- that something went wrong with its command.
  pub handles_limit :
      (s : Session) (last : ℕ) (ms : List Sent)
      → HasBlank u
      → Until s.last_command last (times_of ms)
      → (costs (handles u ctx s ms) ≤ s.allowance + 4 * (last - s.last_command))
        × AllSafe ctx.is_admin (handles u ctx s ms)
  handles_limit s last ms b h = (handles-costs s last ms h, handles-AllSafe s ms b)
