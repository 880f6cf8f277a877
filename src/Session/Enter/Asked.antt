-- ===== src/Session/Enter/Asked.antt =====
-- How often a connection of session.py that has not authenticated may ask Auth.
use alzendor.Prelude.{
  ℕ, suc, ◌+◌, ◌-◌, ◌*◌, ◌≤◌, String, Bool, true, false, ◌||◌, List, [], ◌∷◌, Bool-cases, inl, inr,
  arith, if◌then◌else◌,
}
use alzendor.Session.Data.{Session}
use alzendor.Session.Rate.{take_allowance, passes}
use alzendor.Session.Rate.Bounds.{Until, passes_bounded}
use alzendor.Session.Enter.{
  Answer, Arrival, Authenticated, says, is_kind, since_of, told, kind_step, authenticate,
}

abbrev pub times_of : List Arrival → List ℕ
times_of [] = []
times_of (a ∷ as') = a.now ∷ times_of as'

told-asked :
    (s : Session) (since : ℕ) (why : String) (rest : Authenticated) (a : Answer)
    → (told s since why rest a).asked ≤ suc rest.asked
told-asked s since why rest (Answer.player pid) = omega arith
told-asked s since why rest (Answer.error e) = omega arith

asked-if :
    (n : ℕ) (b : Bool) (x y : Authenticated)
    → x.asked ≤ n
    → y.asked ≤ n
    → (if b then x else y).asked ≤ n
asked-if n true x y h k = h
asked-if n false x y h k = k

kind_step-asked :
    (s : Session) (a : Arrival) (rest : Authenticated) → (kind_step s a rest).asked ≤ suc rest.asked
kind_step-asked s a rest =
    asked-if (suc rest.asked)
      (is_kind "register" (a.message "type") || is_kind "login" (a.message "type"))
      (told s 0 "" rest a.answer)
      (if is_kind "resume" (a.message "type")
        then told s (since_of (a.message "since")) "Your session has expired. Please log in again."
            rest a.answer
        else says "Log in or register first." rest)
      (told-asked s 0 "" rest a.answer)
      (asked-if (suc rest.asked) (is_kind "resume" (a.message "type"))
        (told s (since_of (a.message "since")) "Your session has expired. Please log in again." rest
          a.answer)
        (says "Log in or register first." rest)
        (told-asked s (since_of (a.message "since"))
          "Your session has expired. Please log in again." rest a.answer)
        (omega arith))

asked-le-passes :
    (s : Session) (as' : List Arrival) → (authenticate s as').asked ≤ passes s (times_of as')
unfolding authenticate passes
asked-le-passes s [] = omega arith
asked-le-passes s (a ∷ as') =
    let (s', ok) = take_allowance s a.now in
    elim (Bool-cases ok) [
      | inl e ↦
          rw e (omega (arith, kind_step-asked s' a (authenticate s' as'), asked-le-passes s' as'))
      | inr e ↦ rw e (asked-le-passes s' as')
    ]

-- However fast a client that has not authenticated sends its messages, Auth is asked (and a password
-- hashed) no more often than the allowance at the start and four a second have room for.
pub asked_bounded :
    (s : Session) (last : ℕ) (as' : List Arrival)
    → Until s.last_command last (times_of as')
    → 1000 * (authenticate s as').asked ≤ s.allowance + 4 * (last - s.last_command)
asked_bounded s last as' h =
    omega (arith, asked-le-passes s as', passes_bounded s last (times_of as') h)
