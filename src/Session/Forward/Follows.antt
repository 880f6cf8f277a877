-- ===== src/Session/Forward/Follows.antt =====
-- A session of session.py follows the encounter that its player is in, and no other.
use text.Mathlib.Text.{◌==◌ as str_eq}
use text.Mathlib.TextPositions.{eq_refl}
use alzendor.Prelude.{
  String, Bool, true, false, not, ◌&&◌, ◌≡◌, refl, ap, ◌∙◌, List, [], ◌∷◌, ◌++◌, Bool-cases, inl,
  inr, if◌then◌else◌,
}
use alzendor.Text.{is_empty}
use alzendor.Session.Data.{Session}
use alzendor.Session.Forward.{HostCall, asks, follows, Event, pump_event, pump}

-- The encounters that the host forwards to the session.
abbrev pub Followed : Type 0
Followed = List (String × String)

abbrev pub less : String → String → Followed → Followed
less eid owner [] = []
less eid owner ((e, o) ∷ rest) =
    let others = less eid owner rest in
    if str_eq eid e && str_eq owner o then rest else (e, o) ∷ others

-- What the host's `follow` and `unfollow` do to them.
abbrev pub hosted : Followed → List HostCall → Followed
hosted f [] = f
hosted f (HostCall.follow eid owner ∷ cs) = hosted (f ++ ((eid, owner) ∷ [])) cs
hosted f (HostCall.unfollow eid owner ∷ cs) = hosted (less eid owner f) cs

-- The one encounter that the session has, if it has one.
abbrev pub current : Session → Followed
current s = if is_empty s.encounter then [] else (s.encounter, s.owner) ∷ []

hosted-append :
    (f : Followed) (cs ds : List HostCall) → hosted f (cs ++ ds) ≡ hosted (hosted f cs) ds
hosted-append f [] ds = refl
hosted-append f (HostCall.follow eid owner ∷ cs) ds = hosted-append (f ++ ((eid, owner) ∷ [])) cs ds
hosted-append f (HostCall.unfollow eid owner ∷ cs) ds = hosted-append (less eid owner f) cs ds

hosted-leaves :
    (s : Session)
    → hosted (current s) (asks (not (is_empty s.encounter)) (HostCall.unfollow s.encounter s.owner))
      ≡ []
hosted-leaves s = elim (Bool-cases (is_empty s.encounter)) [
  | inl e ↦ rw e refl
  | inr e ↦ rw e (rw (eq_refl s.encounter) (rw (eq_refl s.owner) refl))
]

hosted-enters :
    (s : Session) (eid owner : String)
    → hosted [] (asks (not (is_empty eid)) (HostCall.follow eid owner))
      ≡ current (record s { encounter = eid; owner = owner })
hosted-enters s eid owner = elim (Bool-cases (is_empty eid)) [
  | inl e ↦ rw e refl
  | inr e ↦ rw e refl
]

follows-hosted :
    (s : Session) (eid owner : String)
    → hosted (current s) (follows s eid owner).1 ≡ current (follows s eid owner).0
unfolding follows
follows-hosted s eid owner = elim (Bool-cases (str_eq eid s.encounter)) [
  | inl e ↦ rw e refl
  | inr e ↦ rw e (
      hosted-append (current s)
        (asks (not (is_empty s.encounter)) (HostCall.unfollow s.encounter s.owner)) _
      ∙ ap (λ f. hosted f (asks (not (is_empty eid)) (HostCall.follow eid owner))) (hosted-leaves s)
      ∙ hosted-enters s eid owner)
]

-- What a step asks of the host keeps it followed by the session's encounter.
record IsTracked (s : Session) (r : Session × List HostCall) : Type 0 where
  tracked : hosted (current s) r.1 ≡ current r.0

IsTracked-if :
    (s : Session) (b : Bool) (x y : Session × List HostCall)
    → IsTracked s x
    → IsTracked s y
    → IsTracked s (if b then x else y)
IsTracked-if s true x y h k = h
IsTracked-if s false x y h k = k

follows-IsTracked : (s : Session) (eid owner : String) → IsTracked s (follows s eid owner)
follows-IsTracked s eid owner = record { tracked = follows-hosted s eid owner }

nothing-IsTracked : (s : Session) → IsTracked s (s, [])
nothing-IsTracked s = record { tracked = refl }

pump_event-IsTracked : (pid : String) (s : Session) (e : Event) → IsTracked s (pump_event pid s e)
unfolding pump_event
pump_event-IsTracked pid s e = search (IsTracked-if, follows-IsTracked, nothing-IsTracked)

pump_event-hosted :
    (pid : String) (s : Session) (e : Event)
    → hosted (current s) (pump_event pid s e).1 ≡ current (pump_event pid s e).0
pump_event-hosted pid s e = (pump_event-IsTracked pid s e).tracked

-- Whatever events a player's feed brings, what the session asks of the host keeps it followed by
-- just one encounter, the one that the session has, or by none when it has none: none is left
-- followed, and none is followed twice.
pub pump-hosted :
    (pid : String) (s : Session) (es : List Event)
    → hosted (current s) (pump pid s es).1 ≡ current (pump pid s es).0
unfolding pump
pump-hosted pid s [] = refl
pump-hosted pid s (e ∷ es) =
    hosted-append (current s) (pump_event pid s e).1 _
    ∙ ap (λ f. hosted f (pump pid (pump_event pid s e).0 es).1) (pump_event-hosted pid s e)
    ∙ pump-hosted pid (pump_event pid s e).0 es
