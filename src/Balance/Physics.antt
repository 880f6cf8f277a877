-- ===== src/Balance/Physics.antt =====
-- The dot's own motion: `_physics` of balance.py, part by part.
pub mod Frame
pub mod Quiet
pub mod Immune
use Prim.Native.Nat.{bit_and}
use alzendor.Prelude.{
  ℕ, Bool, true, false, not, ◌&&◌, ◌||◌, Option, none, some, List, [], ◌∷◌, ◌++◌, ◌==◌,
  if◌then◌else◌,
}
use alzendor.Prelude.Int.{is_positive, is_zero}
use alzendor.Real.{Real, ◌+F◌, ◌-F◌, ◌*F◌, ◌/F◌, ◌≤F◌, ◌<F◌, int, dec, min_F}
use alzendor.Balance.Rules.{dt, tau}
use alzendor.Balance.Dot.{
  Debuff, Dot, Event, steadied, second_wind, rim_stagger, dist, core, fade, is_staggered,
}
use alzendor.Balance.Knock.{pushed, stagger, catches, steady}

-- keys & mask
abbrev held : ℕ → ℕ → Bool
held keys mask = not (bit_and keys mask == 0)

-- Exactly one of two keys is held.
abbrev leans : ℕ → ℕ → ℕ → Bool
leans keys a b = if held keys a then not (held keys b) else held keys b

module _ {F : Type 0} ⦃r : Real F⦄ where
  abbrev bit : ℕ → ℕ → F
  bit keys mask = if held keys mask then int 1 else int 0

  -- Staggered: still, easing back.
  unfoldable pub ease : Dot F → Dot F
  ease d =
      let e = int 1 -F r.exp (r.neg (int 3) *F dt) in
      record d {
        x = d.x +F (d.sx -F d.x) *F e;
        y = d.y +F (d.sy -F d.y) *F e;
        vx = int 0;
        vy = int 0;
        inside = false;
      }

  abbrev pub calm : Dot F → F
  calm d = if d.blocking then dec 1 10 else int 1

  -- Gravity toward the well, eased off close to it.
  abbrev gravity : Dot F → F × F
  gravity d =
      let reel = min_F (int 1) (fade d "reeling") in
      let gx = d.well_r *F r.cos d.well_a -F d.x in
      let gy = d.well_r *F r.sin d.well_a -F d.y in
      let dg = r.sqrt (gx *F gx +F gy *F gy) in
      let full = d.rules.gravity *F (int 1 +F dec 6 10 *F reel) *F calm d in
      let g =
        if dg <F d.rules.gravity_falloff then full *F dg /F d.rules.gravity_falloff else full in
      if int 0 <F dg then (g *F gx /F dg, g *F gy /F dg) else (int 0, int 0)

  abbrev weight : Option (Debuff F) → F
  weight none = int 1 +F int 0
  weight (some e) = int 1 +F e.strength *F int e.left /F int e.total

  abbrev steadiness : Option (Debuff F) → F
  steadiness none = int 1
  steadiness (some e) = dec 15 10

  -- A push along one axis, from the keys of both: on a diagonal it is shortened.
  abbrev axis : F → Bool → F
  axis p diagonal = if diagonal then p *F r.sqrt (dec 5 10) else p

  -- The player's push: RIGHT 8 and LEFT 4, DOWN 2 and UP 1.
  abbrev push : Dot F → ℕ → F × F
  push d keys =
      let diagonal = leans keys 8 4 && leans keys 2 1 in
      let px = axis (bit keys 8 -F bit keys 4) diagonal in
      let py = axis (bit keys 2 -F bit keys 1) diagonal in
      let force = d.rules.push *F steadiness (d.debuffs "steady") /F weight (d.debuffs "heavy") in
      (px *F force, py *F force)

  -- Gravity, and the push against it unless the dot is blocking.
  unfoldable pub accelerate : Dot F → ℕ → Dot F
  accelerate d keys =
      let (gx, gy) = gravity d in
      let (px, py) = push d keys in
      let ax = if d.blocking then gx else gx +F px in
      let ay = if d.blocking then gy else gy +F py in
      record d { vx = d.vx +F ax *F dt; vy = d.vy +F ay *F dt }

  -- A kick in a random direction every 0.07 s, fading: by whether there is any wobble, and
  -- whether the clock has come to the next kick.
  unfoldable pub wobble_when : Bool → Bool → F → F → Dot F → Dot F
  wobble_when true true wob clock d =
      pushed (record d { wobble_clock = clock -F dec 7 100 }) (dec 11 10 *F wob *F calm d)
        (d.draws.2 *F tau)
  wobble_when true false wob clock d = record d { wobble_clock = clock }
  wobble_when false due wob clock d = record d { wobble_clock = int 0 }

  unfoldable pub wobble : Dot F → Dot F
  unfolding wobble_when
  wobble d =
      let wob = fade d "wobble" in
      let clock = d.wobble_clock +F dt in
      wobble_when (int 0 <F wob) (dec 7 100 ≤F clock) wob clock d

  -- Damping, and the move.
  unfoldable pub move : Dot F → Dot F
  move d =
      let damping = if d.blocking then d.rules.block_damping else d.rules.damping in
      let damp = r.exp (r.neg damping *F dt) in
      let vx = d.vx *F damp in
      let vy = d.vy *F damp in
      record d { vx = vx; vy = vy; x = d.x +F vx *F dt; y = d.y +F vy *F dt }

  -- Back off the rim, on which the dot is at (nx, ny).
  unfoldable pub bounce : Dot F → F → F → Dot F
  bounce d nx ny =
      let vn = d.vx *F nx +F d.vy *F ny in
      let out = int 0 <F vn in
      record d {
        vx = if out then d.vx -F int 2 *F vn *F nx else d.vx;
        vy = if out then d.vy -F int 2 *F vn *F ny else d.vy;
        x = nx *F dec 999 1000;
        y = ny *F dec 999 1000;
      }

  -- The rim: bounce back while wobbling or stagger-immune, or if steady hands catch it, else
  -- stagger. By whether the dot is there, whether it may bounce, and whether its hands are steady.
  unfoldable pub rim_when : Bool → Bool → Bool → Dot F → F → F → Dot F × List Event
  unfolding bounce
  rim_when false bounces steadies d nx ny = (d, [])
  rim_when true true steadies d nx ny = (bounce d nx ny, [])
  rim_when true false true d nx ny = (bounce (steady d) nx ny, steadied ∷ [])
  rim_when true false false d nx ny = (stagger d (r.atan2 ny nx), rim_stagger ∷ [])

  abbrev pub bounces : Dot F → Bool
  bounces d = (dec 15 100 <F fade d "wobble") || is_positive d.immune

  unfoldable pub rim : Dot F → Dot F × List Event
  unfolding rim_when
  rim d = rim_when (int 1 ≤F dist d) (bounces d) (catches d) d (d.x /F dist d) (d.y /F dist d)

  abbrev pub in_core : Dot F → Bool
  in_core d = is_zero d.stagger && (dist d ≤F core d)

  -- Back in the core after a knock.
  abbrev pub returns : Dot F → Bool
  returns d = in_core d && not d.inside && d.knocked

  -- Second Wind, and where the dot ends.
  unfoldable pub settle : Dot F → Dot F × List Event
  settle d = (
    record d { knocked = if returns d then false else d.knocked; inside = in_core d },
    if returns d && d.perks "second_wind" then second_wind ∷ [] else [],
  )

  -- By whether the dot is staggered.
  unfoldable pub physics_when : Bool → Dot F → ℕ → Dot F × List Event
  unfolding ease accelerate wobble move rim settle
  physics_when true d keys = (ease d, [])
  physics_when false d keys =
      let (d1, e1) = rim (move (wobble (accelerate d keys))) in
      let (d2, e2) = settle d1 in (d2, e1 ++ e2)

  unfoldable pub physics : Dot F → ℕ → Dot F × List Event
  unfolding physics_when
  physics d keys = physics_when (is_staggered d) d keys
