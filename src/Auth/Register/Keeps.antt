-- ===== src/Auth/Register/Keeps.antt =====
-- What one step of `register` of auth.py does to a name.
use text.Mathlib.Text.{◌==◌ as str_eq}
use text.Mathlib.TextPositions.{eq_refl}
use alzendor.Prelude.{
  ℕ, suc, ◌+◌, ◌≡◌, refl, sym, subst, String, Bool, true, false, Option, none, some, List, [], ◌∷◌,
  Bool-cases, Option-cases, inl, inr, arith, eq_iff, if◌then◌else◌,
}
use alzendor.Text.{Unicode}
use alzendor.Auth.Store.{Hasher, Account, Store, put_account, is_stored, digest_of, stored_hash}
use alzendor.Auth.Register.{
  Signup, Checked, Stage, Verdict, Settled, Stepped, with_digest, with_name, quietly, settles,
  begins, advance,
}

-- Whether a connection has claimed the name and not said so yet.
abbrev pub claimed : String → Stage → ℕ
claimed pid (Stage.names r) = if str_eq r.pid pid then 1 else 0
claimed pid t = 0

abbrev pub claims_of : String → List Stage → ℕ
claims_of pid [] = 0
claims_of pid (t ∷ ts) = claimed pid t + claims_of pid ts

abbrev pub made : String → Settled → ℕ
made pid none = 0
made pid (some (p, Verdict.registered)) = if str_eq p pid then 1 else 0
made pid (some (p, v)) = 0

-- The name stays free, or it is taken by one claim; a name that is taken keeps its hash.
abbrev pub Kept : String → Option String → Option String → ℕ → ℕ → Type 0
Kept pid none none before after = after ≡ before
Kept pid none (some d) before after = after ≡ suc before
Kept pid (some d) none before after = ⊥
Kept pid (some d) (some e) before after = (d ≡ e) × (after ≡ before)

pub Kept_same : (pid : String) (o : Option String) (n m : ℕ) → m ≡ n → Kept pid o o n m
Kept_same pid none n m e = e
Kept_same pid (some d) n m e = (refl, e)

digest-with_digest : (g : String) (o : Option Account) → digest_of (some (with_digest g o)) ≡ some g
digest-with_digest g none = refl
digest-with_digest g (some a) = refl

digest-with_name :
    (name : String) (now : ℕ) (o : Option Account)
    → digest_of (some (with_name name now o)) ≡ digest_of o
digest-with_name name now none = refl
digest-with_name name now (some a) = refl

module _ (pid : String) where
  -- What a step does to the name.
  pub record Keeps (s : Store) (before : ℕ) (m : Stepped) : Type 0 where
    pub kept :
        Kept pid
          (stored_hash s pid)
          (stored_hash m.store pid)
          before
          (made pid m.settled + claimed pid m.stage)

  pub Keeps-quietly : (s : Store) (t : Stage) → Keeps s (claimed pid t) (quietly s t)
  Keeps-quietly s t = record {
    kept = Kept_same pid _ (claimed pid t) (0 + claimed pid t) (omega arith);
  }

  Keeps-if :
      (s : Store) (n : ℕ) (b : Bool) (m m' : Stepped)
      → Keeps s n m
      → Keeps s n m'
      → Keeps s n (if b then m else m')
  Keeps-if s n true m m' k k' = k
  Keeps-if s n false m m' k k' = k'

  Keeps-unclaimed : (s : Store) (t : Stage) → claimed pid t ≡ 0 → Keeps s 0 (quietly s t)
  Keeps-unclaimed s t e = record { kept = Kept_same pid _ 0 _ (omega (arith, e)) }

  Keeps-settles :
      (s : Store) (p : String) (v : Verdict)
      → made pid (some (p, v)) ≡ 0
      → Keeps s 0 (settles s p v)
  Keeps-settles s p v e = record { kept = Kept_same pid _ 0 _ (omega (arith, e)) }

  claim_own :
      (s : Store) (r : Checked) (digest : String)
      → r.pid ≡ pid
      → Keeps s 0 (
          if is_stored (stored_hash s pid)
          then settles s pid Verdict.taken
          else quietly (put_account pid (with_digest digest (s.accounts pid)) s) (Stage.names r))
  claim_own s r digest same = elim (Option-cases (stored_hash s pid)) [
    | inl e ↦
        let made_it : digest_of (some (with_digest digest (s.accounts pid))) ≡ some digest =
          digest-with_digest digest (s.accounts pid) in
        let after : stored_hash (put_account pid (with_digest digest (s.accounts pid)) s) pid
            ≡ some digest =
          rw (eq_refl pid) made_it in
        rw e (record { kept = rw (after, e, same, eq_refl pid) refl })
    | inr (d, e) ↦ rw e (record { kept = rw e (refl, refl) })
  ]

  other_hash :
      (s : Store) (p : String) (a : Account)
      → str_eq p pid ≡ false
      → stored_hash (put_account p a s) pid ≡ stored_hash s pid
  other_hash s p a e = rw e refl

  claim_other :
      (s : Store) (r : Checked) (digest : String)
      → str_eq r.pid pid ≡ false
      → Keeps s 0
          (quietly (put_account r.pid (with_digest digest (s.accounts r.pid)) s) (Stage.names r))
  claim_other s r digest e = record {
    kept =
        rw (other_hash s r.pid (with_digest digest (s.accounts r.pid)) e, e)
          (Kept_same pid _ 0 (0 + 0) refl);
  }

  name_other :
      (s : Store) (r : Checked) (now : ℕ)
      → str_eq r.pid pid ≡ false
      → Keeps s 0 (
          settles
            (put_account r.pid (with_name r.name now (s.accounts r.pid)) s)
            r.pid
            Verdict.registered)
  name_other s r now e = record {
    kept =
        rw (other_hash s r.pid (with_name r.name now (s.accounts r.pid)) e, e)
          (Kept_same pid _ 0 (0 + 0) refl);
  }

  name_own :
      (s : Store) (r : Checked) (now : ℕ)
      → Keeps s 1 (
          settles
            (put_account pid (with_name r.name now (s.accounts pid)) s)
            pid
            Verdict.registered)
  name_own s r now =
      let after : stored_hash (put_account pid (with_name r.name now (s.accounts pid)) s) pid
          ≡ stored_hash s pid =
        rw (eq_refl pid) (digest-with_name r.name now (s.accounts pid)) in
      record { kept = rw (after, eq_refl pid) (Kept_same pid _ 1 (1 + 0) (omega arith)) }

module _ (h : Hasher) (per_hour : ℕ) (u : Unicode) (pid : String) where
  pub begins-Keeps : (s : Store) (r : Signup) → Keeps pid s 0 (begins u s r)
  begins-Keeps s r = search (Keeps-if, Keeps-unclaimed, Keeps-settles, refl)

  pub advance-Keeps :
      (s : Store) (now : ℕ) (t : Stage) → Keeps pid s (claimed pid t) (advance h per_hour s now t)
  unfolding advance
  advance-Keeps s now Stage.idle = Keeps-quietly pid s _
  advance-Keeps s now (Stage.counts r) = search (Keeps-if, Keeps-unclaimed, Keeps-settles, refl)
  advance-Keeps s now (Stage.bumps r) = record { kept = Kept_same pid _ 0 0 refl }
  advance-Keeps s now (Stage.looks r) = search (Keeps-if, Keeps-unclaimed, Keeps-settles, refl)
  advance-Keeps s now (Stage.hashes r) = Keeps-quietly pid s _
  advance-Keeps s now (Stage.claims r digest) = elim (Bool-cases (str_eq r.pid pid)) [
    | inl e ↦
        let same : r.pid ≡ pid = (eq_iff r.pid pid).0 e in
        subst
          (λ q. Keeps pid s 0 (
            if is_stored (stored_hash s q)
            then settles s q Verdict.taken
            else quietly (put_account q (with_digest digest (s.accounts q)) s) (Stage.names r)))
          (sym same) (claim_own pid s r digest same)
    | inr e ↦
        Keeps-if pid s 0 (is_stored (stored_hash s r.pid)) (settles s r.pid Verdict.taken)
          (quietly (put_account r.pid (with_digest digest (s.accounts r.pid)) s) (Stage.names r))
          (Keeps-settles pid s r.pid Verdict.taken refl) (claim_other pid s r digest e)
  ]
  advance-Keeps s now (Stage.names r) = elim (Bool-cases (str_eq r.pid pid)) [
    | inl e ↦
        let same : r.pid ≡ pid = (eq_iff r.pid pid).0 e in
        rw e (
          subst
            (λ q. Keeps pid s 1 (
              settles (put_account q (with_name r.name now (s.accounts q)) s) q Verdict.registered))
            (sym same) (name_own pid s r now))
    | inr e ↦ rw e (name_other pid s r now e)
  ]
