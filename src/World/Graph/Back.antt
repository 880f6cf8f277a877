-- ===== src/World/Graph/Back.antt =====
-- The edges of world.py turned around.
use text.Mathlib.TextPositions.{eq_refl}
use alzendor.Prelude.{
  ◌++◌, ◌≡◌, refl, sym, subst, ◌∙◌, String, true, false, ◌&&◌, ◌||◌, Option, none, some, List, [],
  ◌∷◌, str_eq, eq_iff, Bool-cases, inl, inr, arith,
}
use alzendor.Text.{is_one_of}
use alzendor.World.Reach.{Graph, dests, is_known}
use alzendor.World.Reach.Ways.{leads, IsClosed, leads-cons, is_one_of-append}
use alzendor.World.Graph.{add, empty_sets, add_each, or_none, turned, back}
use alzendor.World.Graph.Closed.{known-add, leads-add}

known-empty : (g : Graph) (d : String) → is_known (dests (empty_sets g) d) ≡ is_known (dests g d)
known-empty [] d = refl
known-empty ((key, ds) ∷ g) d = elim (Bool-cases (str_eq d key)) [
  | inl f ↦ rw f refl
  | inr f ↦ rw f (known-empty g d)
]

leads-empty : (g : Graph) (r d : String) → leads (empty_sets g) r d ≡ false
leads-empty [] r d = refl
leads-empty ((key, ds) ∷ g) r d =
    leads-cons key [] (empty_sets g) r d
    ∙ elim (Bool-cases (str_eq r key)) [ inl f ↦ rw f refl | inr f ↦ rw f (leads-empty g r d) ]

known-add_each :
    (rid : String) (ds : List String) (b : Graph) (d : String)
    → is_known (dests (add_each rid ds b) d) ≡ is_known (dests b d)
known-add_each rid [] b d = refl
known-add_each rid (x ∷ ds) b d =
    known-add_each rid ds (add x (rid ∷ []) b) d ∙ known-add x (rid ∷ []) b d

leads-add_each :
    (rid : String) (ds : List String) (b : Graph) (d r : String)
    → leads (add_each rid ds b) d r ≡ true
    → (leads b d r || (str_eq r rid && is_one_of d ds)) ≡ true
leads-add_each rid [] b d r h = ground arith
leads-add_each rid (x ∷ ds) b d r h =
    let later = leads-add_each rid ds (add x (rid ∷ []) b) d r h in
    elim (Bool-cases (leads (add x (rid ∷ []) b) d r)) [
      | inl e ↦ let first = leads-add x (rid ∷ []) b d r e in ground arith
      | inr e ↦ ground arith
    ]

known-turned :
    (g b rest : Graph) (d : String) → is_known (dests (turned g b rest) d) ≡ is_known (dests b d)
known-turned g b [] d = refl
known-turned g b ((key, ds) ∷ rest) d =
    known-turned g (add_each key (or_none (dests g key)) b) rest d
    ∙ known-add_each key (or_none (dests g key)) b d

leads-or_none : (g : Graph) (r d : String) → is_one_of d (or_none (dests g r)) ≡ leads g r d
leads-or_none g r d =
    elim (dests g r)
      as (λ o. is_one_of d (or_none o) ≡ (elim o [ none ↦ false | some ds ↦ is_one_of d ds ])) [
        | none ↦ refl
        | some ds ↦ refl
      ]

leads-turned :
    (g b rest : Graph) (d r : String)
    → leads (turned g b rest) d r ≡ true
    → (leads b d r || leads g r d) ≡ true
leads-turned g b [] d r h = ground arith
leads-turned g b ((key, ds) ∷ rest) d r h =
    let later = leads-turned g (add_each key (or_none (dests g key)) b) rest d r h in
    elim (Bool-cases (leads g r d)) [
      | inl e ↦ rw e (ground arith)
      | inr e ↦
          let here : leads (add_each key (or_none (dests g key)) b) d r ≡ true = ground arith in
          let one = leads-add_each key (or_none (dests g key)) b d r here in
          elim (Bool-cases (str_eq r key)) [
            | inl f ↦
                let same : key ≡ r = sym ((eq_iff r key).0 f) in
                let none_here : is_one_of d (or_none (dests g key)) ≡ false =
                  subst (λ k. is_one_of d (or_none (dests g k)) ≡ false) (sym same)
                    (leads-or_none g r d ∙ e) in
                ground arith
            | inr f ↦ ground arith
          ]
    ]

-- An edge turned around is an edge.
pub leads-back : (g : Graph) (d r : String) → leads (back g) d r ≡ true → leads g r d ≡ true
unfolding back
leads-back g d r h =
    let one = leads-turned g (empty_sets g) g d r h in let empty = leads-empty g d r in ground arith

known_if :
    (o : Option (List String)) (d : String)
    → (elim o [ none ↦ false | some ds ↦ is_one_of d ds ]) ≡ true
    → is_known o ≡ true
known_if none d h = cc
known_if (some ds) d h = refl

known_from : (g : Graph) (r d : String) → leads g r d ≡ true → is_known (dests g r) ≡ true
known_from g r d h = known_if (dests g r) d h

pub back-IsClosed : (g : Graph) → IsClosed (back g)
unfolding back
back-IsClosed g = record {
  closed = λ d r h.
      known-turned g (empty_sets g) g r ∙ (known-empty g r ∙ known_from g r d (leads-back g d r h));
}

-- Whatever is added, the steps of before stay.
leads-add_stays :
    (rid : String) (more : List String) (b : Graph) (d r : String)
    → leads b d r ≡ true
    → leads (add rid more b) d r ≡ true
leads-add_stays rid more [] d r h = h
leads-add_stays rid more ((key, ds) ∷ b) d r h =
    let split = sym (leads-cons key ds b d r) ∙ h in
    elim (Bool-cases (str_eq rid key)) [
      | inl e ↦ rw e (
          leads-cons key (ds ++ more) b d r ∙ elim (Bool-cases (str_eq d key)) [
            | inl f ↦
                let in_ds : is_one_of r ds ≡ true = (rw f at split) in
                rw f (is_one_of-append r ds more ∙ rw in_ds refl)
            | inr f ↦ rw f (rw f at split)
          ])
      | inr e ↦ rw e (
          leads-cons key ds (add rid more b) d r ∙ elim (Bool-cases (str_eq d key)) [
            | inl f ↦ rw f (rw f at split)
            | inr f ↦ rw f (leads-add_stays rid more b d r (rw f at split))
          ])
    ]

leads-add_new :
    (rid r : String) (b : Graph)
    → is_known (dests b rid) ≡ true
    → leads (add rid (r ∷ []) b) rid r ≡ true
leads-add_new rid r [] h = h
leads-add_new rid r ((key, ds) ∷ b) h = elim (Bool-cases (str_eq rid key)) [
  | inl e ↦ rw e (
      leads-cons key (ds ++ (r ∷ [])) b rid r
      ∙ rw e (is_one_of-append r ds (r ∷ []) ∙ rw (eq_refl r) (ground arith)))
  | inr e ↦
      rw e (leads-cons key ds (add rid (r ∷ []) b) rid r ∙ rw e (leads-add_new rid r b (rw e at h)))
]

leads-add_each_stays :
    (rid : String) (ds : List String) (b : Graph) (d r : String)
    → leads b d r ≡ true
    → leads (add_each rid ds b) d r ≡ true
leads-add_each_stays rid [] b d r h = h
leads-add_each_stays rid (x ∷ ds) b d r h =
    leads-add_each_stays rid ds (add x (rid ∷ []) b) d r (leads-add_stays x (rid ∷ []) b d r h)

leads-add_each_new :
    (rid : String) (ds : List String) (b : Graph) (d : String)
    → is_known (dests b d) ≡ true
    → is_one_of d ds ≡ true
    → leads (add_each rid ds b) d rid ≡ true
leads-add_each_new rid [] b d k h = cc
leads-add_each_new rid (x ∷ ds) b d k h = elim (Bool-cases (str_eq d x)) [
  | inl f ↦
      let same : d ≡ x = (eq_iff d x).0 f in
      leads-add_each_stays rid ds (add x (rid ∷ []) b) d rid
        (subst (λ y. leads (add y (rid ∷ []) b) d rid ≡ true) same (leads-add_new d rid b k))
  | inr f ↦
      leads-add_each_new rid ds (add x (rid ∷ []) b) d (known-add x (rid ∷ []) b d ∙ k) (rw f at h)
]

leads-turned_stays :
    (g b rest : Graph) (d r : String) → leads b d r ≡ true → leads (turned g b rest) d r ≡ true
leads-turned_stays g b [] d r h = h
leads-turned_stays g b ((key, ds) ∷ rest) d r h =
    leads-turned_stays g (add_each key (or_none (dests g key)) b) rest d r
      (leads-add_each_stays key (or_none (dests g key)) b d r h)

leads-turned_new :
    (g b rest : Graph) (d r : String)
    → is_known (dests b d) ≡ true
    → is_known (dests rest r) ≡ true
    → leads g r d ≡ true
    → leads (turned g b rest) d r ≡ true
leads-turned_new g b [] d r k m h = cc
leads-turned_new g b ((key, ds) ∷ rest) d r k m h = elim (Bool-cases (str_eq r key)) [
  | inl f ↦
      let same : r ≡ key = (eq_iff r key).0 f in
      let in_now : is_one_of d (or_none (dests g r)) ≡ true = leads-or_none g r d ∙ h in
      leads-turned_stays g (add_each key (or_none (dests g key)) b) rest d r (
        subst (λ y. leads (add_each y (or_none (dests g y)) b) d r ≡ true) same
          (leads-add_each_new r (or_none (dests g r)) b d k in_now))
  | inr f ↦
      leads-turned_new g (add_each key (or_none (dests g key)) b) rest d r
        (known-add_each key (or_none (dests g key)) b d ∙ k) (rw f at m) h
]

-- An edge of a graph that is closed is turned around.
pub back-leads :
    (g : Graph) → IsClosed g → (d r : String) → leads g r d ≡ true → leads (back g) d r ≡ true
unfolding back
back-leads g c d r h =
    leads-turned_new g (empty_sets g) g d r (known-empty g d ∙ c.closed r d h) (known_from g r d h)
      h

pub known-back : (g : Graph) (r : String) → is_known (dests (back g) r) ≡ is_known (dests g r)
unfolding back
known-back g r = known-turned g (empty_sets g) g r ∙ known-empty g r
