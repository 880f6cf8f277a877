-- ===== src/World/Graph/Closed.antt =====
-- Every edge of `world_graph` of world.py leads to a room of the graph, and so does each turned around.
use alzendor.Prelude.{
  ◌≡◌, refl, sym, subst, ◌∙◌, String, true, ◌&&◌, ◌||◌, Option, none, some, List, [], ◌∷◌, ◌++◌,
  str_eq, eq_iff, Bool-cases, inl, inr, arith,
}
use alzendor.Text.{is_one_of}
use alzendor.World.Reach.{Graph, dests, is_known, known}
use alzendor.World.Reach.Ways.{leads, leads-cons, IsClosed, known-keys, is_one_of-append}
use alzendor.World.Graph.{
  Room, Route, Seed, given, bare, with_exits, add, add_route, with_routes, edges_of,
}

known-exits :
    (g : Graph) (rs : List Room) (d : String)
    → is_known (dests (with_exits g rs) d) ≡ is_known (dests (bare rs) d)
known-exits g [] d = refl
known-exits g (r ∷ rs) d = elim (Bool-cases r.is_waypoint) [
  | inl e ↦ rw e (known-exits g rs d)
  | inr e ↦
      rw e (elim (Bool-cases (str_eq d r.id)) [
        | inl f ↦ rw f refl
        | inr f ↦ rw f (known-exits g rs d)
      ])
]

leads-exits :
    (g : Graph) (rs : List Room) (r d : String)
    → leads (with_exits g rs) r d ≡ true
    → is_known (dests g d) ≡ true
leads-exits g [] r d h = cc
leads-exits g (x ∷ rs) r d h = elim (Bool-cases x.is_waypoint) [
  | inl e ↦ leads-exits g rs r d (rw e at h)
  | inr e ↦
      let at : leads ((x.id, known g x.exits) ∷ with_exits g rs) r d ≡ true = (rw e at h) in
      let split = sym (leads-cons x.id (known g x.exits) (with_exits g rs) r d) ∙ at in
      elim (Bool-cases (str_eq r x.id)) [
        | inl f ↦ (known-keys g x.exits d (rw f at split)).1
        | inr f ↦ leads-exits g rs r d (rw f at split)
      ]
]

pub known-add :
    (rid : String) (more : List String) (g : Graph) (d : String)
    → is_known (dests (add rid more g) d) ≡ is_known (dests g d)
known-add rid more [] d = refl
known-add rid more ((key, ds) ∷ g) d = elim (Bool-cases (str_eq rid key)) [
  | inl e ↦ rw e (elim (Bool-cases (str_eq d key)) [ inl f ↦ rw f refl | inr f ↦ rw f refl ])
  | inr e ↦ rw e (elim (Bool-cases (str_eq d key)) [
    | inl f ↦ rw f refl
    | inr f ↦ rw f (known-add rid more g d)
  ])
]

-- A step after more were added is one of before, or one of those from the room they were added to.
pub leads-add :
    (rid : String) (more : List String) (g : Graph) (r d : String)
    → leads (add rid more g) r d ≡ true
    → (leads g r d || (str_eq r rid && is_one_of d more)) ≡ true
leads-add rid more [] r d h = cc
leads-add rid more ((key, ds) ∷ g) r d h =
    subst (λ b. (b || (str_eq r rid && is_one_of d more)) ≡ true) (sym (leads-cons key ds g r d))
      (elim (Bool-cases (str_eq rid key)) [
        | inl e ↦
            let at : leads ((key, ds ++ more) ∷ g) r d ≡ true = (rw e at h) in
            let split = sym (leads-cons key (ds ++ more) g r d) ∙ at in
            elim (Bool-cases (str_eq r key)) [
              | inl f ↦
                  let same : r ≡ rid = (eq_iff r key).0 f ∙ sym ((eq_iff rid key).0 e) in
                  let here : str_eq r rid ≡ true = (eq_iff r rid).1 same in
                  let found : is_one_of d (ds ++ more) ≡ true = (rw f at split) in
                  rw f (rw here (ground (arith, is_one_of-append d ds more)))
              | inr f ↦ let later : leads g r d ≡ true = (rw f at split) in rw f (rw later refl)
            ]
        | inr e ↦
            let at : leads ((key, ds) ∷ add rid more g) r d ≡ true = (rw e at h) in
            let split = sym (leads-cons key ds (add rid more g) r d) ∙ at in
            elim (Bool-cases (str_eq r key)) [
              | inl f ↦ let found : is_one_of d ds ≡ true = (rw f at split) in rw f (rw found refl)
              | inr f ↦ rw f (leads-add rid more g r d (rw f at split))
            ]
      ])

pub add-IsClosed :
    (rid : String) (more : List String) (g : Graph)
    → IsClosed g
    → ((d : String) → is_one_of d more ≡ true → is_known (dests g d) ≡ true)
    → IsClosed (add rid more g)
add-IsClosed rid more g c k = record {
  closed = λ r d h.
      known-add rid more g d
      ∙ (let one = leads-add rid more g r d h in
          elim (Bool-cases (leads g r d)) [ inl e ↦ c.closed r d e | inr e ↦ k d (ground arith) ]);
}

add_route-IsClosed :
    (g : Graph) (route : Route) (o : Option String) → IsClosed g → IsClosed (add_route g route o)
add_route-IsClosed g route none c = c
add_route-IsClosed g route (some start) c =
    add-IsClosed start (known g (given (route.to ∷ route.strand ∷ []))) g c
      (λ d h. (known-keys g (given (route.to ∷ route.strand ∷ [])) d h).1)

with_routes-IsClosed :
    (g : Graph) (routes : List Route) → IsClosed g → IsClosed (with_routes g routes)
with_routes-IsClosed g [] c = c
with_routes-IsClosed g (route ∷ routes) c =
    with_routes-IsClosed (add_route g route route.from) routes
      (add_route-IsClosed g route route.from c)

pub edges_of-IsClosed : (s : Seed) → IsClosed (edges_of s)
unfolding edges_of
edges_of-IsClosed s = with_routes-IsClosed (with_exits (bare s.rooms) s.rooms) s.routes (record {
  closed = λ r d h. known-exits (bare s.rooms) s.rooms d ∙ leads-exits (bare s.rooms) s.rooms r d h;
})
