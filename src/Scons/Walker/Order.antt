-- ===== src/Scons/Walker/Order.antt =====
-- The order in which a `Walker` returns the nodes.
use graph_store.Prelude.{
  ℕ, zero, suc, ◌≡◌, refl, sym, ◌∙◌, ap, subst, inl, inr, true, false, List, [], ◌∷◌, ◌++◌, Option,
  none, some, ==_refl, arith, Bool-cases, Option-cases,
}
use mathlib.Core.List.{append_assoc}
use native.Mathlib.Decide.{ℕ_discrete}
use graph_store.Db.IdSet
use graph_store.Db.IdSet.{IsNodup}
use graph_store.Scons.Node.{NodeId}
use graph_store.Scons.Walker.{Kids, Walker, set_wkids, turn, walk}

-- Depth first: below a path, each kid that is not on the path comes behind its own kids.
unfoldable pub order : (fuel : ℕ) → Kids → (path kids' : List NodeId) → Option (List NodeId)
order fuel kids path [] = some []
order zero kids path (k ∷ ks) = none
order (suc fuel) kids path (k ∷ ks) = elim (order fuel kids path ks) [
  | none ↦ none
  | some rest ↦ elim (IdSet.contains k path) [
    | true ↦ some rest
    | false ↦ elim (order fuel kids (k ∷ path) (kids k)) [
      | none ↦ none
      | some below ↦ some (below ++ k ∷ rest)
    ]
  ]
]

-- Whatever the walk from the second state returns, the walk from the first returns the nodes of
-- the list and then that.
abbrev pub Leads : Kids → Walker → List NodeId → Walker → Type 0
Leads kids w nodes w' =
    (fuel : ℕ) (rest : List NodeId)
    → walk fuel kids w' ≡ some rest
    → (fuel' : ℕ) × (walk fuel' kids w ≡ some (nodes ++ rest))

Leads-trans :
    (kids : Kids) (a b c : Walker) (xs ys : List NodeId)
    → Leads kids a xs b
    → Leads kids b ys c
    → Leads kids a (xs ++ ys) c
Leads-trans kids a b c xs ys f g fuel rest e =
    let (fuel1, e1) = g fuel rest e in
    let (fuel2, e2) = f fuel1 (ys ++ rest) e1 in
    (fuel2, e2 ∙ ap some (sym (append_assoc xs ys rest)))

-- A state that stands on a path.
abbrev pub at : Kids → List NodeId → Walker
at wkids path = record { wkids = wkids; stack = path; history = path }

erase_absent : (a : NodeId) (xs : List NodeId) → IdSet.contains a xs ≡ false → IdSet.erase a xs ≡ xs
unfolding IdSet.erase IdSet.contains
erase_absent a [] h = refl
erase_absent a (x ∷ xs) h = ground (arith, h, erase_absent a xs)

erase_top :
    (a : NodeId) (xs : List NodeId) → IdSet.contains a xs ≡ false → IdSet.erase a (a ∷ xs) ≡ xs
unfolding IdSet.erase
erase_top a xs h = ground (arith, ==_refl a, erase_absent a xs h)

-- A round of the walk, by what the round gives.
walk-turn :
    (fuel : ℕ) (kids : Kids) (w w' : Walker) (n : NodeId) (st rest : List NodeId)
    (o : Option NodeId)
    → w.stack ≡ n ∷ st
    → turn kids w ≡ (w', o)
    → walk fuel kids w' ≡ some rest
    → walk (suc fuel) kids w ≡ elim o [ none ↦ some rest | some node ↦ some (node ∷ rest) ]
unfolding walk
walk-turn fuel kids w w' n st rest o s t h =
    let h' : walk fuel kids (turn kids w).0 ≡ some rest = ap (λ r. walk fuel kids r.0) t ∙ h in
    let t' : (turn kids w).1 ≡ o = ap (λ r. r.1) t in ground (arith, s, h', t')

pub turn_pop :
    (kids wkids : Kids) (top : NodeId) (below : List NodeId)
    → IsNodup (top ∷ below)
    → wkids top ≡ []
    → Leads kids (at wkids (top ∷ below)) (top ∷ []) (at wkids below)
unfolding turn
turn_pop kids wkids top below d e fuel rest h =
    let t : turn kids (at wkids (top ∷ below)) ≡ (at wkids below, some top) =
      ground (arith, e, erase_top top below d.0) in
    (
      suc fuel,
      walk-turn fuel kids (at wkids (top ∷ below)) (at wkids below) top below rest (some top) refl t
          h,
    )

turn_skip :
    (kids wkids : Kids) (top k : NodeId) (below ks : List NodeId)
    → wkids top ≡ k ∷ ks
    → IdSet.contains k (top ∷ below) ≡ true
    → Leads kids (at wkids (top ∷ below)) [] (at (set_wkids wkids top ks) (top ∷ below))
unfolding turn
turn_skip kids wkids top k below ks e i fuel rest h =
    let w' : Walker = at (set_wkids wkids top ks) (top ∷ below) in
    let t : turn kids (at wkids (top ∷ below)) ≡ (w', none) = ground (arith, e, i) in
    (suc fuel, walk-turn fuel kids (at wkids (top ∷ below)) w' top below rest none refl t h)

turn_enter :
    (kids wkids : Kids) (top k : NodeId) (below ks : List NodeId)
    → wkids top ≡ k ∷ ks
    → IdSet.contains k (top ∷ below) ≡ false
    → Leads kids
        (at wkids (top ∷ below))
        []
        (at (set_wkids (set_wkids wkids top ks) k (kids k)) (k ∷ top ∷ below))
unfolding turn
turn_enter kids wkids top k below ks e i fuel rest h =
    let w' : Walker = at (set_wkids (set_wkids wkids top ks) k (kids k)) (k ∷ top ∷ below) in
    let t : turn kids (at wkids (top ∷ below)) ≡ (w', none) = ground (arith, e, i) in
    (suc fuel, walk-turn fuel kids (at wkids (top ∷ below)) w' top below rest none refl t h)

-- The walk of the kids of the top of a path: it comes back to the path, the top has no kids left,
-- and the kids left of the nodes below are as they were.
abbrev pub Visits : Kids → Kids → (top : NodeId) → (below nodes : List NodeId) → Type 0
Visits kids wkids top below nodes =
    (wkids' : Kids) × (wkids' top ≡ [])
    × ((m : NodeId) → IdSet.contains m below ≡ true → wkids' m ≡ wkids m)
    × Leads kids (at wkids (top ∷ below)) nodes (at wkids' (top ∷ below))

pub set_wkids_at : (wkids : Kids) (n : NodeId) (ks : List NodeId) → set_wkids wkids n ks n ≡ ks
unfolding set_wkids
set_wkids_at wkids n ks = ground (arith, ==_refl n)

set_wkids_other :
    (wkids : Kids) (n m : NodeId) (ks : List NodeId) (nodes : List NodeId)
    → IdSet.contains n nodes ≡ false
    → IdSet.contains m nodes ≡ true
    → set_wkids wkids n ks m ≡ wkids m
unfolding set_wkids
set_wkids_other wkids n m ks nodes out i = elim (ℕ_discrete n m) [
  | yes e ↦ absurd (ground (arith, subst (λ k. IdSet.contains k nodes ≡ false) e out, i))
  | no ne ↦ ground (arith, ne)
]

Visits-skip :
    (kids wkids : Kids) (top k : NodeId) (below ks nodes : List NodeId)
    → IsNodup (top ∷ below)
    → wkids top ≡ k ∷ ks
    → IdSet.contains k (top ∷ below) ≡ true
    → Visits kids (set_wkids wkids top ks) top below nodes
    → Visits kids wkids top below nodes
Visits-skip kids wkids top k below ks nodes d e i (wkids', t, same, leads) = (
  wkids',
  t,
  λ m j. same m j ∙ set_wkids_other wkids top m ks below d.0 j,
  Leads-trans kids (at wkids (top ∷ below)) (at (set_wkids wkids top ks) (top ∷ below))
      (at wkids' (top ∷ below)) [] nodes (turn_skip kids wkids top k below ks e i) leads,
)

-- The nodes left when a kid is entered
abbrev entered : Kids → Kids → (top k : NodeId) → (ks : List NodeId) → Kids
entered kids wkids top k ks = set_wkids (set_wkids wkids top ks) k (kids k)

Visits-enter :
    (kids wkids wkids1 : Kids) (top k : NodeId) (below ks inner rest : List NodeId)
    → IsNodup (top ∷ below)
    → wkids top ≡ k ∷ ks
    → IdSet.contains k (top ∷ below) ≡ false
    → wkids1 k ≡ []
    → ((m : NodeId)
        → IdSet.contains m (top ∷ below) ≡ true
        → wkids1 m ≡ entered kids wkids top k ks m)
    → Leads kids
        (at (entered kids wkids top k ks) (k ∷ top ∷ below))
        inner
        (at wkids1 (k ∷ top ∷ below))
    → Visits kids wkids1 top below rest
    → Visits kids wkids top below (inner ++ k ∷ rest)
unfolding IdSet.contains
Visits-enter kids wkids wkids1 top k below ks inner rest d e i z same1 leads1
      (wkids', t, same, leads) =
    let path : List NodeId = top ∷ below in
    let pop = turn_pop kids wkids1 k path (i, d) z in
    let back =
      Leads-trans kids (at wkids1 (k ∷ path)) (at wkids1 path) (at wkids' path) (k ∷ []) rest pop
        leads in
    let inside =
      Leads-trans kids (at (entered kids wkids top k ks) (k ∷ path)) (at wkids1 (k ∷ path))
        (at wkids' path) inner (k ∷ rest) leads1 back in
    (
      wkids',
      t,
      λ m j.
          same m j
          ∙ same1 m (ground (arith, j))
          ∙ set_wkids_other (set_wkids wkids top ks) k m (kids k) path i (ground (arith, j))
          ∙ set_wkids_other wkids top m ks below d.0 j,
      Leads-trans kids (at wkids path) (at (entered kids wkids top k ks) (k ∷ path))
          (at wkids' path) [] (inner ++ k ∷ rest) (turn_enter kids wkids top k below ks e i) inside,
    )

pub order-Visits :
    (fuel : ℕ) (kids wkids : Kids) (top : NodeId) (below ks nodes : List NodeId)
    → IsNodup (top ∷ below)
    → wkids top ≡ ks
    → order fuel kids (top ∷ below) ks ≡ some nodes
    → Visits kids wkids top below nodes
unfolding order IdSet.contains
order-Visits fuel kids wkids top below [] nodes d e h =
    let n : [] ≡ nodes = ground (arith, h) in
    subst (Visits kids wkids top below) n (wkids, e, (λ m i. refl), (λ fuel' rest h'. (fuel', h')))
order-Visits zero kids wkids top below (k ∷ ks) nodes d e h = absurd (ground (arith, h))
order-Visits (suc fuel) kids wkids top below (k ∷ ks) nodes d e h =
    elim (Option-cases (order fuel kids (top ∷ below) ks)) [
      | inl e1 ↦ absurd (ground (arith, e1, h))
      | inr (rest, e1) ↦ elim (Bool-cases (IdSet.contains k (top ∷ below))) [
        | inl i ↦
            let n : rest ≡ nodes = ground (arith, e1, i, h) in
            subst (Visits kids wkids top below) n (
              Visits-skip kids wkids top k below ks rest d e i (
                order-Visits fuel kids (set_wkids wkids top ks) top below ks rest d
                  (set_wkids_at wkids top ks) e1))
        | inr i ↦ elim (Option-cases (order fuel kids (k ∷ top ∷ below) (kids k))) [
          | inl e2 ↦ absurd (ground (arith, e1, i, e2, h))
          | inr (inner, e2) ↦
              let n : inner ++ k ∷ rest ≡ nodes = ground (arith, e1, i, e2, h) in
              let (wkids1, z, same1, leads1) =
                order-Visits fuel kids (entered kids wkids top k ks) k (top ∷ below) (kids k) inner
                  (i, d) (set_wkids_at (set_wkids wkids top ks) k (kids k)) e2 in
              let left : wkids1 top ≡ ks =
                same1 top (ground (arith, ==_refl top))
                ∙ set_wkids_other (set_wkids wkids top ks) k top (kids k) (top ∷ below) i
                    (ground (arith, ==_refl top))
                ∙ set_wkids_at wkids top ks in
              subst (Visits kids wkids top below) n (
                Visits-enter kids wkids wkids1 top k below ks inner rest d e i z same1 leads1
                  (order-Visits fuel kids wkids1 top below ks rest d left e1))
        ]
      ]
    ]
