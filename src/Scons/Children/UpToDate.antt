-- ===== src/Scons/Children/UpToDate.antt =====
-- When `children_are_up_to_date` says yes.
use graph_store.Prelude.{
  ℕ, ◌≤◌, ◌≡◌, refl, sym, ◌∙◌, ap, ◌⊎◌, ◌↔◌, inl, inr, true, false, List, [], ◌∷◌, arith, ==_refl,
}
use native.Mathlib.Decide.{ℕ_discrete}
use graph_store.Db.IdSet
use graph_store.Db.IdSet.{IsNodup}
use graph_store.Scons.Node.{NodeId, NodeState, Store, get_state, rank}
use graph_store.Scons.Children.{Links, children_get, higher, highest_state, children_are_up_to_date}

higher_lem :
    (state k : ℕ)
    → (state ≤ higher state k)
      × (k ≤ higher state k)
      × ((higher state k ≡ state) ⊎ (higher state k ≡ k))
unfolding higher
higher_lem state k = ground arith

-- The highest state is not below the state of a kid, and is that of the start or of a kid.
highest_state_ge :
    (s : Store) (state : ℕ) (kids : List NodeId)
    → (state ≤ highest_state s state kids)
      × ((m : NodeId)
          → IdSet.contains m kids ≡ true
          → rank (get_state s m) ≤ highest_state s state kids)
unfolding highest_state IdSet.contains
highest_state_ge s state [] = (omega arith, λ m i. absurd (ground (arith, i)))
highest_state_ge s state (kid ∷ kids) =
    let (up, rest) = highest_state_ge s (higher state (rank (get_state s kid))) kids in
    let (a, b, c) = higher_lem state (rank (get_state s kid)) in
    (
      omega (arith, up, a),
      λ m i. elim (ℕ_discrete m kid) [
        | yes e ↦ rw e (omega (arith, up, b))
        | no ne ↦ rest m (ground (arith, i))
      ],
    )

highest_state_from :
    (s : Store) (state : ℕ) (kids : List NodeId)
    → (highest_state s state kids ≡ state)
      ⊎ ((m : NodeId) × (IdSet.contains m kids ≡ true)
          × (highest_state s state kids ≡ rank (get_state s m)))
unfolding highest_state IdSet.contains
highest_state_from s state [] = inl refl
highest_state_from s state (kid ∷ kids) =
    elim (highest_state_from s (higher state (rank (get_state s kid))) kids) [
      | inr (m, i, e) ↦ inr (m, ground (arith, i), e)
      | inl e ↦ elim (higher_lem state (rank (get_state s kid))).2 [
        | inl d ↦ inl (e ∙ d)
        | inr d ↦ inr (kid, ground (arith, ==_refl kid), e ∙ d)
      ]
    ]

-- Every kid is without a state, or some kid is up to date and none has a higher state.
abbrev pub NoneHigher : Store → (kids : List NodeId) → Type 0
NoneHigher s kids =
    ((m : NodeId) → IdSet.contains m kids ≡ true → get_state s m ≡ NodeState.no_state)
    ⊎ ((k : NodeId) × (IdSet.contains k kids ≡ true)
        × (get_state s k ≡ NodeState.up_to_date)
        × ((m : NodeId) → IdSet.contains m kids ≡ true → rank (get_state s m) ≤ 3))

state_of_rank_0 : (v : NodeState) → rank v ≤ 0 → v ≡ NodeState.no_state
state_of_rank_0 v h = ground (arith, h)

state_of_rank_3 : (v : NodeState) → 3 ≡ rank v → v ≡ NodeState.up_to_date
state_of_rank_3 v h = ground (arith, h)

-- For a node that is not always built, `children_are_up_to_date` says yes exactly if every child is
-- without a state, or some child is up to date and none was executed or has failed: a child that is
-- pending or executing beside one that is up to date makes no difference.
pub children_are_up_to_date-NoneHigher :
    (s : Store) (l : Links)
    → (children_are_up_to_date s l false ≡ true) ↔ NoneHigher s (children_get l)
unfolding children_are_up_to_date
children_are_up_to_date-NoneHigher s l =
    let kids : List NodeId = children_get l in
    let (low, ge) = highest_state_ge s 0 kids in
    (
      λ h. elim (ℕ_discrete (highest_state s 0 kids) 0) [
        | yes z ↦ inl (λ m i. state_of_rank_0 (get_state s m) (omega (arith, ge m i, z)))
        | no nz ↦
            let three : highest_state s 0 kids ≡ 3 = ground (arith, h, nz) in
            elim (highest_state_from s 0 kids) [
              | inl e ↦ absurd (nz e)
              | inr (k, i, e) ↦ inr (
                k,
                i,
                state_of_rank_3 (get_state s k) (sym three ∙ e),
                λ m j. omega (arith, ge m j, three),
              )
            ]
      ],
      λ none_higher. elim (highest_state_from s 0 kids) [
        | inl e ↦ ground (arith, e)
        | inr (m, i, e) ↦ elim none_higher [
          | inl f ↦ let z : rank (get_state s m) ≡ 0 = ap rank (f m i) in ground (arith, e, z)
          | inr (k, j, u, f) ↦
              let t : rank (get_state s k) ≡ 3 = ap rank u in
              let three : highest_state s 0 kids ≡ 3 = omega (arith, ge k j, t, f m i, e) in
              ground (arith, three)
        ]
      ],
    )
