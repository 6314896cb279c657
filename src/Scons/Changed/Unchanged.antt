-- ===== src/Scons/Changed/Unchanged.antt =====
-- When a node has not changed.
use graph_store.Prelude.{
  ◌-◌, ◌≡◌, ◌↔◌, refl, ap, sym, ◌∙◌, inl, inr, Bool, true, false, some, List, [], ◌∷◌, length,
  arith, Bool-cases,
}
use graph_store.Scons.Node.{NodeId}
use graph_store.Scons.Changed.{Sig, BuildInfo, Decider, stored_sigs, pad_sigs, any_changed, changed}

-- There are as many children as signatures, and no child has changed against its signature.
abbrev pub AreSame : Decider → NodeId → (children : List NodeId) → (stored : List Sig) → Type 0
AreSame decide target [] [] = Unit
AreSame decide target [] (sig ∷ stored) = ⊥
AreSame decide target (child ∷ children) [] = ⊥
AreSame decide target (child ∷ children) (sig ∷ stored) =
    (decide child target (some sig) ≡ false) × AreSame decide target children stored

AreSame-length :
    (decide : Decider) (target : NodeId) (children : List NodeId) (stored : List Sig)
    → AreSame decide target children stored
    → length children ≡ length stored
AreSame-length decide target [] [] h = refl
AreSame-length decide target [] (sig ∷ stored) h = absurd h
AreSame-length decide target (child ∷ children) [] h = absurd h
AreSame-length decide target (child ∷ children) (sig ∷ stored) h =
    omega (arith, AreSame-length decide target children stored h.1)

any_changed-AreSame :
    (decide : Decider) (target : NodeId) (children : List NodeId) (stored : List Sig)
    → length children ≡ length stored
    → (any_changed decide target children (pad_sigs stored 0) ≡ false)
      ↔ AreSame decide target children stored
unfolding any_changed pad_sigs
any_changed-AreSame decide target [] [] e = ((λ h. tt), (λ h. refl))
any_changed-AreSame decide target [] (sig ∷ stored) e = absurd (omega (arith, e))
any_changed-AreSame decide target (child ∷ children) [] e = absurd (omega (arith, e))
any_changed-AreSame decide target (child ∷ children) (sig ∷ stored) e =
    let (f, g) = any_changed-AreSame decide target children stored (omega (arith, e)) in
    (λ h. (ground (arith, h), f (ground (arith, h))), λ h. ground (arith, h.0, g h.1))

-- A node has not changed exactly if there are as many children as signatures stored of sources,
-- dependencies and implicit dependencies together, no child has changed against the signature in
-- its place, and the signature of the executor's contents is the stored one, if there is a builder.
pub changed-AreSame :
    (decide : Decider) (node : NodeId) (bi : BuildInfo) (children : List NodeId)
    (has_builder : Bool) (new_sig : Sig)
    → (changed decide node bi children has_builder new_sig ≡ false) ↔ (
        AreSame decide node children (stored_sigs bi) × (has_builder ≡ true → bi.act_sig ≡ new_sig))
unfolding changed
changed-AreSame decide node bi children has_builder new_sig =
    let stored : List Sig = stored_sigs bi in
    (
      λ h.
          (let len : length children ≡ length stored = ground (arith, h) in
            let zero_diff : length children - length stored ≡ 0 = omega (arith, len) in
            let same : any_changed decide node children (pad_sigs stored 0) ≡ false =
              ap (λ d. any_changed decide node children (pad_sigs stored d)) (sym zero_diff)
              ∙ ground (arith, h) in
            (
              (any_changed-AreSame decide node children stored len).0 same,
              (λ b. ground (arith, h, b)),
            )),
      λ h.
          (let len = AreSame-length decide node children stored h.0 in
            let zero_diff : length children - length stored ≡ 0 = omega (arith, len) in
            let same : any_changed decide node children
                  (pad_sigs stored (length children - length stored))
                ≡ false =
              ap (λ d. any_changed decide node children (pad_sigs stored d)) zero_diff
              ∙ (any_changed-AreSame decide node children stored len).1 h.0 in
            elim (Bool-cases has_builder) [
              | inl b ↦ ground (arith, len, same, b, h.1 b)
              | inr b ↦ ground (arith, len, same, b)
            ]),
    )
