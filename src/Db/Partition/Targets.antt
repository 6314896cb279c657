-- ===== src/Db/Partition/Targets.antt =====
-- The connection that src/db/partition/partition_manager.cc takes for a partition.
use graph_store.Prelude.{
  ℕ, zero, suc, ◌≤◌, ==-ne, ◌≡◌, ◌≢◌, refl, ap, ◌∙◌, sym, Bool, false, some, List, [], ◌∷◌, arith,
  ◌==◌, get_elem?,
}
use graph_store.Util.Outcome.{done}
use graph_store.Db.Partition.Manager.{
  PartitionConfig, others, outbound_index, get_partition_outbound,
}

outbound_index_zero : (k : ℕ) → outbound_index 0 (suc k) ≡ k
unfolding outbound_index
outbound_index_zero k = ground arith

outbound_index_below : (us id : ℕ) → id ≤ us → outbound_index us id ≡ id
unfolding outbound_index
outbound_index_below us id h = ground arith

outbound_index-suc :
    (us id : ℕ) → us ≢ id → outbound_index (suc us) (suc id) ≡ suc (outbound_index us id)
unfolding outbound_index
outbound_index-suc us id h = ground arith

module _ {ℓ} {A : Type ℓ} (same : A → A → Bool) (own : A) where
  others_none :
      (xs : List A)
      → ((j : ℕ) (a : A) → get_elem? xs j ≡ some a → same a own ≡ false)
      → others same own xs ≡ xs
  unfolding others
  others_none [] h = refl
  others_none (x ∷ xs) h =
      rw (h 0 x refl) (ap (λ r. x ∷ r) (others_none xs (λ j a e. h (suc j) a e)))

  other : (x : A) (u : ℕ) → same x own ≡ (0 == suc u) → same x own ≡ false
  other x u h = h ∙ ground arith

  others_at :
      (xs : List A) (us id : ℕ)
      → ((j : ℕ) (a : A) → get_elem? xs j ≡ some a → same a own ≡ (j == us))
      → id ≢ us
      → get_elem? (others same own xs) (outbound_index us id) ≡ get_elem? xs id
  unfolding others
  others_at [] us id h ne = refl
  others_at (x ∷ xs) zero zero h ne = absurd (ne refl)
  others_at (x ∷ xs) zero (suc k) h ne = rw (h 0 x refl) (
      ap (get_elem? (others same own xs)) (outbound_index_zero k)
      ∙ ap (λ r. get_elem? r k) (others_none xs (λ j a e. h (suc j) a e ∙ ground arith)))
  others_at (x ∷ xs) (suc u) zero h ne =
      rw (other x u (h 0 x refl))
        (ap (get_elem? (x ∷ others same own xs)) (outbound_index_below (suc u) 0 (omega arith)))
  others_at (x ∷ xs) (suc u) (suc k) h ne = rw (other x u (h 0 x refl)) (
      ap (get_elem? (x ∷ others same own xs)) (outbound_index-suc u k (λ e. ne (ap suc (sym e))))
      ∙ others_at xs u k (λ j a e. h (suc j) a e ∙ ground arith) (λ e. ne (ap suc e)))

-- Where no other partition has the address of this one, `getPartitionOutbound` of another partition
-- returns, and the connection is the one to the address of that partition.
pub get_partition_outbound_lem {ℓ} :
    {A : Type ℓ} (same : A → A → Bool) (c : PartitionConfig A) (own a : A) (id : ℕ)
    → get_elem? c.partitions c.us ≡ some own
    → ((j : ℕ) (b : A) → get_elem? c.partitions j ≡ some b → same b own ≡ (j == c.us))
    → id ≢ c.us
    → get_elem? c.partitions id ≡ some a
    → get_partition_outbound same c id ≡ done a
unfolding get_partition_outbound
get_partition_outbound_lem same c own a id here distinct ne there =
    rw (==-ne id c.us ne)
      (rw here (rw (others_at same own c.partitions c.us id distinct ne ∙ there) refl))
