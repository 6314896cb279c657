-- ===== src/Db/NodeMap/Defs.antt =====
-- The operations of the map, each with its law.
use graph_store.Prelude.{
  ℕ, ◌+◌, ◌%◌, ◌^◌, ◌≡◌, refl, Bool, true, false, Option, none, some, List, [], ◌∷◌, arith, ltb,
  ◌==◌, if◌then◌else◌,
}
use mathlib.Core.Option
use graph_store.Db.Types.{NodeId, Node}

abbrev pub NodeMap : Type 0
NodeMap = List (NodeId × Node)

-- `find(k)`; `none` is `end()`
unfoldable pub find : NodeMap → NodeId → Option Node
find [] k = none
find ((j, n) ∷ m) k = if j == k then some n else find m k

-- An `int64_t` order on bit patterns: `a < b` exactly if `signed_rank a < signed_rank b`.
unfoldable pub signed_rank : NodeId → ℕ
signed_rank k = (k + 2 ^ 63) % 2 ^ 64

unfoldable pub place : NodeMap → NodeId → Node → NodeMap
place [] k n = (k, n) ∷ []
place ((j, o) ∷ m) k n =
    let rest = place m k n in
    if ltb (signed_rank k) (signed_rank j) then (k, n) ∷ (j, o) ∷ m else (j, o) ∷ rest

-- `emplace(k, n)`, with its `.second`
unfoldable pub emplace : NodeMap → NodeId → Node → NodeMap × Bool
emplace m k n = elim (find m k) [ none ↦ (place m k n, true) | some _ ↦ (m, false) ]

unfoldable pub write : NodeMap → NodeId → Node → NodeMap
write [] k n = []
write ((j, o) ∷ m) k n = (if j == k then (j, n) else (j, o)) ∷ write m k n

-- `erase(it)`, at an iterator that stands at `k`
unfoldable pub erase : NodeMap → NodeId → NodeMap
erase [] k = []
erase ((j, o) ∷ m) k = let rest = erase m k in if j == k then rest else (j, o) ∷ rest

find-place :
    (m : NodeMap) (k : NodeId) (n : Node) (j : NodeId)
    → find m k ≡ none
    → find (place m k n) j ≡ (if k == j then some n else find m j)
unfolding find place
find-place [] k n j h = refl
find-place ((i, o) ∷ m) k n j h = ground (arith, find-place m k n j)

pub find-emplace :
    (m : NodeMap) (k : NodeId) (n : Node) (j : NodeId)
    → find m k ≡ none
    → find (emplace m k n).0 j ≡ (if k == j then some n else find m j)
unfolding emplace
find-emplace m k n j h = ground (arith, find-place m k n j)

pub emplace_fresh :
    (m : NodeMap) (k : NodeId) (n o : Node) → find m k ≡ some o → emplace m k n ≡ (m, false)
unfolding emplace
emplace_fresh m k n o h = ground arith

pub find-write :
    (m : NodeMap) (k : NodeId) (n : Node) (j : NodeId)
    → find (write m k n) j ≡ (if k == j then Option.map (λ _. n) (find m k) else find m j)
unfolding find write
find-write [] k n j = ground arith
find-write ((i, p) ∷ m) k n j = ground (arith, find-write m k n j)

pub find-erase :
    (m : NodeMap) (k j : NodeId) → find (erase m k) j ≡ (if k == j then none else find m j)
unfolding find erase
find-erase [] k j = ground arith
find-erase ((i, o) ∷ m) k j = ground (arith, find-erase m k j)
