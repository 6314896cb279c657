-- ===== src/Db/NodeMap/Order.antt =====
-- The order of the keys of the map, which are 64-bit patterns.
use graph_store.Prelude.{◌^◌, ◌<◌, ◌≡◌, none, [], ◌∷◌, arith}
use graph_store.Db.Types.{NodeId, Node}
use graph_store.Db.NodeMap.Defs.{NodeMap, find, place, emplace, write, erase, signed_rank}

-- The keys of `m` come after `k`.
abbrev pub Above : NodeId → NodeMap → Type 0
Above k [] = Unit
Above k ((j, _) ∷ m) = (signed_rank k < signed_rank j) × Above k m

abbrev pub IsSorted : NodeMap → Type 0
IsSorted [] = Unit
IsSorted ((k, _) ∷ m) = (k < 2 ^ 64) × Above k m × IsSorted m

Above-trans : (j k : NodeId) (m : NodeMap) → signed_rank j < signed_rank k → Above k m → Above j m
Above-trans j k [] h a = tt
Above-trans j k ((i, n) ∷ m) h a = (omega arith, Above-trans j k m h a.1)

signed_rank-injective :
    (j k : NodeId) → j < 2 ^ 64 → k < 2 ^ 64 → signed_rank j ≡ signed_rank k → j ≡ k
unfolding signed_rank
signed_rank-injective j k hj hk h = omega arith

Above-place :
    (j k : NodeId) (n : Node) (m : NodeMap)
    → signed_rank j < signed_rank k
    → Above j m
    → Above j (place m k n)
unfolding place
Above-place j k n [] h a = (h, tt)
Above-place j k n ((i, o) ∷ m) h a = ground (arith, Above-place j k n m h a.1)

place-IsSorted :
    (m : NodeMap) (k : NodeId) (n : Node)
    → k < 2 ^ 64
    → find m k ≡ none
    → IsSorted m
    → IsSorted (place m k n)
unfolding find place
place-IsSorted [] k n hk h s = (hk, tt, tt)
place-IsSorted ((i, o) ∷ m) k n hk h s = ground (
  arith,
  place-IsSorted m k n hk,
  Above-place i k n m,
  Above-trans k i m,
  signed_rank-injective i k,
)

pub emplace-IsSorted :
    (m : NodeMap) (k : NodeId) (n : Node) → k < 2 ^ 64 → IsSorted m → IsSorted (emplace m k n).0
unfolding emplace
emplace-IsSorted m k n hk s = ground (arith, place-IsSorted m k n hk)

Above-write : (j k : NodeId) (n : Node) (m : NodeMap) → Above j m → Above j (write m k n)
unfolding write
Above-write j k n [] a = tt
Above-write j k n ((i, o) ∷ m) a = ground (arith, Above-write j k n m a.1)

pub write-IsSorted : (m : NodeMap) (k : NodeId) (n : Node) → IsSorted m → IsSorted (write m k n)
unfolding write
write-IsSorted [] k n s = tt
write-IsSorted ((i, o) ∷ m) k n s =
    ground (arith, write-IsSorted m k n s.2, Above-write i k n m s.1)

Above-erase : (j k : NodeId) (m : NodeMap) → Above j m → Above j (erase m k)
unfolding erase
Above-erase j k [] a = tt
Above-erase j k ((i, o) ∷ m) a = ground (arith, Above-erase j k m a.1)

pub erase-IsSorted : (m : NodeMap) (k : NodeId) → IsSorted m → IsSorted (erase m k)
unfolding erase
erase-IsSorted [] k s = tt
erase-IsSorted ((i, o) ∷ m) k s = ground (arith, erase-IsSorted m k s.2, Above-erase i k m s.1)
