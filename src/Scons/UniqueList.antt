-- ===== src/Scons/UniqueList.antt =====
-- `UniqueList` of scons/scons-local-2.5.0/SCons/Util.py, over nodes: the operations that the engine
-- and the scanners use, and those that read.
pub mod Reads
use graph_store.Prelude.{
  ℕ, zero, suc, Bool, true, false, List, [], ◌∷◌, ◌++◌, Option, none, some, length, get_elem?, ◌==◌,
  ◌&&◌, if◌then◌else◌,
}
use graph_store.Scons.Node.{NodeId}
use graph_store.Scons.Executor.{uniquer_hashables}
use graph_store.Scons.Taskmaster.State

pub record UniqueList : Type 0 where
  pub data' : List NodeId
  pub unique : Bool

unfoldable pub new_list : List NodeId → UniqueList
new_list seq = record { data' = seq; unique = true }

unfoldable pub make_unique : UniqueList → UniqueList
make_unique l =
    if l.unique then l else (record { data' = uniquer_hashables l.data'; unique = true })

-- `data'` is the attribute `data`. `append` is `extend` with one item, and `+=` is `extend`.
unfoldable pub extend : UniqueList → List NodeId → UniqueList
extend l other = record { data' = l.data' ++ other; unique = false }

unfoldable pub append : UniqueList → NodeId → UniqueList
append l item = record { data' = l.data' ++ item ∷ []; unique = false }

-- `other + self`
unfoldable pub add_to : List NodeId → UniqueList → UniqueList
add_to other l = record { data' = other ++ l.data'; unique = false }

unfoldable pub repeat : List NodeId → ℕ → List NodeId
repeat l zero = []
repeat l (suc n) = l ++ repeat l n

-- `self * n`
unfoldable pub multiply : UniqueList → ℕ → UniqueList
unfolding repeat
multiply l n = record { data' = repeat l.data' n; unique = false }

unfoldable pub replace : List NodeId → ℕ → NodeId → Option (List NodeId)
replace [] i item = none
replace (x ∷ xs) zero item = some (item ∷ xs)
replace (x ∷ xs) (suc i) item = elim (replace xs i item) [ none ↦ none | some ys ↦ some (x ∷ ys) ]

-- `self[i] = item`; `none` is an `IndexError`
unfoldable pub set_item : UniqueList → ℕ → NodeId → Option UniqueList
unfolding replace
set_item l i item = elim (replace l.data' i item) [
  | none ↦ none
  | some xs ↦ some (record { data' = xs; unique = false })
]

-- A read gives the list behind it, too.
unfoldable pub get_length : UniqueList → UniqueList × ℕ
unfolding make_unique
get_length l = (make_unique l, length (make_unique l).data')

unfoldable pub get_item : UniqueList → ℕ → UniqueList × Option NodeId
unfolding make_unique
get_item l i = (make_unique l, get_elem? (make_unique l).data' i)

unfoldable pub occurrences : NodeId → List NodeId → ℕ
occurrences item [] = 0
occurrences item (x ∷ xs) = let rest = occurrences item xs in if x == item then suc rest else rest

unfoldable pub count : UniqueList → NodeId → UniqueList × ℕ
unfolding make_unique occurrences
count l item = (make_unique l, occurrences item (make_unique l).data')

-- `self + other`
unfoldable pub add : UniqueList → List NodeId → UniqueList
add l other = record { data' = l.data' ++ other; unique = false }

unfoldable pub equal_lists : (xs ys : List NodeId) → Bool
equal_lists [] [] = true
equal_lists [] (y ∷ ys) = false
equal_lists (x ∷ xs) [] = false
equal_lists (x ∷ xs) (y ∷ ys) = x == y && equal_lists xs ys

-- `self == other`
unfoldable pub is_equal : UniqueList → List NodeId → UniqueList × Bool
unfolding make_unique equal_lists
is_equal l other = (make_unique l, equal_lists (make_unique l).data' other)

unfoldable pub take : ℕ → List NodeId → List NodeId
take n [] = []
take zero (x ∷ xs) = []
take (suc n) (x ∷ xs) = x ∷ take n xs

unfoldable pub drop : ℕ → List NodeId → List NodeId
drop n [] = []
drop zero (x ∷ xs) = x ∷ xs
drop (suc n) (x ∷ xs) = drop n xs

-- `self[i:j]` with bounds that are not negative
unfoldable pub get_slice : UniqueList → (i j : ℕ) → UniqueList × List NodeId
unfolding make_unique take drop
get_slice l i j = (make_unique l, drop i (take j (make_unique l).data'))

unfoldable pub position : NodeId → List NodeId → Option ℕ
position item [] = none
position item (x ∷ xs) =
    let rest = position item xs in
    if x == item then some 0 else (elim rest [ none ↦ none | some i ↦ some (suc i) ])

-- `none` is a `ValueError`.
unfoldable pub index : UniqueList → NodeId → UniqueList × Option ℕ
unfolding make_unique position
index l item = (make_unique l, position item (make_unique l).data')

unfoldable pub reverse : UniqueList → UniqueList
unfolding make_unique State.extend
reverse l = record (make_unique l) { data' = State.extend (make_unique l).data' [] }
