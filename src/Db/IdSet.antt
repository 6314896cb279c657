-- ===== src/Db/IdSet.antt =====
-- std::unordered_set<NodeId>, as src/db/types.h uses it: a list with no repetition. An iteration
-- may take any order; a list shows one of them.
use graph_store.Prelude.{
  ℕ, ◌≡◌, Bool, true, false, not, ◌&&◌, ◌||◌, List, [], ◌∷◌, ◌++◌, refl, arith, ◌==◌, if◌then◌else◌,
}

-- `find(a) != end()`
unfoldable pub contains : ℕ → List ℕ → Bool
contains a [] = false
contains a (x ∷ xs) = x == a || contains a xs

-- `insert(a)`, with its `.second`
unfoldable pub insert : ℕ → List ℕ → List ℕ × Bool
insert a xs = if contains a xs then (xs, false) else (a ∷ xs, true)

-- `erase(it)`, at an iterator that stands at `a`
unfoldable pub erase : ℕ → List ℕ → List ℕ
erase a [] = []
erase a (x ∷ xs) = let rest = erase a xs in if x == a then rest else x ∷ rest

abbrev pub IsNodup : List ℕ → Type 0
IsNodup [] = Unit
IsNodup (x ∷ xs) = (contains x xs ≡ false) × IsNodup xs

pub contains-insert :
    (b a : ℕ) (xs : List ℕ) → contains b (insert a xs).0 ≡ (a == b || contains b xs)
unfolding insert contains
contains-insert b a xs = ground arith

pub insert_fresh : (a : ℕ) (xs : List ℕ) → (insert a xs).1 ≡ not (contains a xs)
unfolding insert
insert_fresh a xs = ground arith

pub contains-erase :
    (b a : ℕ) (xs : List ℕ) → contains b (erase a xs) ≡ (not (a == b) && contains b xs)
unfolding erase contains
contains-erase b a [] = ground arith
contains-erase b a (x ∷ xs) = ground (arith, contains-erase b a xs)

pub insert-IsNodup : (a : ℕ) (xs : List ℕ) → IsNodup xs → IsNodup (insert a xs).0
unfolding insert
insert-IsNodup a xs h = ground arith

pub erase-IsNodup : (a : ℕ) (xs : List ℕ) → IsNodup xs → IsNodup (erase a xs)
unfolding erase contains
erase-IsNodup a [] h = tt
erase-IsNodup a (x ∷ xs) h = ground (arith, erase-IsNodup a xs h.1, contains-erase x a xs)

pub contains-append :
    (m : ℕ) (xs ys : List ℕ) → contains m (xs ++ ys) ≡ (contains m xs || contains m ys)
unfolding contains
contains-append m [] ys = refl
contains-append m (x ∷ xs) ys = ground (arith, contains-append m xs ys)
