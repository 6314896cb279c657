-- ===== src/Db/Checkpoint/Entries.antt =====
-- The entries of the image that src/db/checkpoint_manager.cc writes of a well-formed store.
use graph_store.Prelude.{
  ◌^◌, ◌<◌, ◌≡◌, refl, ◌∙◌, sym, Bool, true, false, ◌||◌, none, List, [], ◌∷◌, arith, ==_refl,
  Bool-cases, inl, inr,
}
use graph_store.Db.IdSet
use graph_store.Db.Types
use graph_store.Db.Types.{NodeId, Node}
use graph_store.Db.NodeMap
use graph_store.Db.NodeMap.{NodeMap, IsSorted, Above}
use graph_store.Db.MemoryStore.View.{has, linked}
use graph_store.Db.MemoryStore.Invariant.{IsWf}
use graph_store.Db.Checkpoint.Restore.{names, joined, AllIds, AllEntries}

find-Above : (k : NodeId) (m : NodeMap) → Above k m → NodeMap.find m k ≡ none
unfolding NodeMap.find
find-Above k [] h = refl
find-Above k ((j, n) ∷ m) (lt, h) = ground (arith, find-Above k m h)

pub joined-linked : (m : NodeMap) (a b : NodeId) → IsSorted m → joined m a b ≡ linked m a b
unfolding linked NodeMap.find Types.has_edge
joined-linked [] a b h = refl
joined-linked ((k, n) ∷ m) a b (hk, above, h) =
    ground (arith, joined-linked m a b h, find-Above k m above)

has-lt : (m : NodeMap) (x : NodeId) → IsSorted m → has m x ≡ true → x < 2 ^ 64
unfolding has NodeMap.find
has-lt [] x h e = cc
has-lt ((k, n) ∷ m) x (hk, above, h) e = ground (arith, has-lt m x h)

-- Some node of the entries has an edge to the id.
abbrev mentioned : NodeMap → NodeId → Bool
mentioned [] x = false
mentioned ((k, n) ∷ m) x = IdSet.contains x n.edges || mentioned m x

names-mentioned : (m : NodeMap) (x : NodeId) → names m x ≡ (has m x || mentioned m x)
unfolding has NodeMap.find
names-mentioned [] x = refl
names-mentioned ((k, n) ∷ m) x = ground (arith, names-mentioned m x)

mentioned-joined :
    (m : NodeMap) (x : NodeId) → mentioned m x ≡ true → (k : NodeId) × (joined m k x ≡ true)
mentioned-joined [] x h = cc
mentioned-joined ((k, n) ∷ m) x h = elim (Bool-cases (IdSet.contains x n.edges)) [
  | inl here ↦ (k, ground (arith, ==_refl k))
  | inr there ↦ let (j, e) = mentioned-joined m x (ground (arith, h)) in (j, ground (arith, e))
]

-- Both ends of an edge are nodes.
linked-has : (m : NodeMap) (a b : NodeId) → IsWf m → linked m a b ≡ true → has m b ≡ true
unfolding linked has
linked-has m a b wf h = ground (arith, wf.symmetric a b)

pub names-has : (m : NodeMap) (x : NodeId) → IsWf m → names m x ≡ has m x
names-has m x wf = elim (Bool-cases (mentioned m x)) [
  | inl yes_ ↦
      let (k, e) = mentioned-joined m x yes_ in
      let there = linked-has m k x wf (sym (joined-linked m k x wf.sorted) ∙ e) in
      names-mentioned m x ∙ ground (arith, there)
  | inr no_ ↦ names-mentioned m x ∙ ground (arith, no_)
]

all-AllIds :
    (xs : List NodeId) → ((x : NodeId) → IdSet.contains x xs ≡ true → x < 2 ^ 64) → AllIds xs
unfolding IdSet.contains
all-AllIds [] h = tt
all-AllIds (x ∷ xs) h =
    (h x (ground (arith, ==_refl x)), all-AllIds xs (λ y e. h y (ground (arith, e))))

all-AllEntries :
    (m : NodeMap) → IsSorted m → ((k x : NodeId) → joined m k x ≡ true → x < 2 ^ 64) → AllEntries m
all-AllEntries [] s h = tt
all-AllEntries ((k, n) ∷ m) (hk, above, s) h = (
  hk,
  (
    all-AllIds n.edges (λ x e. h k x (ground (arith, e, ==_refl k))),
    all-AllEntries m s (λ j x e. h j x (ground (arith, e))),
  ),
)

pub image-AllEntries : (m : NodeMap) → IsWf m → AllEntries m
image-AllEntries m wf =
    all-AllEntries m wf.sorted (λ k x e.
      has-lt m x wf.sorted (linked-has m k x wf (sym (joined-linked m k x wf.sorted) ∙ e)))
