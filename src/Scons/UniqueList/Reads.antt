-- ===== src/Scons/UniqueList/Reads.antt =====
-- What a `UniqueList` holds, whenever it is read.
use graph_store.Prelude.{
  ◌≡◌, refl, sym, ◌∙◌, ap, inl, inr, true, false, List, [], ◌∷◌, ◌++◌, arith, ==_refl, Bool-cases,
}
use mathlib.Core.List.{append-nil, append_assoc}
use graph_store.Db.IdSet
use graph_store.Db.IdSet.{IsNodup, contains-append}
use graph_store.Scons.Node.{NodeId}
use graph_store.Scons.Executor.{unique_from, uniquer_hashables}
use graph_store.Scons.Executor.Unique.{contains_unique, unique_from-IsNodup}
use graph_store.Scons.UniqueList.{UniqueList, make_unique, extend, append}

-- Only the members of the set of seen items count.
pub unique_from_members :
    (a b seq : List NodeId)
    → ((m : NodeId) → IdSet.contains m a ≡ IdSet.contains m b)
    → unique_from a seq ≡ unique_from b seq
unfolding unique_from IdSet.contains
unique_from_members a b [] h = refl
unique_from_members a b (x ∷ seq) h =
    let h' : (m : NodeId) → IdSet.contains m (x ∷ a) ≡ IdSet.contains m (x ∷ b) =
      λ m. ground (arith, h m) in
    elim (Bool-cases (IdSet.contains x a)) [
      | inl e ↦ ground (arith, e, h x, unique_from_members a b seq h)
      | inr e ↦ ground (arith, e, h x, unique_from_members (x ∷ a) (x ∷ b) seq h')
    ]

pub unique_from-append :
    (seen xs ys : List NodeId)
    → unique_from seen (xs ++ ys) ≡ unique_from seen xs ++ unique_from (xs ++ seen) ys
unfolding unique_from IdSet.contains
unique_from-append seen [] ys = refl
unique_from-append seen (x ∷ xs) ys = elim (Bool-cases (IdSet.contains x seen)) [
  | inl e ↦
      let s : unique_from (x ∷ (xs ++ seen)) ys ≡ unique_from (xs ++ seen) ys =
        unique_from_members (x ∷ (xs ++ seen)) (xs ++ seen) ys
          (λ m. ground (arith, e, contains-append m xs seen)) in
      ground (arith, e, s, unique_from-append seen xs ys)
  | inr e ↦
      let s : unique_from (x ∷ (xs ++ seen)) ys ≡ unique_from (xs ++ x ∷ seen) ys =
        unique_from_members (x ∷ (xs ++ seen)) (xs ++ x ∷ seen) ys
          (λ m. ground (arith, contains-append m xs seen, contains-append m xs (x ∷ seen))) in
      ground (arith, e, s, unique_from-append (x ∷ seen) xs ys)
]

unique_from_again :
    (seen seq : List NodeId) → unique_from seen (unique_from seen seq) ≡ unique_from seen seq
unfolding unique_from
unique_from_again seen [] = refl
unique_from_again seen (x ∷ seq) = elim (Bool-cases (IdSet.contains x seen)) [
  | inl e ↦ ground (arith, e, unique_from_again seen seq)
  | inr e ↦ ground (arith, e, unique_from_again (x ∷ seen) seq)
]

pub unique_from-IsNodup_same :
    (seen seq : List NodeId)
    → IsNodup seq
    → ((m : NodeId) → IdSet.contains m seq ≡ true → IdSet.contains m seen ≡ false)
    → unique_from seen seq ≡ seq
unfolding unique_from IdSet.contains
unique_from-IsNodup_same seen [] d h = refl
unique_from-IsNodup_same seen (x ∷ seq) d h =
    let out : IdSet.contains x seen ≡ false = h x (ground (arith, ==_refl x)) in
    let h' : (m : NodeId) → IdSet.contains m seq ≡ true → IdSet.contains m (x ∷ seen) ≡ false =
      λ m i. ground (arith, h m, d.0, i) in
    ground (arith, out, unique_from-IsNodup_same (x ∷ seen) seq d.1 h')

pub no_repeat : (seq : List NodeId) → IsNodup seq → uniquer_hashables seq ≡ seq
unfolding uniquer_hashables IdSet.contains
no_repeat seq d = unique_from-IsNodup_same [] seq d (λ m i. refl)

-- Dropping repetitions early makes no difference.
uniquer_again :
    (xs ys : List NodeId)
    → uniquer_hashables (uniquer_hashables xs ++ ys) ≡ uniquer_hashables (xs ++ ys)
unfolding uniquer_hashables IdSet.contains
uniquer_again xs ys =
    let u : List NodeId = unique_from [] xs in
    let s : unique_from (u ++ []) ys ≡ unique_from (xs ++ []) ys =
      unique_from_members (u ++ []) (xs ++ []) ys (λ m.
        ground (arith, contains-append m u [], contains-append m xs [], contains_unique m [] xs)) in
    ground
      (arith, s, unique_from-append [] u ys, unique_from-append [] xs ys, unique_from_again [] xs)

-- A list that says that it is unique has no repetition.
abbrev pub IsHonest : UniqueList → Type 0
IsHonest l = l.unique ≡ true → IsNodup l.data'

make_unique-data : (l : UniqueList) → IsHonest l → (make_unique l).data' ≡ uniquer_hashables l.data'
unfolding make_unique
make_unique-data l h = elim (Bool-cases l.unique) [
  | inr e ↦ ground (arith, e)
  | inl e ↦ ground (arith, e, no_repeat l.data' (h e))
]

-- A change, or a read in between.
pub data Use : Type 0 where
  extends : List NodeId → Use
  appends : NodeId → Use
  reads : Use

abbrev pub use_list : UniqueList → Use → UniqueList
use_list l (extends other) = extend l other
use_list l (appends item) = append l item
use_list l reads = make_unique l

abbrev pub use_all : UniqueList → List Use → UniqueList
use_all l [] = l
use_all l (u ∷ uses) = use_all (use_list l u) uses

-- The items that come to the list, in order.
abbrev pub added : List Use → List NodeId
added [] = []
added (extends other ∷ uses) = other ++ added uses
added (appends item ∷ uses) = item ∷ added uses
added (reads ∷ uses) = added uses

use_list-IsHonest : (l : UniqueList) (u : Use) → IsHonest l → IsHonest (use_list l u)
unfolding extend append make_unique uniquer_hashables
use_list-IsHonest l (extends other) h e = absurd (ground (arith, e))
use_list-IsHonest l (appends item) h e = absurd (ground (arith, e))
use_list-IsHonest l reads h e = elim (Bool-cases l.unique) [
  | inl i ↦ ground (arith, i, h i)
  | inr i ↦ ground (arith, i, unique_from-IsNodup [] l.data')
]

-- Through any sequence of `extend`, `append` and reads, a list that starts without repetition reads
-- as the first occurrences, in order, of the items that it started with and those that came to it:
-- the reads in between make no difference.
pub use_all-uniquer_hashables :
    (l : UniqueList) (uses : List Use)
    → IsHonest l
    → (make_unique (use_all l uses)).data' ≡ uniquer_hashables (l.data' ++ added uses)
unfolding extend append
use_all-uniquer_hashables l [] h =
    make_unique-data l h ∙ ap uniquer_hashables (sym (append-nil l.data'))
use_all-uniquer_hashables l (extends other ∷ uses) h =
    use_all-uniquer_hashables (extend l other) uses (use_list-IsHonest l (extends other) h)
    ∙ ap uniquer_hashables (append_assoc l.data' other (added uses))
use_all-uniquer_hashables l (appends item ∷ uses) h =
    use_all-uniquer_hashables (append l item) uses (use_list-IsHonest l (appends item) h)
    ∙ ap uniquer_hashables (append_assoc l.data' (item ∷ []) (added uses))
use_all-uniquer_hashables l (reads ∷ uses) h =
    use_all-uniquer_hashables (make_unique l) uses (use_list-IsHonest l reads h)
    ∙ ap (λ d. uniquer_hashables (d ++ added uses)) (make_unique-data l h)
    ∙ uniquer_again l.data' (added uses)
