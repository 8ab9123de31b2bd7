-- ===== src/NameIndex/Save/Sorted.antt =====
-- What the sort and the exclusion of a snapshot (utils/name_index.rs) do to the entry of an id in a list
-- that has at most one.
use workflowy_mcp.Base.{
  ℕ, suc, ◌≤◌, ◌+◌, ◌≡◌, refl, ◌∙◌, false, not, Option, none, some, List, [], ◌∷◌, ◌++◌, All, Text,
  text_eq, text_eq_iff, find, filter, if◌then◌else◌, arith,
}
use workflowy_mcp.NameIndex.Disk.{PersistedEntry}
use workflowy_mcp.NameIndex.Exclude.{has}
use workflowy_mcp.NameIndex.Save.{insert_by_id, sort_by_id}

unfoldable pub find_persisted : Text → List PersistedEntry → Option PersistedEntry
find_persisted id nodes = find (λ n. text_eq n.id id) nodes

unfoldable pub count : Text → List PersistedEntry → ℕ
count id [] = 0
count id (n ∷ nodes) = let rest = count id nodes in if text_eq n.id id then suc rest else rest

pub find-count_zero :
    (id : Text) (nodes : List PersistedEntry) → count id nodes ≡ 0 → find_persisted id nodes ≡ none
unfolding find_persisted count
find-count_zero id [] h = refl
find-count_zero id (n ∷ nodes) h = ground (arith, find-count_zero id nodes)

pub apart-count_zero :
    (id : Text) (nodes : List PersistedEntry)
    → count id nodes ≡ 0
    → All (λ n. text_eq n.id id ≡ false) nodes
unfolding count
apart-count_zero id [] h = tt
apart-count_zero id (n ∷ nodes) h = ground (arith, apart-count_zero id nodes)

pub count-append :
    (id : Text) (xs ys : List PersistedEntry) → count id (xs ++ ys) ≡ count id xs + count id ys
unfolding count
count-append id [] ys = omega arith
count-append id (x ∷ xs) ys = ground (arith, count-append id xs ys)

pub find-append :
    (id : Text) (xs ys : List PersistedEntry)
    → find_persisted id (xs ++ ys)
      ≡ (elim (find_persisted id xs) [ none ↦ find_persisted id ys | some x ↦ some x ])
unfolding find_persisted
find-append id [] ys = refl
find-append id (x ∷ xs) ys = ground (arith, find-append id xs ys)

count-insert_by_id :
    (id : Text) (e : PersistedEntry) (nodes : List PersistedEntry)
    → count id (insert_by_id e nodes) ≡ count id (e ∷ nodes)
unfolding count insert_by_id
count-insert_by_id id e [] = refl
count-insert_by_id id e (n ∷ nodes) = ground (arith, count-insert_by_id id e nodes)

pub count-sort_by_id :
    (id : Text) (nodes : List PersistedEntry) → count id (sort_by_id nodes) ≡ count id nodes
unfolding count sort_by_id
count-sort_by_id id [] = refl
count-sort_by_id id (n ∷ nodes) =
    count-insert_by_id id n (sort_by_id nodes) ∙ ground (arith, count-sort_by_id id nodes)

find-insert_by_id :
    (id : Text) (e : PersistedEntry) (nodes : List PersistedEntry)
    → count id (e ∷ nodes) ≤ 1
    → find_persisted id (insert_by_id e nodes) ≡ find_persisted id (e ∷ nodes)
unfolding count find_persisted insert_by_id
find-insert_by_id id e [] h = refl
find-insert_by_id id e (n ∷ nodes) h =
    ground (arith, find-insert_by_id id e nodes, find-count_zero id nodes)

pub find-sort_by_id :
    (id : Text) (nodes : List PersistedEntry)
    → count id nodes ≤ 1
    → find_persisted id (sort_by_id nodes) ≡ find_persisted id nodes
unfolding count find_persisted sort_by_id
find-sort_by_id id [] h = refl
find-sort_by_id id (n ∷ nodes) h =
    find-insert_by_id id n (sort_by_id nodes) (ground (arith, count-sort_by_id id nodes))
    ∙ ground (arith, find-sort_by_id id nodes)

pub count-withheld :
    (id : Text) (out : List Text) (nodes : List PersistedEntry)
    → count id (filter (λ n. not (has n.id out)) nodes) ≤ count id nodes
unfolding count
count-withheld id out [] = omega arith
count-withheld id out (n ∷ nodes) = ground (arith, count-withheld id out nodes)

pub find-withheld :
    (id : Text) (out : List Text) (nodes : List PersistedEntry)
    → find_persisted id (filter (λ n. not (has n.id out)) nodes)
      ≡ (if has id out then none else find_persisted id nodes)
unfolding find_persisted
find-withheld id out [] = ground arith
find-withheld id out (n ∷ nodes) = ground (arith, find-withheld id out nodes, text_eq_iff n.id id)
