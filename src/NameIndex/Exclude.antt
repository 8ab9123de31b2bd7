-- ===== src/NameIndex/Exclude.antt =====
-- The ids that are withheld from the file of the name index (utils/name_index.rs, `excluded_ids`): the
-- walk down from the excluded roots. A stack has its top first. The ids are ASCII, so that the slice
-- of the last twelve bytes is one of twelve characters.
pub mod Closure
use workflowy_mcp.Base.{
  ℕ, zero, suc, ◌-◌, ◌*◌, Bool, true, false, ◌&&◌, ◌||◌, Option, none, some, List, [], ◌∷◌, ◌++◌,
  map, Text, text_eq, ascii_lower, Dict, lookup, insert, length, drop, any, leb, ◌==◌,
  if◌then◌else◌,
}
use workflowy_mcp.NameIndex.{short_hash_len_url}
use workflowy_mcp.NameIndex.Disk.{PersistedEntry}

unfoldable pub eq_ignore_ascii_case : Text → Text → Bool
unfolding text_eq ascii_lower
eq_ignore_ascii_case s t = text_eq (map ascii_lower s) (map ascii_lower t)

-- The closure `is_match`: a whole id, or its last twelve characters.
unfoldable pub is_match : List Text → Text → Bool
unfolding eq_ignore_ascii_case
is_match tokens id =
    any
      (λ t.
        eq_ignore_ascii_case id t
        || (length t == short_hash_len_url
            && leb short_hash_len_url (length id)
            && eq_ignore_ascii_case (drop (length id - short_hash_len_url) id) t))
      tokens

-- `children.get(id)`, where a missing key has no children
unfoldable pub children_of : Text → Dict (List Text) → List Text
unfolding lookup
children_of id children = elim (lookup id children) [ none ↦ [] | some kids ↦ kids ]

-- `children.entry(p).or_default().push(id)`
unfoldable pub push_child : Text → Text → Dict (List Text) → Dict (List Text)
unfolding insert children_of
push_child p id children = insert p (children_of p children ++ id ∷ []) children

abbrev pub push_if : Bool → Text → List Text → List Text
push_if b id stack = if b then id ∷ stack else stack

-- The loop over the nodes, with the map of children and the stack so far.
unfoldable pub seed :
    List Text → List PersistedEntry → Dict (List Text) → List Text → Dict (List Text) × List Text
unfolding is_match push_child
seed tokens [] children stack = (children, stack)
seed tokens (n ∷ nodes) children stack = elim n.parent_id [
  | none ↦ seed tokens nodes children (push_if (is_match tokens n.id) n.id stack)
  | some p ↦
      seed tokens nodes (push_child p n.id children)
        (push_if (is_match tokens n.id) n.id (push_if (is_match tokens p) n.id stack))
]

-- `stack.extend(…)`
unfoldable pub push_all : List Text → List Text → List Text
push_all [] stack = stack
push_all (id ∷ ids) stack = push_all ids (id ∷ stack)

-- A hash set of ids is a list; `insert` says whether the id is new.
abbrev pub has : Text → List Text → Bool
has id ids = any (text_eq id) ids

-- The `while` loop; none when the fuel is not enough.
unfoldable pub walk : ℕ → Dict (List Text) → List Text → List Text → Option (List Text)
unfolding text_eq children_of push_all
walk fuel children [] out = some out
walk zero children (id ∷ stack) out = none
walk (suc fuel) children (id ∷ stack) out = elim (has id out) [
  | true ↦ walk fuel children stack out
  | false ↦ walk fuel children (push_all (children_of id children) stack) (id ∷ out)
]

-- Each node is pushed twice as a seed and once as a child.
unfoldable pub excluded_ids : List Text → List PersistedEntry → Option (List Text)
unfolding seed walk
excluded_ids [] nodes = some []
excluded_ids (t ∷ tokens) nodes =
    let (children, stack) = seed (t ∷ tokens) nodes [] [] in
    walk (3 * length nodes) children stack []
