-- ===== src/NameIndex/Search.antt =====
-- The searches of the name index (utils/name_index.rs): by name, by time of change, and up the chain of
-- parents. `lookup` takes the name of the match mode, and an unknown one finds nothing.
pub mod Found
pub mod Ancestors
use workflowy_mcp.Base.{
  ℕ, zero, suc, Bool, true, false, Option, none, some, List, [], ◌∷◌, ◌++◌, Text, ascii, text_eq,
  starts_with, contains, Dict, lookup, filter, if◌then◌else◌,
}
use workflowy_mcp.Base.Int.{ℤ, leb_ℤ}
use workflowy_mcp.NameIndex.{NameIndexEntry, NameIndex, lookup_entry_by_id}

-- The entries under the names that are kept, a name after the other.
unfoldable pub gather : (Text → Bool) → Dict (List NameIndexEntry) → List NameIndexEntry
gather keep [] = []
gather keep ((key, entries) ∷ by_name) =
    let rest = gather keep by_name in if keep key then entries ++ rest else rest

module _ (to_lowercase : Text → Text) where
  unfoldable pub lookup_names : Text → Text → NameIndex → List NameIndexEntry
  unfolding ascii text_eq starts_with contains gather lookup
  lookup_names query match_mode index =
      let q = to_lowercase query in
      if text_eq match_mode (ascii "exact")
      then elim (lookup q index.by_name) [ none ↦ [] | some hit ↦ hit ]
      else if text_eq match_mode (ascii "starts_with")
      then gather (λ key. starts_with key q) index.by_name
      else if text_eq match_mode (ascii "contains")
      then gather (λ key. contains key q) index.by_name
      else []

-- `for_each_entry` visits every entry.
unfoldable pub entries_modified_since : ℤ → NameIndex → List NameIndexEntry
unfolding gather
entries_modified_since since_secs index =
    filter (λ e. elim e.last_modified [ none ↦ false | some m ↦ leb_ℤ since_secs m ])
      (gather (λ _. true) index.by_name)

unfoldable pub parent_entry : NameIndex → NameIndexEntry → Option NameIndexEntry
unfolding lookup_entry_by_id
parent_entry index e = elim e.parent_id [ none ↦ none | some pid ↦ lookup_entry_by_id pid index ]

-- The number of entries that a climb looks at before `hops > 32` ends it.
abbrev pub max_entries : ℕ
max_entries = 33

-- The loop of `path_of`, with the names so far, the highest first.
unfoldable pub climb : ℕ → Option NameIndexEntry → List Text → NameIndex → List Text
unfolding parent_entry
climb zero current segments index = segments
climb (suc left) none segments index = segments
climb (suc left) (some e) segments index =
    climb left (parent_entry index e) (e.name ∷ segments) index

unfoldable pub path_of : Text → NameIndex → List Text
unfolding lookup_entry_by_id climb
path_of node_id index = climb max_entries (lookup_entry_by_id node_id index) [] index

-- The loop of `is_descendant_of`.
unfoldable pub ascend : ℕ → Option NameIndexEntry → Text → NameIndex → Bool
unfolding text_eq lookup_entry_by_id
ascend zero current ancestor_id index = false
ascend (suc left) none ancestor_id index = false
ascend (suc left) (some e) ancestor_id index = elim e.parent_id [
  | none ↦ false
  | some pid ↦ elim (text_eq pid ancestor_id) [
    | true ↦ true
    | false ↦ ascend left (lookup_entry_by_id pid index) ancestor_id index
  ]
]

unfoldable pub is_descendant_of : Text → Text → NameIndex → Bool
unfolding lookup_entry_by_id ascend
is_descendant_of node_id ancestor_id index =
    ascend max_entries (lookup_entry_by_id node_id index) ancestor_id index
