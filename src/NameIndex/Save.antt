-- ===== src/NameIndex/Save.antt =====
-- How the name index is written (utils/name_index.rs): `snapshot` and `save_to_disk`. The excluded
-- tokens, the clock, what the file holds and the answers of the file system are arguments.
pub mod Sorted
pub mod Collected
pub mod Complete
use workflowy_mcp.Base.{
  ℕ, Bool, true, false, not, Option, none, some, List, [], ◌∷◌, ◌++◌, map, Text, text_eq, Dict,
  filter, ltb, ◌==◌, if◌then◌else◌,
}
use workflowy_mcp.NameIndex.{NameIndexEntry, NameIndex}
use workflowy_mcp.NameIndex.Disk.{
  PersistedEntry, PersistedSnapshot, SnapshotFile, missing, not_readable, IoResult, io_ok, io_err,
  persist_schema_version, merge_from_disk,
}
use workflowy_mcp.NameIndex.Exclude.{excluded_ids, has}

abbrev pub persisted : NameIndexEntry → PersistedEntry
persisted e = record {
  id = e.node_id;
  name = e.name;
  parent_id = e.parent_id;
  description = e.description;
  last_modified = e.last_modified;
}

-- The two loops over `by_name.values()` and their entries.
unfoldable pub all_entries : Dict (List NameIndexEntry) → List PersistedEntry
all_entries [] = []
all_entries ((key, entries) ∷ by_name) = map persisted entries ++ all_entries by_name

-- `a.cmp(b)` on strings: by bytes, a prefix first
unfoldable pub text_leb : Text → Text → Bool
text_leb [] t = true
text_leb (a ∷ s) [] = false
text_leb (a ∷ s) (b ∷ t) = if ltb a b then true else if a == b then text_leb s t else false

-- `nodes.sort_by(|a, b| a.id.cmp(&b.id))`, which is stable
unfoldable pub insert_by_id : PersistedEntry → List PersistedEntry → List PersistedEntry
unfolding text_leb
insert_by_id e [] = e ∷ []
insert_by_id e (f ∷ fs) =
    let rest = insert_by_id e fs in if text_leb e.id f.id then e ∷ f ∷ fs else f ∷ rest

unfoldable pub sort_by_id : List PersistedEntry → List PersistedEntry
unfolding insert_by_id
sort_by_id [] = []
sort_by_id (e ∷ es) = insert_by_id e (sort_by_id es)

-- None when the walk of the excluded ids has not enough fuel.
unfoldable pub snapshot_of : List Text → ℕ → NameIndex → Option PersistedSnapshot
unfolding all_entries sort_by_id excluded_ids text_eq
snapshot_of tokens now index =
    let nodes = all_entries index.by_name in
    elim (excluded_ids tokens nodes) [
      | none ↦ none
      | some excluded ↦ some record {
        version = persist_schema_version;
        updated_at = now;
        nodes = sort_by_id (filter (λ n. not (has n.id excluded)) nodes);
      }
    ]

-- What a save leaves: the index, the file if it was replaced, and the answer.
pub record Saved : Type 0 where
  pub index : NameIndex
  pub written : Option PersistedSnapshot
  pub answer : IoResult Bool

module _ (to_lowercase : Text → Text) (tokens : List Text) (now : ℕ) where
  -- The read, the merge and the write under the lock; `failure` is what the file system says of the
  -- folder and the lock, or of the write and the rename.
  unfoldable pub save_to_disk : Option SnapshotFile → Option Text → Option Text → NameIndex → Saved
  unfolding merge_from_disk snapshot_of
  save_to_disk none lock_failure write_failure index = record {
    index = index;
    written = none;
    answer = io_ok true;
  }
  save_to_disk (some file) (some e) write_failure index = record {
    index = index;
    written = none;
    answer = io_err e;
  }
  save_to_disk (some file) none write_failure index =
      elim (merge_from_disk to_lowercase file index) [
        | io_err e ↦ record { index = index; written = none; answer = io_err e }
        | io_ok merged ↦ elim write_failure [
          | some e ↦ record { index = merged; written = none; answer = io_err e }
          | none ↦ record {
            index = record merged { dirty = false; tombstones = [] };
            written = snapshot_of tokens now merged;
            answer = io_ok true;
          }
        ]
      ]
