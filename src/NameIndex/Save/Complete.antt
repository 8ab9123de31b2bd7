-- ===== src/NameIndex/Save/Complete.antt =====
-- What a save of the name index (utils/name_index.rs) leaves to the process that loads the file.
use mathlib.Core.Path.{subst}
use workflowy_mcp.Base.{
  ℕ, ◌≤◌, ◌≡◌, ◌⊎◌, refl, sym, ap, ◌∙◌, Bool, true, false, not, none, some, List, [], ◌∷◌, map, All,
  Text, text_eq, text_eq_iff, lookup, filter, length, Bool-cases, inl, inr, arith,
}
use workflowy_mcp.Types.{WorkflowyNode}
use workflowy_mcp.NameIndex.{
  NameIndex, new_index, ingest_changed, ingest_nodes, ingest, is_redundant, lookup_entry_by_id,
}
use workflowy_mcp.NameIndex.Valid.{IsValid, new_index-IsValid}
use workflowy_mcp.NameIndex.Ingest.{ingest_changed-IsValid, lookup-ingest_changed}
use workflowy_mcp.NameIndex.Reachable.{Reachable, ingested}
use workflowy_mcp.NameIndex.Lookup.{entry_of-ingest_changed}
use workflowy_mcp.NameIndex.Merge.{others-ingest_nodes, merged_is}
use workflowy_mcp.NameIndex.Disk.{
  PersistedEntry, PersistedSnapshot, snapshot, SnapshotFile, missing, not_readable, malformed,
  adopted, io_ok, load_from_disk, merge_from_disk, node_of,
}
use workflowy_mcp.NameIndex.Exclude.{has}
use workflowy_mcp.NameIndex.Exclude.Closure.{IsExcluded, excluded_ids_lem}
use workflowy_mcp.NameIndex.Save.{all_entries, sort_by_id, snapshot_of, save_to_disk}
use workflowy_mcp.NameIndex.Save.Sorted.{
  find_persisted, count, apart-count_zero, count-sort_by_id, find-sort_by_id, count-withheld,
  find-withheld,
}
use workflowy_mcp.NameIndex.Save.Collected.{
  read_entry, read-written, find-nil, find-head, find-rest, count-once, count-tail, collected,
}

module _ (to_lowercase : Text → Text) where
  entry_absent :
      (index : NameIndex) (id : Text)
      → lookup id index.by_id ≡ none
      → lookup_entry_by_id id index ≡ none
  unfolding lookup_entry_by_id
  entry_absent index id h = rw (h, lookup_entry_by_id)

  not_redundant :
      (node : WorkflowyNode) (index : NameIndex)
      → lookup node.id index.by_id ≡ none
      → is_redundant to_lowercase index node ≡ false
  unfolding is_redundant
  not_redundant node index h = rw (h, is_redundant)

  apart-nodes :
      (id : Text) (nodes : List PersistedEntry)
      → All (λ n. text_eq n.id id ≡ false) nodes
      → All (λ n. text_eq n.id id ≡ false) (map node_of nodes)
  apart-nodes id [] h = tt
  apart-nodes id (n ∷ nodes) h = (h.0, apart-nodes id nodes h.1)

  -- A list that has an id at most once, ingested where the id is not indexed.
  found-ingest_nodes :
      (nodes : List PersistedEntry) (index : NameIndex) (changed : Bool) (id : Text)
      → IsValid to_lowercase index
      → lookup id index.by_id ≡ none
      → count id nodes ≤ 1
      → lookup_entry_by_id id (ingest_nodes to_lowercase (map node_of nodes) index changed).0
        ≡ read_entry (find_persisted id nodes)
  unfolding ingest_nodes
  found-ingest_nodes [] index changed id valid h one = entry_absent index id h ∙ rw (find-nil id)
  found-ingest_nodes (n ∷ nodes) index changed id valid h one =
      elim (Bool-cases (text_eq n.id id)) [
        | inl same ↦
            let equal : n.id ≡ id = ground (arith, same, text_eq_iff n.id id) in
            let new = not_redundant (node_of n) index (ap (λ j. lookup j index.by_id) equal ∙ h) in
            rw (new, ingest_nodes)
              (others-ingest_nodes to_lowercase (map node_of nodes)
                  (ingest_changed to_lowercase (node_of n) index) true id
                  (ingest_changed-IsValid to_lowercase (node_of n) index valid)
                  (apart-nodes id nodes
                    (apart-count_zero id nodes (count-once id n nodes same one)))
                ∙ ap (λ j. lookup_entry_by_id j (ingest_changed to_lowercase (node_of n) index))
                    (sym equal)
                ∙ entry_of-ingest_changed to_lowercase (node_of n) index valid
                ∙ rw (find-head id n nodes same))
        | inr other ↦
            rw (find-rest id n nodes other)
              (elim (Bool-cases (is_redundant to_lowercase index (node_of n))) [
                | inl old ↦
                    rw (old, ingest_nodes)
                      (found-ingest_nodes nodes index changed id valid h
                        (count-tail id n nodes one))
                | inr new ↦
                    rw (new, ingest_nodes)
                      (found-ingest_nodes nodes (ingest_changed to_lowercase (node_of n) index) true
                        id (ingest_changed-IsValid to_lowercase (node_of n) index valid)
                        (lookup-ingest_changed to_lowercase (node_of n) index id ∙ rw other h)
                        (count-tail id n nodes one))
              ])
      ]

  found-load :
      (nodes : List PersistedEntry) (id : Text)
      → count id nodes ≤ 1
      → lookup_entry_by_id id
          (record (ingest to_lowercase (map node_of nodes) new_index) { dirty = false })
        ≡ read_entry (find_persisted id nodes)
  unfolding ingest lookup lookup_entry_by_id
  found-load nodes id one =
      let found =
        found-ingest_nodes nodes new_index false id (new_index-IsValid to_lowercase) refl one in
      elim (Bool-cases (ingest_nodes to_lowercase (map node_of nodes) new_index false).1) [
        | inl changed ↦ rw (changed, ingest) found
        | inr same ↦ rw (same, ingest) found
      ]

  -- What a process that starts from a snapshot knows of an id.
  abbrev pub IsRestored : List Text → NameIndex → Text → NameIndex → Type 0
  IsRestored tokens index id loaded =
      (IsExcluded tokens (all_entries index.by_name) id × (lookup_entry_by_id id loaded ≡ none))
      ⊎ ((¬ IsExcluded tokens (all_entries index.by_name) id)
          × (lookup_entry_by_id id loaded ≡ lookup_entry_by_id id index))

  snapshot_of-load_from_disk :
      (tokens : List Text) (now : ℕ) (index : NameIndex) (id : Text)
      → Reachable to_lowercase index
      → (snap : PersistedSnapshot) × (snapshot_of tokens now index ≡ some snap)
        × (n : ℕ) × (loaded : NameIndex) × (load_from_disk to_lowercase
              (some (snapshot snap))
              new_index
            ≡ io_ok (n, loaded))
        × IsRestored tokens index id loaded
  unfolding snapshot_of load_from_disk
  snapshot_of-load_from_disk tokens now index id r =
      let nodes = all_entries index.by_name in
      let (out, ended, exact) = excluded_ids_lem tokens nodes in
      let (found, one) = collected to_lowercase index id r in
      let kept = filter (λ n. not (has n.id out)) nodes in
      let few : count id kept ≤ 1 = omega (arith, count-withheld id out nodes) in
      let back =
        found-load (sort_by_id kept) id (omega (arith, count-sort_by_id id kept))
        ∙ ap read_entry (find-sort_by_id id kept few ∙ find-withheld id out nodes) in
      (
        record { version = 3; updated_at = now; nodes = sort_by_id kept },
        rw (ended, snapshot_of),
        length (sort_by_id kept),
        record (ingest to_lowercase (map node_of (sort_by_id kept)) new_index) { dirty = false },
        refl,
        elim (Bool-cases (has id out)) [
          | inl h ↦ inl ((exact id).0 h, back ∙ rw h)
          | inr h ↦ inr (
            λ d. cc (sym h ∙ (exact id).1 d),
            back ∙ rw h (ap read_entry found ∙ read-written (lookup_entry_by_id id index)),
          )
        ],
      )

  merge_from_disk-Reachable :
      (file : SnapshotFile) (index merged : NameIndex)
      → Reachable to_lowercase index
      → merge_from_disk to_lowercase file index ≡ io_ok merged
      → Reachable to_lowercase merged
  unfolding merge_from_disk
  merge_from_disk-Reachable missing index merged r h =
      let same : index ≡ merged = cc h in subst (Reachable to_lowercase) same r
  merge_from_disk-Reachable (not_readable e) index merged r h = cc h
  merge_from_disk-Reachable (malformed e) index merged r h =
      let same : index ≡ merged = cc h in subst (Reachable to_lowercase) same r
  merge_from_disk-Reachable (snapshot snap) index merged r h =
      subst (Reachable to_lowercase) (merged_is to_lowercase snap index merged h)
        (ingested (adopted index snap.nodes) index r)

  -- A save of a reachable index that can read the file and write it replaces the file with one that can
  -- be loaded; in the process that starts from it an id has no entry if it is excluded, and the entry
  -- that it has in the merged index if not.
  pub save_to_disk-load_from_disk :
      (tokens : List Text) (now : ℕ) (file : SnapshotFile) (index merged : NameIndex) (id : Text)
      → Reachable to_lowercase index
      → merge_from_disk to_lowercase file index ≡ io_ok merged
      → (snap : PersistedSnapshot) × (save_to_disk to_lowercase tokens now
            (some file)
            none
            none
            index
          ≡ record {
            index = record merged { dirty = false; tombstones = [] };
            written = some snap;
            answer = io_ok true;
          })
        × (n : ℕ) × (loaded : NameIndex) × (load_from_disk to_lowercase
              (some (snapshot snap))
              new_index
            ≡ io_ok (n, loaded))
        × IsRestored tokens merged id loaded
  unfolding save_to_disk
  save_to_disk-load_from_disk tokens now file index merged id r h =
      let (snap, taken, n, loaded, loads, restored) =
        snapshot_of-load_from_disk tokens now merged id
          (merge_from_disk-Reachable file index merged r h) in
      (snap, rw (h, save_to_disk, taken), n, loaded, loads, restored)
