-- ===== src/NameIndex/Merge.antt =====
-- The merge of the index file into the name index (utils/name_index.rs): memory wins, a tombstone keeps
-- its id out, and the rest is adopted.
use workflowy_mcp.Base.{
  ◌≡◌, ◌||◌, refl, sym, ap, ◌∙◌, Bool, true, false, List, [], ◌∷◌, All, Text, text_eq, text_eq_iff,
  lookup, contains_key, any, Bool-cases, Option-cases, inl, inr, arith, ltb,
}
use workflowy_mcp.Types.{WorkflowyNode}
use workflowy_mcp.NameIndex.{
  NameIndex, ingest_changed, ingest_nodes, ingest, is_redundant, lookup_entry_by_id,
}
use workflowy_mcp.NameIndex.Valid.{IsValid}
use workflowy_mcp.NameIndex.Ingest.{ingest_changed-IsValid, lookup-ingest_changed}
use workflowy_mcp.NameIndex.Reachable.{Reachable, Reachable-IsValid}
use workflowy_mcp.NameIndex.Lookup.{others-ingest_changed, flag_kept}
use workflowy_mcp.NameIndex.Disk.{
  PersistedEntry, PersistedSnapshot, snapshot, io_ok, merge_from_disk, adopted,
  persist_schema_version,
}

module _ (to_lowercase : Text → Text) where
  pub others-ingest_nodes :
      (nodes : List WorkflowyNode) (index : NameIndex) (changed : Bool) (j : Text)
      → IsValid to_lowercase index
      → All (λ n. text_eq n.id j ≡ false) nodes
      → lookup_entry_by_id j (ingest_nodes to_lowercase nodes index changed).0
        ≡ lookup_entry_by_id j index
  unfolding ingest_nodes
  others-ingest_nodes [] index changed j valid h = refl
  others-ingest_nodes (node ∷ nodes) index changed j valid h =
      elim (Bool-cases (is_redundant to_lowercase index node)) [
        | inl same ↦ rw (same, ingest_nodes) (others-ingest_nodes nodes index changed j valid h.1)
        | inr new ↦
            rw (new, ingest_nodes)
              (others-ingest_nodes nodes (ingest_changed to_lowercase node index) true j
                  (ingest_changed-IsValid to_lowercase node index valid) h.1
                ∙ others-ingest_changed to_lowercase node index j valid h.0)
      ]

  others-ingest :
      (nodes : List WorkflowyNode) (index : NameIndex) (j : Text)
      → IsValid to_lowercase index
      → All (λ n. text_eq n.id j ≡ false) nodes
      → lookup_entry_by_id j (ingest to_lowercase nodes index) ≡ lookup_entry_by_id j index
  unfolding ingest
  others-ingest nodes index j valid h =
      let done = ingest_nodes to_lowercase nodes index false in
      let kept = others-ingest_nodes nodes index false j valid h in
      elim (Bool-cases done.1) [
        | inl changed ↦ rw (changed, ingest) (flag_kept j done.0 ∙ kept)
        | inr same ↦ rw (same, ingest) kept
      ]

  redundant_contains :
      (node : WorkflowyNode) (index : NameIndex)
      → is_redundant to_lowercase index node ≡ true
      → contains_key node.id index.by_id ≡ true
  unfolding is_redundant contains_key
  redundant_contains node index h = elim (Option-cases (lookup node.id index.by_id)) [
    | inl e ↦ cc (rw (e, is_redundant) at h)
    | inr (key, e) ↦ rw (e, contains_key)
  ]

  contains-ingest_changed :
      (node : WorkflowyNode) (index : NameIndex) (j : Text)
      → contains_key j (ingest_changed to_lowercase node index).by_id
        ≡ (text_eq node.id j || contains_key j index.by_id)
  unfolding contains_key
  contains-ingest_changed node index j =
      ground (arith, lookup-ingest_changed to_lowercase node index j)

  -- An id that is indexed, or that a node of the list has, is indexed after the list is ingested.
  contains-ingest_nodes :
      (nodes : List WorkflowyNode) (index : NameIndex) (changed : Bool) (j : Text)
      → (contains_key j index.by_id || any (λ n. text_eq n.id j) nodes) ≡ true
      → contains_key j (ingest_nodes to_lowercase nodes index changed).0.by_id ≡ true
  unfolding ingest_nodes
  contains-ingest_nodes [] index changed j h = ground (arith, h)
  contains-ingest_nodes (node ∷ nodes) index changed j h =
      elim (Bool-cases (is_redundant to_lowercase index node)) [
        | inl same ↦
            rw (same, ingest_nodes)
              (contains-ingest_nodes nodes index changed j
                (ground (arith, h, redundant_contains node index same, text_eq_iff node.id j)))
        | inr new ↦
            rw (new, ingest_nodes)
              (contains-ingest_nodes nodes (ingest_changed to_lowercase node index) true j
                (ground (arith, h, contains-ingest_changed node index j)))
      ]

  contains-ingest :
      (nodes : List WorkflowyNode) (index : NameIndex) (j : Text)
      → (contains_key j index.by_id || any (λ n. text_eq n.id j) nodes) ≡ true
      → contains_key j (ingest to_lowercase nodes index).by_id ≡ true
  unfolding ingest
  contains-ingest nodes index j h =
      let kept = contains-ingest_nodes nodes index false j h in
      elim (Bool-cases (ingest_nodes to_lowercase nodes index false).1) [
        | inl changed ↦ rw (changed, ingest) kept
        | inr same ↦ rw (same, ingest) kept
      ]

  -- Whether this process knows the id or has removed it.
  abbrev has_opinion : NameIndex → Text → Bool
  has_opinion index j = contains_key j index.by_id || any (text_eq j) index.tombstones

  adopted-apart :
      (index : NameIndex) (nodes : List PersistedEntry) (j : Text)
      → has_opinion index j ≡ true
      → All (λ n. text_eq n.id j ≡ false) (adopted index nodes)
  unfolding adopted
  adopted-apart index [] j h = tt
  adopted-apart index (e ∷ es) j h =
      ground (arith, h, adopted-apart index es j h, text_eq_iff e.id j)

  adopted-any :
      (index : NameIndex) (nodes : List PersistedEntry) (j : Text)
      → any (λ e. text_eq e.id j) nodes ≡ true
      → any (text_eq j) index.tombstones ≡ false
      → (contains_key j index.by_id || any (λ n. text_eq n.id j) (adopted index nodes)) ≡ true
  unfolding adopted
  adopted-any index [] j h t = ground (arith, h)
  adopted-any index (e ∷ es) j h t =
      ground (arith, h, t, adopted-any index es j, text_eq_iff e.id j)

  pub merged_is :
      (snap : PersistedSnapshot) (index index' : NameIndex)
      → merge_from_disk to_lowercase (snapshot snap) index ≡ io_ok index'
      → ingest to_lowercase (adopted index snap.nodes) index ≡ index'
  unfolding merge_from_disk
  merged_is snap index index' h = elim (Bool-cases (ltb persist_schema_version snap.version)) [
    | inl newer ↦ cc (rw newer at h)
    | inr known ↦ cc (rw known at h)
  ]

  -- Memory wins: after the merge of a file into a reachable index, an id that was indexed or that has a
  -- tombstone has the entry it had, which is none in the second case unless it was indexed again.
  pub merge_from_disk-keeps :
      (snap : PersistedSnapshot) (index index' : NameIndex) (j : Text)
      → Reachable to_lowercase index
      → merge_from_disk to_lowercase (snapshot snap) index ≡ io_ok index'
      → has_opinion index j ≡ true
      → lookup_entry_by_id j index' ≡ lookup_entry_by_id j index
  merge_from_disk-keeps snap index index' j r h known =
      ap (lookup_entry_by_id j) (sym (merged_is snap index index' h))
      ∙ others-ingest (adopted index snap.nodes) index j (Reachable-IsValid to_lowercase index r)
          (adopted-apart index snap.nodes j known)

  -- The merge of a file loses nothing of it: an id that the file has and that has no tombstone is
  -- indexed after the merge.
  pub merge_from_disk-adopts :
      (snap : PersistedSnapshot) (index index' : NameIndex) (j : Text)
      → merge_from_disk to_lowercase (snapshot snap) index ≡ io_ok index'
      → any (λ e. text_eq e.id j) snap.nodes ≡ true
      → any (text_eq j) index.tombstones ≡ false
      → contains_key j index'.by_id ≡ true
  merge_from_disk-adopts snap index index' j h there free =
      ap (λ i. contains_key j i.by_id) (sym (merged_is snap index index' h))
      ∙ contains-ingest (adopted index snap.nodes) index j
          (adopted-any index snap.nodes j there free)
