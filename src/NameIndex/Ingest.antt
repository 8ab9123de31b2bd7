-- ===== src/NameIndex/Ingest.antt =====
-- What ingest, invalidate_node and clear (utils/name_index.rs) do to the entry of each id, and that
-- they keep the maps of the name index in step.
use workflowy_mcp.Base.{
  ◌≡◌, sym, ap, ◌∙◌, Bool, true, false, none, some, List, [], ◌∷◌, Text, text_eq, text_eq_iff,
  text_eq_refl, lookup, erase, contains_key, lookup-erase, lookup-insert, Bool-cases, if◌then◌else◌,
  inl, inr, arith,
}
use workflowy_mcp.Types.{WorkflowyNode}
use workflowy_mcp.NameIndex.{
  NameIndexEntry, NameIndex, new_index, entry_of, remove_locked, ingest_changed, ingest_nodes,
  ingest, is_redundant, invalidate_node, clear,
}
use workflowy_mcp.NameIndex.Entries.{entry_under, entry-push_entry}
use workflowy_mcp.NameIndex.Hashes.{ShortsOk-insert, PrefixesOk-insert}
use workflowy_mcp.NameIndex.Valid.{
  IsValid, new_index-IsValid, entry-remove_locked, remove_locked-IsValid,
}

entry_of_some : {a b : NameIndexEntry} → some a ≡ some b → a ≡ b
entry_of_some h = cc h

module _ (to_lowercase : Text → Text) where
  pub lookup-ingest_changed :
      (node : WorkflowyNode) (index : NameIndex) (j : Text)
      → lookup j (ingest_changed to_lowercase node index).by_id
        ≡ (if text_eq node.id j then some (to_lowercase node.name) else lookup j index.by_id)
  unfolding ingest_changed remove_locked
  lookup-ingest_changed node index j = ground (
    arith,
    lookup-insert node.id j (to_lowercase node.name) (erase node.id index.by_id),
    lookup-erase node.id j index.by_id,
  )

  pub entry-ingest_changed :
      (node : WorkflowyNode) (index : NameIndex) (q j : Text)
      → IsValid to_lowercase index
      → entry_under q (ingest_changed to_lowercase node index).by_name j ≡ (
          if text_eq node.id j
          then if text_eq (to_lowercase node.name) q then some (entry_of node) else none
          else entry_under q index.by_name j)
  unfolding ingest_changed
  entry-ingest_changed node index q j valid =
      let key = to_lowercase node.name in
      let removed = entry-remove_locked to_lowercase node.id q j index valid in
      let fresh =
        entry-remove_locked to_lowercase node.id key node.id index valid
        ∙ rw (text_eq_refl node.id) in
      entry-push_entry key q j (entry_of node) (remove_locked node.id index).by_name fresh
      ∙ ground (arith, removed)

  keyed-ingest_changed :
      (node : WorkflowyNode) (index : NameIndex) (key j : Text) (e : NameIndexEntry)
      → IsValid to_lowercase index
      → entry_under key (ingest_changed to_lowercase node index).by_name j ≡ some e
      → (lookup j (ingest_changed to_lowercase node index).by_id ≡ some key)
        × (to_lowercase e.name ≡ key)
  keyed-ingest_changed node index key j e valid h =
      let found = sym (entry-ingest_changed node index key j valid) ∙ h in
      let mapped = lookup-ingest_changed node index j in
      elim (Bool-cases (text_eq node.id j)) [
        | inr other ↦
            let (there, named) = valid.keyed key j e (rw other at found) in
            (mapped ∙ rw other there, named)
        | inl same ↦ elim (Bool-cases (text_eq (to_lowercase node.name) key)) [
          | inl here ↦
              let equal : to_lowercase node.name ≡ key =
                ground (arith, here, text_eq_iff (to_lowercase node.name) key) in
              let made : some (entry_of node) ≡ some e = rw (same, here) at found in
              (
                mapped ∙ rw (same, equal),
                ap (λ x. to_lowercase x.name) (sym (entry_of_some made)) ∙ equal,
              )
          | inr away ↦ cc (rw (same, away) at found)
        ]
      ]

  complete-ingest_changed :
      (node : WorkflowyNode) (index : NameIndex) (j key : Text)
      → IsValid to_lowercase index
      → lookup j (ingest_changed to_lowercase node index).by_id ≡ some key
      → (e : NameIndexEntry) × (entry_under key (ingest_changed to_lowercase node index).by_name j
          ≡ some e)
  complete-ingest_changed node index j key valid h =
      let mapped = sym (lookup-ingest_changed node index j) ∙ h in
      let found = entry-ingest_changed node index key j valid in
      elim (Bool-cases (text_eq node.id j)) [
        | inl same ↦ (
          entry_of node,
          found ∙ ground (arith, mapped, same, text_eq_iff (to_lowercase node.name) key),
        )
        | inr other ↦
            let (e, there) = valid.complete j key (rw other at mapped) in
            (e, found ∙ rw other there)
      ]

  pub ingest_changed-IsValid :
      (node : WorkflowyNode) (index : NameIndex)
      → IsValid to_lowercase index
      → IsValid to_lowercase (ingest_changed to_lowercase node index)
  unfolding ingest_changed
  ingest_changed-IsValid node index valid =
      let removed = remove_locked-IsValid to_lowercase node.id index valid in
      let gone = remove_locked node.id index in
      record {
        keyed = λ key j e h. keyed-ingest_changed node index key j e valid h;
        complete = λ j key h. complete-ingest_changed node index j key valid h;
        shorts =
            ShortsOk-insert node.id (to_lowercase node.name) gone.by_id gone.by_short_hash
              removed.shorts;
        prefixes =
            PrefixesOk-insert node.id (to_lowercase node.name) gone.by_id gone.by_prefix_hash
              removed.prefixes;
      }

  ingest_nodes-IsValid :
      (nodes : List WorkflowyNode) (index : NameIndex) (changed : Bool)
      → IsValid to_lowercase index
      → IsValid to_lowercase (ingest_nodes to_lowercase nodes index changed).0
  unfolding ingest_nodes
  ingest_nodes-IsValid [] index changed valid = valid
  ingest_nodes-IsValid (node ∷ nodes) index changed valid =
      elim (Bool-cases (is_redundant to_lowercase index node)) [
        | inl same ↦ rw (same, ingest_nodes) (ingest_nodes-IsValid nodes index changed valid)
        | inr new ↦
            rw (new, ingest_nodes)
              (ingest_nodes-IsValid nodes (ingest_changed to_lowercase node index) true
                (ingest_changed-IsValid node index valid))
      ]

  -- The maps of an index decide whether it is valid.
  pub IsValid-flags :
      (index : NameIndex) (dirty : Bool) (tombstones : List Text)
      → IsValid to_lowercase index
      → IsValid to_lowercase record index { dirty = dirty; tombstones = tombstones }
  IsValid-flags index dirty tombstones valid = record {
    keyed = valid.keyed;
    complete = valid.complete;
    shorts = valid.shorts;
    prefixes = valid.prefixes;
  }

  pub ingest-IsValid :
      (nodes : List WorkflowyNode) (index : NameIndex)
      → IsValid to_lowercase index
      → IsValid to_lowercase (ingest to_lowercase nodes index)
  unfolding ingest
  ingest-IsValid nodes index valid =
      let done = ingest_nodes to_lowercase nodes index false in
      let good = ingest_nodes-IsValid nodes index false valid in
      elim (Bool-cases done.1) [
        | inl changed ↦ rw (changed, ingest) (IsValid-flags done.0 true done.0.tombstones good)
        | inr same ↦ rw (same, ingest) good
      ]

  pub invalidate_node-IsValid :
      (id : Text) (index : NameIndex)
      → IsValid to_lowercase index
      → IsValid to_lowercase (invalidate_node id index)
  unfolding invalidate_node
  invalidate_node-IsValid id index valid =
      let gone = remove_locked id index in
      let good = remove_locked-IsValid to_lowercase id index valid in
      elim (Bool-cases (contains_key id index.by_id)) [
        | inl there ↦
            rw (there, invalidate_node) (IsValid-flags gone true (id ∷ gone.tombstones) good)
        | inr absent ↦ rw (absent, invalidate_node) good
      ]

  pub clear-IsValid : (index : NameIndex) → IsValid to_lowercase (clear index)
  unfolding clear
  clear-IsValid index =
      IsValid-flags new_index (clear index).dirty (clear index).tombstones
        (new_index-IsValid to_lowercase)
