-- ===== src/NameIndex/Lookup.antt =====
-- Which entry an id has in the name index (utils/name_index.rs) after ingest, invalidate_node and the
-- merge of a file.
use workflowy_mcp.Base.{
  ◌≡◌, refl, ◌∙◌, Bool, true, false, ◌&&◌, none, some, List, [], ◌∷◌, Text, text_eq, text_eq_iff,
  text_eq_refl, lookup, erase, contains_key, lookup-erase, Bool-cases, Option-cases, if◌then◌else◌,
  inl, inr, arith, &&-eq-true,
}
use workflowy_mcp.Types.{WorkflowyNode}
use workflowy_mcp.NameIndex.{
  NameIndexEntry, NameIndex, entry_of, remove_locked, ingest_changed, ingest_nodes, ingest,
  is_redundant, invalidate_node, lookup_entry_by_id, same_content, option_eq,
}
use workflowy_mcp.NameIndex.Entries.{entry_under}
use workflowy_mcp.NameIndex.Valid.{IsValid, entry-remove_locked}
use workflowy_mcp.NameIndex.Ingest.{lookup-ingest_changed, entry-ingest_changed}
use workflowy_mcp.NameIndex.Reachable.{Reachable, Reachable-IsValid, option_text_eq}

under :
    (id key : Text) (index : NameIndex)
    → lookup id index.by_id ≡ some key
    → lookup_entry_by_id id index ≡ entry_under key index.by_name id
unfolding lookup_entry_by_id
under id key index h = rw (h, lookup_entry_by_id)

flags_kept :
    (j : Text) (index : NameIndex) (dirty : Bool) (tombstones : List Text)
    → lookup_entry_by_id j (record index { dirty = dirty; tombstones = tombstones })
      ≡ lookup_entry_by_id j index
unfolding lookup_entry_by_id
flags_kept j index dirty tombstones = refl

pub flag_kept :
    (j : Text) (index : NameIndex)
    → lookup_entry_by_id j (record index { dirty = true }) ≡ lookup_entry_by_id j index
unfolding lookup_entry_by_id
flag_kept j index = refl

module _ (to_lowercase : Text → Text) where
  pub entry_of-ingest_changed :
      (node : WorkflowyNode) (index : NameIndex)
      → IsValid to_lowercase index
      → lookup_entry_by_id node.id (ingest_changed to_lowercase node index) ≡ some (entry_of node)
  unfolding lookup_entry_by_id
  entry_of-ingest_changed node index valid =
      let key = to_lowercase node.name in
      let mapped = lookup-ingest_changed to_lowercase node index node.id in
      let found = entry-ingest_changed to_lowercase node index key node.id valid in
      rw (mapped, text_eq_refl node.id, lookup_entry_by_id)
        (found ∙ rw (text_eq_refl node.id, text_eq_refl key))

  pub others-ingest_changed :
      (node : WorkflowyNode) (index : NameIndex) (j : Text)
      → IsValid to_lowercase index
      → text_eq node.id j ≡ false
      → lookup_entry_by_id j (ingest_changed to_lowercase node index) ≡ lookup_entry_by_id j index
  unfolding lookup_entry_by_id
  others-ingest_changed node index j valid other =
      let mapped : lookup j (ingest_changed to_lowercase node index).by_id ≡ lookup j index.by_id =
        lookup-ingest_changed to_lowercase node index j ∙ rw other in
      elim (Option-cases (lookup j index.by_id)) [
        | inl e ↦ rw (mapped, e, lookup_entry_by_id)
        | inr (key, e) ↦
            rw (mapped, e, lookup_entry_by_id)
              (entry-ingest_changed to_lowercase node index key j valid ∙ rw other)
      ]

  -- What a redundant node finds: an entry of its lowered name, with its description.
  is_redundant_lem :
      (node : WorkflowyNode) (index : NameIndex)
      → IsValid to_lowercase index
      → is_redundant to_lowercase index node ≡ true
      → (e : NameIndexEntry) × (lookup_entry_by_id node.id index ≡ some e)
        × (to_lowercase e.name ≡ to_lowercase node.name)
        × (e.description ≡ node.description)
  unfolding is_redundant same_content
  is_redundant_lem node index valid h = elim (Option-cases (lookup node.id index.by_id)) [
    | inl absent ↦ cc (rw (absent, is_redundant) at h)
    | inr (key, there) ↦
        let (e, found) = valid.complete node.id key there in
        let at_key : lookup_entry_by_id node.id index ≡ some e =
          under node.id key index there ∙ found in
        let both : (text_eq key (to_lowercase node.name) && same_content e node) ≡ true =
          rw (there, is_redundant, at_key) at h in
        let (same_key, content) =
          &&-eq-true (text_eq key (to_lowercase node.name)) (same_content e node) both in
        (
          e,
          at_key,
          (valid.keyed key node.id e found).1
              ∙ ground (arith, same_key, text_eq_iff key (to_lowercase node.name)),
          option_text_eq e.description node.description
              (&&-eq-true (option_eq text_eq e.description node.description) (_) content).0,
        )
  ]

  -- After ingest of one node into a reachable index, the node's id has an entry with the node's name in
  -- lower case and its description, and any other id has the entry it had.
  pub ingest-finds :
      (node : WorkflowyNode) (index : NameIndex) (j : Text)
      → Reachable to_lowercase index
      → text_eq node.id j ≡ false
      → ((e : NameIndexEntry) × (lookup_entry_by_id node.id (ingest to_lowercase (node ∷ []) index)
            ≡ some e)
          × (to_lowercase e.name ≡ to_lowercase node.name)
          × (e.description ≡ node.description))
        × (lookup_entry_by_id j (ingest to_lowercase (node ∷ []) index)
            ≡ lookup_entry_by_id j index)
  unfolding ingest ingest_nodes
  ingest-finds node index j r other =
      let valid = Reachable-IsValid to_lowercase index r in
      elim (Bool-cases (is_redundant to_lowercase index node)) [
        | inl same ↦ rw (same, ingest, ingest_nodes) (is_redundant_lem node index valid same, refl)
        | inr new ↦
            rw (new, ingest, ingest_nodes)
              (
                (
                  entry_of node,
                  flag_kept node.id (ingest_changed to_lowercase node index)
                      ∙ entry_of-ingest_changed node index valid,
                  refl,
                  refl,
                ),
                flag_kept j (ingest_changed to_lowercase node index)
                    ∙ others-ingest_changed node index j valid other,
              )
      ]

  remove_locked-forgets :
      (id j : Text) (index : NameIndex)
      → IsValid to_lowercase index
      → lookup_entry_by_id j (remove_locked id index)
        ≡ (if text_eq id j then none else lookup_entry_by_id j index)
  unfolding lookup_entry_by_id remove_locked
  remove_locked-forgets id j index valid =
      let mapped = lookup-erase id j index.by_id in
      elim (Bool-cases (text_eq id j)) [
        | inl same ↦
            let gone : lookup j (erase id index.by_id) ≡ none = mapped ∙ rw same in
            rw (same, gone, lookup_entry_by_id)
        | inr other ↦
            let kept : lookup j (erase id index.by_id) ≡ lookup j index.by_id = mapped ∙ rw other in
            elim (Option-cases (lookup j index.by_id)) [
              | inl e ↦ rw (other, kept, e, lookup_entry_by_id)
              | inr (key, e) ↦
                  rw (other, kept, e, lookup_entry_by_id)
                    (entry-remove_locked to_lowercase id key j index valid ∙ rw other)
            ]
      ]

  -- After invalidate_node in a reachable index, the id has no entry and every other id has the entry
  -- it had.
  pub invalidate_node-forgets :
      (id j : Text) (index : NameIndex)
      → Reachable to_lowercase index
      → lookup_entry_by_id j (invalidate_node id index)
        ≡ (if text_eq id j then none else lookup_entry_by_id j index)
  unfolding invalidate_node
  invalidate_node-forgets id j index r =
      let removed = remove_locked-forgets id j index (Reachable-IsValid to_lowercase index r) in
      elim (Bool-cases (contains_key id index.by_id)) [
        | inl there ↦
            rw (there, invalidate_node)
              (flags_kept j (remove_locked id index) true (id ∷ (remove_locked id index).tombstones)
                ∙ removed)
        | inr absent ↦ rw (absent, invalidate_node) removed
      ]
