-- ===== src/NameIndex/Search/Ancestors.antt =====
-- What the climbs to the parents (utils/name_index.rs, `is_descendant_of` and `path_of`) find.
use workflowy_mcp.Base.{
  ℕ, zero, suc, ◌≤◌, ◌≡◌, ◌↔◌, ap, ◌∙◌, true, some, Text, text_eq, text_eq_iff, text_eq_refl,
  Bool-cases, Option-cases, inl, inr, arith,
}
use workflowy_mcp.NameIndex.{NameIndexEntry, NameIndex, lookup_entry_by_id}
use workflowy_mcp.NameIndex.Search.{ascend, is_descendant_of}

-- The ancestor is so many indexed nodes above the node's parent; it need not be indexed itself.
pub data IsAbove (index : NameIndex) (ancestor : Text) : ℕ → Text → Type 0 where
  parent :
      (id : Text) (e : NameIndexEntry)
      → lookup_entry_by_id id index ≡ some e
      → e.parent_id ≡ some ancestor
      → IsAbove index ancestor 0 id
  higher :
      (n : ℕ) (id pid : Text) (e : NameIndexEntry)
      → lookup_entry_by_id id index ≡ some e
      → e.parent_id ≡ some pid
      → IsAbove index ancestor n pid
      → IsAbove index ancestor (suc n) id

module _ (index : NameIndex) (ancestor : Text) where
  ascend_finds :
      (left : ℕ) (id : Text)
      → ascend left (lookup_entry_by_id id index) ancestor index ≡ true
      → (n : ℕ) × (suc n ≤ left) × IsAbove index ancestor n id
  unfolding ascend
  ascend_finds zero id h = cc h
  ascend_finds (suc left) id h = elim (Option-cases (lookup_entry_by_id id index)) [
    | inl e ↦ cc (rw (e, ascend) at h)
    | inr (e, found) ↦ elim (Option-cases e.parent_id) [
      | inl top ↦ cc (rw (found, ascend, top) at h)
      | inr (pid, up) ↦ elim (Bool-cases (text_eq pid ancestor)) [
        | inl same ↦
            let equal : pid ≡ ancestor = ground (arith, same, text_eq_iff pid ancestor) in
            (0, omega arith, parent id e found (up ∙ ap (λ p. some p) equal))
        | inr other ↦
            let (n, few, above) = ascend_finds left pid (rw (found, ascend, up, other) at h) in
            (suc n, omega arith, higher n id pid e found up above)
      ]
    ]
  ]

  ascend_reaches :
      (n left : ℕ) (id : Text)
      → suc n ≤ left
      → IsAbove index ancestor n id
      → ascend left (lookup_entry_by_id id index) ancestor index ≡ true
  unfolding ascend
  ascend_reaches n zero id h above = absurd (omega arith)
  ascend_reaches _ (suc left) _ h (parent id e found up) =
      rw (found, ascend, up, text_eq_refl ancestor)
  ascend_reaches _ (suc left) _ h (higher n id pid e found up above) =
      elim (Bool-cases (text_eq pid ancestor)) [
        | inl same ↦ rw (found, ascend, up, same)
        | inr other ↦ rw (found, ascend, up, other) (ascend_reaches n left pid (omega arith) above)
      ]

-- A node is reported below an ancestor exactly when at most 33 links of indexed nodes to their parents
-- lead from it to the ancestor. A cycle of parents does not matter.
pub is_descendant_of_iff :
    (node_id ancestor_id : Text) (index : NameIndex)
    → (is_descendant_of node_id ancestor_id index ≡ true)
      ↔ ((n : ℕ) × (n ≤ 32) × IsAbove index ancestor_id n node_id)
unfolding is_descendant_of
is_descendant_of_iff node_id ancestor_id index = (
  λ h. let (n, few, above) = ascend_finds index ancestor_id 33 node_id h in (n, omega arith, above),
  λ (n, few, above). ascend_reaches index ancestor_id n 33 node_id (omega arith) above,
)
