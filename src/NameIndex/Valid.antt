-- ===== src/NameIndex/Valid.antt =====
-- The four maps of the name index (utils/name_index.rs) agree, and ingest, invalidate_node and clear
-- keep them so.
use workflowy_mcp.Base.{
  ◌≡◌, ◌⊎◌, refl, sym, ◌∙◌, none, some, [], Text, text_eq, text_eq_iff, lookup, erase, contains_key,
  lookup-erase, Bool-cases, Option-cases, if◌then◌else◌, inl, inr, arith,
}
use workflowy_mcp.NameIndex.{NameIndexEntry, NameIndex, new_index, remove_locked}
use workflowy_mcp.NameIndex.Entries.{entry_under, entry-remove_entry}
use workflowy_mcp.NameIndex.Hashes.{ShortsOk, PrefixesOk, ShortsOk-remove, PrefixesOk-remove}

module _ (to_lowercase : Text → Text) where
  -- An entry stands under its lowered name, which is what its id is mapped to; an id that is mapped
  -- to a name has an entry there; and the hashes lead to indexed ids.
  pub record IsValid (index : NameIndex) : Type 0 where
    pub keyed :
        (key id : Text) (e : NameIndexEntry)
        → entry_under key index.by_name id ≡ some e
        → (lookup id index.by_id ≡ some key) × (to_lowercase e.name ≡ key)
    pub complete :
        (id key : Text)
        → lookup id index.by_id ≡ some key
        → (e : NameIndexEntry) × (entry_under key index.by_name id ≡ some e)
    pub shorts : ShortsOk index.by_id index.by_short_hash
    pub prefixes : PrefixesOk index.by_id index.by_prefix_hash

  pub new_index-IsValid : IsValid new_index
  unfolding lookup contains_key
  new_index-IsValid = record {
    keyed = λ key id e h. cc h;
    complete = λ id key h. cc h;
    shorts = λ s id h. cc h;
    prefixes = record {
      positive = λ p e h. cc h;
      sound = λ p e h c. cc h;
      covered = λ id p h at_id. cc h;
    };
  }

  not_elsewhere :
      (id q : Text) (index : NameIndex)
      → IsValid index
      → (lookup id index.by_id ≡ some q) ⊎ (entry_under q index.by_name id ≡ none)
  not_elsewhere id q index valid = elim (Option-cases (entry_under q index.by_name id)) [
    | inl e ↦ inr e
    | inr (x, e) ↦ inl (valid.keyed q id x e).0
  ]

  -- After a removal the id has no entry under any name, and the other ids have what they had.
  pub entry-remove_locked :
      (id q j : Text) (index : NameIndex)
      → IsValid index
      → entry_under q (remove_locked id index).by_name j
        ≡ (if text_eq id j then none else entry_under q index.by_name j)
  unfolding remove_locked
  entry-remove_locked id q j index valid =
      let here = not_elsewhere id q index valid in
      elim (Option-cases (lookup id index.by_id)) [
        | inl e ↦ elim (Bool-cases (text_eq id j)) [
          | inl same ↦
              let equal : id ≡ j = ground (arith, same, text_eq_iff id j) in
              rw (e, same, remove_locked) (rw (sym equal) (ground (arith, here, e)))
          | inr other ↦ rw (e, other, remove_locked)
        ]
        | inr (key, e) ↦ elim (Bool-cases (text_eq id j)) [
          | inl same ↦
              let equal : id ≡ j = ground (arith, same, text_eq_iff id j) in
              rw (e, same, remove_locked)
                (entry-remove_entry key id q j index.by_name
                  ∙ rw (same, sym equal) (ground (arith, here, e, text_eq_iff key q)))
          | inr other ↦
              rw (e, other, remove_locked)
                (entry-remove_entry key id q j index.by_name ∙ rw other (ground arith))
        ]
      ]

  by_id-remove_locked :
      (id : Text) (index : NameIndex) → (remove_locked id index).by_id ≡ erase id index.by_id
  unfolding remove_locked
  by_id-remove_locked id index = refl

  pub remove_locked-IsValid :
      (id : Text) (index : NameIndex) → IsValid index → IsValid (remove_locked id index)
  unfolding remove_locked
  remove_locked-IsValid id index valid = record {
    keyed = λ key j e h.
        let found = entry-remove_locked id key j index valid in
        ground (arith, h, found, valid.keyed key j e, lookup-erase id j index.by_id);
    complete = λ j key h.
        let kept = lookup-erase id j index.by_id in
        let (e, there) = valid.complete j key (ground (arith, h, kept)) in
        (e, entry-remove_locked id key j index valid ∙ ground (arith, there, h, kept));
    shorts = ShortsOk-remove id index.by_id index.by_short_hash valid.shorts;
    prefixes = PrefixesOk-remove id [] index.by_id index.by_prefix_hash valid.prefixes;
  }
