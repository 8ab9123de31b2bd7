-- ===== src/NameIndex/Reachable.antt =====
-- The name index (utils/name_index.rs) in the states that its methods reach: what ingest makes
-- findable, what invalidate_node forgets, and what a short hash resolves to.
use workflowy_mcp.Base.{
  ◌≡◌, ◌⊎◌, ◌↔◌, refl, sym, ap, ◌∙◌, Bool, true, false, ◌&&◌, Option, none, some, List, map, Text,
  text_eq, text_eq_iff, lookup, contains_key, Bool-cases, Option-cases, inl, inr, arith,
  ascii_lower, ◌==◌, length, &&-eq-true, Option-cases,
}
use workflowy_mcp.Types.{WorkflowyNode}
use workflowy_mcp.NameIndex.{
  NameIndexEntry, NameIndex, new_index, ingest, invalidate_node, clear, lookup_entry_by_id,
  option_eq, resolve_short_hash, short_hash_of, prefix_hash_of, strip_hyphens, short_hash_len_url,
}
use workflowy_mcp.NameIndex.Valid.{IsValid, new_index-IsValid}
use workflowy_mcp.NameIndex.Ingest.{
  ingest-IsValid, invalidate_node-IsValid, clear-IsValid, IsValid-flags,
}

pub option_text_eq : (a b : Option Text) → option_eq text_eq a b ≡ true → a ≡ b
unfolding option_eq
option_text_eq none none h = refl
option_text_eq none (some b) h = cc h
option_text_eq (some a) none h = cc h
option_text_eq (some a) (some b) h = ap (λ t. some t) (ground (arith, h, text_eq_iff a b))

module _ (to_lowercase : Text → Text) where
  -- The states that the methods reach from a new index.
  pub data Reachable : NameIndex → Type 0 where
    started : Reachable new_index
    ingested :
        (nodes : List WorkflowyNode) (index : NameIndex)
        → Reachable index
        → Reachable (ingest to_lowercase nodes index)
    invalidated :
        (id : Text) (index : NameIndex) → Reachable index → Reachable (invalidate_node id index)
    cleared : (index : NameIndex) → Reachable index → Reachable (clear index)
    -- a load and a save set the flag, and a save drops the tombstones
    flagged :
        (dirty : Bool) (tombstones : List Text) (index : NameIndex)
        → Reachable index
        → Reachable record index { dirty = dirty; tombstones = tombstones }

  pub Reachable-IsValid : (index : NameIndex) → Reachable index → IsValid to_lowercase index
  Reachable-IsValid _ started = new_index-IsValid to_lowercase
  Reachable-IsValid _ (ingested nodes index r) =
      ingest-IsValid to_lowercase nodes index (Reachable-IsValid index r)
  Reachable-IsValid _ (invalidated id index r) =
      invalidate_node-IsValid to_lowercase id index (Reachable-IsValid index r)
  Reachable-IsValid _ (cleared index r) = clear-IsValid to_lowercase index
  Reachable-IsValid _ (flagged dirty tombstones index r) =
      IsValid-flags to_lowercase index dirty tombstones (Reachable-IsValid index r)

  -- What a resolved id is to the hash: it has it as its last twelve digits, or it has it as its first
  -- eight, and another id is not indexed or does not begin with it.
  abbrev pub IsHashOf : Text → Text → Text → NameIndex → Type 0
  IsHashOf key id other index =
      (short_hash_of id ≡ some key)
      ⊎ ((prefix_hash_of id ≡ some key)
          × ((other ≡ id)
              ⊎ ((contains_key other index.by_id
                    && option_eq text_eq (prefix_hash_of other) (some key))
                  ≡ false)))

  -- In every state that the methods reach, a hash that resolves leads to an indexed id that has the
  -- hash, in lower case and without hyphens; one of eight digits does so only if no other indexed id
  -- begins with it.
  pub resolve_short_hash-IsHashOf :
      (index : NameIndex) (short id other : Text)
      → Reachable index
      → resolve_short_hash short index ≡ some id
      → (contains_key id index.by_id ≡ true)
        × IsHashOf (map ascii_lower (strip_hyphens short)) id other index
  unfolding resolve_short_hash
  resolve_short_hash-IsHashOf index short id other r h =
      let valid = Reachable-IsValid index r in
      let stripped = strip_hyphens short in
      let key = map ascii_lower stripped in
      elim (Bool-cases (length stripped == short_hash_len_url)) [
        | inl twelve ↦
            let found : lookup key index.by_short_hash ≡ some id = ground (arith, h, twelve) in
            let (there, hash) = valid.shorts key id found in (there, inl hash)
        | inr n ↦ elim (Option-cases (lookup key index.by_prefix_hash)) [
          | inl absent ↦ ground (arith, h, n, absent)
          | inr (e, found) ↦
              let positive = valid.prefixes.positive key e found in
              let single : e.count ≡ 1 = ground (arith, h, n, found, positive) in
              let mine : e.full_uuid ≡ id = ground (arith, h, n, found) in
              let (there, hash) = valid.prefixes.sound key e found single in
              (
                ap (λ u. contains_key u index.by_id) (sym mine) ∙ there,
                inr (
                  ap prefix_hash_of (sym mine) ∙ hash,
                  elim (Bool-cases (
                      contains_key other index.by_id
                      && option_eq text_eq (prefix_hash_of other) (some key))) [
                        | inr differs ↦ inr differs
                        | inl alike ↦
                            let (at_other, has_other) =
                              &&-eq-true (contains_key other index.by_id)
                                (option_eq text_eq (prefix_hash_of other) (some key)) alike in
                            let (x, again, only) =
                              valid.prefixes.covered other key at_other
                                (option_text_eq (prefix_hash_of other) (some key) has_other) in
                            let equal : x ≡ e = cc (sym again ∙ found) in
                            inl (
                              sym (only (ap (λ y. y.count) equal ∙ single))
                              ∙ ap (λ y. y.full_uuid) equal
                              ∙ mine)
                      ],
                ),
              )
        ]
      ]

  -- In every state that the methods reach, an id has an entry exactly when it is indexed, and the
  -- entry is one of a name that lowers to the name that the id is indexed under.
  pub lookup_entry_by_id_iff :
      (index : NameIndex) (id key : Text)
      → Reachable index
      → (lookup id index.by_id ≡ some key) ↔ (
          (e : NameIndexEntry) × (lookup_entry_by_id id index ≡ some e)
          × (to_lowercase e.name ≡ key))
  unfolding lookup_entry_by_id
  lookup_entry_by_id_iff index id key r =
      let valid = Reachable-IsValid index r in
      (
        λ h.
            let (e, there) = valid.complete id key h in
            (e, rw (h, lookup_entry_by_id) there, (valid.keyed key id e there).1),
        λ (e, found, named). elim (Option-cases (lookup id index.by_id)) [
          | inl absent ↦ cc (rw (absent, lookup_entry_by_id) at found)
          | inr (other, there) ↦
              let (at_other, lowered) =
                valid.keyed other id e (rw (there, lookup_entry_by_id) at found) in
              at_other ∙ ap (λ k. some k) (sym lowered ∙ named)
        ],
      )
