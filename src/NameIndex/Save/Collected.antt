-- ===== src/NameIndex/Save/Collected.antt =====
-- The entries that the loop of `snapshot` (utils/name_index.rs) collects: one for each indexed id.
use workflowy_mcp.Base.{
  ◌≤◌, ◌≡◌, ◌⊎◌, refl, sym, ap, ◌∙◌, true, false, Option, none, some, List, [], ◌∷◌, map, Text,
  text_eq, text_eq_iff, text_eq_refl, Distinct, lookup, Bool-cases, Option-cases, inl, inr, arith,
}
use workflowy_mcp.NameIndex.{NameIndexEntry, NameIndex, entry_of, find_entry, lookup_entry_by_id}
use workflowy_mcp.NameIndex.Entries.{Names, entry_under}
use workflowy_mcp.NameIndex.Single.{
  entries_of, count_under, entries_of-find_none, Reachable-IsSingle,
}
use workflowy_mcp.NameIndex.Valid.{IsValid}
use workflowy_mcp.NameIndex.Reachable.{Reachable, Reachable-IsValid}
use workflowy_mcp.NameIndex.Disk.{PersistedEntry, node_of}
use workflowy_mcp.NameIndex.Save.{persisted, all_entries}
use workflowy_mcp.NameIndex.Save.Sorted.{find_persisted, count, count-append, find-append}

-- The entry as it is written.
abbrev pub written_entry : Option NameIndexEntry → Option PersistedEntry
written_entry none = none
written_entry (some e) = some (persisted e)

-- The entry as it is indexed after a load.
abbrev pub read_entry : Option PersistedEntry → Option NameIndexEntry
read_entry none = none
read_entry (some e) = some (entry_of (node_of e))

pub read-written : (e : Option NameIndexEntry) → read_entry (written_entry e) ≡ e
read-written none = refl
read-written (some e) = refl

find-persisted :
    (id : Text) (entries : List NameIndexEntry)
    → find_persisted id (map persisted entries) ≡ written_entry (find_entry id entries)
unfolding find_persisted find_entry
find-persisted id [] = refl
find-persisted id (e ∷ es) = ground (arith, find-persisted id es)

count-persisted :
    (id : Text) (entries : List NameIndexEntry)
    → count id (map persisted entries) ≡ entries_of id entries
unfolding count entries_of
count-persisted id [] = refl
count-persisted id (e ∷ es) = ground (arith, count-persisted id es)

pub under-head :
    (q key id : Text) (entries : List NameIndexEntry) (m : Names)
    → text_eq q key ≡ true
    → entry_under key ((q, entries) ∷ m) id ≡ find_entry id entries
unfolding lookup
under-head q key id entries m h = rw (h, entry_under, lookup)

pub under-rest :
    (q key id : Text) (entries : List NameIndexEntry) (m : Names)
    → text_eq q key ≡ false
    → entry_under key ((q, entries) ∷ m) id ≡ entry_under key m id
unfolding lookup
under-rest q key id entries m h = rw (h, entry_under, lookup)

pub under-tail :
    (q p id : Text) (entries : List NameIndexEntry) (m : Names)
    → lookup q m ≡ none
    → entry_under p ((q, entries) ∷ m) id ≡ none
    → entry_under p m id ≡ none
unfolding lookup
under-tail q p id entries m d h = elim (Bool-cases (text_eq q p)) [
  | inl same ↦
      let equal : q ≡ p = ground (arith, same, text_eq_iff q p) in
      let gone : lookup p m ≡ none = ap (λ k. lookup k m) (sym equal) ∙ d in rw (gone, entry_under)
  | inr other ↦ rw (other, entry_under, lookup) at h
]

pub find-nil : (id : Text) → find_persisted id [] ≡ none
unfolding find_persisted
find-nil id = refl

pub find-head :
    (id : Text) (n : PersistedEntry) (nodes : List PersistedEntry)
    → text_eq n.id id ≡ true
    → find_persisted id (n ∷ nodes) ≡ some n
unfolding find_persisted
find-head id n nodes h = ground arith

pub find-rest :
    (id : Text) (n : PersistedEntry) (nodes : List PersistedEntry)
    → text_eq n.id id ≡ false
    → find_persisted id (n ∷ nodes) ≡ find_persisted id nodes
unfolding find_persisted
find-rest id n nodes h = ground arith

pub count-once :
    (id : Text) (n : PersistedEntry) (nodes : List PersistedEntry)
    → text_eq n.id id ≡ true
    → count id (n ∷ nodes) ≤ 1
    → count id nodes ≡ 0
unfolding count
count-once id n nodes h one = ground arith

pub count-tail :
    (id : Text) (n : PersistedEntry) (nodes : List PersistedEntry)
    → count id (n ∷ nodes) ≤ 1
    → count id nodes ≤ 1
unfolding count
count-tail id n nodes one = ground arith

-- What the snapshot's loop makes of an id that is under one name only.
module _ (key id : Text) where
  find-all_entries :
      (by_name : Names)
      → Distinct by_name
      → ((q : Text) → text_eq q key ≡ false → entry_under q by_name id ≡ none)
      → find_persisted id (all_entries by_name) ≡ written_entry (entry_under key by_name id)
  unfolding all_entries lookup
  find-all_entries [] d h = find-nil id
  find-all_entries ((q, entries) ∷ m) d h =
      let rest = find-all_entries m d.1 (λ p k. under-tail q p id entries m d.0 (h p k)) in
      find-append id (map persisted entries) (all_entries m) ∙ elim (Bool-cases (text_eq q key)) [
        | inl same ↦
            let equal : q ≡ key = ground (arith, same, text_eq_iff q key) in
            let gone : lookup key m ≡ none = ap (λ k. lookup k m) (sym equal) ∙ d.0 in
            let none_later : find_persisted id (all_entries m) ≡ none =
              rest ∙ rw (gone, entry_under) in
            elim (Option-cases (find_entry id entries)) [
              | inl e ↦
                  rw (find-persisted id entries, under-head q key id entries m same, e) none_later
              | inr (x, e) ↦ rw (find-persisted id entries, under-head q key id entries m same, e)
            ]
        | inr other ↦
            let e : find_entry id entries ≡ none =
              sym (under-head q q id entries m (text_eq_refl q)) ∙ h q other in
            rw (find-persisted id entries, e, under-rest q key id entries m other) rest
      ]

  count-all_entries :
      (by_name : Names)
      → Distinct by_name
      → ((q : Text) → text_eq q key ≡ false → entry_under q by_name id ≡ none)
      → count id (all_entries by_name) ≡ count_under key by_name id
  unfolding all_entries count lookup
  count-all_entries [] d h = refl
  count-all_entries ((q, entries) ∷ m) d h =
      let rest = count-all_entries m d.1 (λ p k. under-tail q p id entries m d.0 (h p k)) in
      count-append id (map persisted entries) (all_entries m) ∙ elim (Bool-cases (text_eq q key)) [
        | inl same ↦
            let equal : q ≡ key = ground (arith, same, text_eq_iff q key) in
            let gone : lookup key m ≡ none = ap (λ k. lookup k m) (sym equal) ∙ d.0 in
            ground (arith, rest, gone, same, count-persisted id entries)
        | inr other ↦ ground (
          arith,
          rest,
          other,
          count-persisted id entries,
          entries_of-find_none id entries,
          h q other,
          text_eq_iff q q,
        )
      ]

module _ (to_lowercase : Text → Text) where
  pub not_elsewhere :
      (index : NameIndex) (key id q : Text)
      → IsValid to_lowercase index
      → (lookup id index.by_id ≡ some key) ⊎ (lookup id index.by_id ≡ none)
      → text_eq q key ≡ false
      → entry_under q index.by_name id ≡ none
  not_elsewhere index key id q valid h other =
      elim (Option-cases (entry_under q index.by_name id)) [
        | inl e ↦ e
        | inr (x, e) ↦ ground (arith, h, (valid.keyed q id x e).0, other, text_eq_iff q key)
      ]

  unindexed :
      (index : NameIndex) (id q : Text)
      → IsValid to_lowercase index
      → lookup id index.by_id ≡ none
      → entry_under q index.by_name id ≡ none
  unindexed index id q valid h = elim (Option-cases (entry_under q index.by_name id)) [
    | inl e ↦ e
    | inr (x, e) ↦ cc (sym h ∙ (valid.keyed q id x e).0)
  ]

  -- The entries of a reachable index: one for each indexed id.
  pub collected :
      (index : NameIndex) (id : Text)
      → Reachable to_lowercase index
      → (find_persisted id (all_entries index.by_name)
          ≡ written_entry (lookup_entry_by_id id index))
        × (count id (all_entries index.by_name) ≤ 1)
  unfolding lookup_entry_by_id
  collected index id r =
      let valid = Reachable-IsValid to_lowercase index r in
      let tidy = Reachable-IsSingle to_lowercase index r in
      elim (Option-cases (lookup id index.by_id)) [
        | inl e ↦
            let away = λ (q : Text) (_ : text_eq q [] ≡ false). unindexed index id q valid e in
            (
              find-all_entries [] id index.by_name tidy.distinct away
                  ∙ rw (unindexed index id [] valid e, e, lookup_entry_by_id),
              omega (
                arith,
                count-all_entries [] id index.by_name tidy.distinct away,
                tidy.single [] id,
              ),
            )
        | inr (key, e) ↦
            let away = λ (q : Text) (o : text_eq q key ≡ false).
              not_elsewhere index key id q valid (inl e) o in
            (
              find-all_entries key id index.by_name tidy.distinct away ∙ rw (e, lookup_entry_by_id),
              omega (
                arith,
                count-all_entries key id index.by_name tidy.distinct away,
                tidy.single key id,
              ),
            )
      ]
