-- ===== src/NameIndex/Entries.antt =====
-- The entries of the name index (utils/name_index.rs): what an insertion and a removal do to the entry
-- that an id has.
use workflowy_mcp.Base.{
  ◌≡◌, ◌⊎◌, refl, sym, false, not, Option, none, some, List, [], ◌∷◌, ◌++◌, Text, text_eq,
  text_eq_iff, text_eq_refl, Dict, lookup, lookup-erase, lookup-insert, filter, Bool-cases,
  Option-cases, if◌then◌else◌, inl, inr, arith,
}
use workflowy_mcp.NameIndex.{NameIndexEntry, remove_entry, push_entry, find_entry}

abbrev pub Names : Type 0
Names = Dict (List NameIndexEntry)

-- The entry of an id that is indexed under a name.
abbrev pub entry_under : Text → Names → Text → Option NameIndexEntry
entry_under key by_name id = elim (lookup key by_name) [
  | none ↦ none
  | some entries ↦ find_entry id entries
]

find-others :
    (id j : Text) (entries : List NameIndexEntry)
    → text_eq id j ≡ false
    → find_entry j (filter (λ e. not (text_eq e.node_id id)) entries) ≡ find_entry j entries
unfolding find_entry
find-others id j [] h = refl
find-others id j (e ∷ es) h = ground (
  arith,
  find-others id j es,
  text_eq_iff e.node_id id,
  text_eq_iff e.node_id j,
  text_eq_iff id j,
)

find-removed :
    (id : Text) (entries : List NameIndexEntry)
    → find_entry id (filter (λ e. not (text_eq e.node_id id)) entries) ≡ none
unfolding find_entry
find-removed id [] = refl
find-removed id (e ∷ es) = ground (arith, find-removed id es)

find-pushed :
    (j : Text) (entry : NameIndexEntry) (entries : List NameIndexEntry)
    → text_eq entry.node_id j ≡ false
    → find_entry j (entries ++ entry ∷ []) ≡ find_entry j entries
unfolding find_entry
find-pushed j entry [] h = ground arith
find-pushed j entry (e ∷ es) h = ground (arith, find-pushed j entry es)

find-last :
    (entry : NameIndexEntry) (entries : List NameIndexEntry)
    → find_entry entry.node_id entries ≡ none
    → find_entry entry.node_id (entries ++ entry ∷ []) ≡ some entry
unfolding find_entry
find-last entry [] h = ground (arith, text_eq_refl entry.node_id)
find-last entry (e ∷ es) h = ground (arith, find-last entry es)

List-cases :
    (xs : List NameIndexEntry)
    → (xs ≡ []) ⊎ ((y : NameIndexEntry) × (ys : List NameIndexEntry) × (xs ≡ y ∷ ys))
List-cases [] = inl refl
List-cases (x ∷ xs) = inr (x, xs, refl)

find-filtered :
    (id j : Text) (entries : List NameIndexEntry)
    → find_entry j (filter (λ e. not (text_eq e.node_id id)) entries)
      ≡ (if text_eq id j then none else find_entry j entries)
find-filtered id j entries = elim (Bool-cases (text_eq id j)) [
  | inl same ↦
      let equal : id ≡ j = ground (arith, same, text_eq_iff id j) in
      rw same (rw (sym equal) (find-removed id entries))
  | inr other ↦ rw other (find-others id j entries other)
]

find-nil : (j : Text) → find_entry j [] ≡ none
unfolding find_entry
find-nil j = refl

-- A removal under a name takes the entry of the id from there, and no other.
pub entry-remove_entry :
    (key id q j : Text) (by_name : Names)
    → entry_under q (remove_entry key id by_name) j ≡ (
        if text_eq key q
        then if text_eq id j then none else entry_under q by_name j
        else entry_under q by_name j)
unfolding remove_entry
entry-remove_entry key id q j by_name = elim (Option-cases (lookup key by_name)) [
  | inl e ↦ rw (e, remove_entry) (ground (arith, e, text_eq_iff key q))
  | inr (entries, e) ↦
      let found = find-filtered id j entries in
      elim (List-cases (filter (λ x. not (text_eq x.node_id id)) entries)) [
        | inl none_left ↦
            let empty = rw none_left at found in
            rw (e, none_left, remove_entry)
              (ground (arith, e, empty, find-nil j, lookup-erase key q by_name, text_eq_iff key q))
        | inr (x, xs, left) ↦
            let some_left = rw left at found in
            rw (e, left, remove_entry)
              (ground
                (arith, e, some_left, lookup-insert key q (x ∷ xs) by_name, text_eq_iff key q))
      ]
]

-- A push under a name adds the entry there, behind an older one of the same id.
pub entry-push_entry :
    (key q j : Text) (entry : NameIndexEntry) (by_name : Names)
    → entry_under key by_name entry.node_id ≡ none
    → entry_under q (push_entry key entry by_name) j ≡ (
        if text_eq key q
        then if text_eq entry.node_id j then some entry else entry_under q by_name j
        else entry_under q by_name j)
unfolding push_entry
entry-push_entry key q j entry by_name fresh = elim (Option-cases (lookup key by_name)) [
  | inl e ↦
      rw (e, push_entry)
        (ground (
          arith,
          e,
          find-pushed j entry [],
          find-last entry [],
          find-nil j,
          find-nil entry.node_id,
          lookup-insert key q (entry ∷ []) by_name,
          text_eq_iff key q,
          text_eq_iff entry.node_id j,
        ))
  | inr (entries, e) ↦
      rw (e, push_entry)
        (ground (
          arith,
          e,
          fresh,
          find-pushed j entry entries,
          find-last entry entries,
          lookup-insert key q (entries ++ entry ∷ []) by_name,
          text_eq_iff key q,
          text_eq_iff entry.node_id j,
        ))
]
