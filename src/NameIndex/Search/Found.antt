-- ===== src/NameIndex/Search/Found.antt =====
-- What the searches by name and by time (utils/name_index.rs) return.
use workflowy_mcp.Base.{
  ◌≡◌, refl, sym, ap, ◌∙◌, Bool, false, none, some, List, [], ◌∷◌, ◌++◌, Text, ascii, text_eq,
  text_eq_iff, text_eq_refl, starts_with, contains, Distinct, lookup, if◌then◌else◌, Bool-cases,
  Option-cases, inl, inr, arith,
}
use workflowy_mcp.NameIndex.{NameIndexEntry, NameIndex, find_entry, lookup_entry_by_id}
use workflowy_mcp.NameIndex.Entries.{Names, entry_under}
use workflowy_mcp.NameIndex.Single.{Reachable-IsSingle}
use workflowy_mcp.NameIndex.Reachable.{Reachable, Reachable-IsValid}
use workflowy_mcp.NameIndex.Save.Collected.{under-head, under-rest, under-tail, not_elsewhere}
use workflowy_mcp.NameIndex.Search.{gather, lookup_names}

find-append :
    (id : Text) (xs ys : List NameIndexEntry)
    → find_entry id (xs ++ ys)
      ≡ (elim (find_entry id xs) [ none ↦ find_entry id ys | some x ↦ some x ])
unfolding find_entry
find-append id [] ys = refl
find-append id (x ∷ xs) ys = ground (arith, find-append id xs ys)

find-nil : (id : Text) → find_entry id [] ≡ none
unfolding find_entry
find-nil id = refl

module _ (keep : Text → Bool) (key id : Text) where
  find-gather :
      (by_name : Names)
      → Distinct by_name
      → ((q : Text) → text_eq q key ≡ false → entry_under q by_name id ≡ none)
      → find_entry id (gather keep by_name)
        ≡ (if keep key then entry_under key by_name id else none)
  unfolding gather lookup
  find-gather [] d h = ground (arith, find-nil id)
  find-gather ((q, entries) ∷ m) d h =
      let rest = find-gather m d.1 (λ p k. under-tail q p id entries m d.0 (h p k)) in
      elim (Bool-cases (text_eq q key)) [
        | inl same ↦
            let equal : q ≡ key = ground (arith, same, text_eq_iff q key) in
            let gone : entry_under key m id ≡ none =
              rw (ap (λ k. lookup k m) (sym equal) ∙ d.0, entry_under) in
            rw (under-head q key id entries m same)
              (ground (arith, find-append id entries (gather keep m), rest, gone, ap keep equal))
        | inr other ↦
            let e : find_entry id entries ≡ none =
              sym (under-head q q id entries m (text_eq_refl q)) ∙ h q other in
            rw (under-rest q key id entries m other)
              (ground (arith, find-append id entries (gather keep m), rest, e))
      ]

-- Whether a lowered name is one that the mode asks for.
abbrev pub is_match_of : Text → Text → Text → Bool
unfolding ascii text_eq starts_with contains
is_match_of match_mode q key =
    if text_eq match_mode (ascii "exact")
    then text_eq key q
    else if text_eq match_mode (ascii "starts_with")
    then starts_with key q
    else if text_eq match_mode (ascii "contains")
    then contains key q
    else false

find-exact :
    (q id : Text) (by_name : Names)
    → find_entry id (elim (lookup q by_name) [ none ↦ [] | some hit ↦ hit ])
      ≡ entry_under q by_name id
find-exact q id by_name = elim (Option-cases (lookup q by_name)) [
  | inl e ↦ rw (e, entry_under) (find-nil id)
  | inr (entries, e) ↦ rw (e, entry_under)
]

module _ (to_lowercase : Text → Text) where
  -- A search by name in a reachable index returns an indexed id's entry exactly when the lowered name that
  -- it is indexed under is the lowered query, begins with it or has it within, as the mode says; under
  -- an unknown mode it returns nothing.
  pub lookup_names_lem :
      (query match_mode id key : Text) (index : NameIndex)
      → Reachable to_lowercase index
      → lookup id index.by_id ≡ some key
      → find_entry id (lookup_names to_lowercase query match_mode index) ≡ (
          if is_match_of match_mode (to_lowercase query) key
          then lookup_entry_by_id id index
          else none)
  unfolding lookup_names lookup_entry_by_id ascii
  lookup_names_lem query match_mode id key index r h =
      let valid = Reachable-IsValid to_lowercase index r in
      let tidy = Reachable-IsSingle to_lowercase index r in
      let away = λ (q : Text) (o : text_eq q key ≡ false).
        not_elsewhere to_lowercase index key id q valid (inl h) o in
      let q = to_lowercase query in
      let under : lookup_entry_by_id id index ≡ entry_under key index.by_name id =
        rw (h, lookup_entry_by_id) in
      let by_key =
        λ (keep : Text → Bool). find-gather keep key id index.by_name tidy.distinct away in
      rw under (
        ground (
          arith,
          find-exact q id index.by_name,
          away q,
          text_eq_iff key q,
          text_eq_iff q key,
          by_key (λ k. starts_with k q),
          by_key (λ k. contains k q),
          find-nil id,
        ))
