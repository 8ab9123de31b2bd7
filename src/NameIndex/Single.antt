-- ===== src/NameIndex/Single.antt =====
-- An id has at most one entry in the name index (utils/name_index.rs) in the states that the methods
-- reach.
use workflowy_mcp.Base.{
  ℕ, suc, ◌+◌, ◌≤◌, ◌≡◌, ◌⊎◌, refl, sym, ◌∙◌, Bool, true, false, not, none, some, List, [], ◌∷◌,
  ◌++◌, Text, text_eq, text_eq_iff, text_eq_refl, lookup, erase, insert, Distinct, Distinct-erase,
  Distinct-insert, lookup-erase, lookup-insert, contains_key, filter, if◌then◌else◌, Bool-cases,
  Option-cases, inl, inr, arith,
}
use workflowy_mcp.Types.{WorkflowyNode}
use workflowy_mcp.NameIndex.{
  NameIndexEntry, NameIndex, entry_of, find_entry, remove_entry, push_entry, remove_locked,
  ingest_changed, ingest_nodes, ingest, is_redundant, invalidate_node, clear,
}
use workflowy_mcp.NameIndex.Entries.{Names, entry_under}
use workflowy_mcp.NameIndex.Valid.{IsValid, entry-remove_locked}
use workflowy_mcp.NameIndex.Ingest.{ingest_changed-IsValid}
use workflowy_mcp.NameIndex.Reachable.{
  Reachable, started, ingested, invalidated, cleared, flagged, Reachable-IsValid,
}

unfoldable pub entries_of : Text → List NameIndexEntry → ℕ
entries_of id [] = 0
entries_of id (e ∷ es) =
    let rest = entries_of id es in if text_eq e.node_id id then suc rest else rest

-- How many entries an id has under a name.
abbrev pub count_under : Text → Names → Text → ℕ
count_under key by_name id = elim (lookup key by_name) [
  | none ↦ 0
  | some entries ↦ entries_of id entries
]

pub entries_of-find_none :
    (id : Text) (entries : List NameIndexEntry)
    → find_entry id entries ≡ none
    → entries_of id entries ≡ 0
unfolding entries_of find_entry
entries_of-find_none id [] h = refl
entries_of-find_none id (e ∷ es) h = ground (arith, entries_of-find_none id es)

entries_of-filter :
    (id j : Text) (entries : List NameIndexEntry)
    → entries_of j (filter (λ e. not (text_eq e.node_id id)) entries) ≤ entries_of j entries
unfolding entries_of
entries_of-filter id j [] = omega arith
entries_of-filter id j (e ∷ es) = ground (arith, entries_of-filter id j es)

entries_of-push :
    (j : Text) (entry : NameIndexEntry) (entries : List NameIndexEntry)
    → entries_of j (entries ++ entry ∷ [])
      ≡ entries_of j entries + (if text_eq entry.node_id j then 1 else 0)
unfolding entries_of
entries_of-push j entry [] = ground arith
entries_of-push j entry (e ∷ es) = ground (arith, entries_of-push j entry es)

-- A map with one list for each name and at most one entry for each id in it.
pub record IsSingle (by_name : Names) : Type 0 where
  pub distinct : Distinct by_name
  pub single : (key id : Text) → count_under key by_name id ≤ 1

List-cases :
    (xs : List NameIndexEntry)
    → (xs ≡ []) ⊎ ((y : NameIndexEntry) × (ys : List NameIndexEntry) × (xs ≡ y ∷ ys))
List-cases [] = inl refl
List-cases (x ∷ xs) = inr (x, xs, refl)

IsSingle-erase : (key : Text) (m : Names) → IsSingle m → IsSingle (erase key m)
IsSingle-erase key m h = record {
  distinct = Distinct-erase key m h.distinct;
  single = λ q id. ground (arith, h.single q id, lookup-erase key q m);
}

IsSingle-insert :
    (key : Text) (entries : List NameIndexEntry) (m : Names)
    → IsSingle m
    → ((id : Text) → entries_of id entries ≤ 1)
    → IsSingle (insert key entries m)
IsSingle-insert key entries m h one = record {
  distinct = Distinct-insert key entries m h.distinct;
  single = λ q id. ground (arith, one id, h.single q id, lookup-insert key q entries m);
}

IsSingle-remove_entry : (key id : Text) (m : Names) → IsSingle m → IsSingle (remove_entry key id m)
unfolding remove_entry
IsSingle-remove_entry key id m h = elim (Option-cases (lookup key m)) [
  | inl e ↦ rw (e, remove_entry) h
  | inr (entries, e) ↦ elim (List-cases (filter (λ x. not (text_eq x.node_id id)) entries)) [
    | inl gone ↦ rw (e, gone, remove_entry) (IsSingle-erase key m h)
    | inr (x, xs, left) ↦
        rw (e, left, remove_entry)
          (IsSingle-insert key (x ∷ xs) m h
            (λ j. ground (arith, sym left, entries_of-filter id j entries, h.single key j, e)))
  ]
]

entries_of-nil : (j : Text) → entries_of j [] ≡ 0
unfolding entries_of
entries_of-nil j = refl

IsSingle-push_entry :
    (key : Text) (entry : NameIndexEntry) (m : Names)
    → entry_under key m entry.node_id ≡ none
    → IsSingle m
    → IsSingle (push_entry key entry m)
unfolding push_entry
IsSingle-push_entry key entry m fresh h = elim (Option-cases (lookup key m)) [
  | inl e ↦
      rw (e, push_entry)
        (IsSingle-insert key (entry ∷ []) m h
          (λ j. ground (arith, entries_of-push j entry [], entries_of-nil j)))
  | inr (entries, e) ↦
      let free : find_entry entry.node_id entries ≡ none = rw (e, entry_under) at fresh in
      rw (e, push_entry)
        (IsSingle-insert key (entries ++ entry ∷ []) m h (λ j. ground (
          arith,
          e,
          entries_of-push j entry entries,
          h.single key j,
          entries_of-find_none entry.node_id entries free,
          text_eq_iff entry.node_id j,
        )))
]

IsSingle-remove_locked :
    (id : Text) (index : NameIndex)
    → IsSingle index.by_name
    → IsSingle (remove_locked id index).by_name
unfolding remove_locked
IsSingle-remove_locked id index h = elim (Option-cases (lookup id index.by_id)) [
  | inl e ↦ rw (e, remove_locked) h
  | inr (key, e) ↦ rw (e, remove_locked) (IsSingle-remove_entry key id index.by_name h)
]

module _ (to_lowercase : Text → Text) where
  IsSingle-ingest_changed :
      (node : WorkflowyNode) (index : NameIndex)
      → IsValid to_lowercase index
      → IsSingle index.by_name
      → IsSingle (ingest_changed to_lowercase node index).by_name
  unfolding ingest_changed
  IsSingle-ingest_changed node index valid h =
      let key = to_lowercase node.name in
      IsSingle-push_entry key (entry_of node) (remove_locked node.id index).by_name
        (entry-remove_locked to_lowercase node.id key node.id index valid
          ∙ rw (text_eq_refl node.id))
        (IsSingle-remove_locked node.id index h)

  IsSingle-ingest_nodes :
      (nodes : List WorkflowyNode) (index : NameIndex) (changed : Bool)
      → IsValid to_lowercase index
      → IsSingle index.by_name
      → IsSingle (ingest_nodes to_lowercase nodes index changed).0.by_name
  unfolding ingest_nodes
  IsSingle-ingest_nodes [] index changed valid h = h
  IsSingle-ingest_nodes (node ∷ nodes) index changed valid h =
      elim (Bool-cases (is_redundant to_lowercase index node)) [
        | inl same ↦ rw (same, ingest_nodes) (IsSingle-ingest_nodes nodes index changed valid h)
        | inr new ↦
            rw (new, ingest_nodes)
              (IsSingle-ingest_nodes nodes (ingest_changed to_lowercase node index) true
                (ingest_changed-IsValid to_lowercase node index valid)
                (IsSingle-ingest_changed node index valid h))
      ]

  IsSingle-ingest :
      (nodes : List WorkflowyNode) (index : NameIndex)
      → IsValid to_lowercase index
      → IsSingle index.by_name
      → IsSingle (ingest to_lowercase nodes index).by_name
  unfolding ingest
  IsSingle-ingest nodes index valid h =
      let good = IsSingle-ingest_nodes nodes index false valid h in
      elim (Bool-cases (ingest_nodes to_lowercase nodes index false).1) [
        | inl changed ↦ rw (changed, ingest) good
        | inr same ↦ rw (same, ingest) good
      ]

  IsSingle-invalidate_node :
      (id : Text) (index : NameIndex)
      → IsSingle index.by_name
      → IsSingle (invalidate_node id index).by_name
  unfolding invalidate_node
  IsSingle-invalidate_node id index h =
      let good = IsSingle-remove_locked id index h in
      elim (Bool-cases (contains_key id index.by_id)) [
        | inl there ↦ rw (there, invalidate_node) good
        | inr absent ↦ rw (absent, invalidate_node) good
      ]

  empty-IsSingle : IsSingle []
  unfolding lookup
  empty-IsSingle = record { distinct = tt; single = λ key id. omega arith }

  pub Reachable-IsSingle :
      (index : NameIndex) → Reachable to_lowercase index → IsSingle index.by_name
  unfolding clear
  Reachable-IsSingle _ started = empty-IsSingle
  Reachable-IsSingle _ (ingested nodes index r) =
      IsSingle-ingest nodes index (Reachable-IsValid to_lowercase index r)
        (Reachable-IsSingle index r)
  Reachable-IsSingle _ (invalidated id index r) =
      IsSingle-invalidate_node id index (Reachable-IsSingle index r)
  Reachable-IsSingle _ (cleared index r) = empty-IsSingle
  Reachable-IsSingle _ (flagged dirty tombstones index r) = Reachable-IsSingle index r
