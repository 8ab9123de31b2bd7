-- ===== src/NameIndex.antt =====
-- The in-memory name index (utils/name_index.rs): four maps that are kept in step. `to_lowercase` of
-- Unicode text is a parameter; on the hexadecimal digits of a hash it is ASCII lowering. The locks,
-- which every method takes before it reads or writes, are not modelled: a method is one step.
pub mod Hashes
pub mod Entries
pub mod Valid
pub mod Ingest
pub mod Reachable
pub mod Lookup
pub mod Merge
pub mod Disk
pub mod Exclude
pub mod Save
pub mod Search
pub mod Single
use workflowy_mcp.Base.{
  ℕ, zero, suc, ◌+◌, ◌-◌, ◌^◌, min, Bool, true, false, not, ◌&&◌, ◌||◌, Option, none, some, List,
  [], ◌∷◌, ◌++◌, map, Text, ascii, text_eq, ascii_lower, is_ascii_hexdigit, starts_with, contains,
  Dict, lookup, erase, insert, contains_key, length, take, drop, filter, find, all, any, ltb, leb,
  ◌==◌, if◌then◌else◌,
}
use workflowy_mcp.Base.Int.{ℤ, leb_ℤ}
use workflowy_mcp.Types.{WorkflowyNode}

abbrev pub short_hash_len_url : ℕ
short_hash_len_url = 12

abbrev pub short_hash_len_prefix : ℕ
short_hash_len_prefix = 8

pub record NameIndexEntry : Type 0 where
  pub node_id : Text
  pub name : Text
  pub parent_id : Option Text
  pub description : Option Text
  pub last_modified : Option ℤ

pub record PrefixEntry : Type 0 where
  pub full_uuid : Text
  pub count : ℕ

pub record NameIndex : Type 0 where
  pub by_name : Dict (List NameIndexEntry)
  pub by_id : Dict Text
  pub by_short_hash : Dict Text
  pub by_prefix_hash : Dict PrefixEntry
  pub dirty : Bool
  pub tombstones : List Text

abbrev pub new_index : NameIndex
new_index = record {
  by_name = [];
  by_id = [];
  by_short_hash = [];
  by_prefix_hash = [];
  dirty = false;
  tombstones = [];
}

-- `chars().filter(|c| *c != '-')`
unfoldable pub strip_hyphens : Text → Text
strip_hyphens s = filter (λ c. not (c == b'-')) s

-- The two hashes of an id without its hyphens; none unless it has 32 hexadecimal digits.
unfoldable pub is_uuid_digits : Text → Bool
unfolding is_ascii_hexdigit
is_uuid_digits stripped = length stripped == 32 && all is_ascii_hexdigit stripped

unfoldable pub prefix_hash_of : Text → Option Text
unfolding strip_hyphens is_uuid_digits ascii_lower
prefix_hash_of node_id =
    let stripped = strip_hyphens node_id in
    if is_uuid_digits stripped
    then some (map ascii_lower (take short_hash_len_prefix stripped))
    else none

unfoldable pub short_hash_of : Text → Option Text
unfolding strip_hyphens is_uuid_digits ascii_lower
short_hash_of node_id =
    let stripped = strip_hyphens node_id in
    if is_uuid_digits stripped
    then some (map ascii_lower (drop (length stripped - short_hash_len_url) stripped))
    else none

-- The part of a removal that concerns a hash map: the entry goes if it still points at the node.
unfoldable pub remove_short : Text → Dict Text → Dict Text
unfolding lookup erase text_eq
remove_short node_id by_short = elim (short_hash_of node_id) [
  | none ↦ by_short
  | some short ↦ elim (lookup short by_short) [
    | none ↦ by_short
    | some v ↦ if text_eq v node_id then erase short by_short else by_short
  ]
]

-- An ambiguous prefix is left in place.
unfoldable pub remove_prefix : Text → Dict PrefixEntry → Dict PrefixEntry
unfolding lookup erase text_eq
remove_prefix node_id by_prefix = elim (prefix_hash_of node_id) [
  | none ↦ by_prefix
  | some prefix ↦ elim (lookup prefix by_prefix) [
    | none ↦ by_prefix
    | some e ↦
        if e.count == 1 && text_eq e.full_uuid node_id then erase prefix by_prefix else by_prefix
  ]
]

-- `value.entries.retain(…)`, and the key goes with its last entry
unfoldable pub remove_entry : Text → Text → Dict (List NameIndexEntry) → Dict (List NameIndexEntry)
unfolding lookup erase insert text_eq
remove_entry key node_id by_name = elim (lookup key by_name) [
  | none ↦ by_name
  | some entries ↦ elim (filter (λ e. not (text_eq e.node_id node_id)) entries) [
    | [] ↦ erase key by_name
    | e ∷ es ↦ insert key (e ∷ es) by_name
  ]
]

unfoldable pub remove_locked : Text → NameIndex → NameIndex
unfolding lookup erase remove_entry remove_short remove_prefix
remove_locked node_id index = record index {
  by_name = elim (lookup node_id index.by_id) [
    | none ↦ index.by_name
    | some key ↦ remove_entry key node_id index.by_name
  ];
  by_id = erase node_id index.by_id;
  by_short_hash = remove_short node_id index.by_short_hash;
  by_prefix_hash = remove_prefix node_id index.by_prefix_hash;
}

unfoldable pub insert_short : Text → Dict Text → Dict Text
unfolding insert
insert_short node_id by_short = elim (short_hash_of node_id) [
  | none ↦ by_short
  | some short ↦ insert short node_id by_short
]

-- `count.saturating_add(1)`
unfoldable pub bump : Text → PrefixEntry → PrefixEntry
unfolding text_eq
bump node_id e =
    if text_eq e.full_uuid node_id then e else record e { count = min (e.count + 1) (2 ^ 32 - 1) }

unfoldable pub insert_prefix : Text → Dict PrefixEntry → Dict PrefixEntry
unfolding lookup insert bump
insert_prefix node_id by_prefix = elim (prefix_hash_of node_id) [
  | none ↦ by_prefix
  | some prefix ↦ elim (lookup prefix by_prefix) [
    | none ↦ insert prefix record { full_uuid = node_id; count = 1 } by_prefix
    | some e ↦ insert prefix (bump node_id e) by_prefix
  ]
]

unfoldable pub push_entry :
    Text → NameIndexEntry → Dict (List NameIndexEntry) → Dict (List NameIndexEntry)
unfolding lookup insert
push_entry key entry by_name = elim (lookup key by_name) [
  | none ↦ insert key (entry ∷ []) by_name
  | some entries ↦ insert key (entries ++ entry ∷ []) by_name
]

unfoldable pub option_eq {ℓ} : {A : Type ℓ} → (A → A → Bool) → Option A → Option A → Bool
option_eq eq none none = true
option_eq eq (some a) (some b) = eq a b
option_eq eq _ _ = false

unfoldable pub eq_ℤ : ℤ → ℤ → Bool
eq_ℤ a b = leb_ℤ a b && leb_ℤ b a

-- A node whose description and time of change are those of its entry; a node without a time passes.
unfoldable pub same_content : NameIndexEntry → WorkflowyNode → Bool
unfolding option_eq text_eq eq_ℤ
same_content e node =
    option_eq text_eq e.description node.description
    && (option_eq eq_ℤ node.last_modified none || option_eq eq_ℤ e.last_modified node.last_modified)

abbrev pub entry_of : WorkflowyNode → NameIndexEntry
entry_of node = record {
  node_id = node.id;
  name = node.name;
  parent_id = node.parent_id;
  description = node.description;
  last_modified = node.last_modified;
}

unfoldable pub find_entry : Text → List NameIndexEntry → Option NameIndexEntry
unfolding text_eq
find_entry node_id entries = find (λ e. text_eq e.node_id node_id) entries

-- `by_id` gives the key, `by_name` the entries under it
unfoldable pub lookup_entry_by_id : Text → NameIndex → Option NameIndexEntry
unfolding lookup find_entry
lookup_entry_by_id node_id index = elim (lookup node_id index.by_id) [
  | none ↦ none
  | some lc_name ↦ elim (lookup lc_name index.by_name) [
    | none ↦ none
    | some entries ↦ find_entry node_id entries
  ]
]

module _ (to_lowercase : Text → Text) where
  -- The node is indexed under this name, with this content.
  unfoldable pub is_redundant : NameIndex → WorkflowyNode → Bool
  unfolding lookup text_eq lookup_entry_by_id same_content
  is_redundant index node = elim (lookup node.id index.by_id) [
    | none ↦ false
    | some lc_name ↦
        text_eq lc_name (to_lowercase node.name)
        && elim (lookup_entry_by_id node.id index) [ none ↦ false | some e ↦ same_content e node ]
  ]

  unfoldable pub ingest_changed : WorkflowyNode → NameIndex → NameIndex
  unfolding remove_locked insert insert_short insert_prefix push_entry
  ingest_changed node index =
      let removed = remove_locked node.id index in
      let key = to_lowercase node.name in
      record removed {
        by_id = insert node.id key removed.by_id;
        by_short_hash = insert_short node.id removed.by_short_hash;
        by_prefix_hash = insert_prefix node.id removed.by_prefix_hash;
        by_name = push_entry key (entry_of node) removed.by_name;
      }

  -- The loop of `ingest`, with `changed` for the index so far.
  unfoldable pub ingest_nodes : List WorkflowyNode → NameIndex → Bool → NameIndex × Bool
  unfolding is_redundant ingest_changed
  ingest_nodes [] index changed = (index, changed)
  ingest_nodes (node ∷ nodes) index changed = elim (is_redundant index node) [
    | true ↦ ingest_nodes nodes index changed
    | false ↦ ingest_nodes nodes (ingest_changed node index) true
  ]

  unfoldable pub ingest : List WorkflowyNode → NameIndex → NameIndex
  unfolding ingest_nodes
  ingest nodes index =
      let (done, changed) = ingest_nodes nodes index false in
      if changed then record done { dirty = true } else done

unfoldable pub invalidate_node : Text → NameIndex → NameIndex
unfolding contains_key remove_locked
invalidate_node node_id index =
    let removed = remove_locked node_id index in
    if contains_key node_id index.by_id
    then record removed { tombstones = node_id ∷ removed.tombstones; dirty = true }
    else removed

unfoldable pub is_populated : NameIndex → Bool
is_populated index = elim index.by_id [ [] ↦ false | e ∷ es ↦ true ]

abbrev pub keys : Dict Text → List Text
keys m = map (λ e. e.0) m

unfoldable pub clear : NameIndex → NameIndex
unfolding is_populated
clear index = record {
  by_name = [];
  by_id = [];
  by_short_hash = [];
  by_prefix_hash = [];
  dirty = index.dirty || is_populated index;
  tombstones = keys index.by_id ++ index.tombstones;
}

unfoldable pub resolve_short_hash : Text → NameIndex → Option Text
unfolding strip_hyphens is_ascii_hexdigit ascii_lower lookup
resolve_short_hash short index =
    let stripped = strip_hyphens short in
    let key = map ascii_lower stripped in
    if length stripped == short_hash_len_url
    then if all is_ascii_hexdigit stripped then lookup key index.by_short_hash else none
    else if length stripped == short_hash_len_prefix
    then if all is_ascii_hexdigit stripped
      then elim (lookup key index.by_prefix_hash) [
        | none ↦ none
        | some e ↦ if ltb 1 e.count then none else some e.full_uuid
      ]
      else none
    else none
