-- ===== src/Tests/Indexes.antt =====
-- The theorems on the name index at concrete inputs.
use workflowy_mcp.Base.{
  ℕ, ◌≤◌, List, ◌≡◌, ◌↔◌, refl, ◌||◌, true, false, none, some, [], ◌∷◌, map, Text, ascii,
  ascii_lower, text_eq, lookup, contains_key, if◌then◌else◌, any,
}
use workflowy_mcp.Types.{WorkflowyNode, default_node}
use workflowy_mcp.NameIndex.{
  NameIndex, NameIndexEntry, new_index, ingest, resolve_short_hash, strip_hyphens, prefix_hash_of,
  lookup_entry_by_id, invalidate_node, find_entry,
}
use workflowy_mcp.NameIndex.Reachable.{
  Reachable, started, ingested, IsHashOf, resolve_short_hash-IsHashOf, lookup_entry_by_id_iff,
}
use workflowy_mcp.NameIndex.Lookup.{ingest-finds, invalidate_node-forgets}
use workflowy_mcp.NameIndex.Disk.{
  PersistedSnapshot, snapshot, io_ok, merge_from_disk, load_from_disk,
}
use workflowy_mcp.NameIndex.Exclude.{excluded_ids, has}
use workflowy_mcp.NameIndex.Exclude.Closure.{IsExcluded, excluded_ids_lem}
use workflowy_mcp.NameIndex.Save.{save_to_disk}
use workflowy_mcp.NameIndex.Save.Complete.{IsRestored, save_to_disk-load_from_disk}
use workflowy_mcp.NameIndex.Search.{lookup_names, is_descendant_of}
use workflowy_mcp.NameIndex.Search.Found.{is_match_of, lookup_names_lem}
use workflowy_mcp.NameIndex.Search.Ancestors.{IsAbove, is_descendant_of_iff}
use workflowy_mcp.NameIndex.Merge.{merge_from_disk-keeps, merge_from_disk-adopts}

abbrev lower : Text → Text
unfolding ascii_lower
lower t = map ascii_lower t

abbrev first_id : Text
unfolding ascii
first_id = ascii "c1ef1ad5-ce38-8fed-bf6f-4737f286b86a"

abbrev second_id : Text
unfolding ascii
second_id = ascii "0a0b0c0d-ce38-8fed-bf6f-000000000001"

abbrev first_node : WorkflowyNode
first_node = record default_node { id = first_id; name = b'T' ∷ []; description = some (b'd' ∷ []) }

abbrev second_node : WorkflowyNode
second_node = record default_node { id = second_id; name = b't' ∷ [] }

abbrev one_index : NameIndex
one_index = ingest lower (first_node ∷ []) new_index

abbrev two_index : NameIndex
two_index = ingest lower (second_node ∷ []) one_index

one_index-Reachable : Reachable lower one_index
one_index-Reachable = ingested (first_node ∷ []) new_index started

two_index-Reachable : Reachable lower two_index
two_index-Reachable = ingested (second_node ∷ []) one_index one_index-Reachable

abbrev short : Text
unfolding ascii
short = ascii "C1EF1AD5"

resolves : resolve_short_hash short two_index ≡ some first_id
unfolding resolve_short_hash ingest short first_id second_id lower text_eq lookup prefix_hash_of
resolves = refl

resolve_short_hash-IsHashOf_example :
    (contains_key first_id two_index.by_id ≡ true)
    × IsHashOf lower (map ascii_lower (strip_hyphens short)) first_id second_id two_index
resolve_short_hash-IsHashOf_example =
    resolve_short_hash-IsHashOf lower two_index short first_id second_id two_index-Reachable
      resolves

apart : text_eq first_node.id second_id ≡ false
unfolding text_eq first_id second_id
apart = refl

ingest-finds_example :
    ((e : NameIndexEntry) × (lookup_entry_by_id first_id (ingest lower (first_node ∷ []) two_index)
        ≡ some e)
      × (lower e.name ≡ lower first_node.name)
      × (e.description ≡ first_node.description))
    × (lookup_entry_by_id second_id (ingest lower (first_node ∷ []) two_index)
        ≡ lookup_entry_by_id second_id two_index)
ingest-finds_example = ingest-finds lower first_node two_index second_id two_index-Reachable apart

invalidate_node-forgets_example :
    lookup_entry_by_id second_id (invalidate_node first_id two_index)
    ≡ (if text_eq first_id second_id then none else lookup_entry_by_id second_id two_index)
invalidate_node-forgets_example =
    invalidate_node-forgets lower first_id second_id two_index two_index-Reachable

lookup_entry_by_id_iff_example : (lookup first_id two_index.by_id ≡ some (b't' ∷ [])) ↔ (
    (e : NameIndexEntry) × (lookup_entry_by_id first_id two_index ≡ some e)
    × (lower e.name ≡ b't' ∷ []))
lookup_entry_by_id_iff_example =
    lookup_entry_by_id_iff lower two_index first_id (b't' ∷ []) two_index-Reachable

-- A file that has another name for the first node, and the second node.
abbrev on_file : PersistedSnapshot
on_file = record {
  version = 3;
  updated_at = 0;
  nodes =
      record {
        id = first_id;
        name = b'x' ∷ [];
        parent_id = none;
        description = none;
        last_modified = none;
      }
      ∷ record {
        id = second_id;
        name = b't' ∷ [];
        parent_id = none;
        description = none;
        last_modified = none;
      }
      ∷ [];
}

abbrev merged : NameIndex
merged = ingest lower (second_node ∷ []) one_index

merges : merge_from_disk lower (snapshot on_file) one_index ≡ io_ok merged
unfolding merge_from_disk ingest first_id second_id text_eq contains_key lookup lower
merges = refl

is_known :
    (contains_key first_id one_index.by_id || any (text_eq first_id) one_index.tombstones) ≡ true
unfolding contains_key ingest first_id text_eq lookup lower
is_known = refl

is_free : any (text_eq second_id) one_index.tombstones ≡ false
unfolding ingest first_id text_eq lookup lower
is_free = refl

is_on_file : any (λ e. text_eq e.id second_id) on_file.nodes ≡ true
unfolding text_eq first_id second_id
is_on_file = refl

merge_from_disk-keeps_example :
    lookup_entry_by_id first_id merged ≡ lookup_entry_by_id first_id one_index
merge_from_disk-keeps_example =
    merge_from_disk-keeps lower on_file one_index merged first_id one_index-Reachable merges
      is_known

merge_from_disk-adopts_example : contains_key second_id merged.by_id ≡ true
merge_from_disk-adopts_example =
    merge_from_disk-adopts lower on_file one_index merged second_id merges is_on_file is_free

excluded_ids_lem_example :
    (out : List Text) × (excluded_ids (first_id ∷ []) on_file.nodes ≡ some out)
    × ((id : Text) → (has id out ≡ true) ↔ IsExcluded (first_id ∷ []) on_file.nodes id)
excluded_ids_lem_example = excluded_ids_lem (first_id ∷ []) on_file.nodes

save_to_disk-load_from_disk_example :
    (snap : PersistedSnapshot) × (save_to_disk lower
        (first_id ∷ [])
        7
        (some (snapshot on_file))
        none
        none
        one_index
      ≡ record {
        index = record merged { dirty = false; tombstones = [] };
        written = some snap;
        answer = io_ok true;
      })
    × (n : ℕ) × (loaded : NameIndex) × (load_from_disk lower (some (snapshot snap)) new_index
        ≡ io_ok (n, loaded))
    × IsRestored lower (first_id ∷ []) merged second_id loaded
save_to_disk-load_from_disk_example =
    save_to_disk-load_from_disk lower (first_id ∷ []) 7 (snapshot on_file) one_index merged
      second_id one_index-Reachable merges

abbrev query : Text
query = b'T' ∷ []

abbrev prefix_mode : Text
unfolding ascii
prefix_mode = ascii "starts_with"

is_named : lookup second_id two_index.by_id ≡ some (b't' ∷ [])
unfolding ingest first_id second_id text_eq lookup lower
is_named = refl

lookup_names_lem_example : find_entry second_id (lookup_names lower query prefix_mode two_index) ≡ (
    if is_match_of prefix_mode (lower query) (b't' ∷ [])
    then lookup_entry_by_id second_id two_index
    else none)
lookup_names_lem_example =
    lookup_names_lem lower query prefix_mode second_id (b't' ∷ []) two_index two_index-Reachable
      is_named

is_descendant_of_iff_example :
    (is_descendant_of second_id first_id two_index ≡ true)
    ↔ ((n : ℕ) × (n ≤ 32) × IsAbove two_index first_id n second_id)
is_descendant_of_iff_example = is_descendant_of_iff second_id first_id two_index
