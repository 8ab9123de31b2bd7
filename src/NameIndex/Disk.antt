-- ===== src/NameIndex/Disk.antt =====
-- What the name index (utils/name_index.rs) takes from its file. The file system and the JSON parser
-- are outside of the model: a file is missing, not readable, no snapshot, or a snapshot.
use workflowy_mcp.Base.{
  ℕ, false, not, ◌&&◌, Option, none, some, List, map, Text, ascii, text_eq, contains_key, filter,
  any, ltb, length, if◌then◌else◌,
}
use workflowy_mcp.Base.Int.{ℤ}
use workflowy_mcp.Types.{WorkflowyNode, default_node}
use workflowy_mcp.NameIndex.{NameIndex, ingest}

abbrev pub persist_schema_version : ℕ
persist_schema_version = 3

pub record PersistedEntry : Type 0 where
  pub id : Text
  pub name : Text
  pub parent_id : Option Text
  pub description : Option Text
  pub last_modified : Option ℤ

pub record PersistedSnapshot : Type 0 where
  pub version : ℕ
  pub updated_at : ℕ
  pub nodes : List PersistedEntry

pub data SnapshotFile : Type 0 where
  missing : SnapshotFile
  not_readable : Text → SnapshotFile
  malformed : Text → SnapshotFile
  snapshot : PersistedSnapshot → SnapshotFile

-- `std::io::Result`, with the text of the error
pub data IoResult {ℓ} (A : Type ℓ) : Type ℓ where
  io_ok : A → IoResult A
  io_err : Text → IoResult A

abbrev pub node_of : PersistedEntry → WorkflowyNode
node_of e = record default_node {
  id = e.id;
  name = e.name;
  parent_id = e.parent_id;
  description = e.description;
  last_modified = e.last_modified;
}

unfoldable pub newer_schema : Text
unfolding ascii
newer_schema = ascii "name index schema is newer than this binary supports"

-- The entries of the file that this process has no opinion on.
unfoldable pub adopted : NameIndex → List PersistedEntry → List WorkflowyNode
unfolding contains_key text_eq
adopted index nodes = map node_of (
    filter (λ e. not (contains_key e.id index.by_id) && not (any (text_eq e.id) index.tombstones))
      nodes)

module _ (to_lowercase : Text → Text) where
  unfoldable pub merge_from_disk : SnapshotFile → NameIndex → IoResult NameIndex
  unfolding ingest newer_schema adopted
  merge_from_disk missing index = io_ok index
  merge_from_disk (not_readable e) index = io_err e
  merge_from_disk (malformed e) index = io_ok index
  merge_from_disk (snapshot snap) index =
      if ltb persist_schema_version snap.version
      then io_err newer_schema
      else io_ok (ingest to_lowercase (adopted index snap.nodes) index)

  -- With the number of nodes of the file.
  unfoldable pub load_from_disk : Option SnapshotFile → NameIndex → IoResult (ℕ × NameIndex)
  unfolding ingest newer_schema
  load_from_disk none index = io_ok (0, index)
  load_from_disk (some missing) index = io_ok (0, index)
  load_from_disk (some (not_readable e)) index = io_err e
  load_from_disk (some (malformed e)) index = io_err e
  load_from_disk (some (snapshot snap)) index =
      if ltb persist_schema_version snap.version
      then io_err newer_schema
      else io_ok (
        length snap.nodes,
        record (ingest to_lowercase (map node_of snap.nodes) index) { dirty = false },
      )
