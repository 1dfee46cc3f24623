-- ===== src/ProtectedStore/Catalog.antt =====
-- internal/protectedstore/memory_repository.go: logical files and their immutable versions.
pub mod Versions
use secure_file_storage_syst.Prelude.{
  ℕ, ◌+◌, String, Bool, true, false, not, ◌&&◌, ◌||◌, Option, none, some, List, [], ◌∷◌, length,
  keep, find, any, map, if◌then◌else◌, ◌==◌, Eq, string_eq, is_none, Result, ok, err,
}
use secure_file_storage_syst.Prelude.Map.{Map, lookup, insert}
use secure_file_storage_syst.ProtectedStore.{
  Error, not_found, restore_conflict, random_failure, panic, Metadata, LogicalFile, Version,
  Details, LifecycleFile, MemoryRepository, lifecycle_of, versions_of,
}

-- `opaqueID` draws the identifier; `none` is a failure of the random source.
abbrev pub OpaqueId : Type 0
OpaqueId = Option String

pub new_file : String → String → String → Metadata → LogicalFile
new_file file_id owner_id name metadata = record {
  file_id = file_id;
  owner_id = owner_id;
  name = name;
  current_version_id = metadata.version_id;
  created_at = metadata.created_at;
  updated_at = metadata.created_at;
}

pub initial_version : String → Metadata → Version
initial_version file_id metadata = record {
  file_id = file_id;
  version_id = metadata.version_id;
  source_version_id = "";
  operation_id = metadata.upload_id;
  number = 1;
  plaintext_size = metadata.plaintext_size;
  media_type = metadata.media_type;
  reason = "initial_upload";
  current = true;
  created_at = metadata.created_at;
}

pub untouched : LogicalFile → LifecycleFile
untouched file = record {
  file = file;
  deleted_at = none;
  purge_after = none;
  retention_until = none;
  legal_hold = false;
  legal_hold_reason = "";
  purged_at = none;
}

-- `return file, r.versions[file.FileID][0], nil`
already_registered : LogicalFile → List Version → Result Error (LogicalFile × Version)
already_registered file [] = err panic
already_registered file (v ∷ vs) = ok (file, v)

register_new :
    String
    → String
    → Metadata
    → MemoryRepository
    → OpaqueId
    → Result Error (LogicalFile × Version) × MemoryRepository
unfolding new_file initial_version untouched
register_new owner_id name metadata r none = (err random_failure, r)
register_new owner_id name metadata r (some file_id) = (
  ok (file, version),
  record r {
    files = insert file_id file r.files;
    versions = insert file_id (version ∷ []) r.versions;
    lifecycle = insert file_id (untouched file) r.lifecycle;
  },
)
  where
    file : LogicalFile
    file = new_file file_id owner_id name metadata

    version : Version
    version = initial_version file_id metadata

unfoldable pub register_initial :
    String
    → String
    → Metadata
    → OpaqueId
    → MemoryRepository
    → Result Error (LogicalFile × Version) × MemoryRepository
unfolding register_new already_registered
register_initial owner_id name metadata id r =
    elim (find
      (λ (e : String × LogicalFile).
        e.1.owner_id == owner_id && e.1.current_version_id == metadata.version_id)
      r.files) [
        | some e ↦ (already_registered e.1 (versions_of r e.1.file_id), r)
        | none ↦ register_new owner_id name metadata r id
      ]

-- Neither in the trash nor purged.
abbrev pub is_live : LifecycleFile → Bool
is_live state = is_none state.deleted_at && is_none state.purged_at

-- The order by `UpdatedAt` of the answer is left out: the files are in the order of the map.
unfoldable pub list_files : String → MemoryRepository → List LogicalFile
list_files owner_id r =
    keep
      (λ (file : LogicalFile). file.owner_id == owner_id && is_live (lifecycle_of r file.file_id))
      (map (λ (e : String × LogicalFile). e.1) r.files)

-- The guard of `Details` and `FindVersion`.
owned_live : String → String → MemoryRepository → Result Error LogicalFile
owned_live owner_id file_id r = elim (lookup file_id r.files) [
  | none ↦ err not_found
  | some file ↦
      if file.owner_id == owner_id && is_live (lifecycle_of r file_id)
      then ok file
      else err not_found
]

unfoldable pub details : String → String → MemoryRepository → Result Error Details
unfolding owned_live
details owner_id file_id r = elim (owned_live owner_id file_id r) [
  | err e ↦ err e
  | ok file ↦ ok (record { file = file; versions = versions_of r file_id; access = "owner" })
]

-- The entry of a version: the inner loop of `FindVersion` and `AuthorizedCurrentMetadata`.
unfoldable pub entry_of_version : String → MemoryRepository → Result Error Metadata
entry_of_version version_id r =
    elim (find (λ (e : String × Metadata). e.1.version_id == version_id) r.entries) [
      | none ↦ err not_found
      | some e ↦ ok e.1
    ]

unfoldable pub find_version : String → String → String → MemoryRepository → Result Error Metadata
unfolding owned_live entry_of_version
find_version owner_id file_id version_id r = elim (owned_live owner_id file_id r) [
  | err e ↦ err e
  | ok file ↦
      if any (λ (v : Version). v.version_id == version_id) (versions_of r file_id)
      then entry_of_version version_id r
      else err not_found
]

pub retire : Version → Version
retire v = record v { current = false }

pub restored_version : String → String → Metadata → List Version → Version
restored_version file_id source_version_id metadata versions = record {
  file_id = file_id;
  version_id = metadata.version_id;
  source_version_id = source_version_id;
  operation_id = metadata.upload_id;
  number = length versions + 1;
  plaintext_size = metadata.plaintext_size;
  media_type = metadata.media_type;
  reason = "verified_restore";
  current = true;
  created_at = metadata.created_at;
}

pub restore_new :
    String
    → String
    → Metadata
    → LogicalFile
    → MemoryRepository
    → Result Error Version × MemoryRepository
unfolding retire restored_version
restore_new file_id source_version_id metadata file r = (
  ok version,
  record r {
    versions = insert file_id (version ∷ map retire (versions_of r file_id)) r.versions;
    files = insert file_id file' r.files;
  },
)
  where
    version : Version
    version = restored_version file_id source_version_id metadata (versions_of r file_id)

    file' : LogicalFile
    file' = record file {
      current_version_id = metadata.version_id;
      updated_at = metadata.created_at;
    }

restore_found :
    String
    → String
    → Metadata
    → LogicalFile
    → MemoryRepository
    → Result Error Version × MemoryRepository
unfolding restore_new
restore_found file_id source_version_id metadata file r =
    elim (find (λ (v : Version). v.operation_id == metadata.upload_id) (versions_of r file_id)) [
      | some existing ↦
          if existing.source_version_id == source_version_id
          then (ok existing, r)
          else (err restore_conflict, r)
      | none ↦
          if any (λ (v : Version). v.version_id == source_version_id) (versions_of r file_id)
          then restore_new file_id source_version_id metadata file r
          else (err not_found, r)
    ]

unfoldable pub commit_restore :
    String → String → String → Metadata → MemoryRepository → Result Error Version × MemoryRepository
unfolding restore_found
commit_restore owner_id file_id source_version_id metadata r = elim (lookup file_id r.files) [
  | none ↦ (err not_found, r)
  | some file ↦
      if file.owner_id == owner_id
      then restore_found file_id source_version_id metadata file r
      else (err not_found, r)
]
