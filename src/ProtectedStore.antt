-- ===== src/ProtectedStore.antt =====
-- The data of internal/protectedstore: the envelope metadata, logical files and their versions,
-- access grants, lifecycle records, and the state of `MemoryRepository`. Times are nanoseconds
-- since Go's zero time; a nil pointer or a missing entry is `none`.
pub mod Entries
pub mod Catalog
pub mod Grants
pub mod Lifecycle
pub mod Reconciliation
pub mod Worker
pub mod Steps
pub mod Examples
use secure_file_storage_syst.Prelude.{
  ℕ, String, Bool, false, Option, none, some, List, [], string_eq,
}
use secure_file_storage_syst.Prelude.Map.{Map, lookup}

pub data Error : Type 0 where
  not_found integrity invalid_envelope retention_active legal_hold not_in_trash : Error
  purge_too_early purge_conflict restore_conflict random_failure : Error
  -- errors.New(message)
  other : String → Error
  -- an index out of range
  panic : Error

pub record Metadata : Type 0 where
  pub upload_id : String
  pub version_id : String
  pub owner_id : String
  pub blob_object : String
  pub schema_version : String
  pub algorithm : String
  pub kek_id : String
  pub kek_version : String
  pub wrapping_kek_id : String
  pub wrapping_kek_version : String
  pub wrapped_dek : List ℕ
  pub nonce : List ℕ
  pub plaintext_size : ℕ
  pub plaintext_digest : String
  pub media_type : String
  pub inspection_record_id : String
  pub created_at : ℕ

pub record LogicalFile : Type 0 where
  pub file_id : String
  pub owner_id : String
  pub name : String
  pub current_version_id : String
  pub created_at : ℕ
  pub updated_at : ℕ

pub record Version : Type 0 where
  pub file_id : String
  pub version_id : String
  pub source_version_id : String
  pub operation_id : String
  pub number : ℕ
  pub plaintext_size : ℕ
  pub media_type : String
  pub reason : String
  pub current : Bool
  pub created_at : ℕ

pub record Details : Type 0 where
  pub file : LogicalFile
  pub versions : List Version
  pub access : String

pub record Recipient : Type 0 where
  pub id : String
  pub name : String
  pub email : String

pub record Grant : Type 0 where
  pub grant_id : String
  pub file_id : String
  pub owner_id : String
  pub recipient_id : String
  pub recipient_name : String
  pub recipient_email : String
  pub permission : String
  pub expires_at : Option ℕ
  pub created_at : ℕ
  pub revoked_at : Option ℕ

pub record LifecycleFile : Type 0 where
  pub file : LogicalFile
  pub open file use *
  pub deleted_at : Option ℕ
  pub purge_after : Option ℕ
  pub retention_until : Option ℕ
  pub legal_hold : Bool
  pub legal_hold_reason : String
  pub purged_at : Option ℕ

pub record PurgeResult : Type 0 where
  pub file_id : String
  pub operation_id : String
  pub destroyed_keys : ℕ
  pub completed_at : ℕ
  pub blob_objects : List String

pub record DeletionOperation : Type 0 where
  pub operation_id : String
  pub file_id : String
  pub owner_id : String
  pub status : String
  pub destroyed_keys : ℕ
  pub attempts : ℕ
  pub reason_code : String
  pub completed_at : Option ℕ
  pub updated_at : ℕ

pub record RecoveryDrill : Type 0 where
  pub drill_id : String
  pub file_id : String
  pub version_id : String
  pub requested_by : String
  pub outcome : String
  pub reason_code : String
  pub verified_at : ℕ

pub record OrphanReconciliationOperation : Type 0 where
  pub operation_id : String
  pub token : String
  pub zone : String
  pub storage_object : String
  pub size : ℕ
  pub modified_at : ℕ
  pub actor_id : String
  pub correlation_id : String
  pub status : String
  pub reason_code : String
  pub authorized_at : ℕ
  pub completed_at : Option ℕ

pub record MemoryRepository : Type 0 where
  pub entries : Map String Metadata
  pub files : Map String LogicalFile
  pub versions : Map String (List Version)
  pub grants : Map String Grant
  pub lifecycle : Map String LifecycleFile
  pub purges : Map String PurgeResult
  pub deletions : Map String DeletionOperation
  pub drills : List RecoveryDrill
  pub reconciliations : Map String OrphanReconciliationOperation

abbrev pub new_memory_repository : MemoryRepository
new_memory_repository = record {
  entries = [];
  files = [];
  versions = [];
  grants = [];
  lifecycle = [];
  purges = [];
  deletions = [];
  drills = [];
  reconciliations = [];
}

abbrev zero_file : LogicalFile
zero_file = record {
  file_id = "";
  owner_id = "";
  name = "";
  current_version_id = "";
  created_at = 0;
  updated_at = 0;
}

abbrev zero_lifecycle : LifecycleFile
zero_lifecycle = record {
  file = zero_file;
  deleted_at = none;
  purge_after = none;
  retention_until = none;
  legal_hold = false;
  legal_hold_reason = "";
  purged_at = none;
}

-- `r.lifecycle[fileID]` in an expression: the zero value where there is no entry.
abbrev pub lifecycle_of : MemoryRepository → String → LifecycleFile
lifecycle_of r file_id = elim (lookup file_id r.lifecycle) [ none ↦ zero_lifecycle | some f ↦ f ]

-- `r.versions[fileID]`: the nil slice where there is no entry.
abbrev pub versions_of : MemoryRepository → String → List Version
versions_of r file_id = elim (lookup file_id r.versions) [ none ↦ [] | some vs ↦ vs ]
