-- ===== src/Ingest.antt =====
-- The data of internal/ingest: uploads, capacity reservations, and the state of the memory
-- repository of repository.go. Times are nanoseconds since Go's zero time, sizes are int64.
pub mod Repository
pub mod Manager
pub mod Reception
pub mod Quotas
pub mod Recovery
pub mod Examples
use secure_file_storage_syst.Prelude.{
  ℕ, String, Bool, true, false, Option, none, some, List, [], ◌∷◌, ◌++◌,
}
use secure_file_storage_syst.Prelude.Map.{Map}
use secure_file_storage_syst.Prelude.Bytes.{Bytes, utf8}
use secure_file_storage_syst.Prelude.Int64.{Int64}

pub data Error : Type 0 where
  quota_exceeded capacity_exceeded invalid_query not_found reservation_conflict : Error
  invalid_key invalid_file too_large random_failure cancelled invalid_metadata : Error
  invalid_configuration : Error
  -- the file system, the reader, the audit hook or the database failed
  io_failure persistence_failure : Error
  -- a nil pointer
  panic : Error

-- `Status`: the constants, and any other text.
pub data Status : Type 0 where
  quarantined inspecting accepted encrypting stored rejected failed : Status
  unknown : String → Status

pub record PersistedRecord : Type 0 where
  pub id : String
  pub name : String
  pub size : Int64
  pub declared_media_type : String
  pub detected_media_type : String
  pub status : Status
  pub progress : ℕ
  pub decision_reason : String
  pub correlation_id : String
  pub created_at : ℕ
  pub owner_id : String
  pub quarantine_object : String
  pub digest : String
  pub idempotency_hash : String

pub record CapacityReservationRequest : Type 0 where
  pub upload_id : String
  pub owner_id : String
  pub bytes : Int64
  pub owner_quota_bytes : Int64
  pub storage_capacity_bytes : Int64
  pub storage_reserve_bytes : Int64
  pub now : ℕ
  pub expires_at : ℕ

pub record MemoryRepository : Type 0 where
  pub records : Map String PersistedRecord
  pub by_idempotency : Map Bytes String
  pub quotas : Map String Int64
  pub reservations : Map String CapacityReservationRequest

abbrev pub new_memory_repository : MemoryRepository
new_memory_repository = record { records = []; by_idempotency = []; quotas = []; reservations = [] }

-- record.OwnerID + "\x00" + record.IdempotencyHash
abbrev pub idempotency_index : PersistedRecord → Bytes
idempotency_index u = utf8 u.owner_id ++ 0 ∷ utf8 u.idempotency_hash

pub valid_status : Status → Bool
valid_status (unknown text) = false
valid_status _ = true

unfoldable pub counts_toward_quota : Status → Bool
counts_toward_quota quarantined = true
counts_toward_quota inspecting = true
counts_toward_quota accepted = true
counts_toward_quota encrypting = true
counts_toward_quota stored = true
counts_toward_quota _ = false
