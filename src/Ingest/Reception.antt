-- ===== src/Ingest/Reception.antt =====
-- internal/ingest/manager.go: `CreateSized` and `create`, which admit an upload and stream its body
-- into the quarantine directory, up to the start of its inspection. The reads of the body and the
-- answers of the file system are given to a run; its sections that hold the mutex follow one another.
pub mod Body
pub mod Admission
pub mod Holding
pub mod Loop
pub mod Cleanup
pub mod Outcome
pub mod Failure
pub mod Lifetime
pub mod Examples
pub mod Receipt
use Prim.Native.String.{◌++◌ as str_append}
use secure_file_storage_syst.Prelude.{
  ℕ, ◌+◌, ◌-◌, String, Bool, true, false, not, ◌&&◌, ◌||◌, Option, none, some, List, [], ◌∷◌, ◌++◌,
  any, length, take, ltb, if◌then◌else◌, ◌==◌, string_eq, nat_eq, Result, ok, err,
}
use secure_file_storage_syst.Prelude.Map.{Map, lookup, insert, delete}
use secure_file_storage_syst.Prelude.Bytes.{Bytes, utf8, bytes_eq}
use secure_file_storage_syst.Prelude.Int64.{Int64, add64, sub64, lt64}
use secure_file_storage_syst.Ingest.{
  Error, quota_exceeded, invalid_key, invalid_file, too_large, random_failure, cancelled,
  invalid_metadata, io_failure, persistence_failure, panic, Status, quarantined, PersistedRecord,
  CapacityReservationRequest, MemoryRepository, valid_status, idempotency_index,
  counts_toward_quota,
}
use secure_file_storage_syst.Ingest.Repository.{
  create_record, delete_record, reserve_capacity, release_capacity,
}
use secure_file_storage_syst.Ingest.Manager.{
  Manager, put, remove_object, release, update, persist_lifecycle,
}

-- What the program takes from Go's standard library.
pub record Primitives : Type 0 where
  pub sha256_hex : Bytes → String
  pub detect_content_type : Bytes → String
  pub replace_backslashes : String → String
  pub base : String → String  -- filepath.Base
  pub trim_space : String → String

pub record Request : Type 0 where
  pub owner_id : String
  pub idempotency_key : String
  pub original_name : String
  pub declared_media_type : String
  pub has_source : Bool
  pub expected_size : Int64

-- The random identifiers, none if the random source fails, and the reading of the clock.
pub record Draws : Type 0 where
  pub upload_id : Option String
  pub correlation_id : Option String
  pub now : ℕ

-- How a read ends: with more to come, with io.EOF, or with another error.
pub data Ending : Type 0 where
  more eof broken : Ending

-- One round of the loop: whether the context is cancelled, what the source answers, and whether the
-- bytes are written to the file.
pub record Read : Type 0 where
  pub is_cancelled : Bool
  pub bytes : Bytes
  pub written : Bool
  pub ending : Ending

-- After the reads that are listed the source is at its end.
pub record Answers : Type 0 where
  pub opened : Bool
  pub reads : List Read
  pub synced : Bool
  pub closed : Bool
  pub recorded : Bool

-- strings.ContainsAny(value, "\r\n\x00")
abbrev pub has_control : String → Bool
has_control value = any (λ (b : ℕ). b == 13 || b == 10 || b == 0) (utf8 value)

abbrev pub byte_length : String → ℕ
byte_length value = length (utf8 value)

-- m.ownerReservations[ownerID]
abbrev pub value_or_zero : Option Int64 → Int64
value_or_zero none = 0
value_or_zero (some v) = v

abbrev pub reserved_of : String → Map String Int64 → Int64
reserved_of owner_id reservations = value_or_zero (lookup owner_id reservations)

unfoldable pub owner_quota_usage : String → Map String PersistedRecord → Int64
owner_quota_usage owner_id [] = 0
owner_quota_usage owner_id ((id, u) ∷ rest) =
    let others = owner_quota_usage owner_id rest in
    if u.owner_id == owner_id && counts_toward_quota u.status then add64 u.size others else others

unfoldable pub owner_quota : String → Manager → Int64
owner_quota owner_id m = elim (lookup owner_id m.owner_quotas) [
  | some quota ↦ quota
  | none ↦ m.default_owner_quota_bytes
]

-- Takes `bytes` off the owner's reservation, and drops it where nothing is left.
unfoldable pub give_back : String → Int64 → Map String Int64 → Map String Int64
give_back owner_id bytes reservations =
    let left = sub64 (reserved_of owner_id reservations) bytes in
    if lt64 0 left then insert owner_id left reservations else delete owner_id reservations

-- What the loop has done: the size that it counts, the bytes it holds of the owner's quota, the
-- first bytes of the body, and the bytes that are in the file.
pub record Progress : Type 0 where
  pub size : Int64
  pub held : Int64
  pub header : Bytes
  pub received : Bytes

abbrev pub no_progress : Progress
no_progress = record { size = 0; held = 0; header = []; received = [] }

abbrev pub Streamed : Type 0
Streamed = Option Error × Progress × Manager

module _ (p : Primitives) where
  unfoldable pub safe_display_name : String → String
  safe_display_name value =
      let name = p.trim_space (p.base (p.replace_backslashes value)) in
      if name == "." || byte_length name == 0 || ltb 255 (byte_length name) || has_control name
      then ""
      else name

  abbrev pub media_type : String → String
  media_type declared = if declared == "" then "application/octet-stream" else declared

  abbrev pub index_of : Request → Bytes
  index_of q = utf8 q.owner_id ++ 0 ∷ utf8 (p.sha256_hex (utf8 q.idempotency_key))

  unfoldable pub entry_of : Request → String → String → ℕ → PersistedRecord
  unfolding safe_display_name
  entry_of q upload_id correlation_id now = record {
    id = upload_id;
    name = safe_display_name q.original_name;
    size = 0;
    declared_media_type = media_type q.declared_media_type;
    detected_media_type = "application/octet-stream";
    status = quarantined;
    progress = 5;
    decision_reason = "";
    correlation_id = correlation_id;
    created_at = now;
    owner_id = q.owner_id;
    quarantine_object = str_append upload_id ".upload";
    digest = "";
    idempotency_hash = p.sha256_hex (utf8 q.idempotency_key);
  }
