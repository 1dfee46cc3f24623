-- ===== src/Ingest/Recovery.antt =====
-- internal/ingest/manager.go: `NewManager`, which takes over the uploads that an earlier process left.
-- The answers of the file system and of the audit hook are given to it; the uploads that it resumes are
-- named in its answer, in place of the goroutines that it starts.
pub mod Loop
pub mod Settling
pub mod Resumption
pub mod Starting
pub mod Examples
use secure_file_storage_syst.Prelude.{
  ℕ, ◌/◌, String, Bool, true, false, not, ◌&&◌, ◌||◌, Option, none, some, List, [], ◌∷◌, ◌++◌,
  if◌then◌else◌, ◌==◌, string_eq, nat_eq, is_none, Result, ok, err,
}
use secure_file_storage_syst.Prelude.Map.{Map, lookup, insert}
use secure_file_storage_syst.Prelude.Bytes.{Bytes, bytes_eq}
use secure_file_storage_syst.Prelude.Int64.{Int64, lt64}
use secure_file_storage_syst.Prelude.Time.{hours}
use secure_file_storage_syst.Ingest.{
  Error, invalid_configuration, io_failure, persistence_failure, Status, quarantined, inspecting,
  accepted, encrypting, failed, PersistedRecord, MemoryRepository, idempotency_index,
}
use secure_file_storage_syst.Ingest.Manager.{
  Manager, put, remove_object, release, settled, persist_lifecycle,
}
use secure_file_storage_syst.Ingest.Reception.Admission.{record_from_persisted}

pub record Config : Type 0 where
  pub quarantine_dir : String
  pub max_upload_bytes : Int64
  pub has_scanner : Bool
  pub repository : MemoryRepository
  pub default_owner_quota_bytes : Int64
  pub storage_capacity_bytes : Int64
  pub storage_reserve_bytes : Int64
  pub reservation_ttl : Int64
  pub has_protected_store : Bool

-- What the rest of the program answers: the directory is made, the look at an object fails other than
-- by its absence, the hook takes the event of an upload.
pub record Answers : Type 0 where
  pub made_directory : Bool
  pub stat_fails : String → Bool
  pub recorded : String → Bool

-- A value that is positive, or its default.
abbrev pub or_default : Int64 → Int64 → Int64
or_default value default = if lt64 0 value then value else default

abbrev pub reserve_of : Int64 → Int64 → Int64
reserve_of reserve capacity = if reserve == 0 then capacity / 10 else reserve

-- The manager before its uploads are loaded.
abbrev pub configured : Config → Map String Bytes → Manager
configured config disk =
    let capacity = or_default config.storage_capacity_bytes 53687091200 in
    record {
      uploads = [];
      idempotency = [];
      repository = config.repository;
      quarantine = disk;
      has_protected_store = config.has_protected_store;
      owner_reservations = [];
      owner_quotas = config.repository.quotas;
      max_upload_bytes = config.max_upload_bytes;
      default_owner_quota_bytes = or_default config.default_owner_quota_bytes 1073741824;
      storage_capacity_bytes = capacity;
      storage_reserve_bytes = reserve_of config.storage_reserve_bytes capacity;
      reservation_ttl = or_default config.reservation_ttl (hours 1);
    }

abbrev pub is_inspected : Status → Bool
is_inspected quarantined = true
is_inspected inspecting = true
is_inspected _ = false

abbrev pub is_protected : Status → Bool
is_protected accepted = true
is_protected encrypting = true
is_protected _ = false

abbrev pub is_quarantined : Status → Bool
is_quarantined quarantined = true
is_quarantined _ = false

-- The manager and the uploads to resume, while the loop runs.
abbrev pub Recovering : Type 0
Recovering = Manager × List String

-- The entry of an upload in both maps.
abbrev pub adopt : PersistedRecord → Manager → Manager
adopt entry m = record m {
  uploads = insert entry.id entry m.uploads;
  idempotency = insert (idempotency_index entry) entry.id m.idempotency;
}

-- After `persistLifecycle`: on, or the failure of the start.
abbrev pub persisted_then : (Manager → Recovering) → Bool × Manager → Result Error Recovering
persisted_then next (true, m) = ok (next m)
persisted_then next (false, m) = err persistence_failure

-- The upload fails: its reception never ended, or its object is gone.
unfoldable pub fail_recovery :
    Answers → String → PersistedRecord → (Manager → Recovering) → Manager → Result Error Recovering
fail_recovery a reason entry next m =
    let u = settled failed 100 reason entry in
    persisted_then next (persist_lifecycle (a.recorded entry.id) u (put entry.id u m))

unfoldable pub recover_pending :
    Answers → PersistedRecord → List String → Manager → Result Error Recovering
unfolding fail_recovery
recover_pending a entry resume m =
    if a.stat_fails entry.quarantine_object
    then err io_failure
    else if is_none (lookup entry.quarantine_object m.quarantine)
    then fail_recovery a "quarantine_object_missing" entry (λ m'. (m', resume)) m
    else if is_inspected entry.status || is_protected entry.status && m.has_protected_store
    then ok (m, resume ++ entry.id ∷ [])
    else ok (m, resume)

-- One turn of the loop, of a record that `recordFromPersisted` accepts.
unfoldable pub recover_entry : Answers → PersistedRecord → Recovering → Result Error Recovering
unfolding fail_recovery recover_pending
recover_entry a entry (m, resume) =
    let known = adopt entry m in
    if is_quarantined entry.status && entry.size == 0
    then fail_recovery a "upload_reception_incomplete" entry
        (λ m'. (release entry.id (remove_object entry.quarantine_object m'), resume)) known
    else if is_inspected entry.status || is_protected entry.status
    then recover_pending a entry resume known
    else ok (known, resume)

abbrev pub recover_record :
    Answers → Recovering → Result Error PersistedRecord → Result Error Recovering
recover_record a st (err e) = err e
recover_record a st (ok entry) = recover_entry a entry st

-- On with the loop, unless it has failed.
abbrev pub and_recover :
    Result Error Recovering → (Recovering → Result Error Recovering) → Result Error Recovering
and_recover (err e) next = err e
and_recover (ok st) next = next st

unfoldable pub recover_all :
    Answers → Map String PersistedRecord → Recovering → Result Error Recovering
recover_all a [] st = ok st
recover_all a ((id, stored) ∷ records) st =
    and_recover (recover_record a st (record_from_persisted stored)) (recover_all a records)

-- The checks of the configuration, and the quarantine directory.
unfoldable pub refusal : Config → Answers → Option Error
refusal config a =
    if config.quarantine_dir == "" || not (lt64 0 config.max_upload_bytes) || not config.has_scanner
    then some invalid_configuration
    else if lt64 config.storage_reserve_bytes 0
        || not (
            lt64 config.storage_reserve_bytes
              (or_default config.storage_capacity_bytes 53687091200))
    then some invalid_configuration
    else if not a.made_directory
    then some io_failure
    else none

abbrev pub unless_refused : Option Error → Result Error Recovering → Result Error Recovering
unless_refused (some e) loaded = err e
unless_refused none loaded = loaded

unfoldable pub new_manager : Config → Answers → Map String Bytes → Result Error Recovering
unfolding refusal
new_manager config a disk =
    unless_refused (refusal config a)
      (recover_all a config.repository.records (configured config disk, []))
