-- ===== src/ProtectedStore/Worker.antt =====
-- internal/protectedstore/lifecycle.go: the scheduled deletion of files whose time has come, over the
-- memory repository. Randomness and the readings of the clock are given to a run, by file.
pub mod Purging
pub mod Due
pub mod Scheduled
pub mod Examples
use Prim.Native.String.{◌++◌ as str_append}
use secure_file_storage_syst.Prelude.{
  ℕ, ◌+◌, String, Bool, true, false, not, ◌&&◌, ◌||◌, Option, none, some, List, [], ◌∷◌, ◌++◌,
  length, take, ltb, if◌then◌else◌, ◌==◌, string_eq, Result, ok, err,
}
use secure_file_storage_syst.Prelude.Map.{Map}
use secure_file_storage_syst.Prelude.Bytes.{Bytes, utf8}
use secure_file_storage_syst.Prelude.Int64.{Int64, lt64}
use secure_file_storage_syst.Prelude.Time.{truncate}
use secure_file_storage_syst.Prelude.Sort.{sort}
use secure_file_storage_syst.ProtectedStore.{
  Error, not_found, legal_hold, retention_active, purge_too_early, other, LifecycleFile,
  PurgeResult, MemoryRepository,
}
use secure_file_storage_syst.ProtectedStore.Lifecycle.{Answer, purge, is_eligible}
use secure_file_storage_syst.ProtectedStore.Lifecycle.Records.{record_deletion_failure}

-- What the service takes from Go's standard library.
pub record Primitives : Type 0 where
  pub sha256_hex : Bytes → String
  pub format_time : ℕ → String  -- RFC3339Nano
  pub trim_space : String → String

-- What a run meets: whether an identifier can be drawn for a file, and the time of its purge.
pub record Run : Type 0 where
  pub drawn : String → Bool
  pub clock : String → ℕ

pub record WorkerResult : Type 0 where
  pub examined : ℕ
  pub completed : ℕ
  pub failed : ℕ

-- result[i].PurgeAfter.Before(*result[j].PurgeAfter), of pointers that are not nil.
abbrev pub purge_first_of : LifecycleFile → LifecycleFile → Bool
purge_first_of f g = elim f.purge_after [
  | none ↦ false
  | some t ↦ elim g.purge_after [ none ↦ false | some u ↦ ltb t u ]
]

-- The loop of `EligibleForPurge`.
unfoldable pub due : ℕ → Map String LifecycleFile → List LifecycleFile
due now [] = []
due now ((id, f) ∷ files) = if is_eligible now f then f ∷ due now files else due now files

abbrev pub at_most : Int64 → List LifecycleFile → List LifecycleFile
at_most limit files = if lt64 0 limit && lt64 limit (length files) then take limit files else files

unfoldable pub eligible_for_purge : ℕ → Int64 → MemoryRepository → List LifecycleFile
eligible_for_purge now limit r = at_most limit (sort purge_first_of (due now r.lifecycle))

unfoldable pub lifecycle_reason : Error → String
lifecycle_reason legal_hold = "legal_hold_active"
lifecycle_reason retention_active = "retention_active"
lifecycle_reason purge_too_early = "grace_period_active"
lifecycle_reason _ = "deletion_failed_closed"

abbrev pub purge_under :
    String → String → ℕ → MemoryRepository → Result Error (String × String) → Answer PurgeResult
purge_under owner_id file_id now r (err e) = (err e, r)
purge_under owner_id file_id now r (ok (operation_id, event_id)) =
    purge owner_id file_id operation_id now r

module _ (p : Primitives) where
  unfoldable pub purge_digest : String → String → String → String
  purge_digest owner_id file_id key =
      p.sha256_hex (utf8 owner_id ++ (0 ∷ (utf8 file_id ++ (0 ∷ utf8 key))))

  -- `PurgeOperationIDs`: the identifiers of the operation and of its audit event.
  unfoldable pub purge_operation_ids : String → String → String → Result Error (String × String)
  purge_operation_ids owner_id file_id idempotency_key =
      let key = p.trim_space idempotency_key in
      let encoded = purge_digest owner_id file_id key in
      if ltb (length (utf8 key)) 8 || ltb 128 (length (utf8 key))
      then err (other "invalid purge idempotency key")
      else ok (str_append "purge_" encoded, str_append "aud_purge_" encoded)

  -- `PurgeAudited` over the memory repository, without the removal of the files of its objects.
  unfoldable pub purge_audited :
      String → String → String → ℕ → MemoryRepository → Answer PurgeResult
  purge_audited owner_id file_id key now r =
      purge_under owner_id file_id now r (purge_operation_ids owner_id file_id key)

  abbrev time_of : Option ℕ → ℕ
  time_of none = 0
  time_of (some t) = t

  -- The idempotency key of a scheduled deletion.
  unfoldable pub scheduled_key : LifecycleFile → String
  scheduled_key f =
      str_append "scheduled-"
        (str_append f.file_id (str_append "-" (p.format_time (time_of f.purge_after))))

  abbrev after_purge :
      LifecycleFile
      → ℕ
      → WorkerResult × MemoryRepository
      → Answer PurgeResult
      → WorkerResult × MemoryRepository
  after_purge f now (result, before) (ok purge_result, r) =
      (record result { completed = result.completed + 1 }, r)
  after_purge f now (result, before) (err e, r) = (
    record result { failed = result.failed + 1 },
    record_deletion_failure f.owner_id f.file_id
        (str_append "purge_" (purge_digest f.owner_id f.file_id (scheduled_key f)))
        (lifecycle_reason e) now r,
  )

  -- One turn of the loop of `ProcessDuePurgesAudited`.
  unfoldable pub process :
      Run → ℕ → LifecycleFile → WorkerResult × MemoryRepository → WorkerResult × MemoryRepository
  process run now f (result, r) =
      if not (run.drawn f.file_id)
      then (record result { failed = result.failed + 1 }, r)
      else after_purge f now (result, r)
          (purge_audited f.owner_id f.file_id (scheduled_key f) (truncate (run.clock f.file_id)) r)

  unfoldable pub process_all :
      Run
      → ℕ
      → List LifecycleFile
      → WorkerResult × MemoryRepository
      → WorkerResult × MemoryRepository
  process_all run now [] st = st
  process_all run now (f ∷ fs) st = process_all run now fs (process run now f st)

  unfoldable pub process_files :
      Run → ℕ → MemoryRepository → List LifecycleFile → WorkerResult × MemoryRepository
  process_files run now r files =
      process_all run now files (record { examined = length files; completed = 0; failed = 0 }, r)

  -- `ProcessDuePurgesAudited`, at a time.
  unfoldable pub process_due_purges :
      Run → Int64 → ℕ → MemoryRepository → WorkerResult × MemoryRepository
  process_due_purges run limit time r =
      let now = truncate time in process_files run now r (eligible_for_purge now limit r)
