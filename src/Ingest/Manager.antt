-- ===== src/Ingest/Manager.antt =====
-- internal/ingest/manager.go: the inspection and the protection of an upload, from quarantine to
-- storage, over the memory repository. The calls of other parts, and whether the hook that prepares
-- an audit intent succeeds, are answers that a run is given. The goroutine of an upload is one run:
-- other goroutines touch other uploads.
pub mod Outcome
pub mod Inspection
use secure_file_storage_syst.Prelude.{
  ℕ, String, Bool, true, false, not, ◌||◌, Option, none, some, List, [], ◌∷◌, if◌then◌else◌, ◌==◌,
  string_eq, is_none,
}
use secure_file_storage_syst.Prelude.Map.{Map, lookup, insert, delete}
use secure_file_storage_syst.Prelude.Bytes.{Bytes}
use secure_file_storage_syst.Prelude.Int64.{Int64}
use secure_file_storage_syst.Ingest.{
  Error, Status, quarantined, inspecting, accepted, encrypting, stored, rejected, failed,
  PersistedRecord, MemoryRepository,
}
use secure_file_storage_syst.Ingest.Repository.{update_record, release_capacity}

-- `Manager`, without its clock and its hooks; the quarantine directory by object name.
pub record Manager : Type 0 where
  pub uploads : Map String PersistedRecord
  pub idempotency : Map Bytes String
  pub repository : MemoryRepository
  pub quarantine : Map String Bytes
  pub has_protected_store : Bool
  pub owner_reservations : Map String Int64
  pub owner_quotas : Map String Int64
  pub max_upload_bytes : Int64
  pub default_owner_quota_bytes : Int64
  pub storage_capacity_bytes : Int64
  pub storage_reserve_bytes : Int64
  pub reservation_ttl : ℕ

pub record ScanResult : Type 0 where
  pub accepted : Bool
  pub reason : String

-- What the rest of the program answers in one run.
pub record Answers : Type 0 where
  pub started_recorded : Bool
  pub scan : Option ScanResult  -- none: the scanner failed
  pub completed_recorded : Bool
  pub protection_recorded : Bool
  pub opened : Bool
  pub protected : Bool
  pub registered : Bool
  pub stored_recorded : Bool
  pub failure_recorded : Bool

abbrev pub put : String → PersistedRecord → Manager → Manager
put id u m = record m { uploads = insert id u m.uploads }

-- `os.Remove` of the upload's object.
abbrev pub remove_object : String → Manager → Manager
remove_object object m = record m { quarantine = delete object m.quarantine }

abbrev pub release : String → Manager → Manager
unfolding release_capacity
release id m = record m { repository = release_capacity id m.repository }

-- `repository.Update`, and whether it succeeds.
unfoldable pub update : PersistedRecord → Manager → Bool × Manager
unfolding update_record
update u m =
    let (e, repository') = update_record u m.repository in
    (is_none e, record m { repository = repository' })

unfoldable pub persist_lifecycle : Bool → PersistedRecord → Manager → Bool × Manager
unfolding update
persist_lifecycle recorded u m = if recorded then update u m else (false, m)

-- The record with a final status.
abbrev pub settled : Status → ℕ → String → PersistedRecord → PersistedRecord
settled status progress reason u = record u {
  status = status;
  progress = progress;
  decision_reason = reason;
}

unfoldable pub fail_persistence : String → Manager → Manager
unfolding update
fail_persistence id m = elim (lookup id m.uploads) [
  | none ↦ m
  | some u ↦
      let u' = settled failed 100 "metadata_persistence_unavailable" u in
      release id (remove_object u.quarantine_object (update u' (put id u' m)).1)
]

unfoldable pub fail_protection : Bool → String → String → Manager → Manager
unfolding persist_lifecycle
fail_protection recorded reason id m = elim (lookup id m.uploads) [
  | none ↦ m
  | some u ↦
      let u' = settled failed 100 reason u in
      release id (remove_object u.quarantine_object (persist_lifecycle recorded u' (put id u' m)).1)
]

-- After `persistLifecycle`: on with the run, or `failPersistence`.
unfoldable pub unless_failed : String → (Manager → Manager) → Bool × Manager → Manager
unfolding fail_persistence
unless_failed id next (true, m) = next m
unless_failed id next (false, m) = fail_persistence id m

-- The stored state is durable: the plaintext goes.
unfoldable pub finish_protection : String → String → Manager → Manager
finish_protection id object m = release id (remove_object object m)

unfoldable pub commit_protection : Answers → String → Manager → Manager
unfolding unless_failed persist_lifecycle finish_protection
commit_protection a id m = elim (lookup id m.uploads) [
  | none ↦ m
  | some u ↦
      let u' = settled stored 100 "protected_storage_committed" u in
      unless_failed id (finish_protection id u.quarantine_object)
        (persist_lifecycle a.stored_recorded u' (put id u' m))
]

-- Encryption and the registration of the first version.
unfoldable pub encrypt : Answers → String → Manager → Manager
unfolding fail_protection commit_protection
encrypt a id m =
    if not a.opened
    then fail_protection a.failure_recorded "quarantine_object_missing" id m
    else if not a.protected
    then fail_protection a.failure_recorded "protection_unavailable" id m
    else if not a.registered
    then fail_protection a.failure_recorded "version_catalog_unavailable" id m
    else commit_protection a id m

abbrev pub may_protect : Status → Bool
may_protect accepted = true
may_protect encrypting = true
may_protect _ = false

unfoldable pub start_protection : Answers → String → Manager → PersistedRecord → Manager
unfolding unless_failed persist_lifecycle encrypt
start_protection a id m u =
    let u' = settled encrypting 85 "protection_in_progress" u in
    unless_failed id (encrypt a id) (persist_lifecycle a.protection_recorded u' (put id u' m))

unfoldable pub protect : Answers → String → Manager → Manager
unfolding start_protection
protect a id m = elim (lookup id m.uploads) [
  | none ↦ m
  | some u ↦ if may_protect u.status then start_protection a id m u else m
]

-- The record that the answer of the scanner decides.
unfoldable pub decided : Option ScanResult → Bool → PersistedRecord → PersistedRecord
decided none has_protected_store u = settled failed 100 "inspection_unavailable" u
decided (some result) has_protected_store u =
    if not result.accepted
    then settled rejected 100 result.reason u
    else settled accepted (if has_protected_store then 75 else 100) "policy_accepted" u

abbrev pub is_accepted : Status → Bool
is_accepted accepted = true
is_accepted _ = false

-- The decision is durable: it is published, and the run goes on or ends.
unfoldable pub publish : Answers → String → PersistedRecord → Manager → Manager
unfolding protect
publish a id terminal m = elim (lookup id m.uploads) [
  | none ↦ m
  | some u ↦
      let m' = put id terminal m in
      if not (is_accepted terminal.status)
      then release id (remove_object u.quarantine_object m')
      else if m.has_protected_store
      then protect a id m'
      else release id m'
]

unfoldable pub complete_inspection : Answers → String → Manager → Manager
unfolding decided unless_failed persist_lifecycle publish
complete_inspection a id m = elim (lookup id m.uploads) [
  | none ↦ m
  | some u ↦
      let terminal = decided a.scan m.has_protected_store u in
      unless_failed id (publish a id terminal) (persist_lifecycle a.completed_recorded terminal m)
]

unfoldable pub inspect : Answers → String → Manager → Manager
unfolding unless_failed persist_lifecycle complete_inspection
inspect a id m = elim (lookup id m.uploads) [
  | none ↦ m
  | some u ↦
      let u' = record u { status = inspecting; progress = 60 } in
      unless_failed id (complete_inspection a id)
        (persist_lifecycle a.started_recorded u' (put id u' m))
]
