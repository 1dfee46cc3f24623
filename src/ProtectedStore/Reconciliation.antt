-- ===== src/ProtectedStore/Reconciliation.antt =====
-- The reconciliation of orphaned blobs: memory_repository.go and reconciliation.go of
-- internal/protectedstore, and `Candidate` of internal/orphan/objects.go.
pub mod Once
pub mod Reachable
pub mod Completion
pub mod Examples
use secure_file_storage_syst.Prelude.{
  ℕ, ◌*◌, ◌/◌, String, Bool, true, false, not, ◌&&◌, ◌||◌, Option, none, some, find, if◌then◌else◌,
  ◌==◌, Eq, string_eq, Result, ok, err,
}
use secure_file_storage_syst.Prelude.Time.{truncate}
use secure_file_storage_syst.Prelude.Map.{Map, lookup, insert}
use secure_file_storage_syst.ProtectedStore.{
  Error, not_found, random_failure, other, OrphanReconciliationOperation, MemoryRepository,
}
use secure_file_storage_syst.ProtectedStore.Catalog.{OpaqueId}

pub record Candidate : Type 0 where
  pub token : String
  pub zone : String
  pub size : ℕ
  pub modified_at : ℕ
  pub eligible : Bool
  pub reason : String
  pub storage_object : String

-- existing.Token == operation.Token
abbrev pub has_token : String → String × OrphanReconciliationOperation → Bool
has_token token e = e.1.token == token

pub authorized_or :
    OrphanReconciliationOperation
    → MemoryRepository
    → Option (String × OrphanReconciliationOperation)
    → OrphanReconciliationOperation × Bool × MemoryRepository
authorized_or operation r (some (id, existing)) = (existing, false, r)
authorized_or operation r none = (
  operation,
  true,
  record r { reconciliations = insert operation.operation_id operation r.reconciliations },
)

-- The operation that stands for the token, whether it is a new one, and the new state.
unfoldable pub authorize :
    OrphanReconciliationOperation
    → MemoryRepository
    → OrphanReconciliationOperation × Bool × MemoryRepository
unfolding authorized_or
authorize operation r =
    authorized_or operation r (find (has_token operation.token) r.reconciliations)

abbrev pub finished :
    String → String → ℕ → OrphanReconciliationOperation → OrphanReconciliationOperation
finished status reason_code completed_at operation = record operation {
  status = status;
  reason_code = reason_code;
  completed_at = some completed_at;
}

-- Whether the operation was open, and the new state.
unfoldable pub complete : String → String → String → ℕ → MemoryRepository → Bool × MemoryRepository
complete operation_id status reason_code completed_at r =
    elim (lookup operation_id r.reconciliations) [
      | none ↦ (false, r)
      | some operation ↦ if not (operation.status == "authorized") then (false, r) else (
        true,
        record r {
          reconciliations =
              insert operation_id (finished status reason_code completed_at operation)
                r.reconciliations;
        },
      )
    ]

abbrev pub is_reconcilable : Candidate → Bool
is_reconcilable candidate =
    not (candidate.storage_object == "")
    && (candidate.zone == "quarantine" || candidate.zone == "protected")

abbrev pub operation_for : String → Candidate → String → String → ℕ → OrphanReconciliationOperation
operation_for id candidate actor_id correlation_id now = record {
  operation_id = id;
  token = candidate.token;
  zone = candidate.zone;
  storage_object = candidate.storage_object;
  size = candidate.size;
  modified_at = truncate candidate.modified_at;
  actor_id = actor_id;
  correlation_id = correlation_id;
  status = "authorized";
  reason_code = "administrator_reconciliation";
  authorized_at = truncate now;
  completed_at = none;
}

-- `AuthorizeOrphanReconciliation` of the service, over the memory repository.
unfoldable pub authorize_orphan_reconciliation :
    Candidate
    → String
    → String
    → OpaqueId
    → ℕ
    → MemoryRepository
    → Result Error (OrphanReconciliationOperation × Bool) × MemoryRepository
authorize_orphan_reconciliation candidate actor_id correlation_id id now r =
    if is_reconcilable candidate
    then elim id [
      | none ↦ (err random_failure, r)
      | some drawn ↦
          let (operation, created, after) =
            authorize (operation_for drawn candidate actor_id correlation_id now) r in
          (ok (operation, created), after)
    ]
    else (err not_found, r)

-- `CompleteOrphanReconciliation` of the service, over the memory repository.
unfoldable pub complete_orphan_reconciliation :
    String → String → String → ℕ → MemoryRepository → Result Error Bool × MemoryRepository
complete_orphan_reconciliation operation_id status reason_code now r =
    if not (status == "completed") && not (status == "failed")
    then (err (other "invalid reconciliation completion status"), r)
    else let (updated, after) = complete operation_id status reason_code (truncate now) r in
      (ok updated, after)
