-- ===== src/ProtectedStore/Reconciliation/Examples.antt =====
-- The theorems on internal/protectedstore/reconciliation.go at one orphaned blob in quarantine.
use secure_file_storage_syst.Prelude.{String, ◌≡◌, ◌≢◌, refl, true, some, [], ◌∷◌, string_eq, ok}
use secure_file_storage_syst.Prelude.Time.{truncate}
use secure_file_storage_syst.Prelude.Map.{lookup}
use secure_file_storage_syst.ProtectedStore.{
  OrphanReconciliationOperation, MemoryRepository, new_memory_repository,
}
use secure_file_storage_syst.ProtectedStore.Reconciliation.{
  Candidate, operation_for, finished, complete, authorize_orphan_reconciliation,
  complete_orphan_reconciliation,
}
use secure_file_storage_syst.ProtectedStore.Reconciliation.Once.{OneToken}
use secure_file_storage_syst.ProtectedStore.Reconciliation.Reachable.{
  here, next, authorizes, completes, one_token,
}
use secure_file_storage_syst.ProtectedStore.Reconciliation.Completion.{completed_once}

abbrev blob : Candidate
blob = record {
  token = "t1";
  zone = "quarantine";
  size = 42;
  modified_at = 5500;
  eligible = true;
  reason = "untracked";
  storage_object = "objects/1";
}

abbrev operation : OrphanReconciliationOperation
operation = operation_for "op1" blob "admin" "c1" 9900

abbrev pending : MemoryRepository
pending = record new_memory_repository { reconciliations = ("op1", operation) ∷ [] }

one_token_example :
    OneToken
      (complete_orphan_reconciliation "op1" "completed" "untracked_object_removed" 10000
        (authorize_orphan_reconciliation blob "admin" "c1"
          (some "op1")
          9900
          new_memory_repository).1).1.reconciliations
unfolding lookup
one_token_example = one_token (
    next (next here (authorizes blob "admin" "c1" "op1" 9900 refl))
      (completes "op1" "completed" "untracked_object_removed" 10000))

abbrev completed : String
completed = "completed"

completed_once_example :
    let r = (complete_orphan_reconciliation "op1" "completed" "removed" 10000 pending).1 in
    let t = (complete_orphan_reconciliation "op1" "failed" "object_retained" 20000 r).1 in
    ((known : OrphanReconciliationOperation) × (lookup "op1" pending.reconciliations ≡ some known)
      × (lookup "op1" t.reconciliations
          ≡ some (finished "completed" "removed" (truncate 10000) known)))
    × ((complete_orphan_reconciliation "op1" "failed" "again" 30000 t).0 ≢ ok true)
unfolding complete_orphan_reconciliation complete lookup
completed_once_example =
    completed_once "op1" "completed" "removed" 10000 pending "failed" "again" 30000 refl
      (next here (completes "op1" "failed" "object_retained" 20000))
