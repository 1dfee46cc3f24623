-- ===== src/ProtectedStore/Lifecycle/Records.antt =====
-- internal/protectedstore/memory_repository.go: the records of failed deletions and of recovery
-- drills.
use secure_file_storage_syst.Prelude.{
  ℕ, ◌+◌, String, ◌&&◌, none, some, ◌∷◌, find, if◌then◌else◌, ◌==◌, string_eq, is_some, Result, ok,
  err,
}
use secure_file_storage_syst.Prelude.Map.{lookup, insert}
use secure_file_storage_syst.ProtectedStore.{
  Error, not_found, Metadata, DeletionOperation, RecoveryDrill, MemoryRepository, lifecycle_of,
}
use secure_file_storage_syst.ProtectedStore.Entries.{has_key}

zero_deletion : DeletionOperation
zero_deletion = record {
  operation_id = "";
  file_id = "";
  owner_id = "";
  status = "";
  destroyed_keys = 0;
  attempts = 0;
  reason_code = "";
  completed_at = none;
  updated_at = 0;
}

deletion_of : MemoryRepository → String → DeletionOperation
unfolding zero_deletion
deletion_of r operation_id = elim (lookup operation_id r.deletions) [
  | none ↦ zero_deletion
  | some op ↦ op
]

unfoldable pub record_deletion_failure :
    String → String → String → String → ℕ → MemoryRepository → MemoryRepository
unfolding deletion_of
record_deletion_failure owner_id file_id operation_id reason now r =
    let op = deletion_of r operation_id in
    record r {
      deletions =
          insert operation_id
            (record op {
              operation_id = operation_id;
              file_id = file_id;
              owner_id = owner_id;
              status = "failed";
              reason_code = reason;
              updated_at = now;
              attempts = op.attempts + 1;
            })
            r.deletions;
    }

unfoldable pub current_metadata_for_drill : String → MemoryRepository → Result Error Metadata
current_metadata_for_drill file_id r = elim (lookup file_id r.files) [
  | none ↦ err not_found
  | some f ↦
      if is_some (lifecycle_of r file_id).purged_at
      then err not_found
      else elim (find
          (λ (e : String × Metadata). e.1.version_id == f.current_version_id && has_key e.1)
          r.entries) [ none ↦ err not_found | some e ↦ ok e.1 ]
]

unfoldable pub record_recovery_drill : RecoveryDrill → MemoryRepository → MemoryRepository
record_recovery_drill drill r = record r { drills = drill ∷ r.drills }
