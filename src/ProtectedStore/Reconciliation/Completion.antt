-- ===== src/ProtectedStore/Reconciliation/Completion.antt =====
-- When `CompleteOrphanReconciliation` of internal/protectedstore/reconciliation.go is accepted.
use secure_file_storage_syst.Prelude.{
  ℕ, String, ◌≡◌, ◌≢◌, ◌⊎◌, ◌↔◌, inl, inr, refl, sym, ◌∙◌, ap, true, false, not, ◌&&◌, some, arith,
  ◌==◌, string_eq, ok, Option-cases, Bool-cases,
}
use secure_file_storage_syst.Prelude.Time.{truncate}
use secure_file_storage_syst.Prelude.Map.{lookup, insert, lookup-insert}
use secure_file_storage_syst.ProtectedStore.{OrphanReconciliationOperation, MemoryRepository}
use secure_file_storage_syst.ProtectedStore.Reconciliation.Reachable.{Reach, finished_forever}
use secure_file_storage_syst.ProtectedStore.Reconciliation.{
  finished, complete, complete_orphan_reconciliation,
}

module _ (operation_id status reason_code : String) (now : ℕ) (r : MemoryRepository)
    (accepted : (complete_orphan_reconciliation operation_id status reason_code now r).0
      ≡ ok true) where
  accepted_status : (status ≡ "completed") ⊎ (status ≡ "failed")
  unfolding complete_orphan_reconciliation
  accepted_status = elim (Bool-cases (status == "completed")) [
    | inl completed ↦ inl ((string_eq.beq_iff status "completed").0 completed)
    | inr other_status ↦
        inr ((string_eq.beq_iff status "failed").0 (ground (arith, accepted, other_status)))
  ]

  accepted_operation :
      (operation : OrphanReconciliationOperation) × (lookup operation_id r.reconciliations
        ≡ some operation)
      × (operation.status ≡ "authorized")
  unfolding complete_orphan_reconciliation complete
  accepted_operation = elim (Option-cases (lookup operation_id r.reconciliations)) [
    | inl missing ↦ absurd (ground (arith, accepted, missing))
    | inr (operation, has) ↦ (
      operation,
      has,
      (string_eq.beq_iff operation.status "authorized").0 (ground (arith, accepted, has)),
    )
  ]

valid_status :
    (status : String)
    → (status ≡ "completed") ⊎ (status ≡ "failed")
    → (not (status == "completed") && not (status == "failed")) ≡ false
valid_status status (inl completed) = rw completed refl
valid_status status (inr failed) = rw failed refl

completed_state :
    (operation_id status reason_code : String) (now : ℕ) (r : MemoryRepository)
    (operation : OrphanReconciliationOperation)
    → (status ≡ "completed") ⊎ (status ≡ "failed")
    → lookup operation_id r.reconciliations ≡ some operation
    → operation.status ≡ "authorized"
    → complete_orphan_reconciliation operation_id status reason_code now r ≡ (
      ok true,
      record r {
        reconciliations =
            insert operation_id
              (finished status reason_code (truncate now) operation)
              r.reconciliations;
      },
    )
unfolding complete_orphan_reconciliation complete
completed_state operation_id status reason_code now r operation valid has pending =
    let is_open : (operation.status == "authorized") ≡ true =
      (string_eq.beq_iff operation.status "authorized").1 pending in
    rw (valid_status status valid, complete, has, is_open) refl

-- A completion is accepted exactly when the operation is known and still authorized and the new
-- status is "completed" or "failed".
pub complete_ok_iff :
    (operation_id status reason_code : String) (now : ℕ) (r : MemoryRepository)
    → ((complete_orphan_reconciliation operation_id status reason_code now r).0 ≡ ok true) ↔ (
        ((status ≡ "completed") ⊎ (status ≡ "failed"))
        × ((operation : OrphanReconciliationOperation) × (lookup operation_id r.reconciliations
              ≡ some operation)
            × (operation.status ≡ "authorized")))
unfolding complete_orphan_reconciliation complete
complete_ok_iff operation_id status reason_code now r = (
  (λ accepted. (
    accepted_status operation_id status reason_code now r accepted,
    accepted_operation operation_id status reason_code now r accepted,
  )),
  (λ h.
      ap (λ p. p.0) (completed_state operation_id status reason_code now r h.1.0 h.0 h.1.1 h.1.2)),
)

final_status :
    (status : String) → (status ≡ "completed") ⊎ (status ≡ "failed") → status ≢ "authorized"
final_status status (inl completed) same =
    let equal = (string_eq.beq_iff "completed" "authorized").1 (sym completed ∙ same) in
    ground (arith, equal)
final_status status (inr failed) same =
    let equal = (string_eq.beq_iff "failed" "authorized").1 (sym failed ∙ same) in
    ground (arith, equal)

-- A reconciliation is completed once: after an accepted completion, whatever authorizations and
-- completions follow, provided that the drawn identifiers are new, the operation keeps the status,
-- the reason and the time of that completion, and a further completion of it is not accepted.
pub completed_once :
    (operation_id status reason_code : String) (now : ℕ) (r : MemoryRepository)
    {t : MemoryRepository} (later_status later_reason : String) (later : ℕ)
    → (complete_orphan_reconciliation operation_id status reason_code now r).0 ≡ ok true
    → Reach (complete_orphan_reconciliation operation_id status reason_code now r).1 t
    → ((operation : OrphanReconciliationOperation) × (lookup operation_id r.reconciliations
          ≡ some operation)
        × (lookup operation_id t.reconciliations
            ≡ some (finished status reason_code (truncate now) operation)))
      × ((complete_orphan_reconciliation operation_id later_status later_reason later t).0
          ≢ ok true)
completed_once operation_id status reason_code now r {t = t} later_status later_reason later
      accepted path =
    let valid = accepted_status operation_id status reason_code now r accepted in
    let (operation, has, pending) =
      accepted_operation operation_id status reason_code now r accepted in
    let done = completed_state operation_id status reason_code now r operation valid has pending in
    let result = finished status reason_code (truncate now) operation in
    let entry : lookup operation_id
          (complete_orphan_reconciliation operation_id status reason_code now r).1.reconciliations
        ≡ some result =
      rw done (
        ground (
          arith,
          lookup-insert operation_id operation_id result r.reconciliations,
          string_eq.beq_iff operation_id operation_id,
        )) in
    let kept = finished_forever operation_id result _ entry (final_status status valid) path in
    (
      (operation, has, kept),
      λ again.
          let (other_operation, found, open_status) =
            accepted_operation operation_id later_status later_reason later t again in
          ground (arith, kept, found, open_status, final_status status valid),
    )
