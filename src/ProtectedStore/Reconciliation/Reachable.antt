-- ===== src/ProtectedStore/Reconciliation/Reachable.antt =====
-- The states that the reconciliation operations of internal/protectedstore reach.
use secure_file_storage_syst.Prelude.{
  ℕ, String, ◌≡◌, ◌≢◌, ◌⊎◌, inl, inr, refl, ap, not, ◌&&◌, none, some, find, arith, ◌==◌, string_eq,
  Option-cases, Bool-cases,
}
use secure_file_storage_syst.Prelude.Time.{truncate}
use secure_file_storage_syst.Prelude.Map.{lookup, insert, lookup-insert}
use secure_file_storage_syst.ProtectedStore.{
  OrphanReconciliationOperation, MemoryRepository, new_memory_repository,
}
use secure_file_storage_syst.ProtectedStore.Reconciliation.Once.{
  OneToken, insert-OneToken, replace-OneToken,
}
use secure_file_storage_syst.ProtectedStore.Reconciliation.{
  Candidate, has_token, authorized_or, authorize, finished, complete, is_reconcilable,
  operation_for, authorize_orphan_reconciliation, complete_orphan_reconciliation,
}

-- The two operations of the service. The identifiers that are drawn are new ones.
pub data Step (r : MemoryRepository) : MemoryRepository → Type 0 where
  authorizes :
      (candidate : Candidate) (actor_id correlation_id id : String) (now : ℕ)
      → lookup id r.reconciliations ≡ none
      → Step r (authorize_orphan_reconciliation candidate actor_id correlation_id (some id) now r).1
  completes :
      (operation_id status reason_code : String) (now : ℕ)
      → Step r (complete_orphan_reconciliation operation_id status reason_code now r).1

pub data Reach (r : MemoryRepository) : MemoryRepository → Type 0 where
  here : Reach r r
  next : {s t : MemoryRepository} → Reach r s → Step s t → Reach r t

module _ (r : MemoryRepository) where
  authorize_cases :
      (candidate : Candidate) (actor_id correlation_id id : String) (now : ℕ)
      → let t =
          (authorize_orphan_reconciliation candidate actor_id correlation_id (some id) now r).1 in
        (t.reconciliations ≡ r.reconciliations)
        ⊎ ((find (has_token candidate.token) r.reconciliations ≡ none)
            × (t.reconciliations
                ≡ insert id
                    (operation_for id candidate actor_id correlation_id now)
                    r.reconciliations))
  unfolding authorize_orphan_reconciliation authorize authorized_or
  authorize_cases candidate actor_id correlation_id id now =
      elim (Option-cases (find (has_token candidate.token) r.reconciliations)) [
        | inl missing ↦ elim (Bool-cases (is_reconcilable candidate)) [
          | inl may ↦ inr (missing, rw (may, missing) refl)
          | inr refused ↦ inl (rw refused refl)
        ]
        | inr (found, has) ↦ inl (ground (arith, has))
      ]

  pub complete_cases :
      (operation_id status reason_code : String) (now : ℕ)
      → let t = (complete_orphan_reconciliation operation_id status reason_code now r).1 in
        (t.reconciliations ≡ r.reconciliations)
        ⊎ ((old : OrphanReconciliationOperation) × (lookup operation_id r.reconciliations
              ≡ some old)
            × (old.status ≡ "authorized")
            × (t.reconciliations
                ≡ insert operation_id
                    (finished status reason_code (truncate now) old)
                    r.reconciliations))
  unfolding complete_orphan_reconciliation complete
  complete_cases operation_id status reason_code now =
      elim (Option-cases (lookup operation_id r.reconciliations)) [
        | inl missing ↦ inl (ground (arith, missing))
        | inr (old, has) ↦ elim (Bool-cases (old.status == "authorized")) [
          | inl pending ↦
              elim (Bool-cases (not (status == "completed") && not (status == "failed"))) [
                | inl invalid ↦ inl (ground (arith, has, invalid))
                | inr valid ↦ inr (
                  old,
                  has,
                  (string_eq.beq_iff old.status "authorized").0 pending,
                  ground (arith, has, pending, valid),
                )
              ]
          | inr closed ↦ inl (ground (arith, has, closed))
        ]
      ]

  Step-OneToken :
      {t : MemoryRepository} → Step r t → OneToken r.reconciliations → OneToken t.reconciliations
  Step-OneToken (authorizes candidate actor_id correlation_id id now fresh) one =
      elim (authorize_cases candidate actor_id correlation_id id now) [
        | inl same ↦ rw same one
        | inr (missing, added) ↦ rw added (
            insert-OneToken r.reconciliations one id
              (operation_for id candidate actor_id correlation_id now) missing)
      ]
  Step-OneToken (completes operation_id status reason_code now) one =
      elim (complete_cases operation_id status reason_code now) [
        | inl same ↦ rw same one
        | inr (old, has, pending, changed) ↦ rw changed (
            replace-OneToken r.reconciliations one operation_id old
              (finished status reason_code (truncate now) old) has refl)
      ]

  Step-Finished :
      {t : MemoryRepository} (id : String) (operation : OrphanReconciliationOperation)
      → Step r t
      → lookup id r.reconciliations ≡ some operation
      → operation.status ≢ "authorized"
      → lookup id t.reconciliations ≡ some operation
  Step-Finished id operation (authorizes candidate actor_id correlation_id drawn now fresh) has
        done =
      elim (authorize_cases candidate actor_id correlation_id drawn now) [
        | inl same ↦ rw same has
        | inr (missing, added) ↦ ground (
          arith,
          ap (lookup id) added,
          lookup-insert drawn id (operation_for drawn candidate actor_id correlation_id now)
              r.reconciliations,
          string_eq.beq_iff drawn id,
          has,
          fresh,
        )
      ]
  Step-Finished id operation (completes operation_id status reason_code now) has done =
      elim (complete_cases operation_id status reason_code now) [
        | inl same ↦ rw same has
        | inr (old, had, pending, changed) ↦ ground (
          arith,
          ap (lookup id) changed,
          lookup-insert operation_id id (finished status reason_code (truncate now) old)
              r.reconciliations,
          string_eq.beq_iff operation_id id,
          has,
          had,
          done,
          pending,
        )
      ]

-- In every state that the reconciliation operations reach from the empty repository, at most one
-- operation stands for a token.
pub one_token : {r : MemoryRepository} → Reach new_memory_repository r → OneToken r.reconciliations
unfolding lookup
one_token here = λ i j a b has_a has_b same. cc
one_token (next {s = s} path step) = Step-OneToken s step (one_token path)

-- A finished reconciliation is final: no sequence of authorizations and completions changes an
-- operation whose status is no longer "authorized", provided that the drawn identifiers are new.
pub finished_forever :
    (id : String) (operation : OrphanReconciliationOperation) (r : MemoryRepository)
    {t : MemoryRepository}
    → lookup id r.reconciliations ≡ some operation
    → operation.status ≢ "authorized"
    → Reach r t
    → lookup id t.reconciliations ≡ some operation
finished_forever id operation r has done here = has
finished_forever id operation r has done (next {s = s} path step) =
    Step-Finished s id operation step (finished_forever id operation r has done path) done
