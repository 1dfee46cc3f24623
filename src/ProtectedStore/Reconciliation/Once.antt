-- ===== src/ProtectedStore/Reconciliation/Once.antt =====
-- One operation per token: the authorizations of internal/protectedstore/reconciliation.go.
use secure_file_storage_syst.Prelude.{
  ℕ, String, ◌≡◌, ◌≢◌, inl, inr, refl, sym, subst, ◌∙◌, ap, Bool, true, false, none, some, [], ◌∷◌,
  find, arith, ◌==◌, string_eq, ok, Option-cases, Bool-cases,
}
use secure_file_storage_syst.Prelude.Map.{Map, lookup, insert, lookup-insert}
use secure_file_storage_syst.Prelude.Keys.{lookup-find}
use secure_file_storage_syst.ProtectedStore.{OrphanReconciliationOperation, MemoryRepository}
use secure_file_storage_syst.ProtectedStore.Reconciliation.{
  Candidate, has_token, authorized_or, authorize, is_reconcilable, operation_for,
  authorize_orphan_reconciliation,
}

find-insert :
    (token id : String) (new : OrphanReconciliationOperation)
    (m : Map String OrphanReconciliationOperation)
    → find (has_token token) m ≡ none
    → new.token ≡ token
    → find (has_token token) (insert id new m) ≡ some (id, new)
unfolding find insert
find-insert token id new [] missing same = ground (arith, string_eq.beq_iff new.token token)
find-insert token id new ((j, w) ∷ m) missing same = ground (
  arith,
  string_eq.beq_iff new.token token,
  string_eq.beq_iff w.token token,
  find-insert token id new m,
)

-- A second operation for the token of one that the repository has just answered with.
again :
    (operation second : OrphanReconciliationOperation) (r : MemoryRepository)
    → second.token ≡ operation.token
    → let (answer, created, after) = authorize operation r in
      authorize second after ≡ (answer, false, after)
unfolding authorize authorized_or
again operation second r same =
    elim (Option-cases (find (has_token operation.token) r.reconciliations)) [
      | inl missing ↦
          rw
            (
              missing,
              same,
              find-insert operation.token operation.operation_id operation r.reconciliations missing
                  refl,
            )
            refl
      | inr (found, has) ↦ rw (has, same, has) refl
    ]

answer :
    (candidate : Candidate) (actor correlation id : String) (now : ℕ) (r : MemoryRepository)
    → is_reconcilable candidate ≡ true
    → let (operation, created, after) =
        authorize (operation_for id candidate actor correlation now) r in
      authorize_orphan_reconciliation candidate actor correlation (some id) now r
      ≡ (ok (operation, created), after)
unfolding authorize_orphan_reconciliation
answer candidate actor correlation id now r may = rw may refl

-- Authorizing is idempotent in the token: a second request for the token of an authorized candidate
-- answers with the operation of the first, creates none and leaves the repository as it is.
pub authorize_once :
    (first second : Candidate) (actor actor' correlation correlation' id id' : String)
    (now now' : ℕ) (r : MemoryRepository)
    → is_reconcilable first ≡ true
    → is_reconcilable second ≡ true
    → second.token ≡ first.token
    → let after = (authorize_orphan_reconciliation first actor correlation (some id) now r).1 in
      (operation : OrphanReconciliationOperation) × (created : Bool)
      × ((authorize_orphan_reconciliation first actor correlation (some id) now r).0
          ≡ ok (operation, created))
      × (authorize_orphan_reconciliation second actor' correlation' (some id') now' after
          ≡ (ok (operation, false), after))
authorize_once first second actor actor' correlation correlation' id id' now now' r may may' same =
    let request = operation_for id first actor correlation now in
    let retry = operation_for id' second actor' correlation' now' in
    let one = answer first actor correlation id now r may in
    let after = (authorize request r).2 in
    let two = answer second actor' correlation' id' now' after may' in
    let repeated : authorize_orphan_reconciliation second actor' correlation' (some id') now' after
        ≡ (ok ((authorize request r).0, false), after) =
      rw two (rw (again request retry r same) refl) in
    ((authorize request r).0, (authorize request r).1, ap (λ p. p.0) one, rw one repeated)

-- At most one operation stands for a token.
abbrev pub OneToken : Map String OrphanReconciliationOperation → Type 0
OneToken m =
    (i j : String) (a b : OrphanReconciliationOperation)
    → lookup i m ≡ some a
    → lookup j m ≡ some b
    → a.token ≡ b.token
    → i ≡ j

module _ (m : Map String OrphanReconciliationOperation) (one : OneToken m) where
  unused_token :
      (token j : String) (b : OrphanReconciliationOperation)
      → find (has_token token) m ≡ none
      → lookup j m ≡ some b
      → b.token ≢ token
  unused_token token j b missing has same =
      let hit : has_token token (j, b) ≡ true = (string_eq.beq_iff b.token token).1 same in
      let found = lookup-find (has_token token) m j b has hit in
      absurd (ground (arith, missing, found))

  pub insert-OneToken :
      (id : String) (new : OrphanReconciliationOperation)
      → find (has_token new.token) m ≡ none
      → OneToken (insert id new m)
  insert-OneToken id new missing i j a b has_a has_b same = ground (
    arith,
    one i j a b,
    lookup-insert id i new m,
    lookup-insert id j new m,
    string_eq.beq_iff id i,
    string_eq.beq_iff id j,
    unused_token new.token j b missing,
    unused_token new.token i a missing,
  )

  earlier :
      (id i : String) (old new a : OrphanReconciliationOperation)
      → lookup id m ≡ some old
      → new.token ≡ old.token
      → lookup i (insert id new m) ≡ some a
      → (a' : OrphanReconciliationOperation) × (lookup i m ≡ some a') × (a'.token ≡ a.token)
  earlier id i old new a has same after = elim (Bool-cases (id == i)) [
    | inl hit ↦ (
      old,
      subst (λ k. lookup k m ≡ some old) ((string_eq.beq_iff id i).0 hit) has,
      ground (arith, lookup-insert id i new m),
    )
    | inr miss ↦ (a, ground (arith, lookup-insert id i new m), refl)
  ]

  pub replace-OneToken :
      (id : String) (old new : OrphanReconciliationOperation)
      → lookup id m ≡ some old
      → new.token ≡ old.token
      → OneToken (insert id new m)
  replace-OneToken id old new has same i j a b has_a has_b tokens =
      let (a', had_a, same_a) = earlier id i old new a has same has_a in
      let (b', had_b, same_b) = earlier id j old new b has same has_b in
      one i j a' b' had_a had_b (same_a ∙ tokens ∙ sym same_b)
