-- ===== src/ProtectedStore/Lifecycle/Trash.antt =====
-- What the trash of internal/protectedstore/memory_repository.go does to access and to versions.
use secure_file_storage_syst.Prelude.{
  ℕ, String, ◌≡◌, ◌≢◌, refl, sym, ◌∙◌, true, false, ◌&&◌, none, some, arith, string_eq, ok,
  beq_refl, is_some, is_none, find, find-none_of_All, ap, subst,
}
use secure_file_storage_syst.Prelude.Map.{Map, lookup, lookup-insert, update_each, update_each-All}
use secure_file_storage_syst.ProtectedStore.{
  Metadata, LogicalFile, Grant, LifecycleFile, MemoryRepository,
}
use secure_file_storage_syst.ProtectedStore.Catalog.{is_live, commit_restore}
use secure_file_storage_syst.ProtectedStore.Catalog.Versions.{commit_restore_lifecycle}
use secure_file_storage_syst.ProtectedStore.Grants.{authorized, allows}
use secure_file_storage_syst.ProtectedStore.Lifecycle.{
  move_to_trash, restore_from_trash, retained, revoke_grants_of, revoke_for, trashed, recovered,
  put_lifecycle, Answer,
}

-- The owner may move the file to the trash, and it is not there yet.
pub record IsDeletable (owner_id : String) (now : ℕ) (f : LifecycleFile) : Type 0 where
  pub owned : f.owner_id ≡ owner_id
  pub unpurged : f.purged_at ≡ none
  pub present : f.deleted_at ≡ none
  pub unheld : f.legal_hold ≡ false
  pub unretained : retained f now ≡ false

dead_denies :
    (requester_id file_id capability : String) (later : ℕ) (r : MemoryRepository)
    (f : LifecycleFile)
    → lookup file_id r.lifecycle ≡ some f
    → is_live f ≡ false
    → authorized requester_id file_id capability later r ≡ none
unfolding authorized
dead_denies requester_id file_id capability later r f found dead = ground arith

no_grant_denies :
    (requester_id file_id capability : String) (later : ℕ) (r : MemoryRepository)
    (file : LogicalFile)
    → lookup file_id r.files ≡ some file
    → file.owner_id ≢ requester_id
    → find (λ (e : String × Grant). allows requester_id file_id capability later e.1) r.grants
      ≡ none
    → authorized requester_id file_id capability later r ≡ none
unfolding authorized
no_grant_denies requester_id file_id capability later r file found stranger nobody =
    ground (arith, string_eq.beq_iff file.owner_id requester_id)

return_of :
    (owner_id file_id : String) (later : ℕ) (r : MemoryRepository) (f : LifecycleFile)
    → lookup file_id r.lifecycle ≡ some f
    → f.owner_id ≡ owner_id
    → (is_some f.deleted_at && is_none f.purged_at) ≡ true
    → (restore_from_trash owner_id file_id later r).1 ≡ put_lifecycle file_id (recovered f later) r
unfolding restore_from_trash
return_of owner_id file_id later r f found owned in_trash =
    ground (arith, string_eq.beq_iff f.owner_id owner_id)

module _ (owner_id file_id : String) (now purge_after : ℕ) (r : MemoryRepository)
    (f : LifecycleFile) (found : lookup file_id r.lifecycle ≡ some f)
    (deletable : IsDeletable owner_id now f) where
  abbrev after_trash : MemoryRepository
  after_trash = (move_to_trash owner_id file_id now purge_after r).1

  trash_runs : move_to_trash owner_id file_id now purge_after r ≡ (
    ok (trashed f now purge_after),
    record (put_lifecycle file_id (trashed f now purge_after) r) {
      grants = revoke_grants_of file_id now r.grants;
    },
  )
  unfolding move_to_trash
  trash_runs = ground (
    arith,
    string_eq.beq_iff f.owner_id owner_id,
    deletable.owned,
    deletable.unpurged,
    deletable.present,
    deletable.unheld,
    deletable.unretained,
  )

  trashed_state : MemoryRepository
  trashed_state = record (put_lifecycle file_id (trashed f now purge_after) r) {
    grants = revoke_grants_of file_id now r.grants;
  }

  trash_state : after_trash ≡ trashed_state
  unfolding trashed_state
  trash_state = ap (λ (x : Answer LifecycleFile). x.1) trash_runs

  pub trash_denies :
      (requester_id capability : String) (later : ℕ)
      → authorized requester_id file_id capability later after_trash ≡ none
  unfolding trashed trashed_state
  trash_denies requester_id capability later =
      subst (λ (s : MemoryRepository). authorized requester_id file_id capability later s ≡ none)
        (sym trash_state)
        (dead_denies requester_id file_id capability later _ (trashed f now purge_after)
          (rw (lookup-insert, beq_refl file_id) refl) refl)

  return_runs :
      (later : ℕ)
      → (restore_from_trash owner_id file_id later after_trash).1
        ≡ put_lifecycle file_id (recovered (trashed f now purge_after) later) after_trash
  unfolding trashed trashed_state
  return_runs later =
      return_of owner_id file_id later after_trash (trashed f now purge_after)
        (ap (λ (s : MemoryRepository). lookup file_id s.lifecycle) trash_state
          ∙ rw (lookup-insert, beq_refl file_id) refl)
        deletable.owned (ground (arith, deletable.unpurged))

revoked-allows :
    (requester_id file_id capability id : String) (now later : ℕ) (g : Grant)
    → allows requester_id file_id capability later (revoke_for file_id now id g) ≡ false
unfolding allows revoke_for
revoked-allows requester_id file_id capability id now later g = ground arith

no_grant_left :
    (requester_id file_id capability : String) (now later : ℕ) (grants : Map String Grant)
    → find
        (λ (e : String × Grant). allows requester_id file_id capability later e.1)
        (revoke_grants_of file_id now grants)
      ≡ none
unfolding revoke_grants_of
no_grant_left requester_id file_id capability now later grants =
    find-none_of_All (λ (e : String × Grant). allows requester_id file_id capability later e.1)
      (update_each (revoke_for file_id now) grants)
      (update_each-All
        (λ (e : String × Grant). allows requester_id file_id capability later e.1 ≡ false)
        (revoke_for file_id now) grants
        (λ id g. revoked-allows requester_id file_id capability id now later g))

-- The grants that the trash revoked stay revoked: when the owner takes the file out of the trash,
-- whoever is not the owner is still refused.
pub return_restores_no_grant :
    (owner_id file_id requester_id capability : String) (now purge_after later last : ℕ)
    (r : MemoryRepository) (f : LifecycleFile)
    → lookup file_id r.lifecycle ≡ some f
    → IsDeletable owner_id now f
    → requester_id ≢ owner_id
    → authorized requester_id file_id capability last
        (restore_from_trash owner_id file_id later
          (move_to_trash owner_id file_id now purge_after r).1).1
      ≡ none
unfolding trashed recovered trashed_state
return_restores_no_grant owner_id file_id requester_id capability now purge_after later last r f
      found d stranger =
    let f' = recovered (trashed f now purge_after) later in
    rw (return_runs owner_id file_id now purge_after r f found d later) (
      no_grant_denies requester_id file_id capability last _ f'.file
        (rw (lookup-insert, beq_refl file_id) refl) (λ e. stranger (sym e ∙ d.owned))
        (ap
            (λ (s : MemoryRepository).
              find (λ (e : String × Grant). allows requester_id file_id capability last e.1)
                s.grants)
            (trash_state owner_id file_id now purge_after r f found d)
          ∙ no_grant_left requester_id file_id capability now last r.grants))

-- `MoveToTrash` writes the file's record back from the lifecycle snapshot, which `CommitRestore`
-- does not maintain. So after a version restore, whatever version it made current, a trip to the
-- trash brings the current version of the snapshot back.
pub trash_reverts_restore :
    (owner_id file_id source_version_id : String) (metadata : Metadata) (now purge_after : ℕ)
    (r : MemoryRepository) (f : LifecycleFile)
    → lookup file_id r.lifecycle ≡ some f
    → IsDeletable owner_id now f
    → lookup file_id
        (move_to_trash owner_id file_id now purge_after
          (commit_restore owner_id file_id source_version_id metadata r).1).1.files
      ≡ some (record f.file { updated_at = now })
unfolding trashed trashed_state
trash_reverts_restore owner_id file_id source_version_id metadata now purge_after r f found d =
    let r' = (commit_restore owner_id file_id source_version_id metadata r).1 in
    let found' : lookup file_id r'.lifecycle ≡ some f =
      ap (lookup file_id) (commit_restore_lifecycle owner_id file_id source_version_id metadata r)
      ∙ found in
    ap (λ (s : MemoryRepository). lookup file_id s.files)
      (trash_state owner_id file_id now purge_after r' f found' d)
    ∙ rw (lookup-insert, beq_refl file_id) refl
