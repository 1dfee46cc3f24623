-- ===== src/ProtectedStore/Lifecycle/Guards.antt =====
-- What the guards of internal/protectedstore/memory_repository.go let through.
use secure_file_storage_syst.Prelude.{
  ℕ, String, ◌≡◌, ◌⊎◌, inl, inr, refl, true, false, ◌&&◌, Option, none, some, arith, ◌==◌,
  string_eq, ok, err, is_ok, Option-cases, Bool-cases, beq_refl, ◌||◌, is_some, ◌≤◌, ◌<◌,
}
use secure_file_storage_syst.Prelude.Map.{lookup, lookup-insert}
use secure_file_storage_syst.ProtectedStore.{Error, LifecycleFile, MemoryRepository}
use secure_file_storage_syst.ProtectedStore.Lifecycle.{
  move_to_trash, restore_from_trash, purge, purge_now, set_retention, is_eligible, shortens,
}

purge_now_ok :
    (owner_id file_id operation_id : String) (now : ℕ) (r : MemoryRepository) (f : LifecycleFile)
    → is_ok (purge_now owner_id file_id operation_id now r f).0 ≡ true
unfolding purge_now
purge_now_ok owner_id file_id operation_id now r f = refl

-- Under a new operation identifier, `Purge` succeeds exactly when the caller owns the file and the
-- file is one that `EligibleForPurge` lists: in the trash, not purged, past its grace period, under
-- no legal hold and with no active retention.
pub purge_ok_iff_eligible :
    (owner_id file_id operation_id : String) (now : ℕ) (r : MemoryRepository) (f : LifecycleFile)
    → lookup operation_id r.purges ≡ none
    → lookup file_id r.lifecycle ≡ some f
    → is_ok (purge owner_id file_id operation_id now r).0
      ≡ (f.owner_id == owner_id && is_eligible now f)
unfolding purge is_eligible
purge_ok_iff_eligible owner_id file_id operation_id now r f fresh found =
    ground (arith, purge_now_ok owner_id file_id operation_id now r f)

module _ (owner_id file_id operation_id : String) (now : ℕ) (r : MemoryRepository) (e : Error) where
  purge_error_keeps :
      (purge owner_id file_id operation_id now r).0 ≡ err e
      → (purge owner_id file_id operation_id now r).1 ≡ r
  unfolding purge
  purge_error_keeps h = elim (Option-cases (lookup file_id r.lifecycle)) [
    | inl missing ↦ ground arith
    | inr (f, found) ↦ ground (arith, purge_now_ok owner_id file_id operation_id now r f)
  ]

  trash_error_keeps :
      (purge_after : ℕ)
      → (move_to_trash owner_id file_id now purge_after r).0 ≡ err e
      → (move_to_trash owner_id file_id now purge_after r).1 ≡ r
  unfolding move_to_trash
  trash_error_keeps purge_after h = ground arith

  restore_error_keeps :
      (restore_from_trash owner_id file_id now r).0 ≡ err e
      → (restore_from_trash owner_id file_id now r).1 ≡ r
  unfolding restore_from_trash
  restore_error_keeps h = ground arith

-- A legal hold on a file blocks its way into the trash and its purge, and an active retention
-- period does so as well: whoever asks and whenever, no new deletion happens and the state is
-- what it was.
pub hold_blocks :
    (owner_id file_id operation_id : String) (now purge_after : ℕ) (r : MemoryRepository)
    (f : LifecycleFile)
    → lookup operation_id r.purges ≡ none
    → lookup file_id r.lifecycle ≡ some f
    → (f.legal_hold ≡ true) ⊎ ((t : ℕ) × (f.retention_until ≡ some t) × (now < t))
    → (is_ok (purge owner_id file_id operation_id now r).0 ≡ false)
      × (is_ok (move_to_trash owner_id file_id now purge_after r).0 ≡ false)
      × ((purge owner_id file_id operation_id now r).1 ≡ r)
      × ((move_to_trash owner_id file_id now purge_after r).1 ≡ r)
unfolding purge move_to_trash
hold_blocks owner_id file_id operation_id now purge_after r f fresh found (inl h) =
    (ground arith, ground arith, ground arith, ground arith)
hold_blocks owner_id file_id operation_id now purge_after r f fresh found (inr (t, h, lt)) =
    (ground arith, ground arith, ground arith, ground arith)

-- The end of a retention period, where no period counts as ended at once.
abbrev pub retention_end : LifecycleFile → ℕ
retention_end f = elim f.retention_until [ none ↦ 0 | some t ↦ t ]

-- `SetRetention` answers with the record that it stores, changes nothing else of it, and never
-- brings the end of the retention period forward; in the other case it keeps the state.
pub set_retention_extends :
    (file_id : String) (until : Option ℕ) (r : MemoryRepository) (f : LifecycleFile)
    → lookup file_id r.lifecycle ≡ some f
    → ((g : LifecycleFile) × ((set_retention file_id until r).0 ≡ ok g)
        × (lookup file_id (set_retention file_id until r).1.lifecycle ≡ some g)
        × (g ≡ record f { retention_until = until })
        × (retention_end f ≤ retention_end g))
      ⊎ ((is_ok (set_retention file_id until r).0 ≡ false)
          × ((set_retention file_id until r).1 ≡ r))
unfolding set_retention
set_retention_extends file_id until r f found =
    elim (Bool-cases (is_some f.purged_at || shortens f.retention_until until)) [
      | inl refused ↦ inr (ground arith, ground arith)
      | inr passed ↦ inl (
        record f { retention_until = until },
        ground arith,
        ground (
          arith,
          beq_refl file_id,
          lookup-insert file_id file_id (record f { retention_until = until }) r.lifecycle,
        ),
        refl,
        ground arith,
      )
    ]
