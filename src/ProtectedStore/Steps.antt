-- ===== src/ProtectedStore/Steps.antt =====
-- The mutations of the entries, files, grants and lifecycle records of `MemoryRepository` of
-- internal/protectedstore as steps, with what holds along every sequence of them. Those of the
-- reconciliation records stand in Reconciliation.
pub mod Invariants
use secure_file_storage_syst.Prelude.{
  ℕ, String, ◌≡◌, ◌≢◌, ◌⊎◌, inl, inr, refl, sym, ◌∙◌, ap, Bool, true, false, Option, none, some,
  List, [], ◌∷◌, arith, ◌==◌, string_eq, Result, ok, err, is_some, is_none, Option-cases,
  Bool-cases, beq_refl, if◌then◌else◌,
}
use secure_file_storage_syst.Prelude.Map.{Map, lookup, insert, lookup-insert}
use secure_file_storage_syst.Prelude.Keys.{Distinct}
use secure_file_storage_syst.ProtectedStore.{
  Metadata, Recipient, LifecycleFile, RecoveryDrill, MemoryRepository, new_memory_repository,
}
use secure_file_storage_syst.ProtectedStore.Entries.{create, commit_dek_rewrap}
use secure_file_storage_syst.ProtectedStore.Catalog.{
  register_initial, commit_restore, untouched, new_file,
}
use secure_file_storage_syst.ProtectedStore.Catalog.Versions.{
  HasHistories, commit_restore-HasHistories, register_initial-HasHistories,
  commit_restore_lifecycle,
}
use secure_file_storage_syst.ProtectedStore.Grants.{create_grant, revoke_grant}
use secure_file_storage_syst.ProtectedStore.Grants.Access.{IsGrantTable}
use secure_file_storage_syst.ProtectedStore.Grants.Table.{
  revoke_grants_of-IsGrantTable, revoke_grant-IsGrantTable,
}
use secure_file_storage_syst.ProtectedStore.Grants.Granting.{create_grant-IsGrantTable}
use secure_file_storage_syst.ProtectedStore.Lifecycle.Records.{
  record_deletion_failure, record_recovery_drill,
}
use secure_file_storage_syst.ProtectedStore.Lifecycle.{
  move_to_trash, restore_from_trash, purge, purge_now, set_retention, set_legal_hold, trashed,
  recovered, held, purged,
}

-- The mutations. The identifiers that `RegisterInitial` draws are new ones.
pub data Step (r : MemoryRepository) : MemoryRepository → Type 0 where
  creates : (metadata : Metadata) → Step r (create metadata r).2
  registers :
      (owner_id name id : String) (metadata : Metadata)
      → lookup id r.lifecycle ≡ none
      → Step r (register_initial owner_id name metadata (some id) r).1
  restores :
      (owner_id file_id source_version_id : String) (metadata : Metadata)
      → Step r (commit_restore owner_id file_id source_version_id metadata r).1
  grants :
      (owner_id file_id permission : String) (recipient : Recipient) (expires_at : Option ℕ)
      (id : Option String) (now : ℕ)
      → Step r (create_grant owner_id file_id recipient permission expires_at id now r).1
  revokes :
      (owner_id file_id grant_id : String) (now : ℕ)
      → Step r (revoke_grant owner_id file_id grant_id now r).1
  trashes :
      (owner_id file_id : String) (now purge_after : ℕ)
      → Step r (move_to_trash owner_id file_id now purge_after r).1
  returns :
      (owner_id file_id : String) (now : ℕ) → Step r (restore_from_trash owner_id file_id now r).1
  purges :
      (owner_id file_id operation_id : String) (now : ℕ)
      → Step r (purge owner_id file_id operation_id now r).1
  retains : (file_id : String) (until : Option ℕ) → Step r (set_retention file_id until r).1
  holds :
      (file_id reason : String) (enabled : Bool)
      → Step r (set_legal_hold file_id enabled reason r).1
  rewraps :
      (candidate : Metadata) (replacement : List ℕ) (target_id target_version : String)
      → Step r (commit_dek_rewrap candidate replacement target_id target_version r).1
  fails :
      (owner_id file_id operation_id reason : String) (now : ℕ)
      → Step r (record_deletion_failure owner_id file_id operation_id reason now r)
  drills : (drill : RecoveryDrill) → Step r (record_recovery_drill drill r)

pub data Reach (r : MemoryRepository) : MemoryRepository → Type 0 where
  here : Reach r r
  next : {s t : MemoryRepository} → Reach r s → Step s t → Reach r t

-- A purged record, and how it stands in a state.
abbrev Gone : String → LifecycleFile → MemoryRepository → Type 0
Gone file_id f r = (lookup file_id r.lifecycle ≡ some f) × (is_some f.purged_at ≡ true)

module _ (file_id : String) (f : LifecycleFile) (r : MemoryRepository)
    (gone : Gone file_id f r) where
  trash_keeps_gone :
      (owner_id j : String) (now purge_after : ℕ)
      → lookup file_id (move_to_trash owner_id j now purge_after r).1.lifecycle ≡ some f
  unfolding move_to_trash
  trash_keeps_gone owner_id j now purge_after = elim (Option-cases (lookup j r.lifecycle)) [
    | inl missing ↦ ground (arith, gone)
    | inr (g, has) ↦ ground (
      arith,
      gone,
      string_eq.beq_iff j file_id,
      lookup-insert j file_id (trashed g now purge_after) r.lifecycle,
    )
  ]

  return_keeps_gone :
      (owner_id j : String) (now : ℕ)
      → lookup file_id (restore_from_trash owner_id j now r).1.lifecycle ≡ some f
  unfolding restore_from_trash
  return_keeps_gone owner_id j now = elim (Option-cases (lookup j r.lifecycle)) [
    | inl missing ↦ ground (arith, gone)
    | inr (g, has) ↦ ground (
      arith,
      gone,
      string_eq.beq_iff j file_id,
      lookup-insert j file_id (recovered g now) r.lifecycle,
    )
  ]

  retention_keeps_gone :
      (j : String) (until : Option ℕ)
      → lookup file_id (set_retention j until r).1.lifecycle ≡ some f
  unfolding set_retention
  retention_keeps_gone j until = elim (Option-cases (lookup j r.lifecycle)) [
    | inl missing ↦ ground (arith, gone)
    | inr (g, has) ↦ ground (
      arith,
      gone,
      string_eq.beq_iff j file_id,
      lookup-insert j file_id (record g { retention_until = until }) r.lifecycle,
    )
  ]

  hold_keeps_gone :
      (j reason : String) (enabled : Bool)
      → lookup file_id (set_legal_hold j enabled reason r).1.lifecycle ≡ some f
  unfolding set_legal_hold
  hold_keeps_gone j reason enabled = elim (Option-cases (lookup j r.lifecycle)) [
    | inl missing ↦ ground (arith, gone)
    | inr (g, has) ↦ ground (
      arith,
      gone,
      string_eq.beq_iff j file_id,
      lookup-insert j file_id (held g enabled reason) r.lifecycle,
    )
  ]

  purge_now_lifecycle :
      (owner_id j operation_id : String) (now : ℕ) (g : LifecycleFile)
      → lookup file_id (purge_now owner_id j operation_id now r g).1.lifecycle
        ≡ (if j == file_id then some (purged g now) else lookup file_id r.lifecycle)
  unfolding purge_now
  purge_now_lifecycle owner_id j operation_id now g =
      lookup-insert j file_id (purged g now) r.lifecycle

  purge_keeps_gone :
      (owner_id j operation_id : String) (now : ℕ)
      → lookup file_id (purge owner_id j operation_id now r).1.lifecycle ≡ some f
  unfolding purge
  purge_keeps_gone owner_id j operation_id now = elim (Option-cases (lookup j r.lifecycle)) [
    | inl missing ↦ ground (arith, gone)
    | inr (g, has) ↦ ground (
      arith,
      gone,
      string_eq.beq_iff j file_id,
      purge_now_lifecycle owner_id j operation_id now g,
    )
  ]

  register_keeps_gone :
      (owner_id name id : String) (metadata : Metadata)
      → lookup id r.lifecycle ≡ none
      → lookup file_id (register_initial owner_id name metadata (some id) r).1.lifecycle ≡ some f
  unfolding register_initial
  register_keeps_gone owner_id name id metadata fresh = ground (
    arith,
    gone,
    string_eq.beq_iff id file_id,
    lookup-insert id file_id (untouched (new_file id owner_id name metadata)) r.lifecycle,
  )

  grant_keeps_gone :
      (owner_id j permission : String) (recipient : Recipient) (expires_at : Option ℕ)
      (id : Option String) (now : ℕ)
      → lookup file_id
          (create_grant owner_id j recipient permission expires_at id now r).1.lifecycle
        ≡ some f
  unfolding create_grant
  grant_keeps_gone owner_id j permission recipient expires_at id now = ground (arith, gone)

  revoke_keeps_gone :
      (owner_id j grant_id : String) (now : ℕ)
      → lookup file_id (revoke_grant owner_id j grant_id now r).1.lifecycle ≡ some f
  unfolding revoke_grant
  revoke_keeps_gone owner_id j grant_id now = ground (arith, gone)

  rewrap_keeps_gone :
      (candidate : Metadata) (replacement : List ℕ) (target_id target_version : String)
      → lookup file_id
          (commit_dek_rewrap candidate replacement target_id target_version r).1.lifecycle
        ≡ some f
  unfolding commit_dek_rewrap
  rewrap_keeps_gone candidate replacement target_id target_version = ground (arith, gone)

  create_keeps_gone :
      (metadata : Metadata) → lookup file_id (create metadata r).2.lifecycle ≡ some f
  unfolding create
  create_keeps_gone metadata = ground (arith, gone)

  Step-Gone : {t : MemoryRepository} → Step r t → Gone file_id f t
  unfolding record_deletion_failure record_recovery_drill
  Step-Gone (creates metadata) = (create_keeps_gone metadata, gone.1)
  Step-Gone (registers owner_id name id metadata fresh) =
      (register_keeps_gone owner_id name id metadata fresh, gone.1)
  Step-Gone (restores owner_id j source_version_id metadata) = (
    ap (lookup file_id) (commit_restore_lifecycle owner_id j source_version_id metadata r) ∙ gone.0,
    gone.1,
  )
  Step-Gone (grants owner_id j permission recipient expires_at id now) =
      (grant_keeps_gone owner_id j permission recipient expires_at id now, gone.1)
  Step-Gone (revokes owner_id j grant_id now) = (revoke_keeps_gone owner_id j grant_id now, gone.1)
  Step-Gone (trashes owner_id j now purge_after) =
      (trash_keeps_gone owner_id j now purge_after, gone.1)
  Step-Gone (returns owner_id j now) = (return_keeps_gone owner_id j now, gone.1)
  Step-Gone (purges owner_id j operation_id now) =
      (purge_keeps_gone owner_id j operation_id now, gone.1)
  Step-Gone (retains j until) = (retention_keeps_gone j until, gone.1)
  Step-Gone (holds j reason enabled) = (hold_keeps_gone j reason enabled, gone.1)
  Step-Gone (rewraps candidate replacement target_id target_version) =
      (rewrap_keeps_gone candidate replacement target_id target_version, gone.1)
  Step-Gone (fails owner_id j operation_id reason now) = gone
  Step-Gone (drills drill) = gone

pub purged_forever :
    (file_id : String) (f : LifecycleFile) (r : MemoryRepository) {t : MemoryRepository}
    → lookup file_id r.lifecycle ≡ some f
    → is_some f.purged_at ≡ true
    → Reach r t
    → lookup file_id t.lifecycle ≡ some f
purged_forever file_id f r found gone here = found
purged_forever file_id f r found gone (next {s = s} path step) =
    (Step-Gone file_id f s (purged_forever file_id f r found gone path, gone) step).0
