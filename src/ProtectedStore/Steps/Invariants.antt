-- ===== src/ProtectedStore/Steps/Invariants.antt =====
-- What every sequence of mutations of `MemoryRepository` of internal/protectedstore keeps.
use secure_file_storage_syst.Prelude.{
  ℕ, String, ◌≡◌, ◌⊎◌, inl, inr, refl, Bool, Option, some, List, arith, string_eq, Option-cases,
}
use secure_file_storage_syst.Prelude.Map.{Map, lookup}
use secure_file_storage_syst.ProtectedStore.{
  Metadata, Recipient, Grant, Version, LifecycleFile, MemoryRepository, new_memory_repository,
}
use secure_file_storage_syst.ProtectedStore.Entries.{create, commit_dek_rewrap}
use secure_file_storage_syst.ProtectedStore.Catalog.{register_initial}
use secure_file_storage_syst.ProtectedStore.Catalog.Versions.{
  HasHistories, IsHistory, commit_restore-HasHistories, register_initial-HasHistories, IsHistory,
  commit_restore_grants,
}
use secure_file_storage_syst.ProtectedStore.Grants.{create_grant, revoke_grant}
use secure_file_storage_syst.ProtectedStore.Grants.Access.{IsGrantTable}
use secure_file_storage_syst.ProtectedStore.Grants.Table.{
  revoke_grants_of-IsGrantTable, revoke_grant-IsGrantTable,
}
use secure_file_storage_syst.ProtectedStore.Grants.Granting.{create_grant-IsGrantTable}
use secure_file_storage_syst.ProtectedStore.Lifecycle.Records.{
  record_deletion_failure, record_recovery_drill,
}
use secure_file_storage_syst.ProtectedStore.Lifecycle.{
  move_to_trash, restore_from_trash, purge, purge_now, set_retention, set_legal_hold,
  revoke_grants_of,
}
use secure_file_storage_syst.ProtectedStore.Steps.{
  Step, creates, registers, restores, grants, revokes, trashes, returns, purges, retains, holds,
  rewraps, fails, drills, Reach, here, next,
}

abbrev SameVersions : MemoryRepository → MemoryRepository → Type 0
SameVersions r t = t.versions ≡ r.versions

abbrev SameGrants : MemoryRepository → MemoryRepository → Type 0
SameGrants r t = t.grants ≡ r.grants

module _ (r : MemoryRepository) where
  create_tables :
      (metadata : Metadata) → let t = (create metadata r).2 in SameVersions r t × SameGrants r t
  unfolding create
  create_tables metadata = (ground arith, ground arith)

  return_tables :
      (owner_id j : String) (now : ℕ)
      → let t = (restore_from_trash owner_id j now r).1 in SameVersions r t × SameGrants r t
  unfolding restore_from_trash
  return_tables owner_id j now = (ground arith, ground arith)

  retention_tables :
      (j : String) (until : Option ℕ)
      → let t = (set_retention j until r).1 in SameVersions r t × SameGrants r t
  unfolding set_retention
  retention_tables j until = (ground arith, ground arith)

  hold_tables :
      (j reason : String) (enabled : Bool)
      → let t = (set_legal_hold j enabled reason r).1 in SameVersions r t × SameGrants r t
  unfolding set_legal_hold
  hold_tables j reason enabled = (ground arith, ground arith)

  rewrap_tables :
      (candidate : Metadata) (replacement : List ℕ) (target_id target_version : String)
      → let t = (commit_dek_rewrap candidate replacement target_id target_version r).1 in
        SameVersions r t × SameGrants r t
  unfolding commit_dek_rewrap
  rewrap_tables candidate replacement target_id target_version = (ground arith, ground arith)

  register_grants :
      (owner_id name id : String) (metadata : Metadata)
      → SameGrants r (register_initial owner_id name metadata (some id) r).1
  unfolding register_initial
  register_grants owner_id name id metadata = ground arith

  grant_versions :
      (owner_id j permission : String) (recipient : Recipient) (expires_at : Option ℕ)
      (id : Option String) (now : ℕ)
      → SameVersions r (create_grant owner_id j recipient permission expires_at id now r).1
  unfolding create_grant
  grant_versions owner_id j permission recipient expires_at id now = ground arith

  revoke_versions :
      (owner_id j grant_id : String) (now : ℕ)
      → SameVersions r (revoke_grant owner_id j grant_id now r).1
  unfolding revoke_grant
  revoke_versions owner_id j grant_id now = ground arith

  trash_versions :
      (owner_id j : String) (now purge_after : ℕ)
      → SameVersions r (move_to_trash owner_id j now purge_after r).1
  unfolding move_to_trash
  trash_versions owner_id j now purge_after = ground arith

  trash_grants :
      (owner_id j : String) (now purge_after : ℕ)
      → let t = (move_to_trash owner_id j now purge_after r).1 in
        SameGrants r t ⊎ (t.grants ≡ revoke_grants_of j now r.grants)
  unfolding move_to_trash
  trash_grants owner_id j now purge_after = ground arith

  purge_now_tables :
      (owner_id j operation_id : String) (now : ℕ) (f : LifecycleFile)
      → let t = (purge_now owner_id j operation_id now r f).1 in
        SameVersions r t × (t.grants ≡ revoke_grants_of j now r.grants)
  unfolding purge_now
  purge_now_tables owner_id j operation_id now f = (refl, refl)

  purge_tables :
      (owner_id j operation_id : String) (now : ℕ)
      → let t = (purge owner_id j operation_id now r).1 in
        SameVersions r t × (SameGrants r t ⊎ (t.grants ≡ revoke_grants_of j now r.grants))
  unfolding purge
  purge_tables owner_id j operation_id now = elim (Option-cases (lookup j r.lifecycle)) [
    | inl missing ↦ (ground arith, ground arith)
    | inr (f, found) ↦
        let same = purge_now_tables owner_id j operation_id now f in
        (ground (arith, same), ground (arith, same))
  ]

  revoked_or_same :
      (j : String) (now : ℕ) (new : Map String Grant)
      → (new ≡ r.grants) ⊎ (new ≡ revoke_grants_of j now r.grants)
      → IsGrantTable r.grants
      → IsGrantTable new
  revoked_or_same j now new (inl same) t = rw same t
  revoked_or_same j now new (inr revoked) t =
      rw revoked (revoke_grants_of-IsGrantTable j now r.grants t)

  Step-IsGrantTable :
      {t : MemoryRepository} → Step r t → IsGrantTable r.grants → IsGrantTable t.grants
  unfolding record_deletion_failure record_recovery_drill
  Step-IsGrantTable (creates metadata) g = rw ((create_tables metadata).1) g
  Step-IsGrantTable (registers owner_id name id metadata fresh) g =
      rw (register_grants owner_id name id metadata) g
  Step-IsGrantTable (restores owner_id j source metadata) g =
      rw (commit_restore_grants owner_id j source metadata r) g
  Step-IsGrantTable (grants owner_id j permission recipient expires_at id now) g =
      create_grant-IsGrantTable owner_id j recipient permission expires_at id now r g
  Step-IsGrantTable (revokes owner_id j grant_id now) g =
      revoke_grant-IsGrantTable owner_id j grant_id now r g
  Step-IsGrantTable (trashes owner_id j now purge_after) g =
      revoked_or_same j now _ (trash_grants owner_id j now purge_after) g
  Step-IsGrantTable (returns owner_id j now) g = rw ((return_tables owner_id j now).1) g
  Step-IsGrantTable (purges owner_id j operation_id now) g =
      revoked_or_same j now _ (purge_tables owner_id j operation_id now).1 g
  Step-IsGrantTable (retains j until) g = rw ((retention_tables j until).1) g
  Step-IsGrantTable (holds j reason enabled) g = rw ((hold_tables j reason enabled).1) g
  Step-IsGrantTable (rewraps candidate replacement target_id target_version) g =
      rw ((rewrap_tables candidate replacement target_id target_version).1) g
  Step-IsGrantTable (fails owner_id j operation_id reason now) g = g
  Step-IsGrantTable (drills drill) g = g

  with_versions :
      {new : Map String (List Version)}
      → new ≡ r.versions
      → HasHistories r
      → (j : String) (vs : List Version) → lookup j new ≡ some vs
      → IsHistory vs
  with_versions same h j vs has = h j vs (rw same at has)

  Step-HasHistories : {t : MemoryRepository} → Step r t → HasHistories r → HasHistories t
  unfolding record_deletion_failure record_recovery_drill
  Step-HasHistories (creates metadata) = with_versions (create_tables metadata).0
  Step-HasHistories (registers owner_id name id metadata fresh) =
      register_initial-HasHistories owner_id name metadata (some id) r
  Step-HasHistories (restores owner_id j source metadata) =
      commit_restore-HasHistories owner_id j source metadata r
  Step-HasHistories (grants owner_id j permission recipient expires_at id now) =
      with_versions (grant_versions owner_id j permission recipient expires_at id now)
  Step-HasHistories (revokes owner_id j grant_id now) =
      with_versions (revoke_versions owner_id j grant_id now)
  Step-HasHistories (trashes owner_id j now purge_after) =
      with_versions (trash_versions owner_id j now purge_after)
  Step-HasHistories (returns owner_id j now) = with_versions (return_tables owner_id j now).0
  Step-HasHistories (purges owner_id j operation_id now) =
      with_versions (purge_tables owner_id j operation_id now).0
  Step-HasHistories (retains j until) = with_versions (retention_tables j until).0
  Step-HasHistories (holds j reason enabled) = with_versions (hold_tables j reason enabled).0
  Step-HasHistories (rewraps candidate replacement target_id target_version) =
      with_versions (rewrap_tables candidate replacement target_id target_version).0
  Step-HasHistories (fails owner_id j operation_id reason now) = λ h. h
  Step-HasHistories (drills drill) = λ h. h

-- In every state that operations reach from the empty repository, each version list is a history,
-- the grants' keys are distinct, and at most one grant stands for each file and recipient.
pub reachable_invariant :
    {r : MemoryRepository} → Reach new_memory_repository r → HasHistories r × IsGrantTable r.grants
unfolding lookup
reachable_invariant here = (
  (λ j vs has. cc),
  record { distinct = tt; one_standing = λ f x i j g h has_g has_h st_g st_h. cc },
)
reachable_invariant (next {s = s} path step) =
    let before = reachable_invariant path in
    (Step-HasHistories s step before.0, Step-IsGrantTable s step before.1)
