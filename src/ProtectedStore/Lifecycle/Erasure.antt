-- ===== src/ProtectedStore/Lifecycle/Erasure.antt =====
-- The effect of a purge of internal/protectedstore/memory_repository.go: keys destroyed, grants
-- revoked, one tombstone for each operation identifier.
use secure_file_storage_syst.Prelude.{
  ℕ, String, ◌≡◌, ◌≢◌, refl, sym, ◌∙◌, Bool, true, false, none, some, List, [], ◌∷◌, ◌++◌, ◌+◌,
  arith, ◌==◌, string_eq, ok, err, beq_refl, is_some, if◌then◌else◌, any,
}
use secure_file_storage_syst.Prelude.Map.{Map, lookup, lookup-insert, lookup-update_each, updated}
use secure_file_storage_syst.ProtectedStore.{
  Metadata, Version, Grant, LifecycleFile, MemoryRepository, PurgeResult, versions_of,
  purge_conflict, not_in_trash,
}
use secure_file_storage_syst.ProtectedStore.Entries.{has_key}
use secure_file_storage_syst.ProtectedStore.Lifecycle.{
  purge, purge_now, is_eligible, destroy_key, destroy_keys, revoke_grants_of, revoke_for, purged,
}

-- The entry holds one of the versions.
abbrev pub is_version : List Version → Metadata → Bool
is_version vs m = any (λ (v : Version). m.version_id == v.version_id) vs

-- What a purge of the versions leaves of an entry: no wrapped key where it holds one of them.
abbrev pub erased : List Version → Metadata → Metadata
erased vs m = if is_version vs m then record m { wrapped_dek = [] } else m

key_gone : (m : Metadata) → has_key m ≡ false → record m { wrapped_dek = [] } ≡ m
key_gone m h = ground arith

destroy_key-erased :
    (vs : List Version) (m : Metadata) (objects : List String) (n : ℕ)
    → (destroy_key vs (m, objects, n)).0 ≡ erased vs m
unfolding destroy_key any
destroy_key-erased [] m objects n = refl
destroy_key-erased (v ∷ vs) m objects n = ground (
  arith,
  key_gone m,
  destroy_key-erased vs m objects n,
  destroy_key-erased vs (record m { wrapped_dek = [] }) (objects ++ m.blob_object ∷ []) (n + 1),
)

-- The destruction loop changes each entry by itself.
lookup-destroy_keys :
    (vs : List Version) (k : String) (m : Map String Metadata) (objects : List String) (n : ℕ)
    → lookup k (destroy_keys vs m objects n).0 ≡ updated (λ _. erased vs) k (lookup k m)
unfolding destroy_keys lookup
lookup-destroy_keys vs k [] objects n = refl
lookup-destroy_keys vs k ((id, m) ∷ rest) objects n =
    let (m', objects', n') = destroy_key vs (m, objects, n) in
    ground (arith, destroy_key-erased vs m objects n, lookup-destroy_keys vs k rest objects' n')

pub revoke_grants_of-lookup :
    (file_id k : String) (now : ℕ) (grants : Map String Grant)
    → lookup k (revoke_grants_of file_id now grants)
      ≡ updated (revoke_for file_id now) k (lookup k grants)
unfolding revoke_grants_of
revoke_grants_of-lookup file_id k now grants = lookup-update_each (revoke_for file_id now) k grants

purge_again :
    (caller file_id operation_id : String) (later : ℕ) (r : MemoryRepository) (result : PurgeResult)
    → lookup operation_id r.purges ≡ some result
    → result.file_id ≡ file_id
    → purge caller file_id operation_id later r ≡ (ok result, r)
unfolding purge
purge_again caller file_id operation_id later r result known same =
    let instance e = string_eq in ground (arith, e.beq_iff result.file_id file_id)

purge_other_file :
    (caller file_id operation_id : String) (later : ℕ) (r : MemoryRepository) (result : PurgeResult)
    → lookup operation_id r.purges ≡ some result
    → result.file_id ≢ file_id
    → purge caller file_id operation_id later r ≡ (err purge_conflict, r)
unfolding purge
purge_other_file caller file_id operation_id later r result known differs =
    let instance e = string_eq in ground (arith, e.beq_iff result.file_id file_id)

purge_after_purge :
    (caller file_id operation_id : String) (later : ℕ) (r : MemoryRepository) (f : LifecycleFile)
    → lookup operation_id r.purges ≡ none
    → lookup file_id r.lifecycle ≡ some f
    → is_some f.purged_at ≡ true
    → purge caller file_id operation_id later r ≡ (err not_in_trash, r)
unfolding purge
purge_after_purge caller file_id operation_id later r f unused found gone = ground arith

module _ (owner_id file_id operation_id : String) (now : ℕ) (r : MemoryRepository)
    (f : LifecycleFile) (fresh : lookup operation_id r.purges ≡ none)
    (found : lookup file_id r.lifecycle ≡ some f) (owned : f.owner_id ≡ owner_id)
    (due : is_eligible now f ≡ true) where
  purge_runs :
      purge owner_id file_id operation_id now r ≡ purge_now owner_id file_id operation_id now r f
  unfolding purge is_eligible
  purge_runs = let instance e = string_eq in ground (arith, e.beq_iff f.owner_id owner_id)

  -- The purge of an eligible file by its owner under a new operation identifier removes the wrapped
  -- key of every entry that holds a version of the file, and changes no other entry.
  pub purge_erases :
      (k : String)
      → lookup k (purge owner_id file_id operation_id now r).1.entries
        ≡ updated (λ _. erased (versions_of r file_id)) k (lookup k r.entries)
  unfolding purge_now
  purge_erases k = rw purge_runs (lookup-destroy_keys (versions_of r file_id) k r.entries [] 0)

  -- The purge of an eligible file by its owner under a new operation identifier revokes the standing
  -- grants of the file at that time, and changes no other grant.
  pub purge_revokes :
      (k : String)
      → lookup k (purge owner_id file_id operation_id now r).1.grants
        ≡ updated (revoke_for file_id now) k (lookup k r.grants)
  unfolding purge_now
  purge_revokes k = rw purge_runs (revoke_grants_of-lookup file_id k now r.grants)

  -- The answer of the purge is kept under its identifier.
  pub purge_recorded :
      (result : PurgeResult) × ((purge owner_id file_id operation_id now r).0 ≡ ok result)
      × (lookup operation_id (purge owner_id file_id operation_id now r).1.purges ≡ some result)
      × (result.file_id ≡ file_id)
  unfolding purge_now
  purge_recorded = rw purge_runs (_, refl, rw (lookup-insert, beq_refl operation_id) refl, refl)

  pub purge_marks :
      lookup file_id (purge owner_id file_id operation_id now r).1.lifecycle ≡ some (purged f now)
  unfolding purge_now
  purge_marks = rw purge_runs (rw (lookup-insert, beq_refl file_id) refl)

  -- The purge of an eligible file by its owner under a new operation identifier is done once: asked
  -- again under that identifier, by anybody and at any time, it gives the first answer and keeps the
  -- state, for another file it is a conflict, and under an unused identifier the file is no longer
  -- in the trash.
  pub purge_once :
      (caller other_file other_operation : String) (later : ℕ)
      → lookup other_operation (purge owner_id file_id operation_id now r).1.purges ≡ none
      → file_id ≢ other_file
      → let r' = (purge owner_id file_id operation_id now r).1 in
        (purge caller file_id operation_id later r'
          ≡ ((purge owner_id file_id operation_id now r).0, r'))
        × (purge caller other_file operation_id later r' ≡ (err purge_conflict, r'))
        × (purge caller file_id other_operation later r' ≡ (err not_in_trash, r'))
  unfolding purged
  purge_once caller other_file other_operation later unused differs =
      let (result, answer, known, same) = purge_recorded in
      let r' = (purge owner_id file_id operation_id now r).1 in
      (
        rw answer (purge_again caller file_id operation_id later r' result known same),
        purge_other_file caller other_file operation_id later r' result known
            (λ e. differs (sym same ∙ e)),
        purge_after_purge caller file_id other_operation later r' (purged f now) unused purge_marks
            refl,
      )
