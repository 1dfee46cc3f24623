-- ===== src/ProtectedStore/Lifecycle.antt =====
-- internal/protectedstore/memory_repository.go: trash, retention, legal hold and purge.
pub mod Guards
pub mod Erasure
pub mod Trash
pub mod Records
use secure_file_storage_syst.Prelude.{
  ℕ, zero, ◌+◌, String, Bool, true, false, not, ◌&&◌, ◌||◌, Option, none, some, List, [], ◌∷◌, ◌++◌,
  length, keep, find, map, ltb, leb, if◌then◌else◌, ◌==◌, Eq, string_eq, is_none, is_some, Result,
  ok, err,
}
use secure_file_storage_syst.Prelude.Map.{Map, lookup, insert, update_each}
use secure_file_storage_syst.ProtectedStore.{
  Error, not_found, retention_active, legal_hold, not_in_trash, purge_too_early, purge_conflict,
  Metadata, LogicalFile, Version, Grant, LifecycleFile, PurgeResult, DeletionOperation,
  RecoveryDrill, MemoryRepository, lifecycle_of, versions_of,
}
use secure_file_storage_syst.ProtectedStore.Entries.{has_key}

-- The answer of an operation on one lifecycle record, with the state after it.
abbrev pub Answer : Type 0 → Type 0
Answer A = Result Error A × MemoryRepository

-- f.RetentionUntil != nil && f.RetentionUntil.After(now)
abbrev pub retained : LifecycleFile → ℕ → Bool
retained f now = elim f.retention_until [ none ↦ false | some t ↦ ltb now t ]

unfoldable pub revoke_for : String → ℕ → String → Grant → Grant
revoke_for file_id now id g =
    if g.file_id == file_id && is_none g.revoked_at then record g { revoked_at = some now } else g

-- The loop over the grants in `MoveToTrash` and `Purge`.
unfoldable pub revoke_grants_of : String → ℕ → Map String Grant → Map String Grant
unfolding revoke_for
revoke_grants_of file_id now = update_each (revoke_for file_id now)

-- The writes to `r.lifecycle[fileID]` and `r.files[fileID]`.
abbrev pub put_lifecycle : String → LifecycleFile → MemoryRepository → MemoryRepository
put_lifecycle file_id f r = record r {
  lifecycle = insert file_id f r.lifecycle;
  files = insert file_id f.file r.files;
}

pub trashed : LifecycleFile → ℕ → ℕ → LifecycleFile
trashed f now purge_after = record f {
  file = record f.file { updated_at = now };
  deleted_at = some now;
  purge_after = some purge_after;
}

trash_found : String → String → ℕ → ℕ → MemoryRepository → LifecycleFile → Answer LifecycleFile
unfolding trashed
trash_found owner_id file_id now purge_after r f =
    if not (f.owner_id == owner_id) || is_some f.purged_at
    then (err not_found, r)
    else if f.legal_hold
    then (err legal_hold, r)
    else if retained f now
    then (err retention_active, r)
    else if is_some f.deleted_at
    then (ok f, r)
    else (
      ok f',
      record (put_lifecycle file_id f' r) { grants = revoke_grants_of file_id now r.grants },
    )
  where
    f' : LifecycleFile
    f' = trashed f now purge_after

unfoldable pub move_to_trash : String → String → ℕ → ℕ → MemoryRepository → Answer LifecycleFile
unfolding trash_found
move_to_trash owner_id file_id now purge_after r = elim (lookup file_id r.lifecycle) [
  | none ↦ (err not_found, r)
  | some f ↦ trash_found owner_id file_id now purge_after r f
]

pub recovered : LifecycleFile → ℕ → LifecycleFile
recovered f now = record f {
  file = record f.file { updated_at = now };
  deleted_at = none;
  purge_after = none;
}

unfoldable pub restore_from_trash : String → String → ℕ → MemoryRepository → Answer LifecycleFile
unfolding recovered
restore_from_trash owner_id file_id now r = elim (lookup file_id r.lifecycle) [
  | none ↦ (err not_in_trash, r)
  | some f ↦
      if not (f.owner_id == owner_id) || is_none f.deleted_at || is_some f.purged_at
      then (err not_in_trash, r)
      else (ok (recovered f now), put_lifecycle file_id (recovered f now) r)
]

-- The inner loop of the destruction: an entry, the objects so far and their number.
unfoldable pub destroy_key : List Version → Metadata × List String × ℕ → Metadata × List String × ℕ
destroy_key [] st = st
destroy_key (v ∷ vs) (m, objects, destroyed) = destroy_key vs (
    if m.version_id == v.version_id && has_key m
    then (record m { wrapped_dek = [] }, objects ++ m.blob_object ∷ [], destroyed + 1)
    else (m, objects, destroyed))

-- The outer loop, over the entries.
unfoldable pub destroy_keys :
    List Version → Map String Metadata → List String → ℕ → Map String Metadata × List String × ℕ
unfolding destroy_key
destroy_keys vs [] objects destroyed = ([], objects, destroyed)
destroy_keys vs ((id, m) ∷ rest) objects destroyed =
    let (m', objects', destroyed') = destroy_key vs (m, objects, destroyed) in
    let (rest', objects'', destroyed'') = destroy_keys vs rest objects' destroyed' in
    ((id, m') ∷ rest', objects'', destroyed'')

pub purged : LifecycleFile → ℕ → LifecycleFile
purged f now = record f { file = record f.file { updated_at = now }; purged_at = some now }

completed_deletion : String → String → String → ℕ → ℕ → DeletionOperation
completed_deletion owner_id file_id operation_id destroyed now = record {
  operation_id = operation_id;
  file_id = file_id;
  owner_id = owner_id;
  status = "completed";
  destroyed_keys = destroyed;
  attempts = 1;
  reason_code = "";
  completed_at = some now;
  updated_at = now;
}

-- What `Purge` does once every guard has passed.
unfoldable pub purge_now :
    String → String → String → ℕ → MemoryRepository → LifecycleFile → Answer PurgeResult
unfolding purged completed_deletion
purge_now owner_id file_id operation_id now r f =
    let (entries, objects, destroyed) = destroy_keys (versions_of r file_id) r.entries [] 0 in
    let result : PurgeResult = record {
      file_id = file_id;
      operation_id = operation_id;
      destroyed_keys = destroyed;
      completed_at = now;
      blob_objects = objects;
    } in
    (
      ok result,
      record (put_lifecycle file_id (purged f now) r) {
        entries = entries;
        grants = revoke_grants_of file_id now r.grants;
        purges = insert operation_id result r.purges;
        deletions =
            insert operation_id (completed_deletion owner_id file_id operation_id destroyed now)
              r.deletions;
      },
    )

-- f.PurgeAfter == nil || f.PurgeAfter.After(now)
abbrev pub in_grace : LifecycleFile → ℕ → Bool
in_grace f now = elim f.purge_after [ none ↦ true | some t ↦ ltb now t ]

-- The guards of `Purge` on the record of the file.
purge_found : String → String → String → ℕ → MemoryRepository → LifecycleFile → Answer PurgeResult
purge_found owner_id file_id operation_id now r f =
    if not (f.owner_id == owner_id) || is_none f.deleted_at || is_some f.purged_at
    then (err not_in_trash, r)
    else if f.legal_hold
    then (err legal_hold, r)
    else if retained f now
    then (err retention_active, r)
    else if in_grace f now
    then (err purge_too_early, r)
    else purge_now owner_id file_id operation_id now r f

purge_first : String → String → String → ℕ → MemoryRepository → Answer PurgeResult
unfolding purge_found
purge_first owner_id file_id operation_id now r = elim (lookup file_id r.lifecycle) [
  | none ↦ (err not_in_trash, r)
  | some f ↦ purge_found owner_id file_id operation_id now r f
]

unfoldable pub purge : String → String → String → ℕ → MemoryRepository → Answer PurgeResult
unfolding purge_first
purge owner_id file_id operation_id now r = elim (lookup operation_id r.purges) [
  | none ↦ purge_first owner_id file_id operation_id now r
  | some existing ↦
      if existing.file_id == file_id then (ok existing, r) else (err purge_conflict, r)
]

-- f.RetentionUntil != nil && (until == nil || until.Before(*f.RetentionUntil))
abbrev pub shortens : Option ℕ → Option ℕ → Bool
shortens none until = false
shortens (some t) none = true
shortens (some t) (some u) = ltb u t

unfoldable pub set_retention : String → Option ℕ → MemoryRepository → Answer LifecycleFile
set_retention file_id until r = elim (lookup file_id r.lifecycle) [
  | none ↦ (err not_found, r)
  | some f ↦
      if is_some f.purged_at
      then (err not_found, r)
      else if shortens f.retention_until until
      then (err retention_active, r)
      else (
        ok (record f { retention_until = until }),
        record r { lifecycle = insert file_id (record f { retention_until = until }) r.lifecycle },
      )
]

pub held : LifecycleFile → Bool → String → LifecycleFile
held f enabled reason = record f {
  legal_hold = enabled;
  legal_hold_reason = if enabled then reason else "";
}

unfoldable pub set_legal_hold : String → Bool → String → MemoryRepository → Answer LifecycleFile
unfolding held
set_legal_hold file_id enabled reason r = elim (lookup file_id r.lifecycle) [
  | none ↦ (err not_found, r)
  | some f ↦ if is_some f.purged_at then (err not_found, r) else (
    ok (held f enabled reason),
    record r { lifecycle = insert file_id (held f enabled reason) r.lifecycle },
  )
]

-- The test of `EligibleForPurge`, and of the counter of `LifecycleSummary`.
unfoldable pub is_eligible : ℕ → LifecycleFile → Bool
is_eligible now f =
    is_none f.purged_at
    && is_some f.deleted_at
    && not (in_grace f now)
    && not f.legal_hold
    && not (retained f now)
