-- ===== src/ProtectedStore/Examples.antt =====
-- The theorems on internal/protectedstore at concrete states of its memory repository: a live file
-- that is shared with one recipient, and a file in the trash whose grace period is over.
use secure_file_storage_syst.Prelude.{
  String, ◌≡◌, ◌≢◌, ◌↔◌, inl, refl, sym, ◌∙◌, true, false, ◌&&◌, none, some, [], ◌∷◌, arith, ◌==◌,
  string_eq, Result, is_ok, is_some,
}
use secure_file_storage_syst.Prelude.Map.{lookup, updated}
use secure_file_storage_syst.ProtectedStore.{
  Error, Metadata, LogicalFile, Version, Grant, LifecycleFile, MemoryRepository,
  new_memory_repository, versions_of,
}
use secure_file_storage_syst.ProtectedStore.Entries.{create}
use secure_file_storage_syst.ProtectedStore.Catalog.{register_initial, commit_restore}
use secure_file_storage_syst.ProtectedStore.Catalog.Versions.{HasHistories}
use secure_file_storage_syst.ProtectedStore.Grants.{authorized, revoke_grant}
use secure_file_storage_syst.ProtectedStore.Grants.Access.{MayAccess, IsGrantTable, authorized_iff}
use secure_file_storage_syst.ProtectedStore.Grants.Revocation.{revoke_denies}
use secure_file_storage_syst.ProtectedStore.Lifecycle.{
  purge, is_eligible, move_to_trash, restore_from_trash,
}
use secure_file_storage_syst.ProtectedStore.Lifecycle.Guards.{purge_ok_iff_eligible, hold_blocks}
use secure_file_storage_syst.ProtectedStore.Lifecycle.Erasure.{erased, purge_erases}
use secure_file_storage_syst.ProtectedStore.Lifecycle.Trash.{
  IsDeletable, trash_denies, trash_reverts_restore,
}
use secure_file_storage_syst.ProtectedStore.Steps.{
  Reach, here, next, creates, registers, returns, purged_forever,
}
use secure_file_storage_syst.ProtectedStore.Steps.Invariants.{reachable_invariant}

abbrev metadata : Metadata
metadata = record {
  upload_id = "u1";
  version_id = "v1";
  owner_id = "alice";
  blob_object = "b1";
  schema_version = "1";
  algorithm = "AES-256-GCM";
  kek_id = "kek";
  kek_version = "1";
  wrapping_kek_id = "";
  wrapping_kek_version = "";
  wrapped_dek = 1 ∷ 2 ∷ [];
  nonce = 3 ∷ [];
  plaintext_size = 10;
  plaintext_digest = "d";
  media_type = "text/plain";
  inspection_record_id = "i";
  created_at = 1;
}

abbrev second_metadata : Metadata
second_metadata = record metadata { upload_id = "u2"; version_id = "v2"; created_at = 4 }

abbrev file : LogicalFile
file = record {
  file_id = "f1";
  owner_id = "alice";
  name = "a.txt";
  current_version_id = "v1";
  created_at = 1;
  updated_at = 1;
}

abbrev first_version : Version
first_version = record {
  file_id = "f1";
  version_id = "v1";
  source_version_id = "";
  operation_id = "u1";
  number = 1;
  plaintext_size = 10;
  media_type = "text/plain";
  reason = "initial_upload";
  current = true;
  created_at = 1;
}

abbrev live : LifecycleFile
live = record {
  file = file;
  deleted_at = none;
  purge_after = none;
  retention_until = none;
  legal_hold = false;
  legal_hold_reason = "";
  purged_at = none;
}

abbrev due : LifecycleFile
due = record live { deleted_at = some 5; purge_after = some 10 }

abbrev on_hold : LifecycleFile
on_hold = record due { legal_hold = true; legal_hold_reason = "case 7" }

abbrev bob_grant : Grant
bob_grant = record {
  grant_id = "g1";
  file_id = "f1";
  owner_id = "alice";
  recipient_id = "bob";
  recipient_name = "Bob";
  recipient_email = "bob@example.com";
  permission = "read";
  expires_at = some 100;
  created_at = 2;
  revoked_at = none;
}

abbrev with_lifecycle : LifecycleFile → MemoryRepository
with_lifecycle f = record new_memory_repository {
  entries = ("u1", metadata) ∷ [];
  files = ("f1", file) ∷ [];
  versions = ("f1", first_version ∷ []) ∷ [];
  grants = ("g1", bob_grant) ∷ [];
  lifecycle = ("f1", f) ∷ [];
}

abbrev shared : MemoryRepository
shared = with_lifecycle live

abbrev in_trash : MemoryRepository
in_trash = with_lifecycle due

only_key : {V : Type 0} (k j : String) (v x : V) → lookup j ((k, v) ∷ []) ≡ some x → k ≡ j
unfolding lookup
only_key k j v x h = ground (arith, string_eq.beq_iff k j)

f1-ne-f2 : ◌≢◌ {A = String} "f1" "f2"
f1-ne-f2 e = ground (arith, string_eq.beq_iff "f1" "f2")

shared-IsGrantTable : IsGrantTable shared.grants
shared-IsGrantTable = record {
  distinct = unfold lookup in (refl, tt);
  one_standing = λ f x i j g h has_g has_h st_g st_h.
      sym (only_key "g1" i bob_grant g has_g) ∙ only_key "g1" j bob_grant h has_h;
}

live-IsDeletable : IsDeletable "alice" 3 live
live-IsDeletable = record {
  owned = refl;
  unpurged = refl;
  present = refl;
  unheld = refl;
  unretained = refl;
}

due-is_eligible : is_eligible 20 due ≡ true
unfolding is_eligible
due-is_eligible = refl

purge_ok_iff_eligible_example :
    is_ok (purge "alice" "f1" "op1" 20 in_trash).0 ≡ (due.owner_id == "alice" && is_eligible 20 due)
unfolding lookup
purge_ok_iff_eligible_example = purge_ok_iff_eligible "alice" "f1" "op1" 20 in_trash due refl refl

hold_blocks_example :
    (is_ok (purge "alice" "f1" "op1" 20 (with_lifecycle on_hold)).0 ≡ false)
    × (is_ok (move_to_trash "alice" "f1" 20 30 (with_lifecycle on_hold)).0 ≡ false)
    × ((purge "alice" "f1" "op1" 20 (with_lifecycle on_hold)).1 ≡ with_lifecycle on_hold)
    × ((move_to_trash "alice" "f1" 20 30 (with_lifecycle on_hold)).1 ≡ with_lifecycle on_hold)
unfolding lookup
hold_blocks_example =
    hold_blocks "alice" "f1" "op1" 20 30 (with_lifecycle on_hold) on_hold refl refl (inl refl)

purge_erases_example :
    lookup "u1" (purge "alice" "f1" "op1" 20 in_trash).1.entries
    ≡ updated
        (λ (_ : String). erased (versions_of in_trash "f1"))
        "u1"
        (lookup "u1" in_trash.entries)
unfolding lookup
purge_erases_example =
    purge_erases "alice" "f1" "op1" 20 in_trash due refl refl refl due-is_eligible "u1"

abbrev after_purge : MemoryRepository
after_purge = (purge "alice" "f1" "op1" 20 in_trash).1

trash_denies_example :
    authorized "alice" "f1" "read" 4 (move_to_trash "alice" "f1" 3 9 shared).1 ≡ none
unfolding lookup
trash_denies_example =
    trash_denies "alice" "f1" 3 9 shared live refl live-IsDeletable "alice" "read" 4

trash_reverts_restore_example :
    lookup "f1"
      (move_to_trash "alice" "f1" 3 9
        (commit_restore "alice" "f1" "v1" second_metadata shared).1).1.files
    ≡ some (record file { updated_at = 3 })
unfolding lookup
trash_reverts_restore_example =
    trash_reverts_restore "alice" "f1" "v1" second_metadata 3 9 shared live refl live-IsDeletable

authorized_iff_example :
    (is_some (authorized "bob" "f1" "read" 50 shared) ≡ true)
    ↔ MayAccess "bob" "f1" "read" 50 shared file
unfolding lookup
authorized_iff_example =
    authorized_iff "bob" "f1" "read" 50 shared file refl shared-IsGrantTable.distinct

revoke_denies_example :
    authorized "bob" "f1" "read" 50 (revoke_grant "alice" "f1" "g1" 40 shared).1 ≡ none
unfolding lookup revoke_grant
revoke_denies_example =
    revoke_denies "alice" "f1" "g1" "read" 40 50 shared bob_grant file shared-IsGrantTable refl refl
      refl (λ e. cc)

abbrev second_version : Version
second_version = record first_version {
  version_id = "v2";
  source_version_id = "v1";
  operation_id = "u2";
  number = 2;
  reason = "verified_restore";
  created_at = 4;
}

abbrev restored_once : Result Error Version × MemoryRepository
restored_once = commit_restore "alice" "f1" "v1" second_metadata shared

abbrev registered : MemoryRepository
registered =
    (register_initial "alice" "a.txt" metadata (some "f1")
      (create metadata new_memory_repository).2).1

registered-Reach : Reach new_memory_repository registered
unfolding create lookup
registered-Reach =
    next (next here (creates metadata)) (registers "alice" "a.txt" "f1" metadata refl)

reachable_invariant_example : HasHistories registered × IsGrantTable registered.grants
reachable_invariant_example = reachable_invariant registered-Reach

abbrev gone : LifecycleFile
gone = record due { purged_at = some 20 }

purged_forever_example :
    lookup "f1" (restore_from_trash "alice" "f1" 30 (with_lifecycle gone)).1.lifecycle ≡ some gone
unfolding lookup
purged_forever_example =
    purged_forever "f1" gone (with_lifecycle gone) refl refl (next here (returns "alice" "f1" 30))
