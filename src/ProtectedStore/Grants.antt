-- ===== src/ProtectedStore/Grants.antt =====
-- internal/protectedstore/memory_repository.go: access grants and the authorization decision.
pub mod Access
pub mod Table
pub mod Granting
pub mod Revocation
use secure_file_storage_syst.Prelude.{
  ℕ, String, Bool, true, false, not, ◌&&◌, ◌||◌, Option, none, some, List, keep, find, map, ltb,
  if◌then◌else◌, ◌==◌, Eq, string_eq, is_none, Result, ok, err,
}
use secure_file_storage_syst.Prelude.Map.{Map, lookup, insert}
use secure_file_storage_syst.ProtectedStore.{
  Error, not_found, random_failure, Metadata, LogicalFile, Details, Recipient, Grant,
  MemoryRepository, lifecycle_of, versions_of,
}
use secure_file_storage_syst.ProtectedStore.Catalog.{OpaqueId, is_live, entry_of_version}

-- A grant that is not revoked, for the file and the recipient.
abbrev pub stands_for : String → String → Grant → Bool
stands_for file_id recipient_id g =
    g.file_id == file_id && g.recipient_id == recipient_id && is_none g.revoked_at

-- expires == nil || expires.After(now)
abbrev pub unexpired : Option ℕ → ℕ → Bool
unexpired none now = true
unexpired (some t) now = ltb now t

pub new_grant : String → String → String → Recipient → String → Option ℕ → ℕ → Grant
new_grant id owner_id file_id recipient permission expires_at now = record {
  grant_id = id;
  file_id = file_id;
  owner_id = owner_id;
  recipient_id = recipient.id;
  recipient_name = recipient.name;
  recipient_email = recipient.email;
  permission = permission;
  expires_at = expires_at;
  created_at = now;
  revoked_at = none;
}

pub grant_new :
    String
    → String
    → Recipient
    → String
    → Option ℕ
    → ℕ
    → MemoryRepository
    → OpaqueId
    → Result Error Grant × MemoryRepository
unfolding new_grant
grant_new owner_id file_id recipient permission expires_at now r none = (err random_failure, r)
grant_new owner_id file_id recipient permission expires_at now r (some id) =
    let g = new_grant id owner_id file_id recipient permission expires_at now in
    (ok g, record r { grants = insert id g r.grants })

pub grant_again :
    String
    → Option ℕ
    → ℕ
    → MemoryRepository
    → String × Grant
    → Result Error Grant × MemoryRepository
grant_again permission expires_at now r (id, existing) =
    (ok renewed, record r { grants = insert id renewed r.grants })
  where
    renewed : Grant
    renewed = record existing { permission = permission; expires_at = expires_at; created_at = now }

unfoldable pub create_grant :
    String
    → String
    → Recipient
    → String
    → Option ℕ
    → OpaqueId
    → ℕ
    → MemoryRepository
    → Result Error Grant × MemoryRepository
unfolding grant_new grant_again
create_grant owner_id file_id recipient permission expires_at id now r =
    elim (lookup file_id r.files) [
      | none ↦ (err not_found, r)
      | some file ↦
          if not (file.owner_id == owner_id) || recipient.id == owner_id
          then (err not_found, r)
          else elim (find (λ (e : String × Grant). stands_for file_id recipient.id e.1) r.grants) [
            | some e ↦ grant_again permission expires_at now r e
            | none ↦ grant_new owner_id file_id recipient permission expires_at now r id
          ]
    ]

unfoldable pub list_grants : String → String → ℕ → MemoryRepository → Result Error (List Grant)
list_grants owner_id file_id now r = elim (lookup file_id r.files) [
  | none ↦ err not_found
  | some file ↦
      if file.owner_id == owner_id
      then ok (
          keep
            (λ (g : Grant).
              g.file_id == file_id
              && g.owner_id == owner_id
              && is_none g.revoked_at
              && unexpired g.expires_at now)
            (map (λ (e : String × Grant). e.1) r.grants))
      else err not_found
]

unfoldable pub revoke_grant :
    String → String → String → ℕ → MemoryRepository → Option Error × MemoryRepository
revoke_grant owner_id file_id grant_id now r = elim (lookup grant_id r.grants) [
  | none ↦ (some not_found, r)
  | some g ↦
      if not (g.owner_id == owner_id) || not (g.file_id == file_id) || not (is_none g.revoked_at)
      then (some not_found, r)
      else (
        none,
        record r { grants = insert grant_id (record g { revoked_at = some now }) r.grants },
      )
]

-- The test on a grant in `authorized`.
unfoldable pub allows : String → String → String → ℕ → Grant → Bool
allows requester_id file_id capability now g =
    stands_for file_id requester_id g
    && unexpired g.expires_at now
    && (capability == "read" || g.permission == "download")

unfoldable pub authorized :
    String → String → String → ℕ → MemoryRepository → Option (LogicalFile × String)
authorized requester_id file_id capability now r = elim (lookup file_id r.files) [
  | none ↦ none
  | some file ↦
      if not (is_live (lifecycle_of r file_id))
      then none
      else if file.owner_id == requester_id
      then some (file, "owner")
      else elim (find (λ (e : String × Grant). allows requester_id file_id capability now e.1)
          r.grants) [ none ↦ none | some e ↦ some (file, e.1.permission) ]
]

unfoldable pub authorized_details :
    String → String → String → ℕ → MemoryRepository → Result Error Details
authorized_details requester_id file_id capability now r =
    elim (authorized requester_id file_id capability now r) [
      | none ↦ err not_found
      | some (file, access) ↦
          ok (record { file = file; versions = versions_of r file_id; access = access })
    ]

unfoldable pub authorized_current_metadata :
    String → String → String → ℕ → MemoryRepository → Result Error Metadata
authorized_current_metadata requester_id file_id capability now r =
    elim (authorized requester_id file_id capability now r) [
      | none ↦ err not_found
      | some (file, access) ↦ entry_of_version file.current_version_id r
    ]
