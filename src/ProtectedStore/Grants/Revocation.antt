-- ===== src/ProtectedStore/Grants/Revocation.antt =====
-- Revoking the grant of a recipient ends the access:
-- internal/protectedstore/memory_repository.go.
use secure_file_storage_syst.Prelude.{
  ℕ, String, ◌≡◌, ◌≢◌, inl, inr, refl, true, false, none, some, arith, ◌==◌, string_eq,
  Option-cases, Bool-cases, beq_refl,
}
use secure_file_storage_syst.Prelude.Map.{lookup, insert, lookup-insert}
use secure_file_storage_syst.Prelude.Keys.{insert-Distinct}
use secure_file_storage_syst.ProtectedStore.{LogicalFile, Grant, MemoryRepository}
use secure_file_storage_syst.ProtectedStore.Grants.{stands_for, allows, authorized, revoke_grant}
use secure_file_storage_syst.ProtectedStore.Grants.Access.{MayAccess, authorized_iff, IsGrantTable}

allows-stands :
    (requester_id file_id capability : String) (now : ℕ) (g : Grant)
    → allows requester_id file_id capability now g ≡ true
    → stands_for file_id requester_id g ≡ true
unfolding allows
allows-stands requester_id file_id capability now g h = ground arith

module _ (owner_id file_id grant_id : String) (now : ℕ) (r : MemoryRepository) (g : Grant)
    (has : lookup grant_id r.grants ≡ some g)
    (done : (revoke_grant owner_id file_id grant_id now r).0 ≡ none) where
  revoked_entry :
      (revoke_grant owner_id file_id grant_id now r).1
      ≡ record r { grants = insert grant_id (record g { revoked_at = some now }) r.grants }
  unfolding revoke_grant
  revoked_entry = ground arith

  was_standing : stands_for file_id g.recipient_id g ≡ true
  unfolding revoke_grant
  was_standing = ground (arith, beq_refl g.recipient_id, beq_refl file_id)

  -- No grant of the table stands for the file and the recipient any longer.
  none_stands :
      IsGrantTable r.grants
      → (i : String) (h : Grant)
      → lookup i (insert grant_id (record g { revoked_at = some now }) r.grants) ≡ some h
      → stands_for file_id g.recipient_id h ≡ false
  none_stands t i h has_h = elim (Bool-cases (stands_for file_id g.recipient_id h)) [
    | inr fine ↦ fine
    | inl st ↦
        let moved = lookup-insert grant_id i (record g { revoked_at = some now }) r.grants in
        elim (Bool-cases (grant_id == i)) [
          | inl same ↦ ground (arith, moved)
          | inr other ↦
              let e : grant_id ≡ i =
                t.one_standing file_id g.recipient_id grant_id i g h has (ground (arith, moved))
                  was_standing st in
              absurd (ground (arith, string_eq.beq_iff grant_id i))
        ]
  ]

no_access :
    (owner_id file_id grant_id capability : String) (now later : ℕ) (r : MemoryRepository)
    (g : Grant) (file : LogicalFile)
    → IsGrantTable r.grants
    → lookup grant_id r.grants ≡ some g
    → lookup file_id r.files ≡ some file
    → (revoke_grant owner_id file_id grant_id now r).0 ≡ none
    → file.owner_id ≢ g.recipient_id
    → ¬ MayAccess g.recipient_id file_id capability later
        (record r { grants = insert grant_id (record g { revoked_at = some now }) r.grants })
        file
no_access owner_id file_id grant_id capability now later r g file t has found done stranger
      (live, inl owner) =
    stranger owner
no_access owner_id file_id grant_id capability now later r g file t has found done stranger
      (live, inr (i, h, has_h, passes)) =
    ground (
      arith,
      none_stands owner_id file_id grant_id now r g has done t i h has_h,
      allows-stands g.recipient_id file_id capability later h passes,
    )

-- Revoking the grant of a recipient ends the access: from then on, for every capability and at any
-- time, the recipient is refused unless the file is the recipient's own.
pub revoke_denies :
    (owner_id file_id grant_id capability : String) (now later : ℕ) (r : MemoryRepository)
    (g : Grant) (file : LogicalFile)
    → IsGrantTable r.grants
    → lookup grant_id r.grants ≡ some g
    → lookup file_id r.files ≡ some file
    → (revoke_grant owner_id file_id grant_id now r).0 ≡ none
    → file.owner_id ≢ g.recipient_id
    → authorized g.recipient_id file_id capability later
        (revoke_grant owner_id file_id grant_id now r).1
      ≡ none
revoke_denies owner_id file_id grant_id capability now later r g file t has found done stranger =
    let grants' = insert grant_id (record g { revoked_at = some now }) r.grants in
    let r' : MemoryRepository = record r { grants = grants' } in
    rw (revoked_entry owner_id file_id grant_id now r g has done)
      (elim (Option-cases (authorized g.recipient_id file_id capability later r')) [
        | inl refused ↦ refused
        | inr (answer, granted) ↦ absurd (
            no_access owner_id file_id grant_id capability now later r g file t has found done
              stranger
              ((authorized_iff g.recipient_id file_id capability later r' file found (
                  insert-Distinct grant_id (record g { revoked_at = some now }) r.grants
                    t.distinct)).0
                (rw granted refl)))
      ])
