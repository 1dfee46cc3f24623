-- ===== src/Authn/Accounts/Invitations.antt =====
-- Invitations of privileged accounts in internal/authn/memory_repository.go.
use secure_file_storage_syst.Prelude.{
  ℕ, ◌≡◌, ◌⊎◌, true, false, ◌&&◌, none, some, arith, ltb, string_eq, is_none, ok, err, Bool-cases,
  inl, inr, beq_refl,
}
use secure_file_storage_syst.Prelude.Map.{lookup, lookup-insert, lookup-delete}
use secure_file_storage_syst.Prelude.Bytes.{Bytes, bytes_eq}
use secure_file_storage_syst.Authn.{
  UserRecord, PrivilegedInvitation, MemoryRepository, invitation_token,
}
use secure_file_storage_syst.Authn.Accounts.{accept_privileged_invitation, invited}

-- An invitation is accepted exactly while it has not expired and its address has no account; then the
-- account has the name, the address and the role of the invitation, whatever the request says, and
-- the same token is refused ever after.
pub invitation_once :
    (token_hash : Bytes) (account other : UserRecord) (now later : ℕ) (r : MemoryRepository)
    (invitation : PrivilegedInvitation)
    → lookup token_hash r.invitations ≡ some invitation
    → let answer = accept_privileged_invitation token_hash account now r in
      ((answer.0 ≡ ok (invited invitation account now).user)
        × (ltb now invitation.expires_at ≡ true)
        × (lookup invitation.email r.users_by_email ≡ none)
        × (lookup invitation.email answer.1.users_by_email ≡ some (invited invitation account now))
        × (accept_privileged_invitation token_hash other later answer.1
            ≡ (err invitation_token, answer.1)))
      ⊎ ((answer.1 ≡ r)
          × ((ltb now invitation.expires_at && is_none (lookup invitation.email r.users_by_email))
              ≡ false))
unfolding accept_privileged_invitation
invitation_once token_hash account other now later r invitation has =
    elim (Bool-cases
      (ltb now invitation.expires_at && is_none (lookup invitation.email r.users_by_email))) [
        | inr refused ↦ inr (ground arith, refused)
        | inl fine ↦ inl (
          ground arith,
          ground arith,
          ground arith,
          ground (
            arith,
            lookup-insert invitation.email invitation.email (invited invitation account now)
                r.users_by_email,
            beq_refl invitation.email,
          ),
          ground (arith, lookup-delete token_hash token_hash r.invitations, beq_refl token_hash),
        )
      ]
