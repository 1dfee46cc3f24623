-- ===== src/Authn/Accounts.antt =====
-- internal/authn/memory_repository.go: accounts, the verification of their e-mail addresses, the
-- lockout after failed logins, roles and invitations.
pub mod Lockout
pub mod Verification
pub mod Invitations
use secure_file_storage_syst.Prelude.{
  ℕ, ◌+◌, String, Bool, true, false, not, ◌&&◌, ◌||◌, Option, none, some, List, keep, any, ltb, leb,
  if◌then◌else◌, ◌==◌, string_eq, is_none, is_some, Result, ok, err,
}
use secure_file_storage_syst.Prelude.Map.{Map, lookup, insert, delete}
use secure_file_storage_syst.Prelude.Bytes.{Bytes, bytes_eq}
use secure_file_storage_syst.Authn.{
  Error, user_not_found, duplicate_user, verification_token, invalid_input, invitation_token, User,
  UserRecord, VerificationRecord, PrivilegedInvitation, MemoryRepository, user_of,
}
use secure_file_storage_syst.Authn.Sessions.{without_sessions_of}

abbrev pub new_verification : String → ℕ → VerificationRecord
new_verification user_id expires_at = record {
  user_id = user_id;
  expires_at = expires_at;
  consumed_at = none;
}

unfoldable pub create_user_with_verification :
    UserRecord → Bytes → ℕ → ℕ → MemoryRepository → Option Error × MemoryRepository
create_user_with_verification account token_hash expires_at now r =
    elim (lookup account.email r.users_by_email) [
      | some existing ↦ (some duplicate_user, r)
      | none ↦ (
        none,
        record r {
          users_by_email =
              insert account.email (record account { verification_sent_at = some now })
                r.users_by_email;
          user_email_by_id = insert account.id account.email r.user_email_by_id;
          verifications =
              insert token_hash (new_verification account.id expires_at) r.verifications;
        },
      )
    ]

unfoldable pub user_by_email : String → MemoryRepository → Result Error UserRecord
user_by_email email r = elim (lookup email r.users_by_email) [
  | none ↦ err user_not_found
  | some u ↦ ok u
]

-- record.VerificationSentAt != nil && now.Sub(*record.VerificationSentAt) < minimumInterval
abbrev pub sent_recently : UserRecord → ℕ → ℕ → Bool
sent_recently u now minimum_interval = elim u.verification_sent_at [
  | none ↦ false
  | some sent_at ↦ ltb now (sent_at + minimum_interval)
]

unfoldable pub without_pending :
    String → Map Bytes VerificationRecord → Map Bytes VerificationRecord
without_pending user_id =
    keep
      (λ (e : Bytes × VerificationRecord). not (e.1.user_id == user_id && is_none e.1.consumed_at))

unfoldable pub replace_verification_token :
    String → Bytes → ℕ → ℕ → ℕ → MemoryRepository → Result Error Bool × MemoryRepository
unfolding without_pending
replace_verification_token user_id token_hash expires_at now minimum_interval r =
    elim (lookup user_id r.user_email_by_id) [
      | none ↦ (err user_not_found, r)
      | some email ↦
          let u = user_of r email in
          if is_some u.email_verified_at || sent_recently u now minimum_interval
          then (ok false, r)
          else (
            ok true,
            record r {
              users_by_email =
                  insert email (record u { verification_sent_at = some now }) r.users_by_email;
              verifications =
                  insert token_hash (new_verification user_id expires_at)
                    (without_pending user_id r.verifications);
            },
          )
    ]

consume_for :
    Bytes → ℕ → MemoryRepository → VerificationRecord → String → Option Error × MemoryRepository
consume_for token_hash now r verification email =
    let u = user_of r email in
    if is_some u.email_verified_at then (some verification_token, r) else (
      none,
      record r {
        verifications =
            insert token_hash (record verification { consumed_at = some now }) r.verifications;
        users_by_email = insert email (record u { email_verified_at = some now }) r.users_by_email;
      },
    )

consume_found : Bytes → ℕ → MemoryRepository → VerificationRecord → Option Error × MemoryRepository
unfolding consume_for
consume_found token_hash now r verification =
    if is_some verification.consumed_at || not (ltb now verification.expires_at)
    then (some verification_token, r)
    else elim (lookup verification.user_id r.user_email_by_id) [
      | none ↦ (some verification_token, r)
      | some email ↦ consume_for token_hash now r verification email
    ]

unfoldable pub consume_verification_token :
    Bytes → ℕ → MemoryRepository → Option Error × MemoryRepository
unfolding consume_found
consume_verification_token token_hash now r = elim (lookup token_hash r.verifications) [
  | none ↦ (some verification_token, r)
  | some verification ↦ consume_found token_hash now r verification
]

abbrev pub cleared : UserRecord → UserRecord
cleared u = record u {
  failed_login_attempts = 0;
  failed_login_window_started_at = none;
  locked_until = none;
}

unfoldable pub update_user_status_and_delete_sessions :
    String → String → MemoryRepository → Option Error × MemoryRepository
update_user_status_and_delete_sessions user_id status r = elim (lookup user_id r.user_email_by_id) [
  | none ↦ (some user_not_found, r)
  | some email ↦
      let u = record (user_of r email) { account_status = status } in
      (
        none,
        record r {
          users_by_email =
              insert email (if status == "active" then cleared u else u) r.users_by_email;
          sessions_by_hash = without_sessions_of user_id r.sessions_by_hash;
        },
      )
]

-- record.FailedLoginWindowStartedAt == nil || !record.FailedLoginWindowStartedAt.After(now.Add(-window))
abbrev pub window_over : UserRecord → ℕ → ℕ → Bool
window_over u now window = elim u.failed_login_window_started_at [
  | none ↦ true
  | some start ↦ not (ltb now (start + window))
]

-- The record after one more failure.
unfoldable pub failed : ℕ → ℕ → ℕ → ℕ → UserRecord → UserRecord
failed now window threshold lock_duration u =
    let over = window_over u now window in
    let attempts = (if over then 0 else u.failed_login_attempts) + 1 in
    record u {
      failed_login_attempts = attempts;
      failed_login_window_started_at = if over then some now else u.failed_login_window_started_at;
      locked_until = if leb threshold attempts then some (now + lock_duration) else u.locked_until;
    }

-- record.LockedUntil != nil && record.LockedUntil.After(now)
abbrev pub is_locked : UserRecord → ℕ → Bool
is_locked u now = elim u.locked_until [ none ↦ false | some until ↦ ltb now until ]

unfoldable pub record_authentication_failure :
    String → ℕ → ℕ → ℕ → ℕ → MemoryRepository → Result Error Bool × MemoryRepository
unfolding failed
record_authentication_failure user_id now window threshold lock_duration r =
    elim (lookup user_id r.user_email_by_id) [
      | none ↦ (err user_not_found, r)
      | some email ↦
          let u = failed now window threshold lock_duration (user_of r email) in
          let locked = is_locked u now in
          (
            ok locked,
            record r {
              users_by_email = insert email u r.users_by_email;
              sessions_by_hash =
                  if locked
                  then without_sessions_of user_id r.sessions_by_hash
                  else r.sessions_by_hash;
            },
          )
    ]

unfoldable pub clear_authentication_failures :
    String → MemoryRepository → Option Error × MemoryRepository
clear_authentication_failures user_id r = elim (lookup user_id r.user_email_by_id) [
  | none ↦ (some user_not_found, r)
  | some email ↦ (
    none,
    record r { users_by_email = insert email (cleared (user_of r email)) r.users_by_email },
  )
]

-- The e-mail address is one that `normalizeEmail` has normalized.
unfoldable pub update_user_role :
    String → String → MemoryRepository → Option Error × MemoryRepository
update_user_role email role r =
    if not (role == "user") && not (role == "auditor") && not (role == "admin")
    then (some invalid_input, r)
    else elim (lookup email r.users_by_email) [
      | none ↦ (some user_not_found, r)
      | some u ↦ (
        none,
        record r {
          users_by_email =
              insert u.email (record u { user = record u.user { role = role } }) r.users_by_email;
          sessions_by_hash = without_sessions_of u.id r.sessions_by_hash;
        },
      )
    ]

unfoldable pub create_privileged_invitation :
    Bytes → PrivilegedInvitation → MemoryRepository → Option Error × MemoryRepository
create_privileged_invitation token_hash invitation r =
    elim (lookup invitation.email r.users_by_email) [
      | some existing ↦ (some duplicate_user, r)
      | none ↦
          if any (λ (e : Bytes × PrivilegedInvitation). e.1.email == invitation.email) r.invitations
          then (some duplicate_user, r)
          else (none, record r { invitations = insert token_hash invitation r.invitations })
    ]

-- The account that an invitation creates.
abbrev pub invited : PrivilegedInvitation → UserRecord → ℕ → UserRecord
invited invitation account now = record account {
  user = record {
    id = account.id;
    name = invitation.name;
    email = invitation.email;
    role = invitation.role;
  };
  email_verified_at = some now;
}

accept_found :
    Bytes
    → UserRecord
    → ℕ
    → MemoryRepository
    → PrivilegedInvitation
    → Result Error User × MemoryRepository
accept_found token_hash account now r invitation =
    if not (ltb now invitation.expires_at)
    then (err invitation_token, r)
    else elim (lookup invitation.email r.users_by_email) [
      | some existing ↦ (err duplicate_user, r)
      | none ↦
          let u = invited invitation account now in
          (
            ok u.user,
            record r {
              users_by_email = insert u.email u r.users_by_email;
              user_email_by_id = insert u.id u.email r.user_email_by_id;
              invitations = delete token_hash r.invitations;
            },
          )
    ]

unfoldable pub accept_privileged_invitation :
    Bytes → UserRecord → ℕ → MemoryRepository → Result Error User × MemoryRepository
unfolding accept_found
accept_privileged_invitation token_hash account now r = elim (lookup token_hash r.invitations) [
  | none ↦ (err invitation_token, r)
  | some invitation ↦ accept_found token_hash account now r invitation
]
