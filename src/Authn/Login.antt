-- ===== src/Authn/Login.antt =====
-- internal/authn/store.go and mfa.go: credentials, logins and sessions, and the administrator's
-- decisions on accounts. Hashing, the normalization of texts and authenticated encryption come from
-- libraries and are parameters; a drawn token is `none` when the random source fails.
pub mod Decision
pub mod Suspension
pub mod Totp
pub mod Privileged
use secure_file_storage_syst.Prelude.{
  ℕ, ◌+◌, String, Bool, true, false, not, ◌&&◌, ◌||◌, Option, none, some, ltb, if◌then◌else◌, ◌==◌,
  string_eq, is_none, Result, ok, err,
}
use secure_file_storage_syst.Prelude.Map.{lookup}
use secure_file_storage_syst.Prelude.Bytes.{Bytes, utf8}
use secure_file_storage_syst.Authn.{
  Error, invalid_credentials, email_not_verified, invalid_input, self_management, session_not_found,
  user_not_found, random_failure, User, UserRecord, Session, MemoryRepository,
}
use secure_file_storage_syst.Authn.Sessions.{
  create_session, session_by_hash, delete_session, delete_sessions_for_user,
}
use secure_file_storage_syst.Authn.Accounts.{
  is_locked, record_authentication_failure, clear_authentication_failures,
  update_user_status_and_delete_sessions,
}

pub record Primitives : Type 0 where
  pub sha256 : Bytes → Bytes
  pub password_matches : Bytes → String → Bool  -- bcrypt, over the hashed password
  pub trim_space : String → String
  pub normalize_email : String → String
  pub to_upper : String → String
  pub atoi : String → Option ℕ  -- the number, where it is a natural one
  pub hmac_sha1 : Bytes → Bytes → Bytes
  pub open_secret : Bytes → Bytes → Option Bytes  -- AES-GCM under the encryption key

-- The fields of `Store` that configure it.
pub record Settings : Type 0 where
  pub session_ttl : ℕ
  pub require_privileged_mfa : Bool
  pub login_failure_window : ℕ
  pub login_failure_threshold : ℕ
  pub account_lock_duration : ℕ

abbrev pub role_allowed_for_audience : String → String → Bool
role_allowed_for_audience role audience =
    if audience == "user"
    then role == "user"
    else if audience == "privileged"
    then role == "admin" || role == "auditor"
    else false

-- `RecordAuthenticationFailure` with the settings, where its answer is ignored.
unfoldable pub record_failure : Settings → String → ℕ → MemoryRepository → MemoryRepository
record_failure s user_id now r =
    (record_authentication_failure user_id now s.login_failure_window s.login_failure_threshold
      s.account_lock_duration r).1

-- The check of `verifyCredentials` once the password is the account's.
unfoldable pub admit : UserRecord → String → ℕ → Result Error UserRecord
admit u audience now =
    if is_none u.email_verified_at
    then err email_not_verified
    else if not (u.account_status == "active")
        || is_locked u now
        || not (role_allowed_for_audience u.role audience)
    then err invalid_credentials
    else ok u

-- For an unknown address the code compares the password with a dummy hash, which only costs time.
unfoldable pub verify_credentials :
    Primitives
    → Settings
    → String
    → String
    → String
    → ℕ
    → MemoryRepository
    → Result Error UserRecord × MemoryRepository
unfolding record_failure admit
verify_credentials p s email password audience now r =
    elim (lookup (p.normalize_email email) r.users_by_email) [
      | none ↦ (err invalid_credentials, r)
      | some u ↦
          if not (p.password_matches u.password_hash password)
          then (
            err invalid_credentials,
            if u.account_status == "active" && not (is_locked u now)
                then record_failure s u.id now r
                else r,
          )
          else (admit u audience now, r)
    ]

-- The tokens that `createSession` draws: the session's, and the one against request forgery.
abbrev pub Tokens : Type 0
Tokens = Option (String × String)

abbrev pub session_for : Settings → User → String → String → ℕ → Session
session_for s user audience csrf_token now = record {
  user = user;
  audience = audience;
  csrf_token = csrf_token;
  expires_at = now + s.session_ttl;
}

-- `createSession` of the store.
unfoldable pub open_session :
    Primitives
    → Settings
    → User
    → String
    → Tokens
    → ℕ
    → MemoryRepository
    → Result Error (String × Session) × MemoryRepository
open_session p s user audience none now r = (err random_failure, r)
open_session p s user audience (some (token, csrf_token)) now r =
    let session = session_for s user audience csrf_token now in
    (ok (token, session), create_session (p.sha256 (utf8 token)) session r)

-- What follows `ClearAuthenticationFailures`.
opened :
    Primitives
    → Settings
    → User
    → String
    → Tokens
    → ℕ
    → Option Error × MemoryRepository
    → Result Error (String × Session) × MemoryRepository
unfolding open_session
opened p s user audience tokens now (some e, r) = (err e, r)
opened p s user audience tokens now (none, r) = open_session p s user audience tokens now r

unfoldable pub clear_and_open :
    Primitives
    → Settings
    → User
    → String
    → Tokens
    → ℕ
    → MemoryRepository
    → Result Error (String × Session) × MemoryRepository
unfolding opened
clear_and_open p s user audience tokens now r =
    opened p s user audience tokens now (clear_authentication_failures user.id r)

-- What follows `verifyCredentials` in `loginForAudience`.
logged_in :
    Primitives
    → Settings
    → String
    → Tokens
    → ℕ
    → Result Error UserRecord × MemoryRepository
    → Result Error (String × Session) × MemoryRepository
unfolding clear_and_open
logged_in p s audience tokens now (err e, r) = (err e, r)
logged_in p s audience tokens now (ok u, r) = clear_and_open p s u.user audience tokens now r

unfoldable pub login_for_audience :
    Primitives
    → Settings
    → String
    → String
    → String
    → Tokens
    → ℕ
    → MemoryRepository
    → Result Error (String × Session) × MemoryRepository
unfolding logged_in
login_for_audience p s email password audience tokens now r =
    logged_in p s audience tokens now (verify_credentials p s email password audience now r)

unfoldable pub authenticate :
    Primitives → String → ℕ → MemoryRepository → Result Error Session × MemoryRepository
authenticate p token now r =
    if token == ""
    then (err session_not_found, r)
    else session_by_hash (p.sha256 (utf8 token)) now r

unfoldable pub logout : Primitives → String → MemoryRepository → MemoryRepository
logout p token r = if token == "" then r else delete_session (p.sha256 (utf8 token)) r

-- `UpdateUserStatusAudited` over the memory repository.
unfoldable pub update_user_status :
    Primitives → String → String → String → MemoryRepository → Option Error × MemoryRepository
update_user_status p actor_id user_id status r =
    let id = p.trim_space user_id in
    if id == "" || (not (status == "active") && not (status == "suspended"))
    then (some invalid_input, r)
    else if actor_id == id
    then (some self_management, r)
    else update_user_status_and_delete_sessions id status r

unfoldable pub revoke_user_sessions :
    Primitives → String → String → MemoryRepository → Option Error × MemoryRepository
revoke_user_sessions p actor_id user_id r =
    let id = p.trim_space user_id in
    if id == "" || actor_id == id
    then (some (if actor_id == id then self_management else invalid_input), r)
    else delete_sessions_for_user id r
