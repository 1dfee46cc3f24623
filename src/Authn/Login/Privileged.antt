-- ===== src/Authn/Login/Privileged.antt =====
-- internal/authn/mfa.go: the second step of a privileged login, `CompletePrivilegedLogin`.
pub mod SecondFactor
use secure_file_storage_syst.Prelude.{
  ℕ, String, Bool, true, false, not, ◌&&◌, ◌||◌, Option, none, some, List, ◌∷◌, ◌++◌, map, length,
  ltb, if◌then◌else◌, ◌==◌, string_eq, Result, ok, err,
}
use secure_file_storage_syst.Prelude.Map.{lookup}
use secure_file_storage_syst.Prelude.Bytes.{Bytes, utf8}
use secure_file_storage_syst.Authn.{
  Error, mfa_challenge, mfa_invalid, mfa_not_configured, random_failure, User, UserRecord, Session,
  MfaConfiguration, MfaChallengeRecord, MemoryRepository,
}
use secure_file_storage_syst.Authn.Accounts.{is_locked, clear_authentication_failures}
use secure_file_storage_syst.Authn.Mfa.{
  mfa_configuration, consume_mfa_challenge, confirm_mfa, advance_mfa_counter,
  consume_mfa_recovery_code,
}
use secure_file_storage_syst.Authn.Login.{
  Primitives, Settings, Tokens, role_allowed_for_audience, record_failure, clear_and_open,
}
use secure_file_storage_syst.Authn.Login.Totp.{validate_totp}

unfoldable pub recovery_code_hash : Primitives → String → String → Bytes
recovery_code_hash p user_id code =
    p.sha256 (utf8 user_id ++ 0 ∷ utf8 (p.to_upper (p.trim_space code)))

abbrev pub Completion : Type 0
Completion = Result Error (String × Session) × MemoryRepository

-- From `ClearAuthenticationFailures` on.
unfoldable pub finish : Primitives → Settings → User → Tokens → ℕ → MemoryRepository → Completion
unfolding clear_and_open
finish p s user tokens now r = clear_and_open p s user "privileged" tokens now r

-- The enrolment: the codes that are drawn, or a failure of the random source.
enrol :
    Primitives
    → Settings
    → User
    → Bytes
    → Bytes
    → ℕ
    → Option (List String)
    → Tokens
    → ℕ
    → MemoryRepository
    → Completion
unfolding finish recovery_code_hash
enrol p s user ciphertext nonce counter none tokens now r = (err random_failure, r)
enrol p s user ciphertext nonce counter (some codes) tokens now r =
    let (answer, r') =
      confirm_mfa user.id ciphertext nonce counter (map (recovery_code_hash p user.id) codes) now
        r in
    elim answer [ some e ↦ (err e, r') | none ↦ finish p s user tokens now r' ]

-- A valid one-time password of an enrolled user.
advance : Primitives → Settings → User → ℕ → Tokens → ℕ → MemoryRepository → Completion
unfolding finish
advance p s user counter tokens now r =
    let (answer, r') = advance_mfa_counter user.id counter r in
    elim answer [
      | err e ↦ (err e, r')
      | ok false ↦ (err mfa_invalid, record_failure s user.id now r')
      | ok true ↦ finish p s user tokens now r'
    ]

-- No valid one-time password: a recovery code may do.
recover : Primitives → Settings → User → String → Tokens → ℕ → MemoryRepository → Completion
unfolding finish recovery_code_hash
recover p s user code tokens now r =
    let (answer, r') =
      consume_mfa_recovery_code user.id (recovery_code_hash p user.id code) now r in
    elim answer [
      | false ↦ (err mfa_invalid, record_failure s user.id now r')
      | true ↦ finish p s user tokens now r'
    ]

-- With the secret opened.
with_secret :
    Primitives
    → Settings
    → MfaChallengeRecord
    → User
    → Bytes
    → Bool
    → String
    → Option (List String)
    → Tokens
    → ℕ
    → MemoryRepository
    → Completion
unfolding enrol advance recover
with_secret p s challenge user secret enrolling code codes tokens now r =
    elim (validate_totp p secret code now) [
      | none ↦
          if enrolling
          then (err mfa_invalid, record_failure s user.id now r)
          else recover p s user code tokens now r
      | some counter ↦
          if enrolling
          then enrol p s user challenge.pending_secret_ciphertext challenge.pending_secret_nonce
              counter codes tokens now r
          else advance p s user counter tokens now r
    ]

with_ciphertext :
    Primitives
    → Settings
    → MfaChallengeRecord
    → User
    → Bytes
    → Bytes
    → Bool
    → String
    → Option (List String)
    → Tokens
    → ℕ
    → MemoryRepository
    → Completion
unfolding with_secret
with_ciphertext p s challenge user ciphertext nonce enrolling code codes tokens now r =
    elim (p.open_secret ciphertext nonce) [
      | none ↦ (err mfa_invalid, r)
      | some secret ↦ with_secret p s challenge user secret enrolling code codes tokens now r
    ]

-- For a user whose account is still in order.
complete_for :
    Primitives
    → Settings
    → MfaChallengeRecord
    → User
    → String
    → Option (List String)
    → Tokens
    → ℕ
    → MemoryRepository
    → Completion
unfolding with_ciphertext
complete_for p s challenge user code codes tokens now r =
    if ltb 0 (length challenge.pending_secret_ciphertext)
    then with_ciphertext p s challenge user challenge.pending_secret_ciphertext
        challenge.pending_secret_nonce true code codes tokens now r
    else elim (mfa_configuration user.id r) [
      | err e ↦ (err e, r)
      | ok configuration ↦
          with_ciphertext p s challenge user configuration.secret_ciphertext
            configuration.secret_nonce false code codes tokens now r
    ]

-- The account of a challenge, where it may still sign in.
abbrev pub in_order : UserRecord → ℕ → Bool
in_order u now =
    u.account_status == "active"
    && not (is_locked u now)
    && role_allowed_for_audience u.role "privileged"

with_challenge :
    Primitives
    → Settings
    → MfaChallengeRecord
    → String
    → Option (List String)
    → Tokens
    → ℕ
    → MemoryRepository
    → Completion
unfolding complete_for
with_challenge p s challenge code codes tokens now r =
    elim (lookup challenge.user.email r.users_by_email) [
      | none ↦ (err mfa_challenge, r)
      | some u ↦
          if in_order u now
          then complete_for p s challenge (record challenge.user { role = u.role }) code codes
              tokens now r
          else (err mfa_challenge, r)
    ]

unfoldable pub complete_privileged_login :
    Primitives
    → Settings
    → String
    → String
    → Option (List String)
    → Tokens
    → ℕ
    → MemoryRepository
    → Completion
unfolding with_challenge
complete_privileged_login p s challenge_token code codes tokens now r =
    let token = p.trim_space challenge_token in
    if not s.require_privileged_mfa
    then (err mfa_not_configured, r)
    else if ltb (length (utf8 token)) 32
    then (err mfa_challenge, r)
    else let (answer, r') = consume_mfa_challenge (p.sha256 (utf8 token)) now r in
      elim answer [
        | err e ↦ (err e, r')
        | ok challenge ↦ with_challenge p s challenge code codes tokens now r'
      ]
