-- ===== src/Authn/Examples.antt =====
-- The theorems on internal/authn at concrete accounts. In place of the hash functions, of the
-- normalization of texts and of the opening of a secret stand functions that give their argument
-- back; a password is the one whose bytes are stored.
use secure_file_storage_syst.Prelude.{
  ℕ, ◌+◌, ◌/◌, ◌≤◌, ◌<◌, String, ◌≡◌, refl, true, false, ◌&&◌, Option, none, some, [], ◌∷◌, find,
  arith, ltb, length, string_eq, ok, is_ok,
}
use secure_file_storage_syst.Prelude.Map.{lookup}
use secure_file_storage_syst.Prelude.Bytes.{bytes_eq, bytes_equal, utf8, utf8_char}
use secure_file_storage_syst.Authn.{
  UserRecord, Session, VerificationRecord, MfaConfiguration, MfaChallengeRecord,
  PrivilegedInvitation, MemoryRepository, new_memory_repository, user_of,
}
use secure_file_storage_syst.Authn.Accounts.{
  update_user_role, record_authentication_failure, update_user_status_and_delete_sessions,
  clear_authentication_failures,
}
use secure_file_storage_syst.Authn.Accounts.Lockout.{record_failures, lockout}
use secure_file_storage_syst.Authn.Sessions.Ended.{IsOut, role_change_ends_sessions}
use secure_file_storage_syst.Authn.Mfa.{
  mfa_configuration, advance_mfa_counter, consume_mfa_recovery_code, consume_mfa_challenge,
}
use secure_file_storage_syst.Authn.Mfa.Replay.{totp_replay_refused, recovery_code_once}
use secure_file_storage_syst.Authn.Login.{
  Primitives, Settings, login_for_audience, update_user_status, clear_and_open, open_session,
}
use secure_file_storage_syst.Authn.Login.Totp.{totp_code, unix, validate_totp}
use secure_file_storage_syst.Authn.Login.Privileged.{complete_privileged_login, in_order}
use secure_file_storage_syst.Authn.Login.Privileged.SecondFactor.{
  totp_window, privileged_login_sound,
}
use secure_file_storage_syst.Authn.Login.Decision.{may_sign_in, login_ok_iff}
use secure_file_storage_syst.Authn.Login.Suspension.{suspended, suspension_ends_access}

abbrev plain : Primitives
plain = record {
  sha256 = λ b. b;
  password_matches = λ hash password. bytes_equal hash (utf8 password);
  trim_space = λ t. t;
  normalize_email = λ t. t;
  to_upper = λ t. t;
  atoi = λ t. some 7;
  hmac_sha1 = λ key message. 0 ∷ 0 ∷ 0 ∷ 7 ∷ 0 ∷ [];
  open_secret = λ ciphertext nonce. some ciphertext;
}

abbrev settings : Settings
settings = record {
  session_ttl = 100;
  require_privileged_mfa = true;
  login_failure_window = 50;
  login_failure_threshold = 3;
  account_lock_duration = 60;
}

abbrev carol : UserRecord
carol = record {
  user = record { id = "u1"; name = "Carol"; email = "carol@x"; role = "admin" };
  password_hash = 112 ∷ 119 ∷ [];
  email_verified_at = some 1;
  verification_sent_at = some 1;
  created_at = 1;
  account_status = "active";
  failed_login_attempts = 0;
  failed_login_window_started_at = none;
  locked_until = none;
}

abbrev dave : UserRecord
dave = record carol {
  user = record { id = "u2"; name = "Dave"; email = "dave@x"; role = "user" };
  email_verified_at = none;
}

abbrev carol_session : Session
carol_session = record {
  user = carol.user;
  audience = "privileged";
  csrf_token = "c";
  expires_at = 90;
}

abbrev dave_token : VerificationRecord
dave_token = record { user_id = "u2"; expires_at = 30; consumed_at = none }

abbrev enrolled : MfaConfiguration
enrolled = record {
  user_id = "u1";
  secret_ciphertext = 5 ∷ [];
  secret_nonce = [];
  confirmed_at = 2;
  last_counter = 0;
}

abbrev challenge : MfaChallengeRecord
challenge = record {
  user = carol.user;
  pending_secret_ciphertext = [];
  pending_secret_nonce = [];
  expires_at = 62135596900000000000;
}

abbrev invitation : PrivilegedInvitation
invitation = record {
  invited_by = "u1";
  name = "Erin";
  email = "erin@x";
  role = "auditor";
  expires_at = 40;
}

abbrev stored : MemoryRepository
stored = record new_memory_repository {
  users_by_email = ("carol@x", carol) ∷ ("dave@x", dave) ∷ [];
  user_email_by_id = ("u1", "carol@x") ∷ ("u2", "dave@x") ∷ [];
  verifications = (2 ∷ [], dave_token) ∷ (3 ∷ [], dave_token) ∷ [];
  sessions_by_hash = (1 ∷ [], carol_session) ∷ [];
  mfa_configs = ("u1", enrolled) ∷ [];
  mfa_challenges = (utf8 "0123456789012345678901234567890123456789", challenge) ∷ [];
  recovery_codes = ("u1", (4 ∷ [], none) ∷ []) ∷ [];
  invitations = (6 ∷ [], invitation) ∷ [];
}

role_change_ends_sessions_example :
    let r' = (update_user_role "carol@x" "user" stored).1 in
    (lookup "carol@x" r'.users_by_email
      ≡ some (record carol { user = record carol.user { role = "user" } }))
    × IsOut "u1" r'
unfolding lookup update_user_role
role_change_ends_sessions_example =
    role_change_ends_sessions "carol@x" "user" stored carol refl refl refl

lockout_example :
    let r' = record_failures 50 3 60 "u1" (10 ∷ 20 ∷ []) stored in
    let answer = record_authentication_failure "u1" 30 50 3 60 r' in
    (answer.0 ≡ ok true)
    × ((user_of answer.1 "carol@x").locked_until ≡ some 90)
    × IsOut "u1" answer.1
unfolding lookup
lockout_example =
    lockout 50 3 60 "u1" "carol@x" 10 30 (20 ∷ []) stored carol refl refl refl (omega arith, tt)
      (omega arith) (omega arith) (omega arith)

totp_replay_refused_example :
    let r' = (advance_mfa_counter "u1" 5 stored).1 in
    (enrolled.last_counter < 5) × (advance_mfa_counter "u1" 4 r' ≡ (ok false, r'))
unfolding lookup advance_mfa_counter
totp_replay_refused_example = totp_replay_refused "u1" 5 4 stored enrolled refl refl (omega arith)

recovery_code_once_example :
    let r' = (consume_mfa_recovery_code "u1" (4 ∷ []) 7 stored).1 in
    consume_mfa_recovery_code "u1" (4 ∷ []) 8 r' ≡ (false, r')
unfolding lookup consume_mfa_recovery_code bytes_equal
recovery_code_once_example = recovery_code_once "u1" (4 ∷ []) 7 8 stored refl

abbrev challenge_token : String
challenge_token = "0123456789012345678901234567890123456789"

login_ok_iff_example :
    is_ok
      (login_for_audience plain settings "carol@x" "pw" "privileged" (some ("t", "c")) 5 stored).0
    ≡ (plain.password_matches carol.password_hash "pw" && may_sign_in carol "privileged" 5)
unfolding lookup
login_ok_iff_example =
    login_ok_iff plain settings "carol@x" "pw" "privileged" 5 stored carol refl "t" "c" "carol@x"
      refl

suspension_ends_access_example :
    IsOut "u1" (suspended plain settings "u2" "u1" "carol@x" stored).1
    × ((address password audience : String) (tokens : Option (String × String)) (later : ℕ)
        → address ≡ "carol@x"
        → is_ok
            (login_for_audience plain settings address password audience tokens later
              (suspended plain settings "u2" "u1" "carol@x" stored).1).0
          ≡ false)
unfolding lookup update_user_status update_user_status_and_delete_sessions
suspension_ends_access_example =
    suspension_ends_access plain settings "u2" "u1" "carol@x" stored refl refl

totp_window_example :
    (unix 62135596890000000000 / 30 ≤ 4)
    × (3 ≤ unix 62135596890000000000 / 30 + 1)
    × (length (utf8 (plain.trim_space "000007")) ≡ 6)
    × (plain.atoi "000007" ≡ some (totp_code plain (5 ∷ []) 3))
unfolding validate_totp find utf8 utf8_char totp_code
totp_window_example = totp_window plain (5 ∷ []) "000007" 62135596890000000000 3 refl

abbrev in_1970 : ℕ
in_1970 = 62135596890000000000

abbrev new_session : Session
new_session = record {
  user = carol.user;
  audience = "privileged";
  csrf_token = "c";
  expires_at = 62135596890000000100;
}

privileged_login_sound_example :
    let r' =
      (complete_privileged_login plain settings challenge_token "000007" none
        (some ("t", "c"))
        in_1970
        stored).1 in
    (c : MfaChallengeRecord) × (u : UserRecord) × (lookup
        (utf8 challenge_token)
        stored.mfa_challenges
      ≡ some c)
    × (ltb in_1970 c.expires_at ≡ true)
    × (lookup c.user.email stored.users_by_email ≡ some u)
    × (in_order u in_1970 ≡ true)
    × (new_session.user ≡ record c.user { role = u.role })
    × (new_session.audience ≡ "privileged")
    × (lookup (utf8 challenge_token) r'.mfa_challenges ≡ none)
unfolding complete_privileged_login lookup utf8 utf8_char bytes_equal consume_mfa_challenge
    validate_totp find totp_code clear_and_open open_session clear_authentication_failures
    advance_mfa_counter mfa_configuration
privileged_login_sound_example =
    privileged_login_sound plain settings challenge_token "000007" "t" none (some ("t", "c"))
      in_1970 stored new_session refl
