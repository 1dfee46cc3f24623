-- ===== src/Authn.antt =====
-- The data of internal/authn: users, sessions, verification tokens, multi-factor configurations and
-- challenges, step-up proofs and invitations, and the state of `MemoryRepository`. Times and
-- durations are nanoseconds, times since Go's zero time; a nil pointer is `none`; a token's hash is
-- its 32 bytes.
pub mod Accounts
pub mod Sessions
pub mod Mfa
pub mod Login
pub mod Examples
use secure_file_storage_syst.Prelude.{
  ℕ, String, ◌≡◌, refl, Option, none, some, List, [], Bool, string_eq,
}
use secure_file_storage_syst.Prelude.Map.{Map, lookup}
use secure_file_storage_syst.Prelude.Bytes.{Bytes}

pub data Error : Type 0 where
  invalid_credentials email_not_verified registration invalid_input session_not_found : Error
  verification_token user_not_found duplicate_user self_management mfa_invalid mfa_challenge : Error
  mfa_not_configured step_up_required invitation_token random_failure : Error

pub record User : Type 0 where
  pub id : String
  pub name : String
  pub email : String
  pub role : String

pub record UserRecord : Type 0 where
  pub user : User
  pub open user use *
  pub password_hash : Bytes
  pub email_verified_at : Option ℕ
  pub verification_sent_at : Option ℕ
  pub created_at : ℕ
  pub account_status : String
  pub failed_login_attempts : ℕ
  pub failed_login_window_started_at : Option ℕ
  pub locked_until : Option ℕ

pub record Session : Type 0 where
  pub user : User
  pub audience : String
  pub csrf_token : String
  pub expires_at : ℕ

pub record VerificationRecord : Type 0 where
  pub user_id : String
  pub expires_at : ℕ
  pub consumed_at : Option ℕ

pub record MfaConfiguration : Type 0 where
  pub user_id : String
  pub secret_ciphertext : Bytes
  pub secret_nonce : Bytes
  pub confirmed_at : ℕ
  pub last_counter : ℕ

pub record MfaChallengeRecord : Type 0 where
  pub user : User
  pub pending_secret_ciphertext : Bytes
  pub pending_secret_nonce : Bytes
  pub expires_at : ℕ

pub record StepUpProof : Type 0 where
  pub session_hash : Bytes
  pub user_id : String
  pub expires_at : ℕ

pub record PrivilegedInvitation : Type 0 where
  pub invited_by : String
  pub name : String
  pub email : String
  pub role : String
  pub expires_at : ℕ

pub record MemoryRepository : Type 0 where
  pub users_by_email : Map String UserRecord
  pub user_email_by_id : Map String String
  pub verifications : Map Bytes VerificationRecord
  pub sessions_by_hash : Map Bytes Session
  pub mfa_configs : Map String MfaConfiguration
  pub mfa_challenges : Map Bytes MfaChallengeRecord
  pub recovery_codes : Map String (Map Bytes (Option ℕ))
  pub step_up_proofs : Map Bytes StepUpProof
  pub invitations : Map Bytes PrivilegedInvitation

abbrev pub new_memory_repository : MemoryRepository
new_memory_repository = record {
  users_by_email = [];
  user_email_by_id = [];
  verifications = [];
  sessions_by_hash = [];
  mfa_configs = [];
  mfa_challenges = [];
  recovery_codes = [];
  step_up_proofs = [];
  invitations = [];
}

abbrev zero_user : UserRecord
zero_user = record {
  user = record { id = ""; name = ""; email = ""; role = "" };
  password_hash = [];
  email_verified_at = none;
  verification_sent_at = none;
  created_at = 0;
  account_status = "";
  failed_login_attempts = 0;
  failed_login_window_started_at = none;
  locked_until = none;
}

-- `r.usersByEmail[email]` in an expression: the zero value where there is no entry.
abbrev pub user_of : MemoryRepository → String → UserRecord
user_of r email = elim (lookup email r.users_by_email) [ none ↦ zero_user | some u ↦ u ]

pub user_of-found :
    (r : MemoryRepository) (email : String) (u : UserRecord)
    → lookup email r.users_by_email ≡ some u
    → user_of r email ≡ u
user_of-found r email u found = rw (found, user_of) refl
