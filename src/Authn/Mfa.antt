-- ===== src/Authn/Mfa.antt =====
-- internal/authn/memory_repository.go: multi-factor configurations, challenges and recovery codes.
pub mod Replay
use secure_file_storage_syst.Prelude.{
  ℕ, String, Bool, true, false, Option, none, some, List, [], ◌∷◌, ltb, leb, if◌then◌else◌,
  string_eq, Result, ok, err,
}
use secure_file_storage_syst.Prelude.Map.{Map, lookup, insert, delete}
use secure_file_storage_syst.Prelude.Bytes.{Bytes, bytes_eq}
use secure_file_storage_syst.Authn.{
  Error, mfa_invalid, mfa_challenge, mfa_not_configured, MfaConfiguration, MfaChallengeRecord,
  MemoryRepository,
}

unfoldable pub mfa_configuration : String → MemoryRepository → Result Error MfaConfiguration
mfa_configuration user_id r = elim (lookup user_id r.mfa_configs) [
  | none ↦ err mfa_not_configured
  | some value ↦ ok value
]

unfoldable pub create_mfa_challenge :
    Bytes → MfaChallengeRecord → MemoryRepository → MemoryRepository
create_mfa_challenge hash challenge r = record r {
  mfa_challenges = insert hash challenge r.mfa_challenges;
}

unfoldable pub consume_mfa_challenge :
    Bytes → ℕ → MemoryRepository → Result Error MfaChallengeRecord × MemoryRepository
consume_mfa_challenge hash now r = elim (lookup hash r.mfa_challenges) [
  | none ↦ (err mfa_challenge, r)
  | some challenge ↦
      if ltb now challenge.expires_at
      then (ok challenge, record r { mfa_challenges = delete hash r.mfa_challenges })
      else (err mfa_challenge, r)
]

-- The codes of the loop of `ConfirmMFA`, each of them unused.
unfoldable pub unused_codes : List Bytes → Map Bytes (Option ℕ) → Map Bytes (Option ℕ)
unused_codes [] codes = codes
unused_codes (hash ∷ hashes) codes = unused_codes hashes (insert hash none codes)

unfoldable pub confirm_mfa :
    String → Bytes → Bytes → ℕ → List Bytes → ℕ → MemoryRepository → Option Error × MemoryRepository
unfolding unused_codes
confirm_mfa user_id ciphertext nonce last_counter hashes now r =
    elim (lookup user_id r.mfa_configs) [
      | some existing ↦ (some mfa_invalid, r)
      | none ↦ (
        none,
        record r {
          mfa_configs =
              insert user_id
                (record {
                  user_id = user_id;
                  secret_ciphertext = ciphertext;
                  secret_nonce = nonce;
                  confirmed_at = now;
                  last_counter = last_counter;
                })
                r.mfa_configs;
          recovery_codes = insert user_id (unused_codes hashes []) r.recovery_codes;
        },
      )
    ]

unfoldable pub advance_mfa_counter :
    String → ℕ → MemoryRepository → Result Error Bool × MemoryRepository
advance_mfa_counter user_id counter r = elim (lookup user_id r.mfa_configs) [
  | none ↦ (err mfa_not_configured, r)
  | some value ↦ if leb counter value.last_counter then (ok false, r) else (
    ok true,
    record r {
      mfa_configs = insert user_id (record value { last_counter = counter }) r.mfa_configs;
    },
  )
]

-- `r.recoveryCodes[userID]`: the nil map where there is no entry.
abbrev pub codes_of : MemoryRepository → String → Map Bytes (Option ℕ)
codes_of r user_id = elim (lookup user_id r.recovery_codes) [ none ↦ [] | some codes ↦ codes ]

unfoldable pub consume_mfa_recovery_code :
    String → Bytes → ℕ → MemoryRepository → Bool × MemoryRepository
consume_mfa_recovery_code user_id hash now r = elim (lookup hash (codes_of r user_id)) [
  | none ↦ (false, r)
  | some (some used) ↦ (false, r)
  | some none ↦ (
    true,
    record r {
      recovery_codes =
          insert user_id (insert hash (some now) (codes_of r user_id)) r.recovery_codes;
    },
  )
]
