-- ===== src/Authn/Mfa/Replay.antt =====
-- Codes that work once: internal/authn/memory_repository.go.
use secure_file_storage_syst.Prelude.{
  ℕ, ◌≤◌, ◌<◌, String, ◌≡◌, true, false, some, arith, ltb, string_eq, ok, err, Option-cases, inl,
  inr, beq_refl,
}
use secure_file_storage_syst.Prelude.Map.{lookup, insert, lookup-insert, lookup-delete}
use secure_file_storage_syst.Prelude.Bytes.{Bytes, bytes_eq}
use secure_file_storage_syst.Authn.{
  MfaConfiguration, MfaChallengeRecord, MemoryRepository, mfa_challenge,
}
use secure_file_storage_syst.Authn.Mfa.{
  advance_mfa_counter, consume_mfa_recovery_code, consume_mfa_challenge, codes_of,
}

-- A counter that advances was above the last one, and afterwards neither it nor any counter below
-- it advances again: a one-time password cannot be replayed.
pub totp_replay_refused :
    (user_id : String) (counter replayed : ℕ) (r : MemoryRepository) (c : MfaConfiguration)
    → lookup user_id r.mfa_configs ≡ some c
    → (advance_mfa_counter user_id counter r).0 ≡ ok true
    → replayed ≤ counter
    → let r' = (advance_mfa_counter user_id counter r).1 in
      (c.last_counter < counter) × (advance_mfa_counter user_id replayed r' ≡ (ok false, r'))
unfolding advance_mfa_counter
totp_replay_refused user_id counter replayed r c has done below = (
  ground arith,
  ground (
    arith,
    beq_refl user_id,
    lookup-insert user_id user_id (record c { last_counter = counter }) r.mfa_configs,
  ),
)

pub recovery_code_once :
    (user_id : String) (hash : Bytes) (now later : ℕ) (r : MemoryRepository)
    → (consume_mfa_recovery_code user_id hash now r).0 ≡ true
    → let r' = (consume_mfa_recovery_code user_id hash now r).1 in
      consume_mfa_recovery_code user_id hash later r' ≡ (false, r')
unfolding consume_mfa_recovery_code
recovery_code_once user_id hash now later r done =
    elim (Option-cases (lookup hash (codes_of r user_id))) [
      | inl missing ↦ absurd (ground arith)
      | inr (used, found) ↦ ground (
        arith,
        found,
        beq_refl user_id,
        beq_refl hash,
        lookup-insert user_id user_id (insert hash (some now) (codes_of r user_id))
            r.recovery_codes,
        lookup-insert hash hash (some now) (codes_of r user_id),
      )
    ]

-- A login challenge is answered once: whoever presents its token again is refused.
pub challenge_once :
    (hash : Bytes) (now later : ℕ) (r : MemoryRepository) (challenge : MfaChallengeRecord)
    → (consume_mfa_challenge hash now r).0 ≡ ok challenge
    → let r' = (consume_mfa_challenge hash now r).1 in
      (ltb now challenge.expires_at ≡ true)
      × (consume_mfa_challenge hash later r' ≡ (err mfa_challenge, r'))
unfolding consume_mfa_challenge
challenge_once hash now later r challenge done =
    elim (Option-cases (lookup hash r.mfa_challenges)) [
      | inl missing ↦ absurd (ground arith)
      | inr (c, found) ↦ (
        ground (arith, found),
        ground (arith, found, beq_refl hash, lookup-delete hash hash r.mfa_challenges),
      )
    ]
