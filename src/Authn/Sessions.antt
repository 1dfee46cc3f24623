-- ===== src/Authn/Sessions.antt =====
-- internal/authn/memory_repository.go: the sessions and the step-up proofs that are bound to them.
pub mod Ended
use secure_file_storage_syst.Prelude.{
  ℕ, String, Bool, true, false, not, ◌&&◌, Option, none, some, List, keep, ltb, if◌then◌else◌, ◌==◌,
  string_eq, Result, ok, err,
}
use secure_file_storage_syst.Prelude.Map.{Map, lookup, insert, delete}
use secure_file_storage_syst.Prelude.Bytes.{Bytes, bytes_eq}
use secure_file_storage_syst.Authn.{
  Error, session_not_found, user_not_found, Session, StepUpProof, MemoryRepository,
}

unfoldable pub create_session : Bytes → Session → MemoryRepository → MemoryRepository
create_session token_hash session r = record r {
  sessions_by_hash = insert token_hash session r.sessions_by_hash;
}

-- An expired session is removed when it is asked for.
unfoldable pub session_by_hash :
    Bytes → ℕ → MemoryRepository → Result Error Session × MemoryRepository
session_by_hash token_hash now r = elim (lookup token_hash r.sessions_by_hash) [
  | none ↦ (err session_not_found, r)
  | some session ↦ if ltb now session.expires_at then (ok session, r) else (
    err session_not_found,
    record r { sessions_by_hash = delete token_hash r.sessions_by_hash },
  )
]

unfoldable pub delete_session : Bytes → MemoryRepository → MemoryRepository
delete_session token_hash r = record r { sessions_by_hash = delete token_hash r.sessions_by_hash }

-- The loop that deletes the sessions of a user.
unfoldable pub without_sessions_of : String → Map Bytes Session → Map Bytes Session
without_sessions_of user_id = keep (λ (e : Bytes × Session). not (e.1.user.id == user_id))

unfoldable pub delete_sessions_for_user :
    String → MemoryRepository → Option Error × MemoryRepository
delete_sessions_for_user user_id r = elim (lookup user_id r.user_email_by_id) [
  | none ↦ (some user_not_found, r)
  | some email ↦
      (none, record r { sessions_by_hash = without_sessions_of user_id r.sessions_by_hash })
]

unfoldable pub create_step_up_proof :
    Bytes → Bytes → String → ℕ → MemoryRepository → MemoryRepository
create_step_up_proof token_hash session_hash user_id expires_at r = record r {
  step_up_proofs =
      insert token_hash
        (record { session_hash = session_hash; user_id = user_id; expires_at = expires_at })
        r.step_up_proofs;
}

unfoldable pub step_up_proof_valid : Bytes → Bytes → String → ℕ → MemoryRepository → Bool
step_up_proof_valid token_hash session_hash user_id now r =
    elim (lookup token_hash r.step_up_proofs) [
      | none ↦ false
      | some proof ↦ elim (lookup session_hash r.sessions_by_hash) [
        | none ↦ false
        | some session ↦
            session.user.id == user_id
            && ltb now session.expires_at
            && proof.session_hash == session_hash
            && proof.user_id == user_id
            && ltb now proof.expires_at
      ]
    ]
