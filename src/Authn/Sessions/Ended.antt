-- ===== src/Authn/Sessions/Ended.antt =====
-- What the deletion of a user's sessions in internal/authn/memory_repository.go ends: no request is
-- authenticated as the user, and no step-up proof of the user is good.
use secure_file_storage_syst.Prelude.{
  ℕ, String, ◌≡◌, ◌≢◌, sym, ap, ◌∙◌, true, false, not, none, some, arith, keep, keep-All, ◌==◌,
  string_eq, ok, Option-cases, inl, inr, beq_refl,
}
use secure_file_storage_syst.Prelude.Map.{Map, lookup, lookup-All, lookup-insert}
use secure_file_storage_syst.Prelude.Bytes.{Bytes, bytes_eq}
use secure_file_storage_syst.Authn.{Session, UserRecord, MemoryRepository}
use secure_file_storage_syst.Authn.Sessions.{
  session_by_hash, without_sessions_of, step_up_proof_valid,
}
use secure_file_storage_syst.Authn.Accounts.{update_user_role}

-- No token answers a session of the user, and no step-up proof holds for the user.
pub record IsOut (user_id : String) (r : MemoryRepository) : Type 0 where
  pub no_session :
      (hash : Bytes) (now : ℕ) (session : Session)
      → (session_by_hash hash now r).0 ≡ ok session
      → session.user.id ≢ user_id
  pub no_proof :
      (token_hash session_hash : Bytes) (now : ℕ)
      → step_up_proof_valid token_hash session_hash user_id now r ≡ false

none_of :
    (user_id : String) (m : Map Bytes Session) (hash : Bytes) (session : Session)
    → lookup hash (without_sessions_of user_id m) ≡ some session
    → (session.user.id == user_id) ≡ false
unfolding without_sessions_of
none_of user_id m hash session found =
    let kept : not (session.user.id == user_id) ≡ true =
      lookup-All (λ (e : Bytes × Session). not (e.1.user.id == user_id) ≡ true) hash
        (keep (λ (e : Bytes × Session). not (e.1.user.id == user_id)) m) session
        (keep-All (λ (e : Bytes × Session). not (e.1.user.id == user_id)) m) found in
    ground arith

module _ (user_id : String) (m : Map Bytes Session) (r : MemoryRepository)
    (ended : r.sessions_by_hash ≡ without_sessions_of user_id m) where
  session_out :
      (hash : Bytes) (now : ℕ) (session : Session)
      → (session_by_hash hash now r).0 ≡ ok session
      → session.user.id ≢ user_id
  unfolding session_by_hash
  session_out hash now session answer same = elim (Option-cases (lookup hash r.sessions_by_hash)) [
    | inl missing ↦ ground arith
    | inr (s, found) ↦
        let gone = none_of user_id m hash s (ap (lookup hash) (sym ended) ∙ found) in
        ground (arith, gone, string_eq.beq_iff session.user.id user_id)
  ]

  proof_out :
      (token_hash session_hash : Bytes) (now : ℕ)
      → step_up_proof_valid token_hash session_hash user_id now r ≡ false
  unfolding step_up_proof_valid
  proof_out token_hash session_hash now = elim (Option-cases (lookup token_hash r.step_up_proofs)) [
    | inl missing ↦ ground arith
    | inr (proof, has) ↦ elim (Option-cases (lookup session_hash r.sessions_by_hash)) [
      | inl missing ↦ ground arith
      | inr (s, found) ↦
          let gone =
            none_of user_id m session_hash s (ap (lookup session_hash) (sym ended) ∙ found) in
          ground (arith, gone)
    ]
  ]

  pub ended-IsOut : IsOut user_id r
  ended-IsOut = record { no_session = session_out; no_proof = proof_out }

-- Changing the role of an account stores the role and nothing else, and ends every session and every
-- step-up proof of the user: a session from before the change is never answered after it.
pub role_change_ends_sessions :
    (email role : String) (r : MemoryRepository) (u : UserRecord)
    → lookup email r.users_by_email ≡ some u
    → u.email ≡ email
    → (update_user_role email role r).0 ≡ none
    → let r' = (update_user_role email role r).1 in
      (lookup email r'.users_by_email ≡ some (record u { user = record u.user { role = role } }))
      × IsOut u.id r'
unfolding update_user_role
role_change_ends_sessions email role r u found own done = (
  ground (
    arith,
    found,
    own,
    beq_refl email,
    lookup-insert email email (record u { user = record u.user { role = role } }) r.users_by_email,
  ),
  ended-IsOut u.id r.sessions_by_hash _ (ground (arith, found)),
)
