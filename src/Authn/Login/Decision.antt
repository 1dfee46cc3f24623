-- ===== src/Authn/Login/Decision.antt =====
-- Who is let in: `verifyCredentials` and `loginForAudience` of internal/authn.
use secure_file_storage_syst.Prelude.{
  ℕ, String, ◌≡◌, sym, ap, ◌∙◌, Bool, true, false, not, ◌&&◌, Option, some, arith, ◌==◌, string_eq,
  is_some, Result, ok, is_ok, Bool-cases, inl, inr,
}
use secure_file_storage_syst.Prelude.Map.{lookup}
use secure_file_storage_syst.Prelude.Bytes.{bytes_eq, utf8}
use secure_file_storage_syst.Authn.{Error, UserRecord, Session, MemoryRepository}
use secure_file_storage_syst.Authn.Accounts.{is_locked, clear_authentication_failures}
use secure_file_storage_syst.Authn.Sessions.{create_session}
use secure_file_storage_syst.Authn.Login.{
  Primitives, Settings, role_allowed_for_audience, admit, verify_credentials, clear_and_open,
  session_for, login_for_audience, logged_in,
}

-- The account may sign in for the audience.
abbrev pub may_sign_in : UserRecord → String → ℕ → Bool
may_sign_in u audience now =
    is_some u.email_verified_at
    && u.account_status == "active"
    && not (is_locked u now)
    && role_allowed_for_audience u.role audience

module _ (p : Primitives) (s : Settings) (address password audience : String) (now : ℕ)
    (r : MemoryRepository) (u : UserRecord)
    (found : lookup (p.normalize_email address) r.users_by_email ≡ some u) where
  pub credentials_ok :
      is_ok (verify_credentials p s address password audience now r).0
      ≡ (p.password_matches u.password_hash password && may_sign_in u audience now)
  unfolding verify_credentials admit
  credentials_ok = ground (arith, found)

  credentials_pass :
      is_ok (verify_credentials p s address password audience now r).0 ≡ true
      → verify_credentials p s address password audience now r ≡ (ok u, r)
  unfolding verify_credentials admit
  credentials_pass passed = ground (arith, found)

  pub credentials_fail :
      (tokens : Option (String × String))
      → is_ok (verify_credentials p s address password audience now r).0 ≡ false
      → is_ok (login_for_audience p s address password audience tokens now r).0 ≡ false
  unfolding login_for_audience
  credentials_fail tokens refused = ground (arith, refused)

  -- The answer and the state of a login that passes.
  login_runs :
      (token csrf_token email : String)
      → lookup u.id r.user_email_by_id ≡ some email
      → is_ok (verify_credentials p s address password audience now r).0 ≡ true
      → login_for_audience p s address password audience (some (token, csrf_token)) now r ≡ (
        ok (token, session_for s u.user audience csrf_token now),
        create_session
            (p.sha256 (utf8 token))
            (session_for s u.user audience csrf_token now)
            (clear_authentication_failures u.id r).1,
      )
  unfolding login_for_audience logged_in clear_and_open clear_authentication_failures
  login_runs token csrf_token email owner passed =
      ap (logged_in p s audience (some (token, csrf_token)) now) (credentials_pass passed)
      ∙ ground (arith, owner)

  pub login_ok_iff :
      (token csrf_token email : String)
      → lookup u.id r.user_email_by_id ≡ some email
      → is_ok (login_for_audience p s address password audience (some (token, csrf_token)) now r).0
        ≡ (p.password_matches u.password_hash password && may_sign_in u audience now)
  login_ok_iff token csrf_token email owner =
      elim (Bool-cases (is_ok (verify_credentials p s address password audience now r).0)) [
        | inl passed ↦
            ap (λ (x : Result Error (String × Session) × MemoryRepository). is_ok x.0)
              (login_runs token csrf_token email owner passed)
            ∙ sym passed
            ∙ credentials_ok
        | inr refused ↦
            credentials_fail (some (token, csrf_token)) refused ∙ sym refused ∙ credentials_ok
      ]
