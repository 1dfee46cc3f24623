-- ===== src/Authn/Login/Suspension.antt =====
-- An administrator's suspension of an account: `UpdateUserStatus` of internal/authn/store.go.
use secure_file_storage_syst.Prelude.{
  ℕ, String, ◌≡◌, refl, ap, ◌∙◌, false, Option, none, some, arith, string_eq, is_ok, beq_refl,
}
use secure_file_storage_syst.Prelude.Map.{lookup, insert, lookup-insert}
use secure_file_storage_syst.Authn.{Error, UserRecord, MemoryRepository, user_of}
use secure_file_storage_syst.Authn.Accounts.{update_user_status_and_delete_sessions}
use secure_file_storage_syst.Authn.Sessions.{without_sessions_of}
use secure_file_storage_syst.Authn.Sessions.Ended.{IsOut, ended-IsOut}
use secure_file_storage_syst.Authn.Login.{
  Primitives, Settings, login_for_audience, update_user_status,
}
use secure_file_storage_syst.Authn.Login.Decision.{credentials_ok, credentials_fail}

module _ (p : Primitives) (s : Settings) (actor_id user_id email : String)
    (r : MemoryRepository) where
  abbrev pub suspended : Option Error × MemoryRepository
  suspended = update_user_status p actor_id user_id "suspended" r

  abbrev pub suspended_account : UserRecord
  suspended_account = record (user_of r email) { account_status = "suspended" }

  suspension_runs :
      lookup (p.trim_space user_id) r.user_email_by_id ≡ some email
      → suspended.0 ≡ none
      → suspended ≡ (
        none,
        record r {
          users_by_email = insert email suspended_account r.users_by_email;
          sessions_by_hash = without_sessions_of (p.trim_space user_id) r.sessions_by_hash;
        },
      )
  unfolding update_user_status update_user_status_and_delete_sessions
  suspension_runs owner done = ground (arith, owner)

  suspended_refused :
      (address password audience : String) (tokens : Option (String × String)) (later : ℕ)
      (r' : MemoryRepository)
      → lookup email r'.users_by_email ≡ some suspended_account
      → p.normalize_email address ≡ email
      → is_ok (login_for_audience p s address password audience tokens later r').0 ≡ false
  suspended_refused address password audience tokens later r' found same =
      let at_address : lookup (p.normalize_email address) r'.users_by_email
          ≡ some suspended_account =
        ap (λ (e : String). lookup e r'.users_by_email) same ∙ found in
      credentials_fail p s address password audience later r' suspended_account at_address tokens (
        credentials_ok p s address password audience later r' suspended_account at_address
        ∙ ground arith)

  -- A suspension takes effect at once: when it is accepted, no session and no step-up proof of the
  -- user is good any more, and no password lets the user in again, for either audience.
  pub suspension_ends_access :
      lookup (p.trim_space user_id) r.user_email_by_id ≡ some email
      → suspended.0 ≡ none
      → IsOut (p.trim_space user_id) suspended.1
        × ((address password audience : String) (tokens : Option (String × String)) (later : ℕ)
            → p.normalize_email address ≡ email
            → is_ok (login_for_audience p s address password audience tokens later suspended.1).0
              ≡ false)
  suspension_ends_access owner done =
      let runs = suspension_runs owner done in
      (
        ended-IsOut (p.trim_space user_id) r.sessions_by_hash suspended.1
            (ap (λ (x : Option Error × MemoryRepository). x.1.sessions_by_hash) runs),
        λ address password audience tokens later same.
            suspended_refused address password audience tokens later suspended.1
              (ap (λ (x : Option Error × MemoryRepository). lookup email x.1.users_by_email) runs
                ∙ rw (lookup-insert, beq_refl email) refl)
              same,
      )
