-- ===== src/Authn/Accounts/Lockout.antt =====
-- The lockout of internal/authn/memory_repository.go: `RecordAuthenticationFailure`, again and again.
use secure_file_storage_syst.Prelude.{
  ℕ, ◌+◌, ◌<◌, ◌≤◌, String, ◌≡◌, refl, ◌∙◌, ap, Bool, true, some, List, [], ◌∷◌, arith, length, All,
  if◌then◌else◌, string_eq, Result, ok, beq_refl,
}
use secure_file_storage_syst.Prelude.Map.{lookup, insert, lookup-insert}
use secure_file_storage_syst.Authn.{Error, UserRecord, MemoryRepository, user_of, user_of-found}
use secure_file_storage_syst.Authn.Sessions.{without_sessions_of}
use secure_file_storage_syst.Authn.Sessions.Ended.{IsOut, ended-IsOut}
use secure_file_storage_syst.Authn.Accounts.{
  failed, is_locked, window_over, record_authentication_failure,
}

module _ (window threshold lock_duration : ℕ) where
  -- The failures of an account, one after the other.
  unfoldable pub failures : List ℕ → UserRecord → UserRecord
  failures [] u = u
  failures (now ∷ times) u = failures times (failed now window threshold lock_duration u)

  failures_counted :
      (start : ℕ) (times : List ℕ) (u : UserRecord)
      → u.failed_login_window_started_at ≡ some start
      → All (λ (t : ℕ). t < start + window) times
      → ((failures times u).failed_login_attempts ≡ u.failed_login_attempts + length times)
        × ((failures times u).failed_login_window_started_at ≡ some start)
  unfolding failures failed
  failures_counted start [] u open_window inside = (omega arith, open_window)
  failures_counted start (now ∷ times) u open_window inside =
      let next = failed now window threshold lock_duration u in
      let rest =
        failures_counted start times next (ground (arith, open_window, inside.0)) inside.1 in
      (ground (arith, rest.0, open_window, inside.0), rest.1)

  -- `RecordAuthenticationFailure` for one user at one time after the other.
  unfoldable pub record_failures : String → List ℕ → MemoryRepository → MemoryRepository
  record_failures user_id [] r = r
  record_failures user_id (now ∷ times) r =
      record_failures user_id times
        (record_authentication_failure user_id now window threshold lock_duration r).1

  module _ (user_id email : String) where
    failure_runs :
        (now : ℕ) (r : MemoryRepository) (u : UserRecord)
        → lookup user_id r.user_email_by_id ≡ some email
        → lookup email r.users_by_email ≡ some u
        → record_authentication_failure user_id now window threshold lock_duration r ≡ (
          ok (is_locked (failed now window threshold lock_duration u) now),
          record r {
            users_by_email =
                insert email (failed now window threshold lock_duration u) r.users_by_email;
            sessions_by_hash =
                if is_locked (failed now window threshold lock_duration u) now
                then without_sessions_of user_id r.sessions_by_hash
                else r.sessions_by_hash;
          },
        )
    unfolding record_authentication_failure
    failure_runs now r u owner found =
        rw (owner, record_authentication_failure) (rw (user_of-found r email u found) refl)

    failures_stored :
        (times : List ℕ) (r : MemoryRepository) (u : UserRecord)
        → lookup user_id r.user_email_by_id ≡ some email
        → lookup email r.users_by_email ≡ some u
        → (lookup user_id (record_failures user_id times r).user_email_by_id ≡ some email)
          × (lookup email (record_failures user_id times r).users_by_email
              ≡ some (failures times u))
    unfolding record_failures failures
    failures_stored [] r u owner found = (owner, found)
    failures_stored (now ∷ times) r u owner found =
        let runs = failure_runs now r u owner found in
        failures_stored times
          (record_authentication_failure user_id now window threshold lock_duration r).1
          (failed now window threshold lock_duration u)
          (ap (λ (x : Result Error Bool × MemoryRepository). lookup user_id x.1.user_email_by_id)
              runs
            ∙ owner)
          (ap (λ (x : Result Error Bool × MemoryRepository). lookup email x.1.users_by_email) runs
            ∙ rw (lookup-insert, beq_refl email) refl)

    locks :
        (first last : ℕ) (rest : List ℕ) (u : UserRecord)
        → window_over u first window ≡ true
        → All (λ (t : ℕ). t < first + window) rest
        → last < first + window
        → threshold ≤ length rest + 2
        → (failed last window threshold lock_duration (failures (first ∷ rest) u)).locked_until
          ≡ some (last + lock_duration)
    unfolding failures failed
    locks first last rest u over inside last_in enough =
        let opened = failed first window threshold lock_duration u in
        let counted = failures_counted first rest opened (ground (arith, over)) inside in
        ground (arith, counted.0, counted.1, over, last_in, enough)

    -- The threshold locks: once that many failures are recorded for an account within one window
    -- that the first of them opened, the last one answers that the account is locked, for the lock
    -- duration from then on, and it ends every session and step-up proof of the user.
    pub lockout :
        (first last : ℕ) (rest : List ℕ) (r : MemoryRepository) (u : UserRecord)
        → lookup user_id r.user_email_by_id ≡ some email
        → lookup email r.users_by_email ≡ some u
        → window_over u first window ≡ true
        → All (λ (t : ℕ). t < first + window) rest
        → last < first + window
        → threshold ≤ length rest + 2
        → 0 < lock_duration
        → let r' = record_failures user_id (first ∷ rest) r in
          let answer =
            record_authentication_failure user_id last window threshold lock_duration r' in
          (answer.0 ≡ ok true)
          × ((user_of answer.1 email).locked_until ≡ some (last + lock_duration))
          × IsOut user_id answer.1
    lockout first last rest r u owner found over inside last_in enough positive =
        let r' = record_failures user_id (first ∷ rest) r in
        let u' = failures (first ∷ rest) u in
        let u'' = failed last window threshold lock_duration u' in
        let (owner', found') = failures_stored (first ∷ rest) r u owner found in
        let runs = failure_runs last r' u' owner' found' in
        let final =
          (record_authentication_failure user_id last window threshold lock_duration r').1 in
        let until = locks first last rest u over inside last_in enough in
        let locked : is_locked u'' last ≡ true = ground (arith, until, positive) in
        (
          ap (λ (x : Result Error Bool × MemoryRepository). x.0) runs ∙ ap ok locked,
          ap (λ (v : UserRecord). v.locked_until)
                (user_of-found final email u'' (
                  ap (λ (x : Result Error Bool × MemoryRepository). lookup email x.1.users_by_email)
                    runs
                  ∙ rw (lookup-insert, beq_refl email) refl))
              ∙ until,
          ended-IsOut user_id r'.sessions_by_hash final (
              ap (λ (x : Result Error Bool × MemoryRepository). x.1.sessions_by_hash) runs
              ∙ rw locked refl),
        )
