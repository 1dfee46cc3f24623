-- ===== src/Authn/Login/Privileged/SecondFactor.antt =====
-- What the second step of a privileged login in internal/authn/mfa.go lets through.
use secure_file_storage_syst.Prelude.{
  ℕ, ◌+◌, ◌/◌, ◌≤◌, String, ◌≡◌, refl, sym, ap, ◌∙◌, Bool, true, false, Option, none, some, List,
  find, arith, ltb, if◌then◌else◌, string_eq, nat_eq, ok, err, Option-cases, Bool-cases, inl, inr,
  beq_refl, length,
}
use secure_file_storage_syst.Prelude.Map.{lookup, delete, lookup-delete}
use secure_file_storage_syst.Prelude.Bytes.{Bytes, bytes_eq, utf8}
use secure_file_storage_syst.Authn.{
  Error, mfa_invalid, mfa_not_configured, User, UserRecord, Session, MfaChallengeRecord,
  MemoryRepository,
}
use secure_file_storage_syst.Authn.Accounts.{
  clear_authentication_failures, record_authentication_failure,
}
use secure_file_storage_syst.Authn.Sessions.{create_session}
use secure_file_storage_syst.Authn.Mfa.{
  consume_mfa_challenge, confirm_mfa, advance_mfa_counter, consume_mfa_recovery_code,
  mfa_configuration,
}
use secure_file_storage_syst.Authn.Login.{
  Primitives, Settings, Tokens, clear_and_open, opened, open_session, record_failure,
}
use secure_file_storage_syst.Authn.Login.Totp.{validate_totp, totp_code, unix}
use secure_file_storage_syst.Authn.Login.Privileged.{
  Completion, finish, enrol, advance, recover, with_secret, with_ciphertext, complete_for,
  with_challenge, in_order, complete_privileged_login,
}

-- A one-time password is accepted at one of three counters: that of its 30 seconds, the one before
-- or the one after; and it is the code of that counter.
pub totp_window :
    (p : Primitives) (secret : Bytes) (code : String) (now counter : ℕ)
    → validate_totp p secret code now ≡ some counter
    → (unix now / 30 ≤ counter + 1)
      × (counter ≤ unix now / 30 + 1)
      × (length (utf8 (p.trim_space code)) ≡ 6)
      × (p.atoi (p.trim_space code) ≡ some (totp_code p secret counter))
unfolding validate_totp find
totp_window p secret code now counter h = (ground arith, ground arith, ground arith, ground arith)

-- A completion opens privileged sessions of one user alone, and leaves the challenges alone.
record OpensFor (user : User) (r : MemoryRepository) (c : Completion) : Type 0 where
  opens :
      (token : String) (session : Session)
      → c.0 ≡ ok (token, session)
      → (session.user ≡ user) × (session.audience ≡ "privileged")
  keeps : c.1.mfa_challenges ≡ r.mfa_challenges

module _ (p : Primitives) (s : Settings) (user : User) (tokens : Tokens) (now : ℕ) where
  failure_keeps :
      (user_id : String) (r : MemoryRepository)
      → (record_failure s user_id now r).mfa_challenges ≡ r.mfa_challenges
  unfolding record_failure record_authentication_failure
  failure_keeps user_id r = ground arith

  finish-OpensFor : (r : MemoryRepository) → OpensFor user r (finish p s user tokens now r)
  unfolding finish clear_and_open opened open_session clear_authentication_failures create_session
  finish-OpensFor r = record {
    opens = λ token session answer. (ground arith, ground arith);
    keeps = ground arith;
  }

  enrol-OpensFor :
      (ciphertext nonce : Bytes) (counter : ℕ) (codes : Option (List String)) (r : MemoryRepository)
      → OpensFor user r (enrol p s user ciphertext nonce counter codes tokens now r)
  unfolding enrol confirm_mfa finish clear_and_open opened open_session
      clear_authentication_failures create_session
  enrol-OpensFor ciphertext nonce counter codes r = record {
    opens = λ token session answer. (ground arith, ground arith);
    keeps = ground arith;
  }

  advance-OpensFor :
      (counter : ℕ) (r : MemoryRepository) → OpensFor user r (advance p s user counter tokens now r)
  unfolding advance advance_mfa_counter finish clear_and_open opened open_session
      clear_authentication_failures create_session record_failure record_authentication_failure
  advance-OpensFor counter r = record {
    opens = λ token session answer. (ground arith, ground arith);
    keeps = ground arith;
  }

  recover-OpensFor :
      (code : String) (r : MemoryRepository) → OpensFor user r (recover p s user code tokens now r)
  unfolding recover consume_mfa_recovery_code finish clear_and_open opened open_session
      clear_authentication_failures create_session record_failure record_authentication_failure
  recover-OpensFor code r = record {
    opens = λ token session answer. (ground arith, ground arith);
    keeps = ground arith;
  }

  refused-OpensFor :
      (e : Error) (r r' : MemoryRepository)
      → r'.mfa_challenges ≡ r.mfa_challenges
      → OpensFor user r (err e, r')
  refused-OpensFor e r r' same = record {
    opens = λ token session answer. absurd (ground arith);
    keeps = same;
  }

  with_secret-OpensFor :
      (challenge : MfaChallengeRecord) (secret : Bytes) (enrolling : Bool) (code : String)
      (codes : Option (List String)) (r : MemoryRepository)
      → OpensFor user r (with_secret p s challenge user secret enrolling code codes tokens now r)
  unfolding with_secret
  with_secret-OpensFor challenge secret enrolling code codes r =
      elim (Option-cases (validate_totp p secret code now)) [
        | inl invalid ↦
            rw (invalid, with_secret)
              (elim enrolling
                as (λ b. OpensFor user r (
                  if b
                  then (err mfa_invalid, record_failure s user.id now r)
                  else recover p s user code tokens now r)) [
                    | true ↦
                        refused-OpensFor mfa_invalid r (record_failure s user.id now r)
                          (failure_keeps user.id r)
                    | false ↦ recover-OpensFor code r
                  ])
        | inr (counter, valid) ↦
            rw (valid, with_secret)
              (elim enrolling
                as (λ b. OpensFor user r (
                  if b
                  then enrol p s user challenge.pending_secret_ciphertext
                      challenge.pending_secret_nonce counter codes tokens now r
                  else advance p s user counter tokens now r)) [
                    | true ↦
                        enrol-OpensFor challenge.pending_secret_ciphertext
                          challenge.pending_secret_nonce counter codes r
                    | false ↦ advance-OpensFor counter r
                  ])
      ]

  with_ciphertext-OpensFor :
      (challenge : MfaChallengeRecord) (ciphertext nonce : Bytes) (enrolling : Bool) (code : String)
      (codes : Option (List String)) (r : MemoryRepository)
      → OpensFor user r
          (with_ciphertext p s challenge user ciphertext nonce enrolling code codes tokens now r)
  unfolding with_ciphertext
  with_ciphertext-OpensFor challenge ciphertext nonce enrolling code codes r =
      elim (Option-cases (p.open_secret ciphertext nonce)) [
        | inl closed ↦ rw (closed, with_ciphertext) (refused-OpensFor mfa_invalid r r refl)
        | inr (secret, open_secret) ↦
            rw (open_secret, with_ciphertext)
              (with_secret-OpensFor challenge secret enrolling code codes r)
      ]

  complete_for-OpensFor :
      (challenge : MfaChallengeRecord) (code : String) (codes : Option (List String))
      (r : MemoryRepository)
      → OpensFor user r (complete_for p s challenge user code codes tokens now r)
  unfolding mfa_configuration complete_for
  complete_for-OpensFor challenge code codes r =
      elim (Bool-cases (ltb 0 (length challenge.pending_secret_ciphertext))) [
        | inl pending ↦
            rw (pending, complete_for)
              (with_ciphertext-OpensFor challenge challenge.pending_secret_ciphertext
                challenge.pending_secret_nonce true code codes r)
        | inr enrolled ↦ elim (Option-cases (lookup user.id r.mfa_configs)) [
          | inl missing ↦
              rw (enrolled, missing, complete_for) (refused-OpensFor mfa_not_configured r r refl)
          | inr (c, found) ↦
              rw (enrolled, found, complete_for)
                (with_ciphertext-OpensFor challenge c.secret_ciphertext c.secret_nonce false code
                  codes r)
        ]
      ]

module _ (p : Primitives) (s : Settings) (code : String) (codes : Option (List String))
    (tokens : Tokens) (now : ℕ) where
  -- The user of a challenge under the role that the account has now.
  abbrev present : MfaChallengeRecord → UserRecord → User
  present challenge u = record challenge.user { role = u.role }

  with_challenge_sound :
      (challenge : MfaChallengeRecord) (r : MemoryRepository) (token : String) (session : Session)
      → (with_challenge p s challenge code codes tokens now r).0 ≡ ok (token, session)
      → (u : UserRecord) × (lookup challenge.user.email r.users_by_email ≡ some u)
        × (in_order u now ≡ true)
        × (session.user ≡ present challenge u)
        × (session.audience ≡ "privileged")
        × ((with_challenge p s challenge code codes tokens now r).1.mfa_challenges
            ≡ r.mfa_challenges)
  unfolding with_challenge
  with_challenge_sound challenge r token session answer =
      elim (Option-cases (lookup challenge.user.email r.users_by_email)) [
        | inl missing ↦ absurd (ground arith)
        | inr (u, found) ↦ elim (Bool-cases (in_order u now)) [
          | inr refused ↦ absurd (ground arith)
          | inl fine ↦
              let run = complete_for p s challenge (present challenge u) code codes tokens now r in
              let opened =
                complete_for-OpensFor p s (present challenge u) tokens now challenge code codes r in
              let same : with_challenge p s challenge code codes tokens now r ≡ run =
                rw (found, with_challenge) (rw fine refl) in
              let user =
                opened.opens token session (sym (ap (λ (c : Completion). c.0) same) ∙ answer) in
              (
                u,
                found,
                fine,
                user.0,
                user.1,
                ap (λ (c : Completion). c.1.mfa_challenges) same ∙ opened.keeps,
              )
        ]
      ]

  -- A completed login has passed the guards and taken a challenge.
  takes_challenge :
      (challenge_token token : String) (r : MemoryRepository) (session : Session)
      → (complete_privileged_login p s challenge_token code codes tokens now r).0
        ≡ ok (token, session)
      → let hash = p.sha256 (utf8 (p.trim_space challenge_token)) in
        (challenge : MfaChallengeRecord) × (lookup hash r.mfa_challenges ≡ some challenge)
        × (ltb now challenge.expires_at ≡ true)
        × (complete_privileged_login p s challenge_token code codes tokens now r
            ≡ with_challenge p s challenge code codes tokens now
                (record r { mfa_challenges = delete hash r.mfa_challenges }))
  unfolding complete_privileged_login consume_mfa_challenge
  takes_challenge challenge_token token r session answer =
      elim (Option-cases
        (lookup (p.sha256 (utf8 (p.trim_space challenge_token))) r.mfa_challenges)) [
          | inl missing ↦ absurd (ground arith)
          | inr (challenge, has) ↦ (challenge, has, ground (arith, has), ground (arith, has))
        ]

pub privileged_login_sound :
    (p : Primitives) (s : Settings) (challenge_token code token : String)
    (codes : Option (List String)) (tokens : Tokens) (now : ℕ) (r : MemoryRepository)
    (session : Session)
    → (complete_privileged_login p s challenge_token code codes tokens now r).0
      ≡ ok (token, session)
    → let hash = p.sha256 (utf8 (p.trim_space challenge_token)) in
      let r' = (complete_privileged_login p s challenge_token code codes tokens now r).1 in
      (challenge : MfaChallengeRecord) × (u : UserRecord) × (lookup hash r.mfa_challenges
        ≡ some challenge)
      × (ltb now challenge.expires_at ≡ true)
      × (lookup challenge.user.email r.users_by_email ≡ some u)
      × (in_order u now ≡ true)
      × (session.user ≡ record challenge.user { role = u.role })
      × (session.audience ≡ "privileged")
      × (lookup hash r'.mfa_challenges ≡ none)
privileged_login_sound p s challenge_token code token codes tokens now r session answer =
    let hash = p.sha256 (utf8 (p.trim_space challenge_token)) in
    let (challenge, has, fresh, run) =
      takes_challenge p s code codes tokens now challenge_token token r session answer in
    let taken = record r { mfa_challenges = delete hash r.mfa_challenges } in
    let (u, found, fine, user, audience, kept) =
      with_challenge_sound p s code codes tokens now challenge taken token session
        (sym (ap (λ (c : Completion). c.0) run) ∙ answer) in
    (
      challenge,
      u,
      has,
      fresh,
      found,
      fine,
      user,
      audience,
      ap (λ (c : Completion). lookup hash c.1.mfa_challenges) run
          ∙ ap (lookup hash) kept
          ∙ rw (lookup-delete, beq_refl hash) refl,
    )
