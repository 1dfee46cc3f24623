-- ===== src/Authn/Accounts/Verification.antt =====
-- The verification of an e-mail address in internal/authn/memory_repository.go.
use secure_file_storage_syst.Prelude.{
  ℕ, String, ◌≡◌, refl, ap, ◌∙◌, true, Option, none, some, arith, string_eq, is_some, beq_refl,
}
use secure_file_storage_syst.Prelude.Map.{lookup, insert, lookup-insert}
use secure_file_storage_syst.Prelude.Bytes.{Bytes, bytes_eq}
use secure_file_storage_syst.Authn.{
  Error, VerificationRecord, UserRecord, MemoryRepository, user_of, user_of-found,
  verification_token,
}
use secure_file_storage_syst.Authn.Accounts.{consume_verification_token}

consume_verified :
    (token_hash : Bytes) (now : ℕ) (r : MemoryRepository) (v : VerificationRecord) (email : String)
    (u : UserRecord)
    → lookup token_hash r.verifications ≡ some v
    → lookup v.user_id r.user_email_by_id ≡ some email
    → lookup email r.users_by_email ≡ some u
    → is_some u.email_verified_at ≡ true
    → consume_verification_token token_hash now r ≡ (some verification_token, r)
unfolding consume_verification_token
consume_verified token_hash now r v email u has owner found verified = ground arith

-- The account of an address once it is verified.
abbrev verified : MemoryRepository → String → ℕ → UserRecord
verified r email now = record (user_of r email) { email_verified_at = some now }

consume_runs :
    (token_hash : Bytes) (now : ℕ) (r : MemoryRepository) (v : VerificationRecord) (email : String)
    → lookup token_hash r.verifications ≡ some v
    → lookup v.user_id r.user_email_by_id ≡ some email
    → (consume_verification_token token_hash now r).0 ≡ none
    → consume_verification_token token_hash now r ≡ (
      none,
      record r {
        verifications = insert token_hash (record v { consumed_at = some now }) r.verifications;
        users_by_email = insert email (verified r email now) r.users_by_email;
      },
    )
unfolding consume_verification_token
consume_runs token_hash now r v email has owner done = ground (arith, has, owner)

-- A verification token that is accepted verifies the address of its user at that time, and it is the
-- last one: from then on every token of the user, that one and any other, is refused and changes
-- nothing.
pub verification_once :
    (token_hash other : Bytes) (now later : ℕ) (r : MemoryRepository) (v w : VerificationRecord)
    (email : String)
    → lookup token_hash r.verifications ≡ some v
    → lookup v.user_id r.user_email_by_id ≡ some email
    → (consume_verification_token token_hash now r).0 ≡ none
    → lookup other (consume_verification_token token_hash now r).1.verifications ≡ some w
    → w.user_id ≡ v.user_id
    → let r' = (consume_verification_token token_hash now r).1 in
      ((user_of r' email).email_verified_at ≡ some now)
      × (consume_verification_token other later r' ≡ (some verification_token, r'))
verification_once token_hash other now later r v w email has owner done has_w same =
    let runs = consume_runs token_hash now r v email has owner done in
    let r' = (consume_verification_token token_hash now r).1 in
    let users : lookup email r'.users_by_email ≡ some (verified r email now) =
      ap (λ (x : Option Error × MemoryRepository). lookup email x.1.users_by_email) runs
      ∙ rw (lookup-insert, beq_refl email) refl in
    let owners : lookup w.user_id r'.user_email_by_id ≡ some email =
      ap (λ (x : Option Error × MemoryRepository). lookup w.user_id x.1.user_email_by_id) runs
      ∙ ap (λ (id : String). lookup id r.user_email_by_id) same
      ∙ owner in
    (
      ap (λ (u : UserRecord). u.email_verified_at)
          (user_of-found r' email (verified r email now) users),
      consume_verified other later r' w email (verified r email now) has_w owners users refl,
    )
