-- ===== src/Authn/Login/Totp.antt =====
-- internal/authn/mfa.go: time-based one-time passwords.
use secure_file_storage_syst.Prelude.{
  ℕ, zero, suc, ◌+◌, ◌-◌, ◌*◌, ◌/◌, ◌%◌, ◌^◌, String, not, Option, none, some, [], ◌∷◌, length,
  find, if◌then◌else◌, ◌==◌, nat_eq,
}
use secure_file_storage_syst.Prelude.Bytes.{Bytes, utf8, be64}
use secure_file_storage_syst.Authn.Login.{Primitives}

-- sum[i]; a SHA-1 sum is long enough for every index that is used.
abbrev pub byte_at : ℕ → Bytes → ℕ
byte_at i [] = 0
byte_at zero (b ∷ bs) = b
byte_at (suc i) (b ∷ bs) = byte_at i bs

unfoldable pub totp_code : Primitives → Bytes → ℕ → ℕ
totp_code p secret counter =
    let sum = p.hmac_sha1 secret (be64 counter) in
    let offset = byte_at (length sum - 1) sum % 16 in
    (byte_at offset sum % 128 * 2 ^ 24
      + byte_at (offset + 1) sum * 2 ^ 16
      + byte_at (offset + 2) sum * 2 ^ 8
      + byte_at (offset + 3) sum)
    % 1000000

-- now.Unix(), for times since 1970.
abbrev pub unix : ℕ → ℕ
unix now = now / 1000000000 - 62135596800

-- `none` is the answer -1, false.
unfoldable pub validate_totp : Primitives → Bytes → String → ℕ → Option ℕ
validate_totp p secret code now =
    let trimmed = p.trim_space code in
    if not (length (utf8 trimmed) == 6) then none else elim (p.atoi trimmed) [
      | none ↦ none
      | some provided ↦
          let current = unix now / 30 in
          find (λ (counter : ℕ). provided == totp_code p secret counter)
            (current ∷ (current - 1) ∷ (current + 1) ∷ [])
    ]
