-- ===== src/Prelude/Bytes.antt =====
-- Byte strings: equality, UTF-8, big-endian numbers, and fields written behind their length.
use Prim.Native.Char.{code}
use Prim.Native.String.{String}
use Prim.Native.Nat.{ℕ, ◌+◌, ◌/◌, ◌%◌, ◌^◌, ◌<◌}
use mathlib.Core.Path.{◌≡◌, refl, sym, ◌∙◌}
use mathlib.Core.Logic.{◌↔◌}
use mathlib.Core.Bool.{Bool, true, false, ◌&&◌}
use mathlib.Core.List.{List, [], ◌∷◌, ◌++◌, append_assoc}
use native.Mathlib.Omega.{arith}
use text.Mathlib.TextEquality.{Char-path}
use secure_file_storage_syst.Prelude.Tests.{Eq, nat_beq, nat_beq_iff, ltb, if◌then◌else◌}
use secure_file_storage_syst.Prelude.Lists.{length}

abbrev pub Bytes : Type 0
Bytes = List ℕ

-- bytes.Equal, hmac.Equal
unfoldable pub bytes_equal : Bytes → Bytes → Bool
bytes_equal [] [] = true
bytes_equal (a ∷ as') (b ∷ bs) = nat_beq a b && bytes_equal as' bs
bytes_equal _ _ = false

pub bytes_equal_iff : (a b : Bytes) → (bytes_equal a b ≡ true) ↔ (a ≡ b)
unfolding bytes_equal
bytes_equal_iff [] [] = (λ h. refl, λ h. refl)
bytes_equal_iff [] (b ∷ bs) = (λ h. cc, λ h. cc)
bytes_equal_iff (a ∷ as') [] = (λ h. cc, λ h. cc)
bytes_equal_iff (a ∷ as') (b ∷ bs) = (
  λ h. ground (arith, bytes_equal_iff as' bs, nat_beq_iff a b),
  λ h. ground (arith, bytes_equal_iff as' bs, nat_beq_iff a b),
)

instance abbrev pub bytes_eq : Eq Bytes
bytes_eq = record { beq = bytes_equal; beq_iff = bytes_equal_iff }

-- The bytes of a code point.
unfoldable pub utf8_char : ℕ → Bytes
utf8_char c =
    if ltb c 0x80
    then c ∷ []
    else if ltb c 0x800
    then (0xC0 + c / 64) ∷ (0x80 + c % 64) ∷ []
    else if ltb c 0x10000
    then (0xE0 + c / 4096) ∷ (0x80 + c / 64 % 64) ∷ (0x80 + c % 64) ∷ []
    else (0xF0 + c / 262144) ∷ (0x80 + c / 4096 % 64) ∷ (0x80 + c / 64 % 64) ∷ (0x80 + c % 64) ∷ []

-- []byte(value)
unfoldable pub utf8 : String → Bytes
utf8 String.[] = []
utf8 (String.◌∷◌ c s) = utf8_char (code c) ++ utf8 s

utf8_char_cancel : (c d : ℕ) (r s : Bytes) → utf8_char c ++ r ≡ utf8_char d ++ s → (c ≡ d) × (r ≡ s)
unfolding utf8_char
utf8_char_cancel c d r s h = ground arith

utf8_char-ne-nil : (c : ℕ) (r : Bytes) → utf8_char c ++ r ≡ [] → ⊥
unfolding utf8_char
utf8_char-ne-nil c r h = ground arith

-- A text is known by its bytes.
pub utf8-injective : (s t : String) → utf8 s ≡ utf8 t → s ≡ t
unfolding utf8
utf8-injective String.[] String.[] h = refl
utf8-injective String.[] (String.◌∷◌ d t) h = absurd (utf8_char-ne-nil (code d) (utf8 t) (sym h))
utf8-injective (String.◌∷◌ c s) String.[] h = absurd (utf8_char-ne-nil (code c) (utf8 s) h)
utf8-injective (String.◌∷◌ c s) (String.◌∷◌ d t) h =
    let (same, rest) = utf8_char_cancel (code c) (code d) (utf8 s) (utf8 t) h in
    λ i. String.◌∷◌ (Char-path c d same i) (utf8-injective s t rest i)

-- binary.BigEndian.PutUint32
unfoldable pub be32 : ℕ → Bytes
be32 n = (n / 2 ^ 24 % 256) ∷ (n / 2 ^ 16 % 256) ∷ (n / 2 ^ 8 % 256) ∷ (n % 256) ∷ []

-- binary.BigEndian.PutUint64
unfoldable pub be64 : ℕ → Bytes
unfolding be32
be64 n = be32 (n / 2 ^ 32) ++ be32 (n % 2 ^ 32)

pub be32_cancel :
    (m n : ℕ) (r s : Bytes)
    → m < 2 ^ 32
    → n < 2 ^ 32
    → be32 m ++ r ≡ be32 n ++ s
    → (m ≡ n) × (r ≡ s)
unfolding be32
be32_cancel m n r s hm hn h = ground arith

pub append_cancel : (a b r s : Bytes) → length a ≡ length b → a ++ r ≡ b ++ s → (a ≡ b) × (r ≡ s)
append_cancel [] [] r s l h = (refl, h)
append_cancel [] (y ∷ b) r s l h = absurd (omega arith)
append_cancel (x ∷ a) [] r s l h = absurd (omega arith)
append_cancel (x ∷ a) (y ∷ b) r s l h =
    let (same, rest) = append_cancel a b r s (omega arith) (cc) in (cc, rest)

-- `writeField` of internal/audit/service.go: the length as a uint32, and then the bytes.
unfoldable pub write_field : Bytes → Bytes
write_field value = be32 (length value % 2 ^ 32) ++ value

pub write_field_cancel :
    (a b r s : Bytes)
    → length a < 2 ^ 32
    → length b < 2 ^ 32
    → write_field a ++ r ≡ write_field b ++ s
    → (a ≡ b) × (r ≡ s)
unfolding write_field
write_field_cancel a b r s la lb h =
    let small = λ (n : ℕ) (p : n < 2 ^ 32). let q : n % 2 ^ 32 ≡ n = omega arith in q in
    let front =
      be32_cancel (length a % 2 ^ 32) (length b % 2 ^ 32) (a ++ r) (b ++ s) (omega arith)
        (omega arith)
        (sym (append_assoc (be32 (length a % 2 ^ 32)) a r)
          ∙ h
          ∙ append_assoc (be32 (length b % 2 ^ 32)) b s) in
    append_cancel a b r s (sym (small (length a) la) ∙ front.0 ∙ small (length b) lb) front.1

-- Fields written one behind the other.
unfoldable pub write_fields : List Bytes → Bytes
write_fields [] = []
write_fields (a ∷ as') = write_field a ++ write_fields as'

abbrev pub AllShort : List Bytes → Type 0
AllShort [] = Unit
AllShort (a ∷ as') = (length a < 2 ^ 32) × AllShort as'

-- A fixed number of fields can be read back.
pub write_fields_cancel :
    (xs ys : List Bytes) (r s : Bytes)
    → length xs ≡ length ys
    → AllShort xs
    → AllShort ys
    → write_fields xs ++ r ≡ write_fields ys ++ s
    → (xs ≡ ys) × (r ≡ s)
unfolding write_fields
write_fields_cancel [] [] r s l hx hy h = (refl, h)
write_fields_cancel [] (y ∷ ys) r s l hx hy h = absurd (omega arith)
write_fields_cancel (x ∷ xs) [] r s l hx hy h = absurd (omega arith)
write_fields_cancel (x ∷ xs) (y ∷ ys) r s l hx hy h =
    let front = write_field_cancel x y (write_fields xs ++ r) (write_fields ys ++ s) hx.0 hy.0 (
      sym (append_assoc (write_field x) (write_fields xs) r)
      ∙ h
      ∙ append_assoc (write_field y) (write_fields ys) s) in
    let rest = write_fields_cancel xs ys r s (omega arith) hx.1 hy.1 front.1 in (cc, rest.1)
