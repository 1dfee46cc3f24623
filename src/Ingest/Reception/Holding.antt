-- ===== src/Ingest/Reception/Holding.antt =====
-- The bytes of an owner's quota that running uploads hold: `ownerReservations` of
-- internal/ingest/manager.go.

use secure_file_storage_syst.Prelude.{
  ℕ, ◌+◌, ◌<◌, ◌^◌, String, ◌≡◌, inl, inr, refl, sym, ap, ◌∙◌, true, none, some, arith,
  if◌then◌else◌, ◌==◌, string_eq, nat_eq, Bool-cases, Option-cases, beq_refl,
}
use secure_file_storage_syst.Prelude.Map.{
  Map, lookup, insert, delete, lookup-insert, delete_missing, delete-insert, insert-insert,
  insert_same,
}
use secure_file_storage_syst.Prelude.Bytes.{bytes_eq}
use secure_file_storage_syst.Prelude.Int64.{Int64, add64, sub64, lt64}
use secure_file_storage_syst.Ingest.Reception.{value_or_zero, reserved_of, give_back}

-- The owner's reservation as it is kept: positive, and an int64.
pub record IsReserved (owner_id : String) (reservations : Map String Int64) : Type 0 where
  pub positive : (v : Int64) → lookup owner_id reservations ≡ some v → (0 < v) × (v < 2 ^ 63)

-- The reservations with some more bytes held for the owner.
unfoldable pub holding : String → Int64 → Map String Int64 → Map String Int64
holding owner_id bytes reservations =
    if bytes == 0
    then reservations
    else insert owner_id (add64 (reserved_of owner_id reservations) bytes) reservations

module _ (owner_id : String) (reservations : Map String Int64)
    (kept : IsReserved owner_id reservations) where
  reserved_of-lt : reserved_of owner_id reservations < 2 ^ 63
  reserved_of-lt = elim (Option-cases (lookup owner_id reservations)) [
    | inl missing ↦ rw missing (omega arith)
    | inr (v, has) ↦ rw has ((kept.positive v has).1)
  ]

  reserved_of-holding :
      (bytes : ℕ)
      → bytes < 2 ^ 63
      → reserved_of owner_id (holding owner_id bytes reservations)
        ≡ reserved_of owner_id reservations + bytes
  unfolding holding add64
  reserved_of-holding bytes small = elim (Bool-cases (bytes == 0)) [
    | inl none_held ↦ ground (arith, none_held)
    | inr some_held ↦
        rw (some_held, lookup-insert owner_id owner_id _ reservations, beq_refl owner_id)
          (omega (arith, small, reserved_of-lt))
  ]

  pub holding_none : holding owner_id 0 reservations ≡ reservations
  unfolding holding
  holding_none = refl

  holding_some :
      (bytes : ℕ)
      → 0 < bytes
      → holding owner_id bytes reservations
        ≡ insert owner_id (add64 (reserved_of owner_id reservations) bytes) reservations
  unfolding holding
  holding_some bytes pos = ground (arith, pos)

  insert-holding :
      (v bytes : ℕ)
      → insert owner_id v (holding owner_id bytes reservations) ≡ insert owner_id v reservations
  unfolding holding
  insert-holding v bytes = elim (Bool-cases (bytes == 0)) [
    | inl none_held ↦ rw none_held refl
    | inr some_held ↦ rw some_held (insert-insert owner_id v _ reservations)
  ]

  delete-holding :
      (bytes : ℕ)
      → lookup owner_id reservations ≡ none
      → delete owner_id (holding owner_id bytes reservations) ≡ reservations
  unfolding holding
  delete-holding bytes missing = elim (Bool-cases (bytes == 0)) [
    | inl none_held ↦ rw none_held (delete_missing owner_id reservations missing)
    | inr some_held ↦ rw some_held (delete-insert owner_id _ reservations missing)
  ]

  -- Holding more bytes, and giving all back.
  pub holding-more :
      (bytes n : ℕ)
      → bytes + n < 2 ^ 63
      → 0 < n
      → insert owner_id
          (add64 (reserved_of owner_id (holding owner_id bytes reservations)) n)
          (holding owner_id bytes reservations)
        ≡ holding owner_id (bytes + n) reservations
  unfolding add64
  holding-more bytes n small pos =
      let held = reserved_of-holding bytes (omega (arith, small)) in
      let value : add64 (reserved_of owner_id (holding owner_id bytes reservations)) n
          ≡ add64 (reserved_of owner_id reservations) (bytes + n) =
        omega (arith, held, reserved_of-lt, small) in
      insert-holding _ bytes
      ∙ (ap (λ v. insert owner_id v reservations) value
          ∙ sym (holding_some (bytes + n) (omega (arith, pos))))

  pub give_back-holding :
      (bytes : ℕ)
      → bytes < 2 ^ 63
      → give_back owner_id bytes (holding owner_id bytes reservations) ≡ reservations
  unfolding give_back sub64 lt64
  give_back-holding bytes small =
      let held = reserved_of-holding bytes small in
      let left : sub64 (reserved_of owner_id (holding owner_id bytes reservations)) bytes
          ≡ reserved_of owner_id reservations =
        omega (arith, held, reserved_of-lt, small) in
      elim (Option-cases (lookup owner_id reservations)) [
        | inl missing ↦
            let nothing : sub64 (reserved_of owner_id (holding owner_id bytes reservations)) bytes
                ≡ 0 =
              left ∙ ap value_or_zero missing in
            rw nothing (delete-holding bytes missing)
        | inr (v, has) ↦
            let all_left : sub64 (reserved_of owner_id (holding owner_id bytes reservations)) bytes
                ≡ v =
              left ∙ ap value_or_zero has in
            let test : lt64 0 v ≡ true = ground (arith, kept.positive v has) in
            rw (all_left, test) (insert-holding v bytes ∙ insert_same owner_id v reservations has)
      ]
