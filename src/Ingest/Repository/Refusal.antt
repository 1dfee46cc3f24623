-- ===== src/Ingest/Repository/Refusal.antt =====
-- What `ReserveCapacity` of internal/ingest/repository.go does to the repository, on every branch.
use secure_file_storage_syst.Prelude.{
  ℕ, String, ◌≡◌, ◌⊎◌, inl, inr, refl, true, not, ◌||◌, none, some, [], ◌∷◌, ltb, keep, arith,
  string_eq, Bool-cases,
}
use secure_file_storage_syst.Prelude.Map.{Map, lookup, insert}
use secure_file_storage_syst.Prelude.Int64.{add64, sub64, lt64}
use secure_file_storage_syst.Ingest.{
  Error, quota_exceeded, capacity_exceeded, invalid_query, CapacityReservationRequest,
  MemoryRepository,
}
use secure_file_storage_syst.Ingest.Repository.{
  unexpired_at, reserve_capacity, reserve_unexpired, admit_request, usage, reserved, owned_by,
  reserved_for,
}

pub lookup-unexpired_at :
    (now : ℕ) (id : String) (m : Map String CapacityReservationRequest)
    → lookup id m ≡ none
    → lookup id (unexpired_at now m) ≡ none
unfolding unexpired_at keep lookup
lookup-unexpired_at now id [] h = refl
lookup-unexpired_at now id ((j, x) ∷ m) h = ground (arith, lookup-unexpired_at now id m)

admit_cases :
    (c : CapacityReservationRequest) (r : MemoryRepository)
    → ((e : Error) × (admit_request c r ≡ (some e, r)))
      ⊎ (admit_request c r
          ≡ (none, record r { reservations = insert c.upload_id c r.reservations }))
unfolding admit_request
admit_cases c r =
    let owner_over = lt64 c.owner_quota_bytes (
      add64
        (add64 (usage (owned_by c.owner_id) r.reservations r.records)
          (reserved (reserved_for c.owner_id) r.reservations))
        c.bytes) in
    let global_over = lt64 (sub64 c.storage_capacity_bytes c.storage_reserve_bytes) (
      add64
        (add64 (usage (λ u. true) r.reservations r.records) (reserved (λ q. true) r.reservations))
        c.bytes) in
    elim (Bool-cases owner_over) [
      | inl over ↦ inl (quota_exceeded, rw over refl)
      | inr within ↦ elim (Bool-cases global_over) [
        | inl over ↦ inl (capacity_exceeded, rw (within, over) refl)
        | inr room ↦ inr (rw (within, room) refl)
      ]
    ]

-- A request for an upload that has no reservation is refused, or reserved.
pub reserve_cases :
    (c : CapacityReservationRequest) (r : MemoryRepository)
    → lookup c.upload_id r.reservations ≡ none
    → let left = record r { reservations = unexpired_at c.now r.reservations } in
      ((e : Error) × ((reserve_capacity c r ≡ (some e, r))
          ⊎ (reserve_capacity c r ≡ (some e, left))))
      ⊎ (reserve_capacity c r ≡ (
        none,
        record r { reservations = insert c.upload_id c (unexpired_at c.now r.reservations) },
      ))
unfolding reserve_capacity reserve_unexpired
reserve_cases c r new =
    let invalid =
      not (lt64 0 c.bytes)
      || not (lt64 0 c.owner_quota_bytes)
      || not (lt64 c.storage_reserve_bytes c.storage_capacity_bytes)
      || not (ltb c.now c.expires_at) in
    let left = record r { reservations = unexpired_at c.now r.reservations } in
    let free = lookup-unexpired_at c.now c.upload_id r.reservations new in
    elim (Bool-cases invalid) [
      | inl bad ↦ inl (invalid_query, inl (rw bad refl))
      | inr good ↦ elim (admit_cases c left) [
        | inl (e, refused) ↦ inl (e, inr (rw (good, reserve_unexpired, free) refused))
        | inr admitted ↦ inr (rw (good, reserve_unexpired, free) admitted)
      ]
    ]
