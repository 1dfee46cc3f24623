-- ===== src/Ingest/Repository.antt =====
-- internal/ingest/repository.go: upload records, quotas and capacity reservations.
pub mod Capacity
pub mod Idempotency
pub mod Refusal
use secure_file_storage_syst.Prelude.{
  ℕ, suc, String, Bool, true, false, not, ◌&&◌, ◌||◌, Option, none, some, List, [], ◌∷◌, keep,
  length, ltb, if◌then◌else◌, ◌==◌, string_eq, nat_eq, is_some, Result, ok, err,
}
use secure_file_storage_syst.Prelude.Map.{Map, lookup, insert, delete}
use secure_file_storage_syst.Prelude.Bytes.{Bytes, bytes_eq}
use secure_file_storage_syst.Prelude.Int64.{Int64, add64, sub64, lt64}
use secure_file_storage_syst.Ingest.{
  Error, quota_exceeded, capacity_exceeded, invalid_query, not_found, reservation_conflict, unknown,
  PersistedRecord, CapacityReservationRequest, MemoryRepository, idempotency_index,
  counts_toward_quota,
}

abbrev zero_record : PersistedRecord
zero_record = record {
  id = "";
  name = "";
  size = 0;
  declared_media_type = "";
  detected_media_type = "";
  status = unknown "";
  progress = 0;
  decision_reason = "";
  correlation_id = "";
  created_at = 0;
  owner_id = "";
  quarantine_object = "";
  digest = "";
  idempotency_hash = "";
}

-- `r.records[existingID]`: the zero value where there is no entry.
abbrev pub record_of : MemoryRepository → String → PersistedRecord
record_of r id = elim (lookup id r.records) [ none ↦ zero_record | some u ↦ u ]

-- The record, whether an earlier one is reused, and the new state; it never fails.
unfoldable pub create_record :
    PersistedRecord → MemoryRepository → PersistedRecord × Bool × MemoryRepository
create_record u r = elim (lookup (idempotency_index u) r.by_idempotency) [
  | some existing_id ↦ (record_of r existing_id, true, r)
  | none ↦ (
    u,
    false,
    record r {
      records = insert u.id u r.records;
      by_idempotency = insert (idempotency_index u) u.id r.by_idempotency;
    },
  )
]

unfoldable pub update_record : PersistedRecord → MemoryRepository → Option Error × MemoryRepository
update_record u r = elim (lookup u.id r.records) [
  | none ↦ (some not_found, r)
  | some existing ↦ (none, record r { records = insert u.id u r.records })
]

unfoldable pub delete_record : String → MemoryRepository → MemoryRepository
delete_record upload_id r = elim (lookup upload_id r.records) [
  | none ↦ r
  | some u ↦ record r {
    by_idempotency = delete (idempotency_index u) r.by_idempotency;
    records = delete upload_id r.records;
    reservations = delete upload_id r.reservations;
  }
]

-- The reservations that have not expired.
unfoldable pub unexpired_at :
    ℕ → Map String CapacityReservationRequest → Map String CapacityReservationRequest
unexpired_at now = keep (λ (e : String × CapacityReservationRequest). ltb now e.1.expires_at)

-- The loop over the records: the sizes of those that count, are not reserved and pass a test.
unfoldable pub usage :
    (PersistedRecord → Bool)
    → Map String CapacityReservationRequest
    → Map String PersistedRecord
    → Int64
usage test reservations [] = 0
usage test reservations ((id, u) ∷ rest) =
    let others = usage test reservations rest in
    if counts_toward_quota u.status && not (is_some (lookup id reservations)) && test u
    then add64 u.size others
    else others

-- The loop over the reservations.
unfoldable pub reserved :
    (CapacityReservationRequest → Bool) → Map String CapacityReservationRequest → Int64
reserved test [] = 0
reserved test ((id, q) ∷ rest) =
    let others = reserved test rest in if test q then add64 q.bytes others else others

abbrev pub owned_by : String → PersistedRecord → Bool
owned_by owner_id u = u.owner_id == owner_id

abbrev pub reserved_for : String → CapacityReservationRequest → Bool
reserved_for owner_id q = q.owner_id == owner_id

-- The admission of a request whose upload has no reservation yet.
admit_request : CapacityReservationRequest → MemoryRepository → Option Error × MemoryRepository
unfolding usage reserved
admit_request q r =
    let owner_usage = usage (owned_by q.owner_id) r.reservations r.records in
    let owner_reserved = reserved (reserved_for q.owner_id) r.reservations in
    let global_usage = usage (λ u. true) r.reservations r.records in
    let global_reserved = reserved (λ q'. true) r.reservations in
    if lt64 q.owner_quota_bytes (add64 (add64 owner_usage owner_reserved) q.bytes)
    then (some quota_exceeded, r)
    else if lt64 (sub64 q.storage_capacity_bytes q.storage_reserve_bytes)
        (add64 (add64 global_usage global_reserved) q.bytes)
    then (some capacity_exceeded, r)
    else (none, record r { reservations = insert q.upload_id q r.reservations })

-- With the expired reservations gone.
reserve_unexpired : CapacityReservationRequest → MemoryRepository → Option Error × MemoryRepository
unfolding admit_request
reserve_unexpired q r = elim (lookup q.upload_id r.reservations) [
  | some existing ↦
      if existing.owner_id == q.owner_id && existing.bytes == q.bytes
      then (none, r)
      else (some reservation_conflict, r)
  | none ↦ admit_request q r
]

unfoldable pub reserve_capacity :
    CapacityReservationRequest → MemoryRepository → Option Error × MemoryRepository
unfolding reserve_unexpired
reserve_capacity q r =
    if not (lt64 0 q.bytes)
      || not (lt64 0 q.owner_quota_bytes)
      || not (lt64 q.storage_reserve_bytes q.storage_capacity_bytes)
      || not (ltb q.now q.expires_at)
    then (some invalid_query, r)
    else reserve_unexpired q (record r { reservations = unexpired_at q.now r.reservations })

unfoldable pub release_capacity : String → MemoryRepository → MemoryRepository
release_capacity upload_id r = record r { reservations = delete upload_id r.reservations }

-- The number and the bytes of the reservations, once the expired ones are gone.
unfoldable pub capacity_reservation_summary : ℕ → MemoryRepository → ℕ × Int64 × MemoryRepository
capacity_reservation_summary now r =
    let left = unexpired_at now r.reservations in
    (length left, reserved (λ q. true) left, record r { reservations = left })

unfoldable pub set_quota : String → Int64 → MemoryRepository → MemoryRepository
set_quota owner_id quota_bytes r = record r { quotas = insert owner_id quota_bytes r.quotas }

unfoldable pub delete_quota : String → MemoryRepository → MemoryRepository
delete_quota owner_id r = record r { quotas = delete owner_id r.quotas }
