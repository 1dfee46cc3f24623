-- ===== src/Ingest/Repository/Capacity.antt =====
-- The admission control of internal/ingest/repository.go: what `ReserveCapacity` promises.
use secure_file_storage_syst.Prelude.{
  ℕ, ◌+◌, ◌-◌, ◌^◌, ◌≤◌, ◌<◌, String, ◌≡◌, refl, sym, ap, subst, ◌∙◌, Bool, true, false, not, ◌&&◌,
  none, [], ◌∷◌, arith, if◌then◌else◌, string_eq, nat_eq, is_some, beq_refl,
}
use secure_file_storage_syst.Prelude.Map.{Map, lookup, insert, lookup-insert}
use secure_file_storage_syst.Prelude.Int64.{
  Int64, add64, sub64, lt64, add64_small, sub64_small, lt64_small,
}
use secure_file_storage_syst.Ingest.{
  PersistedRecord, CapacityReservationRequest, MemoryRepository, counts_toward_quota,
}
use secure_file_storage_syst.Ingest.Repository.{
  usage, reserved, unexpired_at, owned_by, reserved_for, admit_request, reserve_unexpired,
  reserve_capacity,
}

abbrev Reservations : Type 0
Reservations = Map String CapacityReservationRequest

-- The sums without a wrap-around.
unfoldable pub used_bytes : (PersistedRecord → Bool) → Reservations → Map String PersistedRecord → ℕ
used_bytes test reservations [] = 0
used_bytes test reservations ((id, u) ∷ rest) =
    let others = used_bytes test reservations rest in
    if counts_toward_quota u.status && not (is_some (lookup id reservations)) && test u
    then u.size + others
    else others

unfoldable pub reserved_bytes : (CapacityReservationRequest → Bool) → Reservations → ℕ
reserved_bytes test [] = 0
reserved_bytes test ((id, q) ∷ rest) =
    let others = reserved_bytes test rest in if test q then q.bytes + others else others

-- What an owner is charged, and what everybody is: the stored uploads and the reservations.
unfoldable pub owner_charge : String → MemoryRepository → ℕ
unfolding used_bytes reserved_bytes
owner_charge owner_id r =
    used_bytes (owned_by owner_id) r.reservations r.records
    + reserved_bytes (reserved_for owner_id) r.reservations

unfoldable pub total_charge : MemoryRepository → ℕ
unfolding used_bytes reserved_bytes
total_charge r =
    used_bytes (λ u. true) r.reservations r.records + reserved_bytes (λ q. true) r.reservations

usage_exact :
    (test : PersistedRecord → Bool) (m : Reservations) (records : Map String PersistedRecord)
    → used_bytes test m records < 2 ^ 63
    → usage test m records ≡ used_bytes test m records
unfolding usage used_bytes
usage_exact test m [] small = refl
usage_exact test m ((id, u) ∷ rest) small =
    ground (arith, usage_exact test m rest, add64_small u.size (used_bytes test m rest))

reserved_exact :
    (test : CapacityReservationRequest → Bool) (m : Reservations)
    → reserved_bytes test m < 2 ^ 63
    → reserved test m ≡ reserved_bytes test m
unfolding reserved reserved_bytes
reserved_exact test [] small = refl
reserved_exact test ((id, q) ∷ rest) small =
    ground (arith, reserved_exact test rest, add64_small q.bytes (reserved_bytes test rest))

used_bytes-le :
    (test : PersistedRecord → Bool) (m : Reservations) (records : Map String PersistedRecord)
    → used_bytes test m records ≤ used_bytes (λ u. true) m records
unfolding used_bytes
used_bytes-le test m [] = omega arith
used_bytes-le test m ((id, u) ∷ rest) = ground (arith, used_bytes-le test m rest)

reserved_bytes-le :
    (test : CapacityReservationRequest → Bool) (m : Reservations)
    → reserved_bytes test m ≤ reserved_bytes (λ q. true) m
unfolding reserved_bytes
reserved_bytes-le test [] = omega arith
reserved_bytes-le test ((id, q) ∷ rest) = ground (arith, reserved_bytes-le test rest)

used_bytes-insert :
    (test : PersistedRecord → Bool) (id : String) (q : CapacityReservationRequest)
    (m : Reservations) (records : Map String PersistedRecord)
    → used_bytes test (insert id q m) records ≤ used_bytes test m records
unfolding used_bytes
used_bytes-insert test id q m [] = omega arith
used_bytes-insert test id q m ((j, u) ∷ rest) =
    ground (arith, used_bytes-insert test id q m rest, lookup-insert id j q m)

reserved_bytes-insert :
    (test : CapacityReservationRequest → Bool) (id : String) (q : CapacityReservationRequest)
    (m : Reservations)
    → lookup id m ≡ none
    → reserved_bytes test (insert id q m) ≡ (if test q then q.bytes else 0) + reserved_bytes test m
unfolding reserved_bytes insert lookup
reserved_bytes-insert test id q [] new = ground arith
reserved_bytes-insert test id q ((j, w) ∷ m) new = ground (arith, reserved_bytes-insert test id q m)

not_above : (limit n : ℕ) → limit < 2 ^ 63 → n < 2 ^ 63 → lt64 limit n ≡ false → n ≤ limit
not_above limit n small_limit small_n passed =
    ground (arith, lt64_small limit n small_limit small_n)

-- The sum that the check compares, of a usage, the reservations and the bytes that are asked for.
sum_exact :
    (test : PersistedRecord → Bool) (wanted : CapacityReservationRequest → Bool) (m : Reservations)
    (records : Map String PersistedRecord) (bytes : Int64)
    → used_bytes test m records + reserved_bytes wanted m + bytes < 2 ^ 63
    → add64 (add64 (usage test m records) (reserved wanted m)) bytes
      ≡ used_bytes test m records + reserved_bytes wanted m + bytes
sum_exact test wanted m records bytes small =
    let a = used_bytes test m records in
    let b = reserved_bytes wanted m in
    let usage_is : usage test m records ≡ a = usage_exact test m records (omega arith) in
    let reserved_is : reserved wanted m ≡ b = reserved_exact wanted m (omega arith) in
    rw (usage_is, reserved_is)
      (ap (λ (n : ℕ). add64 n bytes) (add64_small a b (omega arith))
        ∙ add64_small (a + b) bytes (omega arith))

module _ (q : CapacityReservationRequest) (r : MemoryRepository) where
  -- The repository with the expired reservations gone.
  abbrev pub swept : MemoryRepository
  swept = record r { reservations = unexpired_at q.now r.reservations }

  -- The bounds under which no sum of the check wraps around.
  pub record IsSmall : Type 0 where
    pub sums : total_charge swept + q.bytes < 2 ^ 63
    pub quota : q.owner_quota_bytes < 2 ^ 63
    pub capacity : q.storage_capacity_bytes < 2 ^ 63
    pub reserve : q.storage_reserve_bytes < 2 ^ 63

  guards :
      lookup q.upload_id swept.reservations ≡ none
      → (reserve_capacity q r).0 ≡ none
      → let m = swept.reservations in
        (lt64 q.owner_quota_bytes (
            add64
              (add64
                (usage (owned_by q.owner_id) m r.records)
                (reserved (reserved_for q.owner_id) m))
              q.bytes)
          ≡ false)
        × (lt64
              (sub64 q.storage_capacity_bytes q.storage_reserve_bytes)
              (add64 (add64 (usage (λ u. true) m r.records) (reserved (λ q'. true) m)) q.bytes)
            ≡ false)
        × (lt64 q.storage_reserve_bytes q.storage_capacity_bytes ≡ true)
        × ((reserve_capacity q r).1
            ≡ record swept { reservations = insert q.upload_id q swept.reservations })
  unfolding reserve_capacity reserve_unexpired admit_request
  guards new done =
      (ground (arith, new), ground (arith, new), ground (arith, new), ground (arith, new))

  admitted :
      lookup q.upload_id swept.reservations ≡ none
      → (reserve_capacity q r).0 ≡ none
      → IsSmall
      → (owner_charge q.owner_id swept + q.bytes ≤ q.owner_quota_bytes)
        × (total_charge swept + q.bytes ≤ q.storage_capacity_bytes - q.storage_reserve_bytes)
        × ((reserve_capacity q r).1
            ≡ record swept { reservations = insert q.upload_id q swept.reservations })
  unfolding reserve_capacity owner_charge total_charge
  admitted new done small =
      let m = swept.reservations in
      let below_used = used_bytes-le (owned_by q.owner_id) m r.records in
      let below_reserved = reserved_bytes-le (reserved_for q.owner_id) m in
      let owner_sum =
        sum_exact (owned_by q.owner_id) (reserved_for q.owner_id) m r.records q.bytes
          (omega (arith, small.sums, below_used, below_reserved)) in
      let total_sum = sum_exact (λ u. true) (λ q'. true) m r.records q.bytes small.sums in
      let (quota_ok, capacity_ok, reserve_ok, state) = guards new done in
      let small_reserve : q.storage_reserve_bytes < q.storage_capacity_bytes = ground (
        arith,
        reserve_ok,
        lt64_small q.storage_reserve_bytes q.storage_capacity_bytes small.reserve small.capacity,
      ) in
      let free =
        sub64_small q.storage_capacity_bytes q.storage_reserve_bytes (omega arith) small.capacity in
      (
        not_above q.owner_quota_bytes _ small.quota
            (omega (arith, small.sums, below_used, below_reserved))
            (ap (λ (n : ℕ). lt64 q.owner_quota_bytes n) (sym owner_sum) ∙ quota_ok),
        not_above (q.storage_capacity_bytes - q.storage_reserve_bytes) _
            (omega (arith, small.capacity)) small.sums
            (ap (λ (k : ℕ). lt64 k (total_charge swept + q.bytes)) (sym free)
              ∙ ap (λ (n : ℕ). lt64 (sub64 q.storage_capacity_bytes q.storage_reserve_bytes) n)
                  (sym total_sum)
              ∙ capacity_ok),
        state,
      )

  -- A reservation is admitted only within both limits: when it succeeds for an upload that has none,
  -- what the owner is charged afterwards, the uploads that count and the reservations together, is
  -- within the owner's quota, and what everybody is charged is within the capacity less the reserve.
  -- Its premise is that no sum of the check leaves the range of int64.
  pub reserve_within_limits :
      lookup q.upload_id swept.reservations ≡ none
      → (reserve_capacity q r).0 ≡ none
      → IsSmall
      → (owner_charge q.owner_id (reserve_capacity q r).1 ≤ q.owner_quota_bytes)
        × (total_charge (reserve_capacity q r).1
            ≤ q.storage_capacity_bytes - q.storage_reserve_bytes)
  unfolding owner_charge total_charge
  reserve_within_limits new done small =
      let m = swept.reservations in
      let (owner_ok, total_ok, state) = admitted new done small in
      let own = used_bytes-insert (owned_by q.owner_id) q.upload_id q m r.records in
      let all = used_bytes-insert (λ u. true) q.upload_id q m r.records in
      let held = reserved_bytes-insert (reserved_for q.owner_id) q.upload_id q m new in
      let held_all = reserved_bytes-insert (λ q'. true) q.upload_id q m new in
      (
        subst (λ (s : MemoryRepository). owner_charge q.owner_id s ≤ q.owner_quota_bytes)
            (sym state) (ground (arith, owner_ok, own, held, beq_refl q.owner_id)),
        subst
            (λ (s : MemoryRepository).
              total_charge s ≤ q.storage_capacity_bytes - q.storage_reserve_bytes)
            (sym state) (ground (arith, total_ok, all, held_all)),
      )
