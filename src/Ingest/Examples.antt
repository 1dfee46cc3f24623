-- ===== src/Ingest/Examples.antt =====
-- The theorems on internal/ingest at a repository with one stored upload and one in quarantine.
use secure_file_storage_syst.Prelude.{◌-◌, ◌≤◌, refl, keep, true, some, [], ◌∷◌, arith, string_eq}
use secure_file_storage_syst.Prelude.Map.{lookup}
use secure_file_storage_syst.Prelude.Bytes.{bytes_eq}
use secure_file_storage_syst.Prelude.Int64.{add64, sub64, lt64}
use secure_file_storage_syst.Ingest.{
  quarantined, stored, PersistedRecord, CapacityReservationRequest, MemoryRepository,
  new_memory_repository, idempotency_index, counts_toward_quota,
}
use secure_file_storage_syst.Ingest.Repository.{reserve_capacity, unexpired_at, usage, reserved}
use secure_file_storage_syst.Ingest.Repository.Capacity.{
  owner_charge, total_charge, used_bytes, reserved_bytes, IsSmall, reserve_within_limits,
}
use secure_file_storage_syst.Ingest.Manager.{Manager, Answers, inspect}
use secure_file_storage_syst.Ingest.Manager.Outcome.{IsTracked, HasEnded, final_status}
use secure_file_storage_syst.Ingest.Manager.Inspection.{kept_by, inspect_outcome}

abbrev waiting : PersistedRecord
waiting = record {
  id = "u2";
  name = "b.txt";
  size = 0;
  declared_media_type = "text/plain";
  detected_media_type = "text/plain";
  status = quarantined;
  progress = 25;
  decision_reason = "";
  correlation_id = "c2";
  created_at = 3;
  owner_id = "alice";
  quarantine_object = "u2.upload";
  digest = "d2";
  idempotency_hash = "h2";
}

abbrev done : PersistedRecord
done = record waiting {
  id = "u1";
  size = 40;
  status = stored;
  quarantine_object = "u1.upload";
  idempotency_hash = "h1";
}

abbrev two : MemoryRepository
two = record new_memory_repository { records = ("u1", done) ∷ ("u2", waiting) ∷ [] }

abbrev request : CapacityReservationRequest
request = record {
  upload_id = "u2";
  owner_id = "alice";
  bytes = 50;
  owner_quota_bytes = 100;
  storage_capacity_bytes = 1000;
  storage_reserve_bytes = 100;
  now = 4;
  expires_at = 9;
}

request-IsSmall : IsSmall request two
unfolding total_charge used_bytes reserved_bytes unexpired_at counts_toward_quota lookup keep
request-IsSmall = record {
  sums = omega arith;
  quota = omega arith;
  capacity = omega arith;
  reserve = omega arith;
}

reserve_within_limits_example :
    (owner_charge "alice" (reserve_capacity request two).1 ≤ 100)
    × (total_charge (reserve_capacity request two).1 ≤ 1000 - 100)
unfolding reserve_capacity unexpired_at lookup keep usage reserved counts_toward_quota add64 sub64
    lt64
reserve_within_limits_example = reserve_within_limits request two refl refl request-IsSmall

abbrev manager : Manager
manager = record {
  uploads = ("u2", waiting) ∷ [];
  repository = two;
  quarantine = ("u2.upload", 7 ∷ []) ∷ [];
  has_protected_store = true;
  idempotency = (idempotency_index waiting, "u2") ∷ [];
  owner_reservations = [];
  owner_quotas = [];
  max_upload_bytes = 10;
  default_owner_quota_bytes = 1000;
  storage_capacity_bytes = 5000;
  storage_reserve_bytes = 500;
  reservation_ttl = 3600;
}

abbrev answers : Answers
answers = record {
  started_recorded = true;
  scan = some (record { accepted = true; reason = "" });
  completed_recorded = true;
  protection_recorded = true;
  opened = true;
  protected = true;
  registered = true;
  stored_recorded = true;
  failure_recorded = true;
}

waiting-IsTracked : IsTracked "u2" "u2.upload" waiting manager
unfolding lookup
waiting-IsTracked = record { found = refl; own = refl; its_object = refl; known = refl }

inspect_outcome_example :
    let status = final_status answers true in
    HasEnded "u2" "u2.upload" status
      (kept_by "u2" "u2.upload" status (lookup "u2.upload" manager.quarantine))
      (inspect answers "u2" manager)
inspect_outcome_example = inspect_outcome "u2" "u2.upload" answers waiting manager waiting-IsTracked
