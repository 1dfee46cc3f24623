-- ===== src/Ingest/Reception/Examples.antt =====
-- The theorems on `create` of internal/ingest/manager.go at an upload of three bytes, in two reads.
use secure_file_storage_syst.Prelude.{
  String, ◌≡◌, ◌⊎◌, refl, true, false, some, [], ◌∷◌, arith, string_eq, any, ok, err,
}
use secure_file_storage_syst.Prelude.Time.{truncate}
use secure_file_storage_syst.Prelude.Map.{lookup, insert, delete}
use secure_file_storage_syst.Prelude.Bytes.{Bytes, utf8, utf8_char}
use secure_file_storage_syst.Ingest.{
  invalid_file, PersistedRecord, new_memory_repository, quarantined, counts_toward_quota,
}
use secure_file_storage_syst.Ingest.Manager.{Manager, persist_lifecycle, update}
use secure_file_storage_syst.Ingest.Manager
use secure_file_storage_syst.Ingest.Manager.{inspect}
use secure_file_storage_syst.Ingest.Manager.Outcome.{HasEnded, final_status}
use secure_file_storage_syst.Ingest.Manager.Inspection.{kept_by}
use secure_file_storage_syst.Ingest.Reception.Lifetime.{upload_outcome}
use secure_file_storage_syst.Ingest.Reception.{
  Primitives, Request, Draws, Read, Answers, more, eof, entry_of, Ending, safe_display_name,
  give_back, owner_quota, owner_quota_usage,
}
use secure_file_storage_syst.Ingest.Reception.Body.{
  receive_body, streamed_or_failed, stream, receive, hold, write, finish_upload,
  persisted_or_failed, fail, cleanup,
}
use secure_file_storage_syst.Ingest.Repository.{
  create_record, update_record, delete_record, release_capacity,
}
use secure_file_storage_syst.Prelude.Int64.{lt64, add64, sub64}
use secure_file_storage_syst.Ingest.Reception.Holding.{IsReserved}
use secure_file_storage_syst.Ingest.Reception.Receipt.{Receipt}
use secure_file_storage_syst.Ingest.Reception.Admission.{
  create, create_new, after_create, reserve, admit_upload,
}
use secure_file_storage_syst.Ingest.Reception.Outcome.{IsNew, pruned}
use secure_file_storage_syst.Ingest.Reception.Failure.{
  failed_create_restores, create-Receipt, create_retry,
}

abbrev plain : Primitives
plain = record {
  sha256_hex = λ bytes. "00";
  detect_content_type = λ bytes. "text/plain";
  replace_backslashes = λ text. text;
  base = λ text. text;
  trim_space = λ text. text;
}

abbrev request : Request
request = record {
  owner_id = "alice";
  idempotency_key = "key-0001";
  original_name = "a.txt";
  declared_media_type = "";
  has_source = true;
  expected_size = 0;
}

abbrev draws : Draws
draws = record { upload_id = some "u1"; correlation_id = some "c1"; now = 5000 }

abbrev read : Bytes → Ending → Read
read bytes ending = record { is_cancelled = false; bytes = bytes; written = true; ending = ending }

abbrev answers : Answers
answers = record {
  opened = true;
  reads = read (1 ∷ 2 ∷ []) more ∷ read (3 ∷ []) eof ∷ [];
  synced = true;
  closed = true;
  recorded = true;
}

-- An empty body.
abbrev no_body : Answers
no_body = record answers { reads = [] }

abbrev manager : Manager
manager = record {
  uploads = [];
  idempotency = [];
  repository = new_memory_repository;
  quarantine = [];
  has_protected_store = true;
  owner_reservations = [];
  owner_quotas = [];
  max_upload_bytes = 10;
  default_owner_quota_bytes = 100;
  storage_capacity_bytes = 1000;
  storage_reserve_bytes = 100;
  reservation_ttl = 60;
}

drawn-IsNew : (id : String) → draws.upload_id ≡ some id → IsNew id manager
unfolding lookup
drawn-IsNew id same = record { uploads = refl; records = refl; reservations = refl; object = refl }

none-IsReserved : IsReserved "alice" manager.owner_reservations
unfolding lookup
none-IsReserved = record { positive = λ v has. absurd (ground arith) }

-- The upload that is accepted.
abbrev upload : PersistedRecord
upload = record {
  id = "u1";
  name = "a.txt";
  size = 3;
  declared_media_type = "application/octet-stream";
  detected_media_type = "text/plain";
  status = quarantined;
  progress = 25;
  decision_reason = "";
  correlation_id = "c1";
  created_at = 5000;
  owner_id = "alice";
  quarantine_object = "u1.upload";
  digest = "00";
  idempotency_hash = "00";
}

created : (create plain request draws answers manager).0 ≡ ok (upload, false)
unfolding create create_new after_create create_record entry_of safe_display_name reserve
    admit_upload receive_body streamed_or_failed stream receive hold write finish_upload
    persisted_or_failed persist_lifecycle update update_record fail cleanup give_back owner_quota
    owner_quota_usage counts_toward_quota release_capacity delete_record lt64 add64 sub64 lookup
    insert delete utf8 utf8_char any
created = refl

refused : (create plain request draws no_body manager).0 ≡ err invalid_file
unfolding create create_new after_create create_record entry_of safe_display_name reserve
    admit_upload receive_body streamed_or_failed stream receive hold write finish_upload
    persisted_or_failed persist_lifecycle update update_record fail cleanup give_back owner_quota
    owner_quota_usage counts_toward_quota release_capacity delete_record lt64 add64 sub64 lookup
    insert delete utf8 utf8_char any
refused = refl

failed_create_restores_example :
    let m' = (create plain request draws no_body manager).1 in
    (m' ≡ manager) ⊎ (m' ≡ pruned (truncate 5000) manager)
failed_create_restores_example =
    failed_create_restores plain request draws no_body manager invalid_file drawn-IsNew
      none-IsReserved (omega arith) refused

create-Receipt_example :
    Receipt plain request manager upload (create plain request draws answers manager).1
create-Receipt_example =
    create-Receipt plain request draws answers manager upload drawn-IsNew none-IsReserved
      (omega arith) created

create_retry_example :
    let m' = (create plain request draws answers manager).1 in
    create plain request draws no_body m' ≡ (ok (upload, true), m')
create_retry_example =
    create_retry plain request draws draws answers no_body manager upload drawn-IsNew
      none-IsReserved (omega arith) created

abbrev scan : Manager.Answers
scan = record {
  started_recorded = true;
  scan = some (record { accepted = false; reason = "malware" });
  completed_recorded = true;
  protection_recorded = true;
  opened = true;
  protected = true;
  registered = true;
  stored_recorded = true;
  failure_recorded = true;
}

upload_outcome_example :
    let m' = (create plain request draws answers manager).1 in
    let status = final_status scan m'.has_protected_store in
    (body : Bytes) × (upload.digest ≡ plain.sha256_hex body)
    × HasEnded "u1" "u1.upload" status
        (kept_by "u1" "u1.upload" status (some body))
        (inspect scan "u1" m')
upload_outcome_example =
    upload_outcome plain request draws answers scan manager upload drawn-IsNew none-IsReserved
      (omega arith) created
