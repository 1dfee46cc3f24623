-- ===== src/Ingest/Recovery/Examples.antt =====
-- A start of the manager of internal/ingest over three uploads: one to resume, one whose reception never
-- ended and one that is stored.
use secure_file_storage_syst.Prelude.{
  none, some, is_ok, String, ◌≡◌, refl, true, false, [], ◌∷◌, All, ok, string_eq, nat_eq,
}
use secure_file_storage_syst.Prelude.Map.{Map, insert, lookup, delete}
use secure_file_storage_syst.Prelude.Bytes.{Bytes, bytes_eq, utf8, utf8_char}
use secure_file_storage_syst.Prelude.Int64.{lt64}
use secure_file_storage_syst.Ingest.{
  inspecting, quarantined, stored, valid_status, PersistedRecord, new_memory_repository,
}
use secure_file_storage_syst.Ingest.Repository.{update_record, release_capacity}
use secure_file_storage_syst.Ingest.Manager.{persist_lifecycle, update}
use secure_file_storage_syst.Ingest.Reception.Admission.{record_from_persisted}
use secure_file_storage_syst.Ingest.Recovery.{
  is_protected, Config, Answers, Recovering, new_manager, refusal, recover_all, recover_entry,
  recover_pending,
}
use secure_file_storage_syst.Ingest.Manager
use secure_file_storage_syst.Ingest.Manager.{inspect, protect}
use secure_file_storage_syst.Ingest.Manager.Outcome.{HasEnded, final_status, protection_status}
use secure_file_storage_syst.Ingest.Manager.Inspection.{kept_by}
use secure_file_storage_syst.Ingest.Recovery.Resumption.{restart_outcome}
use secure_file_storage_syst.Ingest.Recovery.Starting.{new_manager_starts}
use secure_file_storage_syst.Ingest.Recovery.Settling.{Settles, new_manager-Settles}

abbrev eight : String → String
eight rest = String.◌∷◌ "h" (
    String.◌∷◌ "h" (
      String.◌∷◌ "h"
        (String.◌∷◌ "h" (String.◌∷◌ "h" (String.◌∷◌ "h" (String.◌∷◌ "h" (String.◌∷◌ "h" rest)))))))

abbrev hash : String
hash = eight (eight (eight (eight (eight (eight (eight (eight "")))))))

abbrev waiting : PersistedRecord
waiting = record {
  id = "u1";
  name = "a.txt";
  size = 4;
  declared_media_type = "text/plain";
  detected_media_type = "text/plain";
  status = inspecting;
  progress = 50;
  decision_reason = "";
  correlation_id = "c1";
  created_at = 3;
  owner_id = "al";
  quarantine_object = "u1.upload";
  digest = "d1";
  idempotency_hash = hash;
}

abbrev broken_off : PersistedRecord
broken_off = record waiting {
  id = "u2";
  size = 0;
  status = quarantined;
  quarantine_object = "u2.upload";
}

abbrev kept : PersistedRecord
kept = record waiting { id = "u3"; status = stored; quarantine_object = "u3.upload" }

abbrev config : Config
config = record {
  quarantine_dir = "q";
  max_upload_bytes = 100;
  has_scanner = true;
  repository = record new_memory_repository {
    records = ("u1", waiting) ∷ ("u2", broken_off) ∷ ("u3", kept) ∷ [];
  };
  default_owner_quota_bytes = 0;
  storage_capacity_bytes = 0;
  storage_reserve_bytes = 0;
  reservation_ttl = 0;
  has_protected_store = true;
}

abbrev answers : Answers
answers = record { made_directory = true; stat_fails = λ object. false; recorded = λ id. true }

abbrev disk : Map String Bytes
disk = ("u1.upload", 1 ∷ 2 ∷ 3 ∷ 4 ∷ []) ∷ ("u2.upload", 1 ∷ []) ∷ []

restarted :
    (st : Recovering) × (new_manager config answers disk ≡ ok st)
    × (lookup "u1" st.0.uploads ≡ some waiting)
unfolding valid_status new_manager refusal recover_all recover_entry recover_pending
    record_from_persisted persist_lifecycle update update_record release_capacity insert lookup
    delete utf8 utf8_char lt64
restarted = (_, refl, refl)

new_manager-Settles_example : All (Settles disk true restarted.0.1) restarted.0.0.uploads
new_manager-Settles_example =
    new_manager-Settles config answers disk restarted.0.0 restarted.0.1 restarted.1

new_manager_starts_example : is_ok (new_manager config answers disk) ≡ true
unfolding valid_status refusal record_from_persisted lookup utf8 utf8_char lt64
new_manager_starts_example =
    new_manager_starts config answers disk refl (λ id. refl) (λ object. refl)
      (refl, (refl, (refl, tt))) (refl, (refl, (refl, tt)))

abbrev all_well : Manager.Answers
all_well = record {
  started_recorded = true;
  scan = some (record { accepted = true; reason = "" });
  completed_recorded = true;
  protection_recorded = true;
  opened = true;
  protected = true;
  registered = true;
  stored_recorded = true;
  failure_recorded = true;
}

restart_outcome_example :
    HasEnded "u1" "u1.upload"
      (final_status all_well restarted.0.0.has_protected_store)
      (kept_by "u1" "u1.upload"
        (final_status all_well restarted.0.0.has_protected_store)
        (lookup "u1.upload" restarted.0.0.quarantine))
      (inspect all_well "u1" restarted.0.0)
    × (is_protected inspecting ≡ true
        → HasEnded "u1" "u1.upload"
            (protection_status all_well)
            none
            (protect all_well "u1" restarted.0.0))
unfolding lookup
restart_outcome_example =
    restart_outcome config answers all_well disk restarted.0.0 restarted.0.1 "u1" waiting
      (refl, (refl, (refl, tt))) restarted.1 restarted.2
