-- ===== src/Ingest/Quotas/Examples.antt =====
-- Changes of quotas in internal/ingest at a manager of one owner.
use secure_file_storage_syst.Prelude.{◌≡◌, refl, true, none, some, [], ◌∷◌, string_eq}
use secure_file_storage_syst.Prelude.Map.{lookup}
use secure_file_storage_syst.Ingest.{new_memory_repository}
use secure_file_storage_syst.Ingest.Manager.{Manager}
use secure_file_storage_syst.Ingest.Reception.{owner_quota}
use secure_file_storage_syst.Ingest.Quotas.{store_quota, adopt_quota, change_all}
use secure_file_storage_syst.Ingest.Quotas.Changes.{Agree, change_all-Agree, overlapping_sets}

abbrev manager : Manager
manager = record {
  uploads = [];
  idempotency = [];
  repository = record new_memory_repository { quotas = ("al", 2097152) ∷ [] };
  quarantine = [];
  has_protected_store = true;
  owner_reservations = [];
  owner_quotas = ("al", 2097152) ∷ [];
  max_upload_bytes = 100;
  default_owner_quota_bytes = 1073741824;
  storage_capacity_bytes = 53687091200;
  storage_reserve_bytes = 5368709120;
  reservation_ttl = 3600000000000;
}

change_all-Agree_example : Agree (
    change_all
      (λ owner. owner)
      (("al", some 4194304) ∷ ("bo", some 2097152) ∷ ("al", none) ∷ [])
      manager)
change_all-Agree_example =
    change_all-Agree (λ owner. owner)
      (("al", some 4194304) ∷ ("bo", some 2097152) ∷ ("al", none) ∷ []) manager refl

overlapping_sets_example :
    (owner_quota "al" (
        adopt_quota "al" (some 4194304) (
          adopt_quota "al"
            (some 8388608)
            (store_quota "al" (some 8388608) (store_quota "al" (some 4194304) manager))))
      ≡ 4194304)
    × (lookup "al"
          (adopt_quota "al" (some 4194304) (
            adopt_quota "al" (some 8388608) (
              store_quota "al"
                (some 8388608)
                (store_quota "al" (some 4194304) manager)))).repository.quotas
        ≡ some 8388608)
overlapping_sets_example = overlapping_sets "al" 4194304 8388608 manager
