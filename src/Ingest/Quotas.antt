-- ===== src/Ingest/Quotas.antt =====
-- internal/ingest/manager.go: `SetOwnerQuotaAudited` and `ResetOwnerQuotaAudited` over the memory
-- repository. Each writes the repository under its lock and then, apart from it, the table of the
-- manager. strings.TrimSpace is a parameter.
pub mod Changes
pub mod Examples
use secure_file_storage_syst.Prelude.{
  String, Bool, ◌||◌, Option, none, some, List, [], ◌∷◌, if◌then◌else◌, ◌==◌, string_eq,
}
use secure_file_storage_syst.Prelude.Map.{Map, insert, delete}
use secure_file_storage_syst.Prelude.Int64.{Int64, lt64}
use secure_file_storage_syst.Ingest.{Error, invalid_query}
use secure_file_storage_syst.Ingest.Repository.{set_quota, delete_quota}
use secure_file_storage_syst.Ingest.Manager.{Manager}

-- The write of the repository: a new quota, or none.
unfoldable pub store_quota : String → Option Int64 → Manager → Manager
unfolding set_quota delete_quota
store_quota owner_id none m = record m { repository = delete_quota owner_id m.repository }
store_quota owner_id (some quota) m = record m {
  repository = set_quota owner_id quota m.repository;
}

-- The write of the manager's table.
unfoldable pub adopt_quota : String → Option Int64 → Manager → Manager
adopt_quota owner_id none m = record m { owner_quotas = delete owner_id m.owner_quotas }
adopt_quota owner_id (some quota) m = record m {
  owner_quotas = insert owner_id quota m.owner_quotas;
}

-- A quota between 1 MiB and 10 TiB.
abbrev pub refused : String → Int64 → Bool
refused owner_id quota = owner_id == "" || lt64 quota 1048576 || lt64 10995116277760 quota

module _ (trim_space : String → String) where
  unfoldable pub set_owner_quota : String → Int64 → Manager → Option Error × Manager
  set_owner_quota owner quota m =
      let owner_id = trim_space owner in
      if refused owner_id quota
      then (some invalid_query, m)
      else (none, adopt_quota owner_id (some quota) (store_quota owner_id (some quota) m))

  unfoldable pub reset_owner_quota : String → Manager → Option Error × Manager
  reset_owner_quota owner m =
      let owner_id = trim_space owner in
      if owner_id == ""
      then (some invalid_query, m)
      else (none, adopt_quota owner_id none (store_quota owner_id none m))

  -- One call after another: a quota to set, or none to reset it.
  unfoldable pub change_all : List (String × Option Int64) → Manager → Manager
  change_all [] m = m
  change_all ((owner, none) ∷ changes) m = change_all changes (reset_owner_quota owner m).1
  change_all ((owner, some quota) ∷ changes) m =
      change_all changes (set_owner_quota owner quota m).1
