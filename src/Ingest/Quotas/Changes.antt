-- ===== src/Ingest/Quotas/Changes.antt =====
-- What the changes of quotas in internal/ingest/manager.go keep and do.
use secure_file_storage_syst.Prelude.{
  String, ◌≡◌, ap, Option, none, some, List, [], ◌∷◌, arith, if◌then◌else◌, ◌==◌, string_eq,
  Bool-cases, inl, inr,
}
use secure_file_storage_syst.Prelude.Map.{
  lookup, insert, delete, lookup-insert, lookup-delete, lookup-insert_same,
}
use secure_file_storage_syst.Prelude.Int64.{Int64}
use secure_file_storage_syst.Ingest.Repository.{set_quota, delete_quota}
use secure_file_storage_syst.Ingest.Manager.{Manager}
use secure_file_storage_syst.Ingest.Reception.{owner_quota}
use secure_file_storage_syst.Ingest.Quotas.{
  store_quota, adopt_quota, refused, set_owner_quota, reset_owner_quota, change_all,
}

-- The manager goes by the quotas that the repository would give it at its next start.
abbrev pub Agree : Manager → Type 0
Agree m = m.owner_quotas ≡ m.repository.quotas

change-Agree :
    (owner_id : String) (quota : Option Int64) (m : Manager)
    → Agree m
    → Agree (adopt_quota owner_id quota (store_quota owner_id quota m))
unfolding adopt_quota store_quota set_quota delete_quota
change-Agree owner_id none m h = ap (delete owner_id) h
change-Agree owner_id (some quota) m h = ap (insert owner_id quota) h

module _ (trim_space : String → String) where
  set-Agree :
      (owner : String) (quota : Int64) (m : Manager)
      → Agree m
      → Agree (set_owner_quota trim_space owner quota m).1
  unfolding set_owner_quota
  set-Agree owner quota m h = elim (Bool-cases (refused (trim_space owner) quota)) [
    | inl invalid ↦ rw (invalid) h
    | inr valid ↦ rw (valid) (change-Agree (trim_space owner) (some quota) m h)
  ]

  reset-Agree :
      (owner : String) (m : Manager) → Agree m → Agree (reset_owner_quota trim_space owner m).1
  unfolding reset_owner_quota
  reset-Agree owner m h = elim (Bool-cases (trim_space owner == "")) [
    | inl invalid ↦ rw (invalid) h
    | inr valid ↦ rw (valid) (change-Agree (trim_space owner) none m h)
  ]

  -- After any sequence of changes of quotas, one after another, the manager goes by the quotas that
  -- the repository keeps, when it did so before: a restart changes no owner's quota.
  pub change_all-Agree :
      (changes : List (String × Option Int64)) (m : Manager)
      → Agree m
      → Agree (change_all trim_space changes m)
  unfolding change_all
  change_all-Agree [] m h = h
  change_all-Agree ((owner, none) ∷ changes) m h =
      change_all-Agree changes (reset_owner_quota trim_space owner m).1 (reset-Agree owner m h)
  change_all-Agree ((owner, some quota) ∷ changes) m h =
      change_all-Agree changes (set_owner_quota trim_space owner quota m).1
        (set-Agree owner quota m h)

  -- A quota that is set holds for its owner, a reset one gives way to the default, and neither
  -- touches another owner; a refused call changes nothing.
  pub owner_quota-change :
      (owner other : String) (quota : Int64) (m : Manager)
      → (owner_quota other (set_owner_quota trim_space owner quota m).1 ≡ (
          if refused (trim_space owner) quota
          then owner_quota other m
          else if trim_space owner == other
          then quota
          else owner_quota other m))
        × (owner_quota other (reset_owner_quota trim_space owner m).1 ≡ (
            if trim_space owner == ""
            then owner_quota other m
            else if trim_space owner == other
            then m.default_owner_quota_bytes
            else owner_quota other m))
  unfolding set_owner_quota reset_owner_quota owner_quota adopt_quota store_quota
  owner_quota-change owner other quota m = (
    ground (arith, lookup-insert (trim_space owner) other quota m.owner_quotas),
    ground (arith, lookup-delete (trim_space owner) other m.owner_quotas),
  )

pub overlapping_sets :
    (owner_id : String) (first second : Int64) (m : Manager)
    → let t = adopt_quota owner_id (some first) (
        adopt_quota owner_id
          (some second)
          (store_quota owner_id (some second) (store_quota owner_id (some first) m))) in
      (owner_quota owner_id t ≡ first) × (lookup owner_id t.repository.quotas ≡ some second)
unfolding adopt_quota store_quota owner_quota set_quota
overlapping_sets owner_id first second m = (
  ground (arith, lookup-insert_same owner_id first (insert owner_id second m.owner_quotas)),
  lookup-insert_same owner_id second (insert owner_id first m.repository.quotas),
)
