-- ===== src/Ingest/Manager/Outcome.antt =====
-- How the run of an upload ends: `inspect` and `protect` of internal/ingest/manager.go.
use secure_file_storage_syst.Prelude.{
  String, ◌≡◌, refl, sym, subst, ◌∙◌, Bool, true, false, not, ◌&&◌, ◌||◌, Option, none, some, arith,
  if◌then◌else◌, string_eq, is_some, Bool-cases, inl, inr, beq_refl,
}
use secure_file_storage_syst.Prelude.Map.{lookup, lookup-insert, lookup-delete}
use secure_file_storage_syst.Prelude.Bytes.{Bytes}
use secure_file_storage_syst.Ingest.{
  Status, accepted, encrypting, stored, rejected, failed, PersistedRecord,
}
use secure_file_storage_syst.Ingest.Repository.{update_record, release_capacity}
use secure_file_storage_syst.Ingest.Manager.{
  Manager, Answers, put, update, settled, persist_lifecycle, fail_persistence, fail_protection,
  unless_failed, finish_protection, commit_protection, encrypt, start_protection, protect,
  may_protect, release,
}

-- The upload is there with its record, in the manager and in the repository.
pub record IsTracked (id object : String) (u : PersistedRecord) (m : Manager) : Type 0 where
  pub found : lookup id m.uploads ≡ some u
  pub own : u.id ≡ id
  pub its_object : u.quarantine_object ≡ object
  pub known : is_some (lookup id m.repository.records) ≡ true

-- The upload has the status, its object in quarantine is what is said, and it reserves nothing.
pub record HasEnded (id object : String) (status : Status) (kept : Option Bytes) (m : Manager)
    : Type 0 where
  pub u : PersistedRecord
  pub found : lookup id m.uploads ≡ some u
  pub status_is : u.status ≡ status
  pub object_is : lookup object m.quarantine ≡ kept
  pub released : lookup id m.repository.reservations ≡ none

-- The status that a run of the protection ends with.
abbrev pub protection_status : Answers → Status
protection_status a =
    if a.protection_recorded && a.opened && a.protected && a.registered && a.stored_recorded
    then stored
    else failed

-- The status that a run of the inspection ends with.
abbrev pub final_status : Answers → Bool → Status
final_status a has_protected_store =
    if not a.started_recorded || not a.completed_recorded then failed else elim a.scan [
      | none ↦ failed
      | some result ↦
          if not result.accepted
          then rejected
          else if has_protected_store
          then protection_status a
          else accepted
    ]

-- Giving up a reservation touches the repository only.
pub release_keeps :
    (id : String) (m : Manager)
    → ((release id m).uploads ≡ m.uploads)
      × ((release id m).quarantine ≡ m.quarantine)
      × ((release id m).has_protected_store ≡ m.has_protected_store)
      × ((release id m).repository.records ≡ m.repository.records)
unfolding release release_capacity
release_keeps id m = (refl, refl, refl, refl)

module _ (id object : String) where
  pub record IsPersisted (recorded : Bool) (u : PersistedRecord) (m : Manager) (x : Bool × Manager)
      : Type 0 where
    pub answer : x.0 ≡ recorded
    pub tracked : IsTracked id object u x.1
    pub same_quarantine : x.1.quarantine ≡ m.quarantine
    pub same_store : x.1.has_protected_store ≡ m.has_protected_store

  pub recast :
      (status status' : Status) (kept kept' : Option Bytes) (m : Manager)
      → status ≡ status'
      → kept ≡ kept'
      → HasEnded id object status kept m
      → HasEnded id object status' kept' m
  recast status status' kept kept' m e k h = record {
    u = h.u;
    found = h.found;
    status_is = h.status_is ∙ e;
    object_is = h.object_is ∙ k;
    released = h.released;
  }

  pub persist-IsPersisted :
      (recorded : Bool) (old u : PersistedRecord) (m : Manager)
      → IsTracked id object old m
      → u.id ≡ id
      → u.quarantine_object ≡ object
      → IsPersisted recorded u m (persist_lifecycle recorded u (put id u m))
  unfolding persist_lifecycle update update_record
  persist-IsPersisted recorded old u m t own its_object = record {
    answer = ground (arith, t.known, own);
    tracked = record {
      found = ground (arith, lookup-insert id id u m.uploads, beq_refl id);
      own = own;
      its_object = its_object;
      known =
          ground (arith, t.known, own, lookup-insert u.id id u m.repository.records, beq_refl id);
    };
    same_quarantine = ground arith;
    same_store = ground arith;
  }

  fail_persistence-HasEnded :
      (u : PersistedRecord) (m : Manager)
      → IsTracked id object u m
      → HasEnded id object failed none (fail_persistence id m)
  unfolding fail_persistence update update_record release_capacity
  fail_persistence-HasEnded u m t =
      let u' = settled failed 100 "metadata_persistence_unavailable" u in
      record {
        u = u';
        found = ground (arith, t.found, lookup-insert id id u' m.uploads, beq_refl id);
        status_is = refl;
        object_is = ground (
          arith,
          t.found,
          t.its_object,
          beq_refl object,
          lookup-delete object object m.quarantine,
        );
        released =
            ground (arith, t.found, beq_refl id, lookup-delete id id m.repository.reservations);
      }

  fail_protection-HasEnded :
      (recorded : Bool) (reason : String) (u : PersistedRecord) (m : Manager)
      → IsTracked id object u m
      → HasEnded id object failed none (fail_protection recorded reason id m)
  unfolding fail_protection persist_lifecycle update update_record release_capacity
  fail_protection-HasEnded recorded reason u m t =
      let u' = settled failed 100 reason u in
      record {
        u = u';
        found = ground (arith, t.found, lookup-insert id id u' m.uploads, beq_refl id);
        status_is = refl;
        object_is = ground (
          arith,
          t.found,
          t.its_object,
          beq_refl object,
          lookup-delete object object m.quarantine,
        );
        released =
            ground (arith, t.found, beq_refl id, lookup-delete id id m.repository.reservations);
      }

  finish-HasEnded :
      (u : PersistedRecord) (m : Manager)
      → IsTracked id object u m
      → HasEnded id object u.status none (finish_protection id object m)
  unfolding finish_protection release_capacity
  finish-HasEnded u m t = record {
    u = u;
    found = t.found;
    status_is = refl;
    object_is = ground (arith, beq_refl object, lookup-delete object object m.quarantine);
    released = ground (arith, beq_refl id, lookup-delete id id m.repository.reservations);
  }

  -- What `unless_failed` makes of a run after a record is persisted.
  pub unless-HasEnded :
      (recorded : Bool) (u : PersistedRecord) (m : Manager) (x : Bool × Manager)
      (next : Manager → Manager) (status : Status) (kept : Option Bytes)
      → IsPersisted recorded u m x
      → (recorded ≡ true → HasEnded id object status kept (next x.1))
      → HasEnded id object
          (if recorded then status else failed)
          (if recorded then kept else none)
          (unless_failed id next x)
  unfolding unless_failed
  unless-HasEnded true u m (b, m') next status kept p on = rw (p.answer, unless_failed) (on refl)
  unless-HasEnded false u m (b, m') next status kept p on =
      rw (p.answer, unless_failed) (fail_persistence-HasEnded u m' p.tracked)

  commit-HasEnded :
      (a : Answers) (u : PersistedRecord) (m : Manager)
      → IsTracked id object u m
      → HasEnded id object
          (if a.stored_recorded then stored else failed)
          none
          (commit_protection a id m)
  unfolding commit_protection
  commit-HasEnded a u m t =
      let u' = settled stored 100 "protected_storage_committed" u in
      let p = persist-IsPersisted a.stored_recorded u u' m t t.own t.its_object in
      let x = persist_lifecycle a.stored_recorded u' (put id u' m) in
      subst
        (λ (k : Option Bytes).
          HasEnded id object (if a.stored_recorded then stored else failed) k
            (commit_protection a id m))
        {x = if a.stored_recorded then none else none} {y = none} (ground arith)
        (rw (t.found, commit_protection)
          (unless-HasEnded a.stored_recorded u' m x (finish_protection id u.quarantine_object)
            stored none p
            (λ yes.
              subst (λ (o : String). HasEnded id object stored none (finish_protection id o x.1))
                {x = object} {y = u.quarantine_object} (sym t.its_object)
                (finish-HasEnded u' x.1 p.tracked))))

  encrypt_opened-HasEnded :
      (a : Answers) (u : PersistedRecord) (m : Manager)
      → IsTracked id object u m
      → a.opened ≡ true
      → a.protected ≡ true
      → HasEnded id object
          (if a.opened && a.protected && a.registered && a.stored_recorded then stored else failed)
          none
          (encrypt a id m)
  unfolding encrypt
  encrypt_opened-HasEnded a u m t opens encrypts = elim (Bool-cases a.registered) [
    | inl is_registered ↦ rw (opens, encrypts, is_registered, encrypt) (commit-HasEnded a u m t)
    | inr not_registered ↦
        rw (opens, encrypts, not_registered, encrypt)
          (fail_protection-HasEnded a.failure_recorded "version_catalog_unavailable" u m t)
  ]

  encrypt-HasEnded :
      (a : Answers) (u : PersistedRecord) (m : Manager)
      → IsTracked id object u m
      → HasEnded id object
          (if a.opened && a.protected && a.registered && a.stored_recorded then stored else failed)
          none
          (encrypt a id m)
  unfolding encrypt
  encrypt-HasEnded a u m t = elim (Bool-cases a.opened) [
    | inr closed ↦
        rw (closed, encrypt)
          (fail_protection-HasEnded a.failure_recorded "quarantine_object_missing" u m t)
    | inl opens ↦ elim (Bool-cases a.protected) [
      | inl encrypts ↦ encrypt_opened-HasEnded a u m t opens encrypts
      | inr not_encrypted ↦
          rw (opens, not_encrypted, encrypt)
            (fail_protection-HasEnded a.failure_recorded "protection_unavailable" u m t)
    ]
  ]

  pub protect-HasEnded :
      (a : Answers) (u : PersistedRecord) (m : Manager)
      → IsTracked id object u m
      → may_protect u.status ≡ true
      → HasEnded id object (protection_status a) none (protect a id m)
  unfolding protect start_protection
  protect-HasEnded a u m t may =
      let u' = settled encrypting 85 "protection_in_progress" u in
      let x = persist_lifecycle a.protection_recorded u' (put id u' m) in
      let p = persist-IsPersisted a.protection_recorded u u' m t t.own t.its_object in
      let run =
        unless-HasEnded a.protection_recorded u' m x (encrypt a id) _ none p
          (λ yes. encrypt-HasEnded a u' x.1 p.tracked) in
      rw (t.found, protect)
        (rw may (recast _ (protection_status a) _ none _ (ground arith) (ground arith) run))
