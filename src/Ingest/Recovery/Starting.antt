-- ===== src/Ingest/Recovery/Starting.antt =====
-- When `NewManager` of internal/ingest/manager.go starts.
use secure_file_storage_syst.Prelude.{
  String, Bool, true, false, ◌&&◌, ◌||◌, ◌≡◌, refl, sym, ap, subst, ◌∙◌, Option, none, List, [],
  ◌∷◌, All, All-mono, arith, ◌==◌, string_eq, nat_eq, Bool-cases, Option-cases, inl, inr, is_some,
  Result, ok, err, is_ok,
}
use secure_file_storage_syst.Prelude.Map.{Map, lookup, lookup-insert}
use secure_file_storage_syst.Prelude.Bytes.{Bytes}
use secure_file_storage_syst.Ingest.{Error, failed, PersistedRecord}
use secure_file_storage_syst.Ingest.Repository.{update_record}
use secure_file_storage_syst.Ingest.Manager.{
  Manager, put, remove_object, release, settled, persist_lifecycle, update,
}
use secure_file_storage_syst.Ingest.Manager.Outcome.{release_keeps}
use secure_file_storage_syst.Ingest.Reception.Admission.{record_from_persisted}
use secure_file_storage_syst.Ingest.Recovery.{
  Config, Answers, Recovering, is_inspected, is_protected, is_quarantined, adopt, persisted_then,
  configured, fail_recovery, recover_pending, recover_entry, recover_record, and_recover,
  recover_all, refusal, unless_refused, new_manager,
}

-- A loop that succeeds with a state of which something holds.
abbrev Succeeds : (Recovering → Type 0) → Result Error Recovering → Type 0
Succeeds P (err e) = ⊥
Succeeds P (ok st) = P st

Succeeds-ok :
    (P : Recovering → Type 0) (x : Result Error Recovering) → Succeeds P x → is_ok x ≡ true
Succeeds-ok P (err e) h = absurd h
Succeeds-ok P (ok st) h = refl

abbrev pub Known : Manager → String → Type 0
Known m id = is_some (lookup id m.repository.records) ≡ true

-- The second manager knows the records of the first.
abbrev pub KeepsRecords : Manager → Manager → Type 0
KeepsRecords m m' = (id : String) → Known m id → Known m' id

persist_ok :
    (u : PersistedRecord) (m : Manager)
    → Known m u.id
    → ((persist_lifecycle true u m).0 ≡ true) × KeepsRecords m (persist_lifecycle true u m).1
unfolding persist_lifecycle update update_record
persist_ok u m known = (
  ground (arith, known),
  λ id other. ground (arith, known, other, lookup-insert u.id id u m.repository.records),
)

persisted_then-ok :
    (P : Recovering → Type 0) (next : Manager → Recovering) (x : Bool × Manager)
    → x.0 ≡ true
    → P (next x.1)
    → Succeeds P (persisted_then next x)
persisted_then-ok P next (true, m) stored h = h
persisted_then-ok P next (false, m) stored h = absurd (ground arith)

module _ (a : Answers) (works : (id : String) → a.recorded id ≡ true) where
  fail_recovery-ok :
      (reason : String) (entry : PersistedRecord) (next : Manager → Recovering) (m : Manager)
      → Known m entry.id
      → ((m' : Manager) → KeepsRecords m m' → KeepsRecords m (next m').0)
      → Succeeds (λ (st : Recovering). KeepsRecords m st.0) (fail_recovery a reason entry next m)
  unfolding fail_recovery
  fail_recovery-ok reason entry next m known step =
      let u = settled failed 100 reason entry in
      let m0 = put entry.id u m in
      let stored = persist_ok u m0 known in
      let x = persist_lifecycle true u m0 in
      let result =
        persisted_then-ok (λ (st : Recovering). KeepsRecords m st.0) next x stored.0
          (step x.1 stored.1) in
      rw (works entry.id) result

  module _ (looks : (object : String) → a.stat_fails object ≡ false) where
    recover_pending-ok :
        (entry : PersistedRecord) (resume : List String) (m : Manager)
        → Known m entry.id
        → Succeeds (λ (st : Recovering). KeepsRecords m st.0) (recover_pending a entry resume m)
    unfolding recover_pending
    recover_pending-ok entry resume m known =
        elim (Option-cases (lookup entry.quarantine_object m.quarantine)) [
          | inl gone ↦
              rw (looks entry.quarantine_object, gone)
                (fail_recovery-ok "quarantine_object_missing" entry (λ m'. (m', resume)) m known
                  (λ m' keeps. keeps))
          | inr (bytes, there) ↦
              elim (Bool-cases
                (is_inspected entry.status || is_protected entry.status && m.has_protected_store)) [
                  | inl goes_on ↦
                      rw (looks entry.quarantine_object, there, goes_on) (λ id same. same)
                  | inr waits ↦ rw (looks entry.quarantine_object, there, waits) (λ id same. same)
                ]
        ]

    recover_entry-ok :
        (entry : PersistedRecord) (resume : List String) (m : Manager)
        → Known m entry.id
        → Succeeds (λ (st : Recovering). KeepsRecords m st.0) (recover_entry a entry (m, resume))
    unfolding recover_entry
    recover_entry-ok entry resume m known =
        let next : Manager → Recovering =
          λ m'. (release entry.id (remove_object entry.quarantine_object m'), resume) in
        elim (Bool-cases (is_quarantined entry.status && entry.size == 0)) [
          | inl unreceived ↦ rw (unreceived) (
              fail_recovery-ok "upload_reception_incomplete" entry next (adopt entry m) known
                (λ m' keeps id other.
                  let kept =
                    (release_keeps entry.id (remove_object entry.quarantine_object m')).3 in
                  ap (λ (r : Map String PersistedRecord). is_some (lookup id r)) kept
                  ∙ keeps id other))
          | inr received ↦
              elim (Bool-cases (is_inspected entry.status || is_protected entry.status)) [
                | inl pending ↦
                    rw (received, pending) (recover_pending-ok entry resume (adopt entry m) known)
                | inr ended ↦ rw (received, ended) (λ id same. same)
              ]
        ]

    and_recover-ok :
        (P Q : Recovering → Type 0) (x : Result Error Recovering)
        (next : Recovering → Result Error Recovering)
        → Succeeds P x
        → ((st : Recovering) → P st → Succeeds Q (next st))
        → Succeeds Q (and_recover x next)
    and_recover-ok P Q (err e) next h step = absurd h
    and_recover-ok P Q (ok st) next h step = step st h

    recover_all-ok :
        (records : Map String PersistedRecord) (st : Recovering)
        → All (λ (e : String × PersistedRecord). record_from_persisted e.1 ≡ ok e.1) records
        → All (λ (e : String × PersistedRecord). Known st.0 e.1.id) records
        → Succeeds (λ (st' : Recovering). Unit) (recover_all a records st)
    unfolding recover_all
    recover_all-ok [] st accepted known = tt
    recover_all-ok ((id, stored) ∷ records) st accepted known =
        let one = recover_entry-ok stored st.1 st.0 known.0 in
        let first =
          subst
            (λ (x : Result Error PersistedRecord).
              Succeeds (λ (st' : Recovering). KeepsRecords st.0 st'.0) (recover_record a st x))
            (sym accepted.0) one in
        and_recover-ok (λ (st' : Recovering). KeepsRecords st.0 st'.0) (λ (st' : Recovering). Unit)
          (recover_record a st (record_from_persisted stored)) (recover_all a records) first
          (λ st' keeps.
            recover_all-ok records st' accepted.1
              (All-mono records (λ e k. keeps e.1.id k) known.1))

-- The manager starts, whatever the uploads that an earlier process left and whichever of their
-- objects are gone: the configuration is accepted, each stored record is a valid one that is stored
-- under its identifier, the looks at the objects do not fail and the audit hook takes its events.
pub new_manager_starts :
    (config : Config) (a : Answers) (disk : Map String Bytes)
    → refusal config a ≡ none
    → ((id : String) → a.recorded id ≡ true)
    → ((object : String) → a.stat_fails object ≡ false)
    → All
        (λ (e : String × PersistedRecord). record_from_persisted e.1 ≡ ok e.1)
        config.repository.records
    → All
        (λ (e : String × PersistedRecord). is_some (lookup e.1.id config.repository.records) ≡ true)
        config.repository.records
    → is_ok (new_manager config a disk) ≡ true
unfolding new_manager
new_manager_starts config a disk accepted works looks valid known =
    let start : Recovering = (configured config disk, []) in
    let loaded = recover_all-ok a works looks config.repository.records start valid known in
    ap
      (λ (refused : Option Error).
        is_ok (unless_refused refused (recover_all a config.repository.records start)))
      accepted
    ∙ Succeeds-ok (λ (st : Recovering). Unit) (recover_all a config.repository.records start) loaded
