-- ===== src/Ingest/Recovery/Resumption.antt =====
-- The runs that `NewManager` of internal/ingest/manager.go resumes, to their end.
use secure_file_storage_syst.Prelude.{
  String, Bool, true, ◌&&◌, ◌||◌, ◌≡◌, ◌⊎◌, refl, sym, ap, subst, ◌∙◌, none, some, List, [], ◌∷◌,
  ◌++◌, All, arith, ◌==◌, string_eq, nat_eq, Bool-cases, Option-cases, inl, inr, is_some, Result,
  ok, err,
}
use secure_file_storage_syst.Prelude.Map.{
  Map, lookup, insert, lookup-insert, insert-All, insert-insert, lookup-All,
}
use secure_file_storage_syst.Prelude.Bytes.{Bytes}
use secure_file_storage_syst.Ingest.{Error, invalid_metadata, failed, PersistedRecord}
use secure_file_storage_syst.Ingest.Repository.{update_record}
use secure_file_storage_syst.Ingest.Manager
use secure_file_storage_syst.Ingest.Manager.{
  Manager, put, remove_object, release, settled, persist_lifecycle, update, inspect, protect,
}
use secure_file_storage_syst.Ingest.Manager.Outcome.{
  release_keeps, IsTracked, HasEnded, final_status, protection_status, protect-HasEnded,
}
use secure_file_storage_syst.Ingest.Manager.Inspection.{kept_by, inspect_outcome}
use secure_file_storage_syst.Ingest.Reception.Admission.{record_from_persisted}
use secure_file_storage_syst.Ingest.Recovery.{
  Config, Answers, Recovering, is_inspected, is_protected, is_quarantined, adopt, configured,
  fail_recovery, recover_pending, recover_entry, recover_record, recover_all, refusal, new_manager,
}
use secure_file_storage_syst.Ingest.Recovery.Loop.{
  Holds, persisted-Holds, refused-Holds, and_recover-Holds, persist_keeps,
}
use secure_file_storage_syst.Ingest.Recovery.Starting.{Known, KeepsRecords}

persist-KeepsRecords :
    (recorded : Bool) (u : PersistedRecord) (m : Manager)
    → KeepsRecords m (persist_lifecycle recorded u m).1
unfolding persist_lifecycle update update_record
persist-KeepsRecords recorded u m id known =
    ground (arith, known, lookup-insert u.id id u m.repository.records)

accepted_cases :
    (stored : PersistedRecord)
    → (record_from_persisted stored ≡ err invalid_metadata)
      ⊎ (record_from_persisted stored ≡ ok stored)
unfolding record_from_persisted
accepted_cases stored = ground arith

module _ (records : Map String PersistedRecord) where
  -- An upload under its identifier, with a record in the repository.
  abbrev Owned : String × PersistedRecord → Type 0
  Owned e = (e.1.id ≡ e.0) × (is_some (lookup e.0 records) ≡ true)

  record Tracks (st : Recovering) : Type 0 where
    uploads : All Owned st.0.uploads
    known : (id : String) → is_some (lookup id records) ≡ true → Known st.0 id

  after-Tracks :
      (resume resume' : List String) (entry : PersistedRecord) (m m' : Manager)
      → Tracks (m, resume)
      → Owned (entry.id, entry)
      → m'.uploads ≡ insert entry.id entry m.uploads
      → KeepsRecords m m'
      → Tracks (m', resume')
  after-Tracks resume resume' entry m m' h own uploads keeps = record {
    uploads =
        subst (All Owned) (sym uploads) (insert-All Owned entry.id entry m.uploads own h.uploads);
    known = λ id there. keeps id (h.known id there);
  }

  fail_recovery-Tracks :
      (a : Answers) (reason : String) (entry : PersistedRecord) (resume : List String)
      (next : Manager → Recovering) (m : Manager)
      → Tracks (m, resume)
      → Owned (entry.id, entry)
      → ((m' : Manager) → ((next m').0.uploads ≡ m'.uploads) × KeepsRecords m' (next m').0)
      → Holds Tracks (fail_recovery a reason entry next (adopt entry m))
  unfolding fail_recovery
  fail_recovery-Tracks a reason entry resume next m h own step =
      let u = settled failed 100 reason entry in
      let m0 = put entry.id u (adopt entry m) in
      let x = persist_lifecycle (a.recorded entry.id) u m0 in
      let uploads = (persist_keeps (a.recorded entry.id) u m0).0 in
      let moves = step x.1 in
      persisted-Holds Tracks next x (
        after-Tracks resume (next x.1).1 u m (next x.1).0 h own
          (moves.0 ∙ uploads ∙ insert-insert entry.id u entry m.uploads)
          (λ id there. moves.1 id (persist-KeepsRecords (a.recorded entry.id) u m0 id there)))

  recover_pending-Tracks :
      (a : Answers) (entry : PersistedRecord) (resume : List String) (m : Manager)
      → Tracks (m, resume)
      → Owned (entry.id, entry)
      → Holds Tracks (recover_pending a entry resume (adopt entry m))
  unfolding recover_pending
  recover_pending-Tracks a entry resume m h own =
      elim (Bool-cases (a.stat_fails entry.quarantine_object)) [
        | inl fails ↦ rw (fails) tt
        | inr looked ↦ elim (Option-cases (lookup entry.quarantine_object m.quarantine)) [
          | inl gone ↦
              rw (looked, gone)
                (fail_recovery-Tracks a "quarantine_object_missing" entry resume
                  (λ m'. (m', resume)) m h own (λ m'. (refl, λ id there. there)))
          | inr (bytes, there) ↦
              let goes =
                is_inspected entry.status || is_protected entry.status && m.has_protected_store in
              elim (Bool-cases goes) [
                | inl goes_on ↦
                    rw (looked, there, goes_on)
                      (after-Tracks resume (resume ++ entry.id ∷ []) entry m (adopt entry m) h own
                        refl (λ id same. same))
                | inr waits ↦
                    rw (looked, there, waits)
                      (after-Tracks resume resume entry m (adopt entry m) h own refl
                        (λ id same. same))
              ]
        ]
      ]

  recover_entry-Tracks :
      (a : Answers) (entry : PersistedRecord) (resume : List String) (m : Manager)
      → Tracks (m, resume)
      → Owned (entry.id, entry)
      → Holds Tracks (recover_entry a entry (m, resume))
  unfolding recover_entry
  recover_entry-Tracks a entry resume m h own =
      elim (Bool-cases (is_quarantined entry.status && entry.size == 0)) [
        | inl unreceived ↦
            let next : Manager → Recovering =
              λ m'. (release entry.id (remove_object entry.quarantine_object m'), resume) in
            rw (unreceived) (
              fail_recovery-Tracks a "upload_reception_incomplete" entry resume next m h own (λ m'.
                let keeps = release_keeps entry.id (remove_object entry.quarantine_object m') in
                (
                  keeps.0,
                  λ id there.
                      ap (λ (r : Map String PersistedRecord). is_some (lookup id r)) keeps.3
                      ∙ there,
                )))
        | inr received ↦
            elim (Bool-cases (is_inspected entry.status || is_protected entry.status)) [
              | inl pending ↦ rw (received, pending) (recover_pending-Tracks a entry resume m h own)
              | inr ended ↦
                  rw (received, ended)
                    (after-Tracks resume resume entry m (adopt entry m) h own refl
                      (λ id same. same))
            ]
      ]

  recover_all-Tracks :
      (a : Answers) (rest : Map String PersistedRecord) (st : Recovering)
      → All (λ (e : String × PersistedRecord). is_some (lookup e.1.id records) ≡ true) rest
      → Tracks st
      → Holds Tracks (recover_all a rest st)
  unfolding recover_all
  recover_all-Tracks a [] st there h = h
  recover_all-Tracks a ((id, stored) ∷ rest) st there h =
      let one : Holds Tracks (recover_record a st (record_from_persisted stored)) =
        elim (accepted_cases stored) [
          | inl refused ↦
              subst (λ (x : Result Error PersistedRecord). Holds Tracks (recover_record a st x))
                (sym refused) tt
          | inr accepted ↦
              subst (λ (x : Result Error PersistedRecord). Holds Tracks (recover_record a st x))
                (sym accepted) (recover_entry-Tracks a stored st.1 st.0 h (refl, there.0))
        ] in
      and_recover-Holds Tracks (recover_record a st (record_from_persisted stored))
        (recover_all a rest) one (λ st' h'. recover_all-Tracks a rest st' there.1 h')

new_manager-Tracks :
    (config : Config) (a : Answers) (disk : Map String Bytes)
    → All
        (λ (e : String × PersistedRecord). is_some (lookup e.1.id config.repository.records) ≡ true)
        config.repository.records
    → Holds (Tracks config.repository.records) (new_manager config a disk)
unfolding new_manager
new_manager-Tracks config a disk known =
    let start : Tracks config.repository.records (configured config disk, []) = record {
      uploads = tt;
      known = λ id there. there;
    } in
    refused-Holds (Tracks config.repository.records) (refusal config a) _ (
      recover_all-Tracks config.repository.records a config.repository.records
        (configured config disk, []) known start)

-- From a restart to the end: of an upload that the started manager has, the run of the inspection,
-- or of the protection, that it resumes ends in the status that the answers of the scanner, the store and
-- the audit hooks call for, and the upload then reserves no capacity. Each stored record is stored
-- under its identifier.
pub restart_outcome :
    (config : Config) (a : Answers) (b : Manager.Answers) (disk : Map String Bytes) (m : Manager)
    (resume : List String) (id : String) (u : PersistedRecord)
    → All
        (λ (e : String × PersistedRecord). is_some (lookup e.1.id config.repository.records) ≡ true)
        config.repository.records
    → new_manager config a disk ≡ ok (m, resume)
    → lookup id m.uploads ≡ some u
    → let object = u.quarantine_object in
      let status = final_status b m.has_protected_store in
      HasEnded id object status
        (kept_by id object status (lookup object m.quarantine))
        (inspect b id m)
      × (is_protected u.status ≡ true
          → HasEnded id object (protection_status b) none (protect b id m))
restart_outcome config a b disk m resume id u known started found =
    let tracks =
      subst (Holds (Tracks config.repository.records)) started
        (new_manager-Tracks config a disk known) in
    let own = lookup-All (Owned config.repository.records) id m.uploads u tracks.uploads found in
    let tracked : IsTracked id u.quarantine_object u m = record {
      found = found;
      own = own.0;
      its_object = refl;
      known = tracks.known id own.1;
    } in
    (
      inspect_outcome id u.quarantine_object b u m tracked,
      λ protected. protect-HasEnded id u.quarantine_object b u m tracked protected,
    )
