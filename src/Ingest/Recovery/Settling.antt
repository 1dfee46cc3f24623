-- ===== src/Ingest/Recovery/Settling.antt =====
-- What `NewManager` of internal/ingest/manager.go leaves of the uploads of an earlier process.
use secure_file_storage_syst.Prelude.{
  String, Bool, true, false, not, ◌&&◌, ◌||◌, ◌≡◌, refl, sym, ap, subst, ◌∙◌, List, [], ◌∷◌, ◌++◌,
  All, All-mono, arith, ◌==◌, string_eq, nat_eq, Bool-cases, Option-cases, inl, inr, is_some,
  Result, ok, err,
}
use secure_file_storage_syst.Prelude.Map.{
  Map, lookup, insert, insert-All, insert-insert, delete, lookup-delete,
}
use secure_file_storage_syst.Prelude.Bytes.{Bytes}
use secure_file_storage_syst.Ingest.{Error, Status, failed, PersistedRecord}
use secure_file_storage_syst.Ingest.Manager.{
  Manager, put, remove_object, release, settled, persist_lifecycle,
}
use secure_file_storage_syst.Ingest.Manager.Outcome.{release_keeps}
use secure_file_storage_syst.Ingest.Reception.Admission.{record_from_persisted}
use secure_file_storage_syst.Ingest.Recovery.{
  Config, Answers, Recovering, is_inspected, is_protected, is_quarantined, adopt, configured,
  fail_recovery, recover_pending, recover_entry, recover_record, recover_all, refusal, new_manager,
}
use secure_file_storage_syst.Ingest.Recovery.Loop.{
  Holds, persisted-Holds, refused-Holds, and_recover-Holds, persist_keeps, named, named-snoc,
  named-last,
}

abbrev pub is_pending : Status → Bool
is_pending status = is_inspected status || is_protected status

module _ (disk : Map String Bytes) (store : Bool) where
  -- An upload that is not at an end has its object, and is resumed or waits for a protected store;
  -- none is one whose reception never ended.
  pub record Settles (resume : List String) (e : String × PersistedRecord) : Type 0 where
    pub received : (is_quarantined e.1.status && e.1.size == 0) ≡ false
    pub object : is_pending e.1.status ≡ true → is_some (lookup e.1.quarantine_object disk) ≡ true
    pub resumed :
        is_pending e.1.status ≡ true
        → (named e.0 resume || is_protected e.1.status && not store) ≡ true

  record IsRecovered (st : Recovering) : Type 0 where
    uploads : All (Settles st.1) st.0.uploads
    objects :
        (o : String) → is_some (lookup o st.0.quarantine) ≡ true → is_some (lookup o disk) ≡ true
    same_store : st.0.has_protected_store ≡ store

  failed-Settles :
      (resume : List String) (id reason : String) (u : PersistedRecord)
      → Settles resume (id, settled failed 100 reason u)
  failed-Settles resume id reason u = record {
    received = refl;
    object = λ h. absurd (ground arith);
    resumed = λ h. absurd (ground arith);
  }

  fail_recovery-Holds :
      (a : Answers) (reason : String) (entry : PersistedRecord) (resume : List String)
      (next : Manager → Recovering) (m : Manager)
      → IsRecovered (m, resume)
      → ((m' : Manager)
          → m'.uploads ≡ insert entry.id (settled failed 100 reason entry) m.uploads
          → m'.quarantine ≡ m.quarantine
          → m'.has_protected_store ≡ m.has_protected_store
          → IsRecovered (next m'))
      → Holds IsRecovered (fail_recovery a reason entry next (adopt entry m))
  unfolding fail_recovery
  fail_recovery-Holds a reason entry resume next m h step =
      let u = settled failed 100 reason entry in
      let m0 = put entry.id u (adopt entry m) in
      let x = persist_lifecycle (a.recorded entry.id) u m0 in
      let keeps = persist_keeps (a.recorded entry.id) u m0 in
      persisted-Holds IsRecovered next x
        (step x.1 (keeps.0 ∙ insert-insert entry.id u entry m.uploads) keeps.1 keeps.2)

  refailed-IsRecovered :
      (reason : String) (entry : PersistedRecord) (resume : List String) (m m' : Manager)
      → IsRecovered (m, resume)
      → m'.uploads ≡ insert entry.id (settled failed 100 reason entry) m.uploads
      → ((o : String)
          → is_some (lookup o m'.quarantine) ≡ true
          → is_some (lookup o m.quarantine) ≡ true)
      → m'.has_protected_store ≡ m.has_protected_store
      → IsRecovered (m', resume)
  refailed-IsRecovered reason entry resume m m' h uploads objects same_store = record {
    uploads = subst (All (Settles resume)) (sym uploads) (
        insert-All (Settles resume) entry.id (settled failed 100 reason entry) m.uploads
          (failed-Settles resume entry.id reason entry) h.uploads);
    objects = λ o there. h.objects o (objects o there);
    same_store = same_store ∙ h.same_store;
  }

  -- An upload whose record stays as it is.
  adopted-IsRecovered :
      (entry : PersistedRecord) (resume resume' : List String) (m : Manager)
      → IsRecovered (m, resume)
      → ((id : String) → named id resume ≡ true → named id resume' ≡ true)
      → Settles resume' (entry.id, entry)
      → IsRecovered (adopt entry m, resume')
  adopted-IsRecovered entry resume resume' m h grows new = record {
    uploads = insert-All (Settles resume') entry.id entry m.uploads new (
        All-mono m.uploads
          (λ e old. record {
            received = old.received;
            object = old.object;
            resumed = λ pending. ground (arith, old.resumed pending, grows e.0);
          })
          h.uploads);
    objects = h.objects;
    same_store = h.same_store;
  }

  same_objects :
      (m m' : Manager) (o : String)
      → m'.quarantine ≡ m.quarantine
      → is_some (lookup o m'.quarantine) ≡ true
      → is_some (lookup o m.quarantine) ≡ true
  same_objects m m' o same there =
      ap (λ (q : Map String Bytes). is_some (lookup o q)) (sym same) ∙ there

  recover_pending-Holds :
      (a : Answers) (entry : PersistedRecord) (resume : List String) (m : Manager)
      → IsRecovered (m, resume)
      → (is_quarantined entry.status && entry.size == 0) ≡ false
      → Holds IsRecovered (recover_pending a entry resume (adopt entry m))
  unfolding recover_pending
  recover_pending-Holds a entry resume m h received =
      elim (Bool-cases (a.stat_fails entry.quarantine_object)) [
        | inl fails ↦ rw (fails) tt
        | inr looked ↦ elim (Option-cases (lookup entry.quarantine_object m.quarantine)) [
          | inl gone ↦
              rw (looked, gone)
                (fail_recovery-Holds a "quarantine_object_missing" entry resume (λ m'. (m', resume))
                  m h
                  (λ m' uploads quarantine same_store.
                    refailed-IsRecovered "quarantine_object_missing" entry resume m m' h uploads
                      (λ o. same_objects m m' o quarantine) same_store))
          | inr (bytes, there) ↦
              let stored = h.objects entry.quarantine_object (ap is_some there) in
              elim (Bool-cases
                (is_inspected entry.status || is_protected entry.status && m.has_protected_store)) [
                  | inl goes_on ↦
                      rw (looked, there, goes_on)
                        (adopted-IsRecovered entry resume (resume ++ entry.id ∷ []) m h
                          (λ id. named-snoc id entry.id resume)
                          (record {
                            received = received;
                            object = λ pending. stored;
                            resumed = λ pending. ground (arith, named-last entry.id resume);
                          }))
                  | inr waits ↦
                      rw (looked, there, waits)
                        (adopted-IsRecovered entry resume resume m h (λ id known. known)
                          (record {
                            received = received;
                            object = λ pending. stored;
                            resumed = λ pending. ground (arith, pending, waits, h.same_store);
                          }))
                ]
        ]
      ]

  delete_only :
      (object o : String) (m m' : Manager)
      → m'.quarantine ≡ delete object m.quarantine
      → is_some (lookup o m'.quarantine) ≡ true
      → is_some (lookup o m.quarantine) ≡ true
  delete_only object o m m' same there =
      let left = ap (λ (q : Map String Bytes). is_some (lookup o q)) (sym same) ∙ there in
      ground (arith, left, lookup-delete object o m.quarantine)

  recover_entry-Holds :
      (a : Answers) (entry : PersistedRecord) (resume : List String) (m : Manager)
      → IsRecovered (m, resume)
      → Holds IsRecovered (recover_entry a entry (m, resume))
  unfolding recover_entry
  recover_entry-Holds a entry resume m h =
      elim (Bool-cases (is_quarantined entry.status && entry.size == 0)) [
        | inl unreceived ↦
            let reason : String = "upload_reception_incomplete" in
            let next : Manager → Recovering =
              λ m'. (release entry.id (remove_object entry.quarantine_object m'), resume) in
            rw (unreceived) (
              fail_recovery-Holds a reason entry resume next m h
                (λ m' uploads quarantine same_store.
                  let freed = (next m').0 in
                  let keeps = release_keeps entry.id (remove_object entry.quarantine_object m') in
                  let deleted = keeps.1 ∙ ap (delete entry.quarantine_object) quarantine in
                  refailed-IsRecovered reason entry resume m freed h (keeps.0 ∙ uploads)
                    (λ o. delete_only entry.quarantine_object o m freed deleted)
                    (keeps.2 ∙ same_store)))
        | inr received ↦ elim (Bool-cases (is_pending entry.status)) [
          | inl pending ↦ rw (received, pending) (recover_pending-Holds a entry resume m h received)
          | inr ended ↦
              rw (received, ended)
                (adopted-IsRecovered entry resume resume m h (λ id known. known)
                  (record {
                    received = received;
                    object = λ pending. absurd (ground (arith, pending, ended));
                    resumed = λ pending. absurd (ground (arith, pending, ended));
                  }))
        ]
      ]

  recover_record-Holds :
      (a : Answers) (x : Result Error PersistedRecord) (st : Recovering)
      → IsRecovered st
      → Holds IsRecovered (recover_record a st x)
  recover_record-Holds a (err e) st h = tt
  recover_record-Holds a (ok entry) st h = recover_entry-Holds a entry st.1 st.0 h

  recover_all-Holds :
      (a : Answers) (records : Map String PersistedRecord) (st : Recovering)
      → IsRecovered st
      → Holds IsRecovered (recover_all a records st)
  unfolding recover_all
  recover_all-Holds a [] st h = h
  recover_all-Holds a ((id, stored) ∷ records) st h =
      and_recover-Holds IsRecovered (recover_record a st (record_from_persisted stored))
        (recover_all a records) (recover_record-Holds a (record_from_persisted stored) st h)
        (recover_all-Holds a records)

new_manager-Holds :
    (config : Config) (a : Answers) (disk : Map String Bytes)
    → Holds (IsRecovered disk config.has_protected_store) (new_manager config a disk)
unfolding new_manager
new_manager-Holds config a disk =
    let start : IsRecovered disk config.has_protected_store (configured config disk, []) = record {
      uploads = tt;
      objects = λ o there. there;
      same_store = refl;
    } in
    let loaded =
      recover_all-Holds disk config.has_protected_store a config.repository.records
        (configured config disk, []) start in
    refused-Holds (IsRecovered disk config.has_protected_store) (refusal config a) _ loaded

pub new_manager-Settles :
    (config : Config) (a : Answers) (disk : Map String Bytes) (m : Manager) (resume : List String)
    → new_manager config a disk ≡ ok (m, resume)
    → All (Settles disk config.has_protected_store resume) m.uploads
new_manager-Settles config a disk m resume started =
    (subst (Holds (IsRecovered disk config.has_protected_store)) started
      (new_manager-Holds config a disk)).uploads
