-- ===== src/Ingest/Reception/Cleanup.antt =====
-- A failed upload leaves nothing behind: the error paths of `create` of internal/ingest/manager.go.

use secure_file_storage_syst.Prelude.{
  ◌+◌, ◌<◌, ◌^◌, String, ◌≡◌, ◌⊎◌, inl, inr, refl, sym, ap, subst, ◌∙◌, Bool, true, false, not,
  ◌&&◌, ◌||◌, none, some, ltb, arith, if◌then◌else◌, ◌==◌, string_eq, nat_eq, ok, err, Bool-cases,
  beq_refl,
}
use secure_file_storage_syst.Prelude.Map.{
  Map, lookup, insert, delete, lookup-insert, lookup-insert_same, delete_missing, delete-insert,
  insert-insert,
}
use secure_file_storage_syst.Prelude.Bytes.{Bytes, bytes_eq}
use secure_file_storage_syst.Prelude.Int64.{Int64, lt64}
use secure_file_storage_syst.Ingest.{
  quarantined, Error, invalid_file, io_failure, persistence_failure, CapacityReservationRequest,
  PersistedRecord, MemoryRepository, idempotency_index,
}
use secure_file_storage_syst.Ingest.Manager.{Manager}
use secure_file_storage_syst.Ingest.Reception.{
  Primitives, Request, Answers, give_back, Progress, no_progress, Streamed, index_of,
}
use secure_file_storage_syst.Ingest.Reception.Body.{stream, cleanup}
use secure_file_storage_syst.Ingest.Reception.Holding.{
  IsReserved, holding, give_back-holding, holding_none,
}
use secure_file_storage_syst.Ingest.Repository.{update_record, delete_record, release_capacity}
use secure_file_storage_syst.Ingest.Manager.{update, persist_lifecycle, put}
use secure_file_storage_syst.Ingest.Reception.Body.{
  streamed_or_failed, finish_upload, receive_body, Created, received_entry, fail,
  persisted_or_failed,
}
use secure_file_storage_syst.Ingest.Reception.Loop.{at, stream-Ends}
use secure_file_storage_syst.Ingest.Reception.Receipt.{Exact, Receipt, stream-Exact}

module _ (p : Primitives) (q : Request) (entry : PersistedRecord) (m : Manager) where
  -- An upload that the manager, the database and the quarantine directory do not know.
  pub record IsFresh : Type 0 where
    pub uploads : lookup entry.id m.uploads ≡ none
    pub idempotency : lookup (index_of p q) m.idempotency ≡ none
    pub records : lookup entry.id m.repository.records ≡ none
    pub by_idempotency : lookup (index_of p q) m.repository.by_idempotency ≡ none
    pub object : lookup entry.quarantine_object m.quarantine ≡ none
    pub index : idempotency_index entry ≡ index_of p q
    pub waiting : entry.status ≡ quarantined

  -- The repository with the upload, and some reservations.
  abbrev pub entered : Map String CapacityReservationRequest → MemoryRepository
  entered reservations = record m.repository {
    records = insert entry.id entry m.repository.records;
    by_idempotency = insert (index_of p q) entry.id m.repository.by_idempotency;
    reservations = reservations;
  }

  pub delete_record-entered :
      (reservations : Map String CapacityReservationRequest)
      → IsFresh
      → delete_record entry.id (entered reservations)
        ≡ record m.repository { reservations = delete entry.id reservations }
  unfolding delete_record
  delete_record-entered reservations fresh =
      let found : lookup entry.id (insert entry.id entry m.repository.records) ≡ some entry =
        ground
          (arith, lookup-insert entry.id entry.id entry m.repository.records, beq_refl entry.id) in
      rw (found, delete_record)
        (λ i. record m.repository {
          records = delete-insert entry.id entry m.repository.records fresh.records i;
          by_idempotency =
              (ap
                    (λ (b : Bytes).
                      delete b (insert (index_of p q) entry.id m.repository.by_idempotency))
                    fresh.index
                  ∙ delete-insert (index_of p q) entry.id m.repository.by_idempotency
                      fresh.by_idempotency)
                i;
          reservations = delete entry.id reservations;
        })

module _ (p : Primitives) (q : Request) (entry : PersistedRecord) (m : Manager)
    (reservations : Map String CapacityReservationRequest) where
  -- The manager that has admitted the upload.
  abbrev pub occupied : PersistedRecord → Map String Bytes → Map String Int64 → Manager
  occupied u quarantine owner_reservations = record m {
    uploads = insert entry.id u m.uploads;
    idempotency = insert (index_of p q) entry.id m.idempotency;
    repository = entered p q entry m reservations;
    quarantine = quarantine;
    owner_reservations = owner_reservations;
  }

  -- The manager as before, but for the capacity reservations, which are those without the upload's.
  abbrev pub restored : Manager
  restored = record m {
    repository = record m.repository {
      reservations = delete entry.id (delete entry.id reservations);
    };
  }

  module _ (fresh : IsFresh p q entry m) where
    repository_restored :
        delete_record entry.id (release_capacity entry.id (entered p q entry m reservations))
        ≡ restored.repository
    unfolding release_capacity
    repository_restored = delete_record-entered p q entry m (delete entry.id reservations) fresh

    cleanup_restores :
        (u : PersistedRecord) (quarantine : Map String Bytes)
        (owner_reservations : Map String Int64) (held : Int64)
        → delete entry.quarantine_object quarantine ≡ m.quarantine
        → (if lt64 0 held then give_back q.owner_id held owner_reservations else owner_reservations)
          ≡ m.owner_reservations
        → cleanup p q entry held (occupied u quarantine owner_reservations) ≡ restored
    unfolding cleanup release_capacity
    cleanup_restores u quarantine owner_reservations held objects reserved = λ i. record restored {
      uploads = delete-insert entry.id u m.uploads fresh.uploads i;
      idempotency = delete-insert (index_of p q) entry.id m.idempotency fresh.idempotency i;
      repository = repository_restored i;
      quarantine = objects i;
      owner_reservations = reserved i;
    }

    -- The loop's held bytes are given back.
    held_restores :
        (held : Int64)
        → IsReserved q.owner_id m.owner_reservations
        → held < 2 ^ 63
        → (if lt64 0 held
            then give_back q.owner_id held (holding q.owner_id held m.owner_reservations)
            else holding q.owner_id held m.owner_reservations)
          ≡ m.owner_reservations
    unfolding lt64
    held_restores held kept small = elim (Bool-cases (ltb 0 held)) [
      | inl some_held ↦
          let test : lt64 0 held ≡ true = ground (arith, some_held, small) in
          rw test (give_back-holding q.owner_id m.owner_reservations kept held small)
      | inr none_held ↦
          let nothing : held ≡ 0 = ground (arith, none_held) in
          rw nothing (holding_none q.owner_id m.owner_reservations kept)
    ]

    -- The answer is an error and the manager is restored, or the upload is accepted.
    abbrev pub Settled : Created p → Type 0
    Settled c =
        ((e : Error) × (c ≡ (err e, restored)))
        ⊎ ((u : PersistedRecord) × (c.0 ≡ ok (u, false)) × Receipt p q m u c.1)

    persist-Settled :
        (pr : Progress) (recorded : Bool) (owner_reservations : Map String Int64)
        → owner_reservations ≡ m.owner_reservations
        → Exact m.max_upload_bytes pr
        → (pr.size == 0) ≡ false
        → (lt64 0 q.expected_size && not (pr.size == q.expected_size)) ≡ false
        → let u = received_entry p entry pr in
          let quarantine = insert entry.quarantine_object pr.received m.quarantine in
          Settled (
            persisted_or_failed p q u (
              persist_lifecycle recorded u
                (put entry.id u (occupied entry quarantine owner_reservations))))
    unfolding persist_lifecycle update update_record lt64 persisted_or_failed fail
    persist-Settled pr true owner_reservations reserved exact nonzero whole =
        let u = received_entry p entry pr in
        let found : lookup entry.id (insert entry.id entry m.repository.records) ≡ some entry =
          lookup-insert_same entry.id entry m.repository.records in
        rw (found, update_record)
          (inr (
            u,
            refl,
            record {
              body = pr.received;
              stored = lookup-insert_same entry.quarantine_object pr.received m.quarantine;
              known = lookup-insert_same entry.id u (insert entry.id entry m.uploads);
              recorded = lookup-insert_same entry.id u (insert entry.id entry m.repository.records);
              indexed = lookup-insert_same (index_of p q) entry.id m.idempotency;
              waiting = fresh.waiting;
              size = exact.size;
              digest = refl;
              media_type = ap p.detect_content_type exact.header;
              positive = ground (arith, nonzero, exact.size);
              within = omega (arith, exact.size, exact.within);
              declared = λ sized. ground (arith, sized, whole, exact.size);
              given_back = reserved;
            },
          ))
    persist-Settled pr false owner_reservations reserved exact nonzero whole =
        let u = received_entry p entry pr in
        let quarantine = insert entry.quarantine_object pr.received m.quarantine in
        let objects = delete-insert entry.quarantine_object pr.received m.quarantine fresh.object in
        let state : put entry.id u (occupied entry quarantine owner_reservations)
            ≡ occupied u quarantine owner_reservations =
          λ i. record (occupied u quarantine owner_reservations) {
            uploads = insert-insert entry.id u entry m.uploads i;
          } in
        inl (
          persistence_failure,
          λ i. (
            err persistence_failure,
            (ap (cleanup p q entry 0) state
                  ∙ cleanup_restores u quarantine owner_reservations 0 objects reserved)
                i,
          ),
        )

    finish_upload-Settled :
        (a : Answers) (pr : Progress)
        → IsReserved q.owner_id m.owner_reservations
        → pr.held < 2 ^ 63
        → Exact m.max_upload_bytes pr
        → Settled (
            finish_upload p q a entry pr (
              occupied entry
                (insert entry.quarantine_object pr.received m.quarantine)
                (holding q.owner_id pr.held m.owner_reservations)))
    unfolding finish_upload fail
    finish_upload-Settled a pr kept small exact =
        let objects = delete-insert entry.quarantine_object pr.received m.quarantine fresh.object in
        let failed =
          cleanup_restores entry (insert entry.quarantine_object pr.received m.quarantine)
            (holding q.owner_id pr.held m.owner_reservations) pr.held objects
            (held_restores pr.held kept small) in
        elim (Bool-cases (pr.size == 0)) [
          | inl empty ↦ rw empty (inl (invalid_file, λ i. (err invalid_file, failed i)))
          | inr sized ↦
              elim (Bool-cases (lt64 0 q.expected_size && not (pr.size == q.expected_size))) [
                | inl short ↦
                    rw (sized, short) (inl (invalid_file, λ i. (err invalid_file, failed i)))
                | inr whole ↦ elim (Bool-cases (not a.synced || not a.closed)) [
                  | inl lost ↦
                      rw (sized, whole, lost) (inl (io_failure, λ i. (err io_failure, failed i)))
                  | inr safe ↦
                      rw (sized, whole, safe)
                        (persist-Settled pr a.recorded
                          (give_back q.owner_id pr.held
                            (holding q.owner_id pr.held m.owner_reservations))
                          (give_back-holding q.owner_id m.owner_reservations kept pr.held small)
                          exact sized whole)
                ]
              ]
        ]

    streamed-Settled :
        (a : Answers) (s : Streamed)
        → IsReserved q.owner_id m.owner_reservations
        → s.1.held < 2 ^ 63
        → (s.0 ≡ none → Exact m.max_upload_bytes s.1)
        → s.2
          ≡ occupied entry
              (insert entry.quarantine_object s.1.received m.quarantine)
              (holding q.owner_id s.1.held m.owner_reservations)
        → Settled (streamed_or_failed p q a entry s)
    unfolding streamed_or_failed fail
    streamed-Settled a (some e, pr, now) kept small exact state =
        let failed =
          cleanup_restores entry (insert entry.quarantine_object pr.received m.quarantine)
            (holding q.owner_id pr.held m.owner_reservations) pr.held
            (delete-insert entry.quarantine_object pr.received m.quarantine fresh.object)
            (held_restores pr.held kept small) in
        inl (e, λ i. (err e, (ap (cleanup p q entry pr.held) state ∙ failed) i))
    streamed-Settled a (none, pr, now) kept small exact state =
        subst (λ s. Settled (finish_upload p q a entry pr s)) (sym state)
          (finish_upload-Settled a pr kept small (exact refl))

    pub receive_body-Settled :
        (a : Answers)
        → IsReserved q.owner_id m.owner_reservations
        → m.max_upload_bytes + 1 < 2 ^ 63
        → Settled (receive_body p q a entry (occupied entry m.quarantine m.owner_reservations))
    unfolding receive_body fail holding lt64
    receive_body-Settled a kept small = elim (Bool-cases a.opened) [
      | inl opened ↦
          let base = occupied entry m.quarantine m.owner_reservations in
          let ends =
            stream-Ends q entry.quarantine_object base small kept (m.max_upload_bytes + 1) a.reads
              no_progress (omega arith) (omega arith) in
          let exact =
            stream-Exact q entry.quarantine_object base small kept (m.max_upload_bytes + 1) a.reads
              no_progress (omega arith) (omega arith)
              (record { size = refl; header = refl; within = omega arith }) in
          rw opened (
            streamed-Settled a
              (stream q entry.quarantine_object (m.max_upload_bytes + 1) a.reads no_progress
                (at q entry.quarantine_object base small kept no_progress))
              kept ends.held_small exact ends.state)
      | inr closed ↦ rw closed (
          inl (
            io_failure,
            λ i. (
              err io_failure,
              cleanup_restores entry m.quarantine m.owner_reservations 0
                  (delete_missing entry.quarantine_object m.quarantine fresh.object) refl i,
            ),
          ))
    ]
