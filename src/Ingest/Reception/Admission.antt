-- ===== src/Ingest/Reception/Admission.antt =====
-- internal/ingest/manager.go, `CreateSized` and `create`: the admission of an upload.
use Prim.Native.String.{◌++◌ as str_append}
use secure_file_storage_syst.Prelude.{
  ℕ, ◌+◌, String, Bool, true, false, not, ◌&&◌, ◌||◌, Option, none, some, ltb, if◌then◌else◌, ◌==◌,
  string_eq, nat_eq, Result, ok, err,
}
use secure_file_storage_syst.Prelude.Time.{truncate}
use secure_file_storage_syst.Prelude.Map.{lookup, insert}
use secure_file_storage_syst.Prelude.Bytes.{bytes_eq}
use secure_file_storage_syst.Prelude.Int64.{lt64}
use secure_file_storage_syst.Ingest.{
  Error, invalid_key, invalid_file, too_large, random_failure, invalid_metadata, panic,
  PersistedRecord, CapacityReservationRequest, MemoryRepository, valid_status,
}
use secure_file_storage_syst.Ingest.Repository.{create_record, delete_record, reserve_capacity}
use secure_file_storage_syst.Ingest.Manager.{Manager}
use secure_file_storage_syst.Ingest.Reception.{
  Primitives, Request, Draws, Answers, has_control, byte_length, owner_quota, safe_display_name,
  media_type, index_of, entry_of,
}
use secure_file_storage_syst.Ingest.Reception.Body.{receive_body, Created}

-- `recordFromPersisted`, but for the path that it adds.
unfoldable pub record_from_persisted : PersistedRecord → Result Error PersistedRecord
record_from_persisted stored =
    if stored.id == ""
      || stored.owner_id == ""
      || not (stored.quarantine_object == str_append stored.id ".upload")
      || not (byte_length stored.idempotency_hash == 64)
      || not (valid_status stored.status)
    then err invalid_metadata
    else ok stored

abbrev pub valid_key : String → Bool
valid_key key =
    not (ltb (byte_length key) 8) && not (ltb 128 (byte_length key)) && not (has_control key)

unfoldable pub reservation_for : Request → String → ℕ → Manager → CapacityReservationRequest
unfolding owner_quota
reservation_for q upload_id now m = record {
  upload_id = upload_id;
  owner_id = q.owner_id;
  bytes = q.expected_size;
  owner_quota_bytes = owner_quota q.owner_id m;
  storage_capacity_bytes = m.storage_capacity_bytes;
  storage_reserve_bytes = m.storage_reserve_bytes;
  now = now;
  expires_at = now + m.reservation_ttl;
}

module _ (p : Primitives) where
  -- The upload is known to the manager: its body is received.
  unfoldable pub admit_upload :
      Request → Answers → PersistedRecord → Manager → MemoryRepository → Created p
  unfolding receive_body
  admit_upload q a entry m repository = receive_body p q a entry (record m {
    repository = repository;
    uploads = insert entry.id entry m.uploads;
    idempotency = insert (index_of p q) entry.id m.idempotency;
  })

  -- After `ReserveCapacity`.
  unfoldable pub reserved_or_failed :
      Request → Answers → PersistedRecord → Manager → Option Error × MemoryRepository → Created p
  unfolding admit_upload
  reserved_or_failed q a entry m (none, repository) = admit_upload q a entry m repository
  reserved_or_failed q a entry m (some e, repository) =
      (err e, record m { repository = delete_record entry.id repository })

  unfoldable pub reserve :
      Request → Answers → PersistedRecord → ℕ → Manager → MemoryRepository → Created p
  unfolding reserved_or_failed admit_upload reservation_for
  reserve q a entry now m repository =
      if lt64 0 q.expected_size
      then reserved_or_failed q a entry m
          (reserve_capacity (reservation_for q entry.id (truncate now) m) repository)
      else admit_upload q a entry m repository

  -- The database has the upload of an earlier request.
  abbrev pub known_again :
      Request → Manager → MemoryRepository → Result Error PersistedRecord → Created p
  known_again q m repository (err e) = (err e, record m { repository = repository })
  known_again q m repository (ok existing) = (
    ok (existing, true),
    record m {
      repository = repository;
      uploads = insert existing.id existing m.uploads;
      idempotency = insert (index_of p q) existing.id m.idempotency;
    },
  )

  unfoldable pub after_create :
      Request → Answers → ℕ → Manager → PersistedRecord × Bool × MemoryRepository → Created p
  unfolding reserve record_from_persisted
  after_create q a now m (stored, true, repository) =
      known_again q m repository (record_from_persisted stored)
  after_create q a now m (entry, false, repository) = reserve q a entry now m repository

  -- A key that the manager does not know yet.
  unfoldable pub create_new : Request → Draws → Answers → Manager → Created p
  unfolding after_create entry_of
  create_new q d a m = elim d.upload_id [
    | none ↦ (err random_failure, m)
    | some upload_id ↦ elim d.correlation_id [
      | none ↦ (err random_failure, m)
      | some correlation_id ↦
          after_create q a d.now m
            (create_record (entry_of p q upload_id correlation_id d.now) m.repository)
    ]
  ]

  unfoldable pub create : Request → Draws → Answers → Manager → Created p
  unfolding create_new safe_display_name
  create q d a m =
      if not (valid_key q.idempotency_key)
      then (err invalid_key, m)
      else if safe_display_name p q.original_name == "" || not q.has_source
      then (err invalid_file, m)
      else if ltb 255 (byte_length (media_type p q.declared_media_type))
          || has_control (media_type p q.declared_media_type)
      then (err invalid_file, m)
      else elim (lookup (index_of p q) m.idempotency) [
        | some existing_id ↦ elim (lookup existing_id m.uploads) [
          | some existing ↦ (ok (existing, true), m)
          | none ↦ (err panic, m)
        ]
        | none ↦ create_new q d a m
      ]

  unfoldable pub create_sized : Request → Draws → Answers → Manager → Created p
  unfolding create
  create_sized q d a m =
      if lt64 m.max_upload_bytes q.expected_size
      then (err too_large, m)
      else if not (lt64 0 q.expected_size)
      then (err invalid_file, m)
      else create q d a m
