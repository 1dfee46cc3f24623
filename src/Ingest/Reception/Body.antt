-- ===== src/Ingest/Reception/Body.antt =====
-- internal/ingest/manager.go, `create`: the streaming of the body, the cleanup of a failed upload, and
-- the record of a received one.

use secure_file_storage_syst.Prelude.{
  ℕ, ◌+◌, ◌-◌, String, Bool, true, false, not, ◌&&◌, ◌||◌, none, some, List, [], ◌∷◌, ◌++◌, length,
  take, ltb, if◌then◌else◌, ◌==◌, string_eq, nat_eq, Result, ok, err,
}
use secure_file_storage_syst.Prelude.Map.{insert, delete}
use secure_file_storage_syst.Prelude.Bytes.{Bytes, bytes_eq}
use secure_file_storage_syst.Prelude.Int64.{Int64, add64, lt64}
use secure_file_storage_syst.Ingest.{
  Error, quota_exceeded, invalid_file, too_large, cancelled, io_failure, persistence_failure,
  PersistedRecord,
}
use secure_file_storage_syst.Ingest.Repository.{delete_record}
use secure_file_storage_syst.Ingest.Manager.{
  Manager, put, remove_object, release, persist_lifecycle,
}
use secure_file_storage_syst.Ingest.Reception.{
  Primitives, Request, Ending, more, eof, broken, Read, Answers, reserved_of, owner_quota_usage,
  owner_quota, give_back, Progress, no_progress, Streamed, index_of,
}

-- The quota of a body of unknown size, or the declared size, holds the next `n` bytes.
unfoldable pub hold : Request → ℕ → Progress → Manager → Streamed
unfolding owner_quota_usage owner_quota
hold q n pr m =
    if lt64 0 q.expected_size
    then if lt64 q.expected_size (add64 pr.size n)
      then (some invalid_file, pr, m)
      else (none, pr, m)
    else let used = owner_quota_usage q.owner_id m.uploads in
      let reserved = reserved_of q.owner_id m.owner_reservations in
      if lt64 (owner_quota q.owner_id m) (add64 (add64 used reserved) n)
      then (some quota_exceeded, pr, m)
      else (
        none,
        record pr { held = add64 pr.held n },
        record m { owner_reservations = insert q.owner_id (add64 reserved n) m.owner_reservations },
      )

abbrev pub extend_header : Bytes → Bytes → Bytes
extend_header header bytes =
    if ltb (length header) 512 then header ++ take (512 - length header) bytes else header

-- The bytes are counted and written.
unfoldable pub write : String → Bytes → Bool → Progress → Manager → Streamed
write object bytes written pr m =
    let size = add64 pr.size (length bytes) in
    let counted = record pr { size = size } in
    let headed = record counted { header = extend_header pr.header bytes } in
    let received = pr.received ++ bytes in
    if lt64 m.max_upload_bytes size
    then (some too_large, counted, m)
    else if not written
    then (some io_failure, headed, m)
    else (
      none,
      record headed { received = received },
      record m { quarantine = insert object received m.quarantine },
    )

-- On, unless there is an error.
abbrev pub and_then : Streamed → (Progress → Manager → Streamed) → Streamed
and_then (some e, pr, m) next = (some e, pr, m)
and_then (none, pr, m) next = next pr m

unfoldable pub receive : Request → String → Bytes → Bool → Progress → Manager → Streamed
unfolding hold write
receive q object bytes written pr m =
    if length bytes == 0
    then (none, pr, m)
    else and_then (hold q (length bytes) pr m) (write object bytes written)

abbrev pub ended : Ending → (Progress → Manager → Streamed) → Progress → Manager → Streamed
ended more next pr m = next pr m
ended eof next pr m = (none, pr, m)
ended broken next pr m = (some io_failure, pr, m)

-- The loop, with what io.LimitedReader leaves to read.
unfoldable pub stream : Request → String → ℕ → List Read → Progress → Manager → Streamed
unfolding receive
stream q object left [] pr m = (none, pr, m)
stream q object left (r ∷ rs) pr m =
    let bytes = take left r.bytes in
    let next = stream q object (left - length bytes) rs in
    if r.is_cancelled
    then (some cancelled, pr, m)
    else if left == 0
    then (none, pr, m)
    else and_then (receive q object bytes r.written pr m) (ended r.ending next)

module _ (p : Primitives) where
  unfoldable pub cleanup : Request → PersistedRecord → Int64 → Manager → Manager
  unfolding give_back
  cleanup q entry held m =
      let removed = release entry.id (remove_object entry.quarantine_object m) in
      record removed {
        repository = delete_record entry.id removed.repository;
        owner_reservations =
            if lt64 0 held
            then give_back q.owner_id held m.owner_reservations
            else m.owner_reservations;
        uploads = delete entry.id m.uploads;
        idempotency = delete (index_of p q) m.idempotency;
      }

  abbrev pub Created : Type 0
  Created = Result Error (PersistedRecord × Bool) × Manager

  unfoldable pub fail : Request → PersistedRecord → Error → Int64 → Manager → Created
  unfolding cleanup
  fail q entry e held m = (err e, cleanup q entry held m)

  unfoldable pub persisted_or_failed : Request → PersistedRecord → Bool × Manager → Created
  unfolding fail
  persisted_or_failed q entry (true, m) = (ok (entry, false), m)
  persisted_or_failed q entry (false, m) = fail q entry persistence_failure 0 m

  abbrev pub received_entry : PersistedRecord → Progress → PersistedRecord
  received_entry entry pr = record entry {
    size = pr.size;
    detected_media_type = p.detect_content_type pr.header;
    digest = p.sha256_hex pr.received;
    progress = 25;
  }

  unfoldable pub finish_upload : Request → Answers → PersistedRecord → Progress → Manager → Created
  unfolding persisted_or_failed fail give_back persist_lifecycle
  finish_upload q a entry pr m =
      let entry' = received_entry entry pr in
      let settled =
        put entry.id entry'
          (record m { owner_reservations = give_back q.owner_id pr.held m.owner_reservations }) in
      if pr.size == 0
      then fail q entry invalid_file pr.held m
      else if lt64 0 q.expected_size && not (pr.size == q.expected_size)
      then fail q entry invalid_file pr.held m
      else if not a.synced || not a.closed
      then fail q entry io_failure pr.held m
      else persisted_or_failed q entry' (persist_lifecycle a.recorded entry' settled)

  unfoldable pub streamed_or_failed : Request → Answers → PersistedRecord → Streamed → Created
  unfolding finish_upload fail
  streamed_or_failed q a entry (some e, pr, m) = fail q entry e pr.held m
  streamed_or_failed q a entry (none, pr, m) = finish_upload q a entry pr m

  -- From the opening of the file on.
  unfoldable pub receive_body : Request → Answers → PersistedRecord → Manager → Created
  unfolding streamed_or_failed fail stream
  receive_body q a entry m =
      let opened = record m { quarantine = insert entry.quarantine_object [] m.quarantine } in
      if not a.opened
      then fail q entry io_failure 0 m
      else streamed_or_failed q a entry
          (stream q entry.quarantine_object (m.max_upload_bytes + 1) a.reads no_progress opened)
