-- ===== src/Ingest/Repository/Idempotency.antt =====
-- Uploads that are announced twice: `Create` and `Delete` of internal/ingest/repository.go.
use secure_file_storage_syst.Prelude.{◌≡◌, true, none, arith, string_eq, beq_refl}
use secure_file_storage_syst.Prelude.Map.{lookup, insert, lookup-insert, lookup-delete}
use secure_file_storage_syst.Prelude.Bytes.{bytes_eq}
use secure_file_storage_syst.Ingest.{PersistedRecord, MemoryRepository, idempotency_index}
use secure_file_storage_syst.Ingest.Repository.{create_record, delete_record}

-- Creating an upload under an owner and an idempotency key that are new stores it; then a second one
-- under the same owner and key, whatever else it says, answers the first and changes nothing; and
-- once the first is deleted, the key is free again and neither its record nor its reservation is
-- left.
pub create_idempotent :
    (u v : PersistedRecord) (r : MemoryRepository)
    → lookup (idempotency_index u) r.by_idempotency ≡ none
    → idempotency_index v ≡ idempotency_index u
    → let r' = (create_record u r).2 in
      let r'' = delete_record u.id r' in
      ((create_record u r).0 ≡ u)
      × (create_record v r' ≡ (u, true, r'))
      × (lookup (idempotency_index v) r''.by_idempotency ≡ none)
      × (lookup u.id r''.records ≡ none)
      × (lookup u.id r''.reservations ≡ none)
unfolding create_record delete_record
create_idempotent u v r new same =
    let i = idempotency_index u in
    let by_index = lookup-insert i i u.id r.by_idempotency in
    let by_id = lookup-insert u.id u.id u r.records in
    let freed = lookup-delete i i (insert i u.id r.by_idempotency) in
    let gone = lookup-delete u.id u.id (insert u.id u r.records) in
    let released = lookup-delete u.id u.id r.reservations in
    (
      ground (arith, new),
      ground (arith, new, same, by_index, by_id, beq_refl i, beq_refl u.id),
      ground (arith, new, same, by_id, freed, beq_refl i, beq_refl u.id),
      ground (arith, new, by_id, gone, beq_refl u.id),
      ground (arith, new, by_id, released, beq_refl u.id),
    )
