-- ===== src/Ingest/Reception/Lifetime.antt =====
-- An upload from its request to its end: `create` of internal/ingest/manager.go, and the run of
-- `inspect` that it starts.

use secure_file_storage_syst.Prelude.{
  ◌+◌, ◌<◌, ◌^◌, String, ◌≡◌, refl, ap, false, some, string_eq, ok, is_some, subst,
}
use secure_file_storage_syst.Prelude.Bytes.{Bytes}
use secure_file_storage_syst.Ingest.{PersistedRecord}
use secure_file_storage_syst.Ingest.Manager
use secure_file_storage_syst.Ingest.Manager.{Manager, inspect}
use secure_file_storage_syst.Ingest.Manager.Outcome.{IsTracked, HasEnded, final_status}
use secure_file_storage_syst.Ingest.Manager.Inspection.{kept_by, inspect_outcome}
use secure_file_storage_syst.Ingest.Reception.{Primitives, Request, Draws, Answers}
use secure_file_storage_syst.Ingest.Reception.Holding.{IsReserved}
use secure_file_storage_syst.Ingest.Reception.Admission.{create}
use secure_file_storage_syst.Ingest.Reception.Outcome.{IsNew}
use secure_file_storage_syst.Ingest.Reception.Failure.{create-Receipt}

pub upload_outcome :
    (p : Primitives) (q : Request) (d : Draws) (a : Answers) (b : Manager.Answers) (m : Manager)
    (u : PersistedRecord)
    → ((id : String) → d.upload_id ≡ some id → IsNew id m)
    → IsReserved q.owner_id m.owner_reservations
    → m.max_upload_bytes + 1 < 2 ^ 63
    → (create p q d a m).0 ≡ ok (u, false)
    → let m' = (create p q d a m).1 in
      let status = final_status b m'.has_protected_store in
      (body : Bytes) × (u.digest ≡ p.sha256_hex body)
      × HasEnded u.id u.quarantine_object status
          (kept_by u.id u.quarantine_object status (some body))
          (inspect b u.id m')
upload_outcome p q d a b m u drawn kept small created =
    let receipt = create-Receipt p q d a m u drawn kept small created in
    let m' = (create p q d a m).1 in
    let status = final_status b m'.has_protected_store in
    let tracked : IsTracked u.id u.quarantine_object u m' = record {
      found = receipt.known;
      own = refl;
      its_object = refl;
      known = ap is_some receipt.recorded;
    } in
    let ended = inspect_outcome u.id u.quarantine_object b u m' tracked in
    (
      receipt.body,
      receipt.digest,
      subst
          (λ o.
            HasEnded u.id u.quarantine_object status (kept_by u.id u.quarantine_object status o)
              (inspect b u.id m'))
          receipt.stored ended,
    )
