-- ===== src/Ingest/Reception/Outcome.antt =====
-- How a request of `create` of internal/ingest/manager.go ends once it is admitted or refused.
use Prim.Native.String.{◌++◌ as str_append}
use secure_file_storage_syst.Prelude.{
  ℕ, ◌+◌, ◌<◌, ◌^◌, String, ◌≡◌, ◌⊎◌, inl, inr, sym, ap, subst, ◌∙◌, true, false, none, string_eq,
  nat_eq, ok, err, Bool-cases,
}
use secure_file_storage_syst.Prelude.Time.{truncate}
use secure_file_storage_syst.Prelude.Map.{
  Map, lookup, insert, delete, delete_missing, delete-insert,
}
use secure_file_storage_syst.Prelude.Bytes.{bytes_eq}
use secure_file_storage_syst.Prelude.Int64.{lt64}
use secure_file_storage_syst.Ingest.Reception.Receipt.{Receipt}
use secure_file_storage_syst.Ingest.{
  quarantined, Error, CapacityReservationRequest, PersistedRecord, idempotency_index,
}
use secure_file_storage_syst.Ingest.Manager.{Manager}
use secure_file_storage_syst.Ingest.Reception.{Primitives, Request, Answers, index_of}
use secure_file_storage_syst.Ingest.Reception.Holding.{IsReserved}
use secure_file_storage_syst.Ingest.Repository.{unexpired_at, delete_record, reserve_capacity}
use secure_file_storage_syst.Ingest.Reception.Body.{Created}
use secure_file_storage_syst.Ingest.Reception.Cleanup.{
  IsFresh, restored, entered, delete_record-entered, Settled, receive_body-Settled,
}
use secure_file_storage_syst.Ingest.Repository.Refusal.{lookup-unexpired_at, reserve_cases}
use secure_file_storage_syst.Ingest.Reception.Admission.{
  reserved_or_failed, reserve, admit_upload, reservation_for,
}

-- The identifier that is drawn is a new one.
pub record IsNew (upload_id : String) (m : Manager) : Type 0 where
  pub uploads : lookup upload_id m.uploads ≡ none
  pub records : lookup upload_id m.repository.records ≡ none
  pub reservations : lookup upload_id m.repository.reservations ≡ none
  pub object : lookup (str_append upload_id ".upload") m.quarantine ≡ none

-- The expired capacity reservations are gone, and all else is as before.
abbrev pub pruned : ℕ → Manager → Manager
pruned now m = record m {
  repository = record m.repository { reservations = unexpired_at now m.repository.reservations };
}

module _ (p : Primitives) (q : Request) (m : Manager) (now : ℕ) where
  -- An error with the manager as before, or an answer.
  abbrev pub Outcome : Created p → Type 0
  Outcome c =
      ((e : Error) × ((c ≡ (err e, m)) ⊎ (c ≡ (err e, pruned (truncate now) m))))
      ⊎ ((u : PersistedRecord) × ((c.0 ≡ ok (u, true))
            ⊎ ((c.0 ≡ ok (u, false)) × Receipt p q m u c.1)))

  module _ (a : Answers) (entry : PersistedRecord) (new : IsNew entry.id m)
      (kept : IsReserved q.owner_id m.owner_reservations) (small : m.max_upload_bytes + 1 < 2 ^ 63)
      (unknown_here : lookup (index_of p q) m.idempotency ≡ none)
      (unknown_there : lookup (index_of p q) m.repository.by_idempotency ≡ none)
      (index : idempotency_index entry ≡ index_of p q) (waiting : entry.status ≡ quarantined)
      (named : entry.quarantine_object ≡ str_append entry.id ".upload") where
    fresh : IsFresh p q entry m
    fresh = record {
      uploads = new.uploads;
      idempotency = unknown_here;
      records = new.records;
      by_idempotency = unknown_there;
      object = subst (λ o. lookup o m.quarantine ≡ none) (sym named) new.object;
      index = index;
      waiting = waiting;
    }

    Settled-Outcome :
        (reservations : Map String CapacityReservationRequest) (c : Created p)
        → ((restored p q entry m reservations ≡ m)
            ⊎ (restored p q entry m reservations ≡ pruned (truncate now) m))
        → Settled p q entry m reservations fresh c
        → Outcome c
    Settled-Outcome reservations c (inl same) (inl (e, failed)) =
        inl (e, inl (failed ∙ (λ i. (err e, same i))))
    Settled-Outcome reservations c (inr same) (inl (e, failed)) =
        inl (e, inr (failed ∙ (λ i. (err e, same i))))
    Settled-Outcome reservations c back (inr (u, done, receipt)) = inr (u, inr (done, receipt))

    admit_upload-Outcome :
        (reservations : Map String CapacityReservationRequest)
        → ((restored p q entry m reservations ≡ m)
            ⊎ (restored p q entry m reservations ≡ pruned (truncate now) m))
        → Outcome (admit_upload p q a entry m (entered p q entry m reservations))
    unfolding admit_upload
    admit_upload-Outcome reservations back =
        Settled-Outcome reservations _ back
          (receive_body-Settled p q entry m reservations fresh a kept small)

    -- A reservation that is not there, or is new, leaves none.
    restored_unreserved : restored p q entry m m.repository.reservations ≡ m
    restored_unreserved =
        let gone = delete_missing entry.id m.repository.reservations new.reservations in
        λ i. record m {
          repository = record m.repository { reservations = (ap (delete entry.id) gone ∙ gone) i };
        }

    restored_reserved :
        (c : CapacityReservationRequest)
        → restored p q entry m
            (insert entry.id c (unexpired_at (truncate now) m.repository.reservations))
          ≡ pruned (truncate now) m
    restored_reserved c =
        let left =
          lookup-unexpired_at (truncate now) entry.id m.repository.reservations new.reservations in
        let rest = unexpired_at (truncate now) m.repository.reservations in
        let gone = delete-insert entry.id c rest left in
        λ i. record m {
          repository = record m.repository {
            reservations = (ap (delete entry.id) gone ∙ delete_missing entry.id rest left) i;
          };
        }

    refused_state :
        (reservations : Map String CapacityReservationRequest)
        → record m { repository = delete_record entry.id (entered p q entry m reservations) }
          ≡ record m {
            repository = record m.repository { reservations = delete entry.id reservations };
          }
    refused_state reservations =
        λ i. record m { repository = delete_record-entered p q entry m reservations fresh i }

    reserved-Outcome : Outcome (
        reserved_or_failed p q a entry m (
          reserve_capacity
            (reservation_for q entry.id (truncate now) m)
            (entered p q entry m m.repository.reservations)))
    unfolding reserved_or_failed reservation_for
    reserved-Outcome =
        let c = reservation_for q entry.id (truncate now) m in
        let r = entered p q entry m m.repository.reservations in
        let left =
          lookup-unexpired_at (truncate now) entry.id m.repository.reservations new.reservations in
        let rest = unexpired_at (truncate now) m.repository.reservations in
        elim (reserve_cases c r new.reservations) [
          | inl (e, inl refused) ↦
              let gone = delete_missing entry.id m.repository.reservations new.reservations in
              rw refused (
                inl (
                  e,
                  inl (λ i. (
                    err e,
                    (refused_state m.repository.reservations ∙ (λ j. record m {
                      repository = record m.repository { reservations = gone j };
                    }))
                        i,
                  )),
                ))
          | inl (e, inr refused) ↦
              let gone = delete_missing entry.id rest left in
              rw refused (
                inl (
                  e,
                  inr (λ i. (
                    err e,
                    (refused_state rest ∙ (λ j. record m {
                      repository = record m.repository { reservations = gone j };
                    }))
                        i,
                  )),
                ))
          | inr reserved ↦
              rw reserved
                (admit_upload-Outcome (insert entry.id c rest) (inr (restored_reserved c)))
        ]

    pub reserve-Outcome :
        Outcome (reserve p q a entry now m (entered p q entry m m.repository.reservations))
    unfolding reserve
    reserve-Outcome = elim (Bool-cases (lt64 0 q.expected_size)) [
      | inl sized ↦ rw sized reserved-Outcome
      | inr unsized ↦
          rw unsized (admit_upload-Outcome m.repository.reservations (inl restored_unreserved))
    ]
