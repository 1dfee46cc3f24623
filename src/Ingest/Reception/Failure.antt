-- ===== src/Ingest/Reception/Failure.antt =====
-- Every error path of `create` of internal/ingest/manager.go: what an upload that fails leaves behind.

use secure_file_storage_syst.Prelude.{
  ◌+◌, ◌<◌, ◌^◌, String, ◌≡◌, ◌⊎◌, inl, inr, refl, sym, ap, subst, true, false, not, ◌||◌, Option,
  none, some, ltb, arith, ◌==◌, string_eq, nat_eq, Result, ok, err, Bool-cases, Option-cases,
}
use secure_file_storage_syst.Prelude.Time.{truncate}
use secure_file_storage_syst.Prelude.Map.{lookup}
use secure_file_storage_syst.Prelude.Bytes.{bytes_eq}
use secure_file_storage_syst.Ingest.Reception.Receipt.{Receipt}
use secure_file_storage_syst.Ingest.{
  random_failure, invalid_key, panic, Error, invalid_file, PersistedRecord,
}
use secure_file_storage_syst.Ingest.Manager.{Manager}
use secure_file_storage_syst.Ingest.Reception.{
  Primitives, Request, Draws, entry_of, safe_display_name, media_type, byte_length, has_control,
  Answers, index_of,
}
use secure_file_storage_syst.Ingest.Reception.Holding.{IsReserved}
use secure_file_storage_syst.Ingest.Repository.{record_of, create_record}
use secure_file_storage_syst.Ingest.Reception.Cleanup.{entered}
use secure_file_storage_syst.Ingest.Reception.Admission.{
  known_again, after_create, create_new, create, record_from_persisted, valid_key,
}
use secure_file_storage_syst.Ingest.Reception.Outcome.{IsNew, pruned, Outcome, reserve-Outcome}

module _ (p : Primitives) (q : Request) (d : Draws) (a : Answers) (m : Manager)
    (drawn : (id : String) → d.upload_id ≡ some id → IsNew id m)
    (kept : IsReserved q.owner_id m.owner_reservations)
    (small : m.max_upload_bytes + 1 < 2 ^ 63) where
  known_again-Outcome :
      (r : Result Error PersistedRecord) → Outcome p q m d.now (known_again p q m m.repository r)
  known_again-Outcome (err e) = inl (e, inl refl)
  known_again-Outcome (ok existing) = inr (existing, inl refl)

  created-Outcome :
      (id correlation_id : String)
      → IsNew id m
      → lookup (index_of p q) m.idempotency ≡ none
      → Outcome p q m d.now (
          after_create p q a d.now m
            (create_record (entry_of p q id correlation_id d.now) m.repository))
  unfolding after_create create_record entry_of
  created-Outcome id correlation_id new unknown_here =
      let entry = entry_of p q id correlation_id d.now in
      elim (Option-cases (lookup (index_of p q) m.repository.by_idempotency)) [
        | inl unknown_there ↦
            let created : create_record entry m.repository
                ≡ (entry, false, entered p q entry m m.repository.reservations) =
              rw (unknown_there, create_record) refl in
            subst (λ c. Outcome p q m d.now (after_create p q a d.now m c)) (sym created)
              (reserve-Outcome p q m d.now a entry new kept small unknown_here unknown_there refl
                refl refl)
        | inr (existing_id, known) ↦
            let reused : create_record entry m.repository
                ≡ (record_of m.repository existing_id, true, m.repository) =
              rw (known, create_record) refl in
            subst (λ c. Outcome p q m d.now (after_create p q a d.now m c)) (sym reused)
              (known_again-Outcome (record_from_persisted (record_of m.repository existing_id)))
      ]

  create_new-Outcome :
      lookup (index_of p q) m.idempotency ≡ none → Outcome p q m d.now (create_new p q d a m)
  unfolding create_new
  create_new-Outcome unknown_here = elim (Option-cases d.upload_id) [
    | inl nothing ↦ rw nothing (inl (random_failure, inl refl))
    | inr (id, has) ↦ elim (Option-cases d.correlation_id) [
      | inl nothing ↦ rw (has, nothing) (inl (random_failure, inl refl))
      | inr (correlation_id, has') ↦
          rw (has, has') (created-Outcome id correlation_id (drawn id has) unknown_here)
    ]
  ]

  known-Outcome :
      (known : Option String)
      → lookup (index_of p q) m.idempotency ≡ known
      → Outcome p q m d.now (elim known [
        | some existing_id ↦ elim (lookup existing_id m.uploads) [
          | some existing ↦ (ok (existing, true), m)
          | none ↦ (err panic, m)
        ]
        | none ↦ create_new p q d a m
      ])
  known-Outcome none unknown = create_new-Outcome unknown
  known-Outcome (some existing_id) has = elim (Option-cases (lookup existing_id m.uploads)) [
    | inl missing ↦ rw missing (inl (panic, inl refl))
    | inr (existing, found) ↦ rw found (inr (existing, inl refl))
  ]

  create-Outcome : Outcome p q m d.now (create p q d a m)
  unfolding create
  create-Outcome = elim (Bool-cases (not (valid_key q.idempotency_key))) [
    | inl bad_key ↦ rw bad_key (inl (invalid_key, inl refl))
    | inr key ↦ elim (Bool-cases (safe_display_name p q.original_name == "" || not q.has_source)) [
      | inl bad_name ↦ rw (key, bad_name) (inl (invalid_file, inl refl))
      | inr name ↦
          elim (Bool-cases (
            ltb 255 (byte_length (media_type p q.declared_media_type))
            || has_control (media_type p q.declared_media_type))) [
              | inl bad_type ↦ rw (key, name, bad_type) (inl (invalid_file, inl refl))
              | inr type ↦
                  rw (key, name, type) (known-Outcome (lookup (index_of p q) m.idempotency) refl)
            ]
    ]
  ]

-- A key that the manager knows, in a request whose form was accepted before.
create_known :
    (p : Primitives) (q : Request) (d d' : Draws) (a a' : Answers) (m m' : Manager)
    (u : PersistedRecord)
    → (create p q d a m).0 ≡ ok (u, false)
    → lookup (index_of p q) m'.idempotency ≡ some u.id
    → lookup u.id m'.uploads ≡ some u
    → create p q d' a' m' ≡ (ok (u, true), m')
unfolding create
create_known p q d d' a a' m m' u created indexed known =
    elim (Bool-cases (not (valid_key q.idempotency_key))) [
      | inl bad_key ↦ absurd (ground (arith, created, bad_key))
      | inr key ↦
          elim (Bool-cases (safe_display_name p q.original_name == "" || not q.has_source)) [
            | inl bad_name ↦ absurd (ground (arith, created, key, bad_name))
            | inr name ↦
                elim (Bool-cases (
                  ltb 255 (byte_length (media_type p q.declared_media_type))
                  || has_control (media_type p q.declared_media_type))) [
                    | inl bad_type ↦ absurd (ground (arith, created, key, name, bad_type))
                    | inr type ↦ rw (key, name, type, indexed, known) refl
                  ]
          ]
    ]

-- A failed upload leaves nothing behind: where `create` answers an error, on any of its paths, the
-- manager is as before, with its uploads, keys, quarantine directory and held quota, and the
-- repository is as before but for capacity reservations that had expired. The identifier that is
-- drawn is new, the owner's held bytes are kept as a positive int64, and the upload limit leaves
-- room for one byte more.
pub failed_create_restores :
    (p : Primitives) (q : Request) (d : Draws) (a : Answers) (m : Manager) (e : Error)
    → ((id : String) → d.upload_id ≡ some id → IsNew id m)
    → IsReserved q.owner_id m.owner_reservations
    → m.max_upload_bytes + 1 < 2 ^ 63
    → (create p q d a m).0 ≡ err e
    → ((create p q d a m).1 ≡ m) ⊎ ((create p q d a m).1 ≡ pruned (truncate d.now) m)
failed_create_restores p q d a m e drawn kept small failed =
    elim (create-Outcome p q d a m drawn kept small) [
      | inl (e', inl same) ↦ inl (ap (λ c. c.1) same)
      | inl (e', inr same) ↦ inr (ap (λ c. c.1) same)
      | inr (u, inl reused) ↦ absurd (ground (arith, failed, reused))
      | inr (u, inr (done, receipt)) ↦ absurd (ground (arith, failed, done))
    ]

pub create-Receipt :
    (p : Primitives) (q : Request) (d : Draws) (a : Answers) (m : Manager) (u : PersistedRecord)
    → ((id : String) → d.upload_id ≡ some id → IsNew id m)
    → IsReserved q.owner_id m.owner_reservations
    → m.max_upload_bytes + 1 < 2 ^ 63
    → (create p q d a m).0 ≡ ok (u, false)
    → Receipt p q m u (create p q d a m).1
create-Receipt p q d a m u drawn kept small created =
    elim (create-Outcome p q d a m drawn kept small) [
      | inl (e', inl same) ↦ absurd (ground (arith, created, ap (λ c. c.0) same))
      | inl (e', inr same) ↦ absurd (ground (arith, created, ap (λ c. c.0) same))
      | inr (u', inl reused) ↦ absurd (ground (arith, created, reused))
      | inr (u', inr (done, receipt)) ↦
          subst (λ v. Receipt p q m v (create p q d a m).1) (ground (arith, created, done)) receipt
    ]

-- The retry of an accepted upload, whatever is drawn and read then, answers the same upload, receives
-- nothing and leaves the manager as it is. The identifier that is drawn first is new, the owner's held
-- bytes are kept as a positive int64, and the upload limit leaves room for one byte more.
pub create_retry :
    (p : Primitives) (q : Request) (d d' : Draws) (a a' : Answers) (m : Manager)
    (u : PersistedRecord)
    → ((id : String) → d.upload_id ≡ some id → IsNew id m)
    → IsReserved q.owner_id m.owner_reservations
    → m.max_upload_bytes + 1 < 2 ^ 63
    → (create p q d a m).0 ≡ ok (u, false)
    → create p q d' a' (create p q d a m).1 ≡ (ok (u, true), (create p q d a m).1)
create_retry p q d d' a a' m u drawn kept small created =
    let receipt = create-Receipt p q d a m u drawn kept small created in
    create_known p q d d' a a' m (create p q d a m).1 u created receipt.indexed receipt.known
