-- ===== src/Ingest/Reception/Receipt.antt =====
-- The bytes that the loop of `create` of internal/ingest/manager.go has received, and what an accepted
-- upload says of them.

use mathlib.Core.List.{append-nil}
use secure_file_storage_syst.Prelude.{
  ℕ, zero, suc, ◌+◌, ◌-◌, ◌≤◌, ◌<◌, ◌^◌, String, ◌≡◌, inl, inr, refl, sym, ap, ◌∙◌, Bool, true,
  none, some, List, [], ◌∷◌, ◌++◌, length, length-append, take, ltb, arith, if◌then◌else◌, ◌==◌,
  string_eq, nat_eq, Bool-cases,
}
use secure_file_storage_syst.Prelude.Map.{lookup}
use secure_file_storage_syst.Prelude.Bytes.{Bytes, bytes_eq}
use secure_file_storage_syst.Prelude.Int64.{add64, lt64, add64_small, le_of_lt64}
use secure_file_storage_syst.Ingest.{quarantined, PersistedRecord}
use secure_file_storage_syst.Ingest.Manager.{Manager}
use secure_file_storage_syst.Ingest.Reception.{
  Primitives, Request, Read, Progress, Streamed, index_of,
}
use secure_file_storage_syst.Ingest.Reception.Body.{write, receive, ended, stream}
use secure_file_storage_syst.Ingest.Reception.Holding.{IsReserved}
use secure_file_storage_syst.Ingest.Reception.Body.{extend_header}
use secure_file_storage_syst.Ingest.Reception.Loop.{
  at, hold_cases, receive-Loops, and_then_elim, ended_elim, length-take-le,
}

take-append : (n : ℕ) (xs ys : Bytes) → take n (xs ++ ys) ≡ take n xs ++ take (n - length xs) ys
take-append zero xs ys = let same : 0 ≡ 0 - length xs = omega arith in ap (λ k. take k ys) same
take-append (suc n) [] ys = let same : suc n ≡ suc n - 0 = omega arith in ap (λ k. take k ys) same
take-append (suc n) (x ∷ xs) ys =
    let left : n - length xs ≡ suc n - suc (length xs) = omega arith in
    ap (λ zs. x ∷ zs) (take-append n xs ys ∙ ap (λ k. take n xs ++ take k ys) left)

take_all : (n : ℕ) (xs : Bytes) → length (take n xs) < n → (take n xs ≡ xs) × (length xs < n)
take_all zero xs h = absurd (omega arith)
take_all (suc n) [] h = (refl, omega arith)
take_all (suc n) (x ∷ xs) h =
    let rest = take_all n xs (omega (arith, h)) in (ap (λ zs. x ∷ zs) rest.0, omega (arith, rest.1))

take_full : (n : ℕ) (xs : Bytes) → n ≤ length (take n xs) → n ≤ length xs
take_full zero xs h = omega arith
take_full (suc n) [] h = absurd (omega arith)
take_full (suc n) (x ∷ xs) h = omega (arith, take_full n xs (omega (arith, h)))

-- The first bytes of the body, collected read by read.
extend-take :
    (n : ℕ) (received bytes : Bytes)
    → (if ltb (length (take n received)) n
        then take n received ++ take (n - length (take n received)) bytes
        else take n received)
      ≡ take n (received ++ bytes)
extend-take n received bytes = elim (Bool-cases (ltb (length (take n received)) n)) [
  | inl room ↦
      let (all, shorter) = take_all n received (ground (arith, room)) in
      rw room (
        ap (λ k. take n received ++ take (n - k) bytes) (ap length all)
        ∙ sym (take-append n received bytes))
  | inr full ↦
      let none_left : n - length received ≡ 0 =
        omega (arith, take_full n received (ground (arith, full))) in
      rw full (
        sym (
          take-append n received bytes
          ∙ (ap (λ k. take n received ++ take k bytes) none_left ∙ append-nil (take n received))))
]

-- The progress says what the file holds.
pub record Exact (limit : ℕ) (pr : Progress) : Type 0 where
  pub size : pr.size ≡ length pr.received
  pub header : pr.header ≡ take 512 pr.received
  pub within : pr.size ≤ limit

write-Exact :
    (limit : ℕ) (object : String) (bytes : Bytes) (written : Bool) (pr : Progress) (m : Manager)
    → m.max_upload_bytes ≡ limit
    → limit + 1 < 2 ^ 63
    → pr.size + length bytes ≤ limit + 1
    → Exact limit pr
    → (write object bytes written pr m).0 ≡ none
    → Exact limit (write object bytes written pr m).1
unfolding write
write-Exact limit object bytes written pr m same small fits exact done =
    let sum = add64_small pr.size (length bytes) (omega (arith, small, fits)) in
    let size = add64 pr.size (length bytes) in
    elim (Bool-cases (lt64 m.max_upload_bytes size)) [
      | inl large ↦ absurd (ground (arith, done, large))
      | inr kept ↦ elim (Bool-cases written) [
        | inr lost ↦ absurd (ground (arith, done, kept, lost))
        | inl stored ↦
            let within : size ≤ limit = omega (
              arith,
              same,
              le_of_lt64 m.max_upload_bytes size (omega (arith, same, small))
                  (omega (arith, sum, small, fits)) kept,
            ) in
            rw (kept, stored)
              (record {
                size = sum ∙ omega (arith, exact.size, length-append pr.received bytes);
                header =
                    ap (λ h. extend_header h bytes) exact.header
                    ∙ extend-take 512 pr.received bytes;
                within = within;
              })
      ]
    ]

module _ (q : Request) (object : String) (base : Manager)
    (small : base.max_upload_bytes + 1 < 2 ^ 63)
    (kept : IsReserved q.owner_id base.owner_reservations) where
  OnSuccess : Streamed → Type 0
  OnSuccess s = s.0 ≡ none → Exact base.max_upload_bytes s.1

  receive-OnSuccess :
      (left : ℕ) (bytes : Bytes) (written : Bool) (pr : Progress)
      → length bytes ≤ left
      → pr.size + left ≤ base.max_upload_bytes + 1
      → Exact base.max_upload_bytes pr
      → OnSuccess (receive q object bytes written pr (at q object base small kept pr))
  unfolding receive OnSuccess
  receive-OnSuccess left bytes written pr fits counted exact =
      let here = at q object base small kept pr in
      let n = length bytes in
      let room : pr.size + n ≤ base.max_upload_bytes + 1 = omega (arith, fits, counted) in
      elim (Bool-cases (n == 0)) [
        | inl empty ↦ rw empty (λ done. exact)
        | inr some_bytes ↦ rw some_bytes (elim (hold_cases q n pr here) [
          | inl (e, same) ↦ rw same (
              and_then_elim q object base small kept OnSuccess (e, pr, here)
                (write object bytes written) refl (λ done. exact)
                (λ going.
                  write-Exact base.max_upload_bytes object bytes written pr here refl small room
                    exact))
          | inr holds ↦ rw holds (
              write-Exact base.max_upload_bytes object bytes written
                (record pr { held = add64 pr.held n }) _ refl small room
                (record { size = exact.size; header = exact.header; within = exact.within }))
        ])
      ]

  pub stream-Exact :
      (left : ℕ) (reads : List Read) (pr : Progress)
      → pr.held ≤ pr.size
      → pr.size + left ≤ base.max_upload_bytes + 1
      → Exact base.max_upload_bytes pr
      → (stream q object left reads pr (at q object base small kept pr)).0 ≡ none
      → Exact base.max_upload_bytes
          (stream q object left reads pr (at q object base small kept pr)).1
  unfolding stream OnSuccess
  stream-Exact left [] pr held counted exact = λ done. exact
  stream-Exact left (r ∷ rs) pr held counted exact =
      let bytes = take left r.bytes in
      let s = receive q object bytes r.written pr (at q object base small kept pr) in
      let fits = length-take-le left r.bytes in
      let kept_on =
        receive-Loops q object base small kept left bytes r.written pr held fits counted in
      let received = receive-OnSuccess left bytes r.written pr fits counted exact in
      let next = stream q object (left - length bytes) rs in
      elim (Bool-cases r.is_cancelled) [
        | inl stop ↦ rw stop (λ done. exact)
        | inr go ↦ elim (Bool-cases (left == 0)) [
          | inl full ↦ rw (go, full) (λ done. exact)
          | inr room ↦
              rw (go, room)
                (and_then_elim q object base small kept OnSuccess s (ended r.ending next)
                  kept_on.state received
                  (λ going.
                    ended_elim q object base small kept OnSuccess r.ending next s.1
                      (at q object base small kept s.1) (λ done. received going)
                      (λ done. received going)
                      (stream-Exact (left - length bytes) rs s.1 kept_on.held_le kept_on.counted
                        (received going))))
        ]
      ]

-- What an accepted upload `u` is, in the manager `m'` that `m` has become: it waits for its
-- inspection, and describes the bytes of its file.
pub record Receipt (p : Primitives) (q : Request) (m : Manager) (u : PersistedRecord) (m' : Manager)
    : Type 0 where
  pub body : Bytes
  pub stored : lookup u.quarantine_object m'.quarantine ≡ some body
  pub known : lookup u.id m'.uploads ≡ some u
  pub recorded : lookup u.id m'.repository.records ≡ some u
  pub indexed : lookup (index_of p q) m'.idempotency ≡ some u.id
  pub waiting : u.status ≡ quarantined
  pub size : u.size ≡ length body
  pub digest : u.digest ≡ p.sha256_hex body
  pub media_type : u.detected_media_type ≡ p.detect_content_type (take 512 body)
  pub positive : 0 < length body
  pub within : length body ≤ m.max_upload_bytes
  pub declared : lt64 0 q.expected_size ≡ true → length body ≡ q.expected_size
  pub given_back : m'.owner_reservations ≡ m.owner_reservations
