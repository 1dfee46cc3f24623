-- ===== src/Ingest/Reception/Loop.antt =====
-- The loop of `create` of internal/ingest/manager.go changes the file and the owner's reservation only.

use secure_file_storage_syst.Prelude.{
  ℕ, zero, suc, ◌+◌, ◌-◌, ◌≤◌, ◌<◌, ◌^◌, String, ◌≡◌, ◌⊎◌, inl, inr, refl, sym, ap, subst, ◌∙◌,
  Bool, Option, none, some, List, [], ◌∷◌, ◌++◌, length, take, arith, ◌==◌, string_eq, nat_eq,
  Bool-cases,
}
use secure_file_storage_syst.Prelude.Map.{insert, insert-insert}
use secure_file_storage_syst.Prelude.Bytes.{Bytes, bytes_eq}
use secure_file_storage_syst.Prelude.Int64.{add64, lt64, add64_small}
use secure_file_storage_syst.Ingest.{Error, quota_exceeded, invalid_file, cancelled, io_failure}
use secure_file_storage_syst.Ingest.Manager.{Manager}
use secure_file_storage_syst.Ingest.Reception.{
  Request, Ending, more, eof, broken, Read, reserved_of, Progress, Streamed, owner_quota_usage,
  owner_quota,
}
use secure_file_storage_syst.Ingest.Reception.Body.{hold, write, and_then, receive, ended, stream}
use secure_file_storage_syst.Ingest.Reception.Holding.{IsReserved, holding, holding-more}

pub length-take-le : {A : Type 0} (n : ℕ) (xs : List A) → length (take n xs) ≤ n
length-take-le zero xs = omega arith
length-take-le (suc n) [] = omega arith
length-take-le (suc n) (x ∷ xs) = omega (arith, length-take-le n xs)

-- How a round of the loop ends: without an effect, or with the bytes held and written.
pub hold_cases :
    (q : Request) (n : ℕ) (pr : Progress) (m : Manager)
    → ((e : Option Error) × (hold q n pr m ≡ (e, pr, m)))
      ⊎ (hold q n pr m ≡ (
        none,
        record pr { held = add64 pr.held n },
        record m {
          owner_reservations =
              insert q.owner_id
                (add64 (reserved_of q.owner_id m.owner_reservations) n)
                m.owner_reservations;
        },
      ))
unfolding hold
hold_cases q n pr m =
    let over = lt64 (owner_quota q.owner_id m) (
      add64
        (add64 (owner_quota_usage q.owner_id m.uploads)
          (reserved_of q.owner_id m.owner_reservations))
        n) in
    elim (Bool-cases (lt64 0 q.expected_size)) [
      | inl sized ↦ elim (Bool-cases (lt64 q.expected_size (add64 pr.size n))) [
        | inl long ↦ inl (some invalid_file, rw (sized, long) refl)
        | inr fits ↦ inl (none, rw (sized, fits) refl)
      ]
      | inr unsized ↦ elim (Bool-cases over) [
        | inl full ↦ inl (some quota_exceeded, rw (unsized, full) refl)
        | inr room ↦ inr (rw (unsized, room) refl)
      ]
    ]

abbrev Counted : Progress → Bytes → Progress → Type 0
Counted pr bytes pr' = (pr'.size ≡ add64 pr.size (length bytes)) × (pr'.held ≡ pr.held)

write_cases :
    (object : String) (bytes : Bytes) (written : Bool) (pr : Progress) (m : Manager)
    → let s = write object bytes written pr m in
      Counted pr bytes s.1
      × (((s.1.received ≡ pr.received) × (s.2 ≡ m))
          ⊎ ((s.1.received ≡ pr.received ++ bytes)
              × (s.2
                  ≡ record m { quarantine = insert object (pr.received ++ bytes) m.quarantine })))
unfolding write
write_cases object bytes written pr m =
    elim (Bool-cases (lt64 m.max_upload_bytes (add64 pr.size (length bytes)))) [
      | inl large ↦ rw large ((refl, refl), inl (refl, refl))
      | inr small ↦ elim (Bool-cases written) [
        | inl done ↦ rw (small, done) ((refl, refl), inr (refl, refl))
        | inr failed ↦ rw (small, failed) ((refl, refl), inl (refl, refl))
      ]
    ]

-- The loop changes the file and the owner's reservation, as its progress says, and nothing else.
module _ (q : Request) (object : String) (base : Manager)
    (small : base.max_upload_bytes + 1 < 2 ^ 63)
    (kept : IsReserved q.owner_id base.owner_reservations) where
  abbrev pub at : Progress → Manager
  at pr = record base {
    quarantine = insert object pr.received base.quarantine;
    owner_reservations = holding q.owner_id pr.held base.owner_reservations;
  }

  record Follows (bound size : ℕ) (s : Streamed) : Type 0 where
    state : s.2 ≡ at s.1
    held_le : s.1.held ≤ bound
    counted : s.1.size ≡ size

  pub hold_state :
      (n : ℕ) (pr : Progress)
      → pr.held + n < 2 ^ 63
      → 0 < n
      → record (at pr) {
        owner_reservations =
            insert q.owner_id
              (add64 (reserved_of q.owner_id (at pr).owner_reservations) n)
              (at pr).owner_reservations;
      }
        ≡ at (record pr { held = add64 pr.held n })
  hold_state n pr fits pos =
      let kept_more =
        holding-more q.owner_id base.owner_reservations kept pr.held n fits pos
        ∙ ap (λ (b : ℕ). holding q.owner_id b base.owner_reservations)
            (sym (add64_small pr.held n fits)) in
      λ i. record (at pr) { owner_reservations = kept_more i }

  write-Follows :
      (bytes : Bytes) (written : Bool) (pr : Progress)
      → Follows pr.held (add64 pr.size (length bytes)) (write object bytes written pr (at pr))
  write-Follows bytes written pr =
      let (counted, effect) = write_cases object bytes written pr (at pr) in
      let s = write object bytes written pr (at pr) in
      let place = λ (held : ℕ) (received : Bytes). record base {
        quarantine = insert object received base.quarantine;
        owner_reservations = holding q.owner_id held base.owner_reservations;
      } in
      record {
        state = elim effect [
          | inl (same, still) ↦ still ∙ sym (λ i. place (counted.1 i) (same i))
          | inr (longer, now) ↦
              now
              ∙ ((λ i. record (at pr) {
                quarantine =
                    insert-insert object (pr.received ++ bytes) pr.received base.quarantine i;
              })
                  ∙ sym (λ i. place (counted.1 i) (longer i)))
        ];
        held_le = omega (arith, counted.1);
        counted = counted.0;
      }

  -- What every round keeps, with the bytes that are left to read.
  pub record Loops (left : ℕ) (s : Streamed) : Type 0 where
    pub state : s.2 ≡ at s.1
    pub held_le : s.1.held ≤ s.1.size
    pub counted : s.1.size + left ≤ base.max_upload_bytes + 1

  pub and_then_elim :
      (P : Streamed → Type 0) (s : Streamed) (next : Progress → Manager → Streamed)
      → s.2 ≡ at s.1
      → P s
      → (s.0 ≡ none → P (next s.1 (at s.1)))
      → P (and_then s next)
  and_then_elim P (some e, pr, m) next same stop go = stop
  and_then_elim P (none, pr, m) next same stop go = subst (λ m. P (next pr m)) (sym same) (go refl)

  pub receive-Loops :
      (left : ℕ) (bytes : Bytes) (written : Bool) (pr : Progress)
      → pr.held ≤ pr.size
      → length bytes ≤ left
      → pr.size + left ≤ base.max_upload_bytes + 1
      → Loops (left - length bytes) (receive q object bytes written pr (at pr))
  unfolding receive
  receive-Loops left bytes written pr held fits counted = elim (Bool-cases (length bytes == 0)) [
    | inl empty ↦
        rw empty (record { state = refl; held_le = held; counted = omega (arith, counted) })
    | inr some_bytes ↦
        let n = length bytes in
        let pos : 0 < n = ground (arith, some_bytes) in
        let small_held : pr.held + n < 2 ^ 63 = omega (arith, held, fits, counted, small) in
        let sum = add64_small pr.size n (omega (arith, fits, counted, small)) in
        rw some_bytes (elim (hold_cases q n pr (at pr)) [
          | inl (e, same) ↦
              let writes = write-Follows bytes written pr in
              rw same (
                and_then_elim (Loops (left - n)) (e, pr, at pr) (write object bytes written) refl
                  (record { state = refl; held_le = held; counted = omega (arith, counted) })
                  (λ done. record {
                    state = writes.state;
                    held_le = omega (arith, writes.held_le, writes.counted, sum, held);
                    counted = omega (arith, writes.counted, sum, fits, counted);
                  }))
          | inr holds ↦
              let pr' = record pr { held = add64 pr.held n } in
              let writes = write-Follows bytes written pr' in
              let sum' = add64_small pr.held n small_held in
              rw holds (
                subst (λ m. Loops (left - n) (write object bytes written pr' m))
                  (sym (hold_state n pr small_held pos))
                  (record {
                    state = writes.state;
                    held_le = omega (arith, writes.held_le, writes.counted, sum, sum', held);
                    counted = omega (arith, writes.counted, sum, fits, counted);
                  }))
        ])
  ]

  pub ended_elim :
      (P : Streamed → Type 0) (e : Ending) (next : Progress → Manager → Streamed) (pr : Progress)
      (m : Manager)
      → P (none, pr, m)
      → P (some io_failure, pr, m)
      → P (next pr m)
      → P (ended e next pr m)
  ended_elim P more next pr m stop fail go = go
  ended_elim P eof next pr m stop fail go = stop
  ended_elim P broken next pr m stop fail go = fail

  pub record Ends (s : Streamed) : Type 0 where
    pub state : s.2 ≡ at s.1
    pub held_small : s.1.held < 2 ^ 63

  pub stream-Ends :
      (left : ℕ) (reads : List Read) (pr : Progress)
      → pr.held ≤ pr.size
      → pr.size + left ≤ base.max_upload_bytes + 1
      → Ends (stream q object left reads pr (at pr))
  unfolding stream
  stream-Ends left [] pr held counted = record {
    state = refl;
    held_small = omega (arith, held, counted, small);
  }
  stream-Ends left (r ∷ rs) pr held counted =
      let stays : (e : Option Error) → Ends (e, pr, at pr) =
        λ e. record { state = refl; held_small = omega (arith, held, counted, small) } in
      let bytes = take left r.bytes in
      let s = receive q object bytes r.written pr (at pr) in
      let kept_on =
        receive-Loops left bytes r.written pr held (length-take-le left r.bytes) counted in
      let ends : (e : Option Error) → Ends (e, s.1, at s.1) = λ e. record {
        state = refl;
        held_small = omega (arith, kept_on.held_le, kept_on.counted, small);
      } in
      elim (Bool-cases r.is_cancelled) [
        | inl stop ↦ rw stop (stays (some cancelled))
        | inr go ↦ elim (Bool-cases (left == 0)) [
          | inl full ↦ rw (go, full) (stays none)
          | inr room ↦
              rw (go, room)
                (and_then_elim Ends s (ended r.ending (stream q object (left - length bytes) rs))
                  kept_on.state
                  (record { state = kept_on.state; held_small = (ends none).held_small })
                  (λ done.
                    ended_elim Ends r.ending (stream q object (left - length bytes) rs) s.1 (at s.1)
                      (ends none) (ends (some io_failure))
                      (stream-Ends (left - length bytes) rs s.1 kept_on.held_le kept_on.counted)))
        ]
      ]
