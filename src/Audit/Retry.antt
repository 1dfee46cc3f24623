-- ===== src/Audit/Retry.antt =====
-- An event that is appended twice: `Append` of internal/audit/memory_repository.go.
use secure_file_storage_syst.Prelude.{
  ℕ, String, ◌≡◌, sym, subst, beq_refl, Bool, true, false, none, some, List, [], ◌∷◌, ◌++◌, find,
  arith, ◌==◌, string_eq, Bool-cases, Option-cases, inl, inr,
}
use secure_file_storage_syst.Prelude.Bytes.{Bytes}
use secure_file_storage_syst.Audit.{Event, MemoryRepository, append, append_new, sealed}

abbrev has_id : String → Event → Bool
has_id id existing = existing.event_id == id

find-append :
    {A : Type 0} (test : A → Bool) (xs : List A) (y : A)
    → find test xs ≡ none
    → test y ≡ true
    → find test (xs ++ y ∷ []) ≡ some y
unfolding find
find-append test [] y missing ok = ground arith
find-append test (x ∷ xs) y missing ok = elim (Bool-cases (test x)) [
  | inl found ↦ ground arith
  | inr other ↦ ground (arith, find-append test xs y (ground arith) ok)
]

append_known :
    (compute : ℕ → Bytes → Event → Bytes) (f existing : Event) (r : MemoryRepository)
    → (f.event_id == "") ≡ false
    → find (has_id f.event_id) r.events ≡ some existing
    → append compute f r ≡ (existing, r)
unfolding append
append_known compute f existing r named found = ground arith

append_unknown :
    (compute : ℕ → Bytes → Event → Bytes) (e : Event) (r : MemoryRepository)
    → find (has_id e.event_id) r.events ≡ none
    → append compute e r ≡ append_new compute e r
unfolding append
append_unknown compute e r missing = ground (arith, Bool-cases (e.event_id == ""))

append_new_known :
    (compute : ℕ → Bytes → Event → Bytes) (e f : Event) (r : MemoryRepository)
    → (e.event_id == "") ≡ false
    → f.event_id ≡ e.event_id
    → find (has_id e.event_id) r.events ≡ none
    → append compute f (append_new compute e r).1 ≡ append_new compute e r
append_new_known compute e f r named same missing =
    let e' = sealed compute r e in
    let id = λ (i : String). find (has_id i) (r.events ++ e' ∷ []) ≡ some e' in
    let found : find (has_id e.event_id) (r.events ++ e' ∷ []) ≡ some e' =
      find-append (has_id e.event_id) r.events e' missing (unfold sealed in beq_refl e.event_id) in
    unfold append_new in
    append_known compute f e' (append_new compute e r).1
      (subst (λ (i : String). (i == "") ≡ false) {x = e.event_id} {y = f.event_id} (sym same) named)
      (subst id {x = e.event_id} {y = f.event_id} (sym same) found)

-- Appending an event under an identifier that was just appended, whatever else it says, answers the
-- stored event and leaves the log alone: a delivery that is retried leaves one event.
pub append_retry :
    (compute : ℕ → Bytes → Event → Bytes) (e f : Event) (r : MemoryRepository)
    → (e.event_id == "") ≡ false
    → f.event_id ≡ e.event_id
    → append compute f (append compute e r).1 ≡ append compute e r
append_retry compute e f r named same = elim (Option-cases (find (has_id e.event_id) r.events)) [
  | inl missing ↦
      let first = append_unknown compute e r missing in
      subst (λ (s : Event × MemoryRepository). append compute f s.1 ≡ s)
        {x = append_new compute e r} {y = append compute e r} (sym first)
        (append_new_known compute e f r named same missing)
  | inr (existing, found) ↦
      let first = append_known compute e existing r named found in
      subst (λ (s : Event × MemoryRepository). append compute f s.1 ≡ s) {x = (existing, r)}
        {y = append compute e r} (sym first)
        (append_known compute f existing r
          (subst (λ (i : String). (i == "") ≡ false) {x = e.event_id} {y = f.event_id} (sym same)
            named)
          (subst (λ (i : String). find (has_id i) r.events ≡ some existing) {x = e.event_id}
            {y = f.event_id} (sym same) found))
]
