-- ===== src/ProtectedStore/Worker/Due.antt =====
-- The files that are due: internal/protectedstore/memory_repository.go, `EligibleForPurge`.
use secure_file_storage_syst.Prelude.{
  ℕ, ◌+◌, String, true, ◌≡◌, sym, ap, ◌∙◌, none, some, [], ◌∷◌, All, All-mono, All-both, arith,
  ◌==◌, string_eq, beq_refl, Bool-cases, inl, inr,
}
use secure_file_storage_syst.Prelude.Map.{Map, lookup}
use secure_file_storage_syst.Prelude.Keys.{Distinct}
use secure_file_storage_syst.Prelude.Sort.{Pairwise}
use secure_file_storage_syst.ProtectedStore.{LifecycleFile}
use secure_file_storage_syst.ProtectedStore.Lifecycle.{is_eligible}
use secure_file_storage_syst.ProtectedStore.Worker.{Primitives, due}
use secure_file_storage_syst.ProtectedStore.Worker.Purging.{Apart, Separate, OperationsApart}

pub entries_lookup :
    (m : Map String LifecycleFile)
    → Distinct m
    → All (λ (e : String × LifecycleFile). lookup e.0 m ≡ some e.1) m
unfolding lookup
entries_lookup [] d = tt
entries_lookup ((k, f) ∷ m) d = (
  ground (arith, beq_refl k),
  All-mono m (λ e found. behind k f e m d.0 found) (entries_lookup m d.1),
)
  where
    behind :
        (k : String) (f : LifecycleFile) (e : String × LifecycleFile) (m : Map String LifecycleFile)
        → lookup k m ≡ none
        → lookup e.0 m ≡ some e.1
        → lookup e.0 ((k, f) ∷ m) ≡ some e.1
    behind k f e m missing found = elim (Bool-cases (k == e.0)) [
      | inl same ↦ absurd (
          ground (
            arith,
            missing,
            found,
            ap (λ (j : String). lookup j m) ((string_eq.beq_iff k e.0).0 same),
          ))
      | inr other ↦ rw (other, lookup) found
    ]

-- The lifecycle records under the identifiers of their files, as `RegisterInitial` writes them.
abbrev pub IsKeyed : Map String LifecycleFile → Type 0
IsKeyed m = All (λ (e : String × LifecycleFile). e.0 ≡ e.1.file_id) m

pub zero_plus : (n : ℕ) → 0 + n ≡ n
zero_plus n = omega arith

module _ (now : ℕ) where
  pub due-All {κ} :
      (Q : LifecycleFile → Type κ) (m : Map String LifecycleFile)
      → All (λ (e : String × LifecycleFile). is_eligible now e.1 ≡ true → Q e.1) m
      → All Q (due now m)
  unfolding due
  due-All Q [] h = tt
  due-All Q ((k, f) ∷ m) h = elim (Bool-cases (is_eligible now f)) [
    | inl hit ↦ rw (hit, due) (h.0 hit, due-All Q m h.1)
    | inr miss ↦ rw (miss, due) (due-All Q m h.1)
  ]

  pub All-of_due {κ} :
      (Q : LifecycleFile → Type κ) (m : Map String LifecycleFile)
      → All Q (due now m)
      → All (λ (e : String × LifecycleFile). is_eligible now e.1 ≡ true → Q e.1) m
  unfolding due
  All-of_due Q [] h = tt
  All-of_due Q ((k, f) ∷ m) h = elim (Bool-cases (is_eligible now f)) [
    | inl hit ↦ let split = rw (hit, due) at h in (λ eligible. split.0, All-of_due Q m split.1)
    | inr miss ↦
        (λ eligible. absurd (ground (arith, eligible, miss)), All-of_due Q m (rw (miss, due) at h))
  ]

  apart_lem :
      (k : String) (f : LifecycleFile) (m : Map String LifecycleFile) (e : String × LifecycleFile)
      → k ≡ f.file_id
      → lookup k m ≡ none
      → lookup e.0 m ≡ some e.1
      → e.0 ≡ e.1.file_id
      → Apart f e.1
  apart_lem k f m e key missing found keyed = elim (Bool-cases (f.file_id == e.1.file_id)) [
    | inl same ↦
        let met = key ∙ (string_eq.beq_iff f.file_id e.1.file_id).0 same ∙ sym keyed in
        absurd (ground (arith, missing, found, ap (λ (j : String). lookup j m) met))
    | inr other ↦ other
  ]

-- The operations of the files that are due are told apart.
unfoldable pub OperationsDiffer : Primitives → ℕ → Map String LifecycleFile → Type 0
OperationsDiffer p now m =
    (i j : String) (f g : LifecycleFile)
    → lookup i m ≡ some f
    → lookup j m ≡ some g
    → is_eligible now f ≡ true
    → is_eligible now g ≡ true
    → Apart f g
    → OperationsApart p f g

-- An entry that a look-up finds.
abbrev pub Stored : Map String LifecycleFile → String × LifecycleFile → Type 0
Stored m e = lookup e.0 m ≡ some e.1

pub due-Pairwise :
    (p : Primitives) (now : ℕ) (whole m : Map String LifecycleFile)
    → OperationsDiffer p now whole
    → All (Stored whole) m
    → Distinct m
    → IsKeyed m
    → Pairwise (Separate p) (due now m)
unfolding due OperationsDiffer
due-Pairwise p now whole [] differ stored d keyed = tt
due-Pairwise p now whole ((k, f) ∷ m) differ stored d keyed =
    let rest = due-Pairwise p now whole m differ stored.1 d.1 keyed.1 in
    elim (Bool-cases (is_eligible now f)) [
      | inl hit ↦
          let facts = All-both _ _ m stored.1 (All-both _ _ m (entries_lookup m d.1) keyed.1) in
          let separate =
            All-mono m
              (λ e h eligible.
                let apart = apart_lem now k f m e keyed.0 d.0 h.1.0 h.1.1 in
                (apart, differ k e.0 f e.1 stored.0 h.0 hit eligible apart))
              facts in
          rw (hit, due) (due-All now (Separate p f) m separate, rest)
      | inr miss ↦ rw (miss, due) rest
    ]
