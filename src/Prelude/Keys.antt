-- ===== src/Prelude/Keys.antt =====
-- Association lists whose keys are distinct, as those of a Go map are: searches meet look-ups.
use mathlib.Core.Path.{◌≡◌, ◌∙◌, ap, refl, subst}
use mathlib.Core.Logic.{inl, inr}
use mathlib.Core.Bool.{Bool, true, false}
use mathlib.Core.Option.{none, some}
use mathlib.Core.List.{[], ◌∷◌}
use native.Mathlib.Omega.{arith}
use secure_file_storage_syst.Prelude.Tests.{Eq, ◌==◌, Bool-cases, is_some}
use secure_file_storage_syst.Prelude.Lists.{find}
use secure_file_storage_syst.Prelude.Map.{
  Map, lookup, insert, delete, update_each, updated, lookup-insert, lookup-delete,
  lookup-update_each,
}

module _ {ℓ κ} {K : Type ℓ} ⦃e : Eq K⦄ {V : Type κ} where
  abbrev pub Distinct : Map K V → Type κ
  Distinct [] = Unit
  Distinct ((k, v) ∷ m) = (lookup k m ≡ none) × Distinct m

  lookup-insert_other :
      (j k : K) (v : V) (m : Map K V)
      → (k == j) ≡ false
      → lookup j m ≡ none
      → lookup j (insert k v m) ≡ none
  lookup-insert_other j k v m h n = rw (lookup-insert, h, n) refl

  pub insert-Distinct : (k : K) (v : V) (m : Map K V) → Distinct m → Distinct (insert k v m)
  unfolding insert lookup
  insert-Distinct k v [] d = (refl, tt)
  insert-Distinct k v ((j, w) ∷ m) d = elim (Bool-cases (j == k)) [
    | inl hit ↦ rw (hit, insert) (subst (λ i. lookup i m ≡ none) ((e.beq_iff j k).0 hit) d.0, d.1)
    | inr miss ↦
        rw (miss, insert)
          (
            lookup-insert_other j k v m (ground (arith, e.beq_iff j k, e.beq_iff k j)) d.0,
            insert-Distinct k v m d.1,
          )
  ]

  pub update_each-Distinct : (f : K → V → V) (m : Map K V) → Distinct m → Distinct (update_each f m)
  unfolding update_each
  update_each-Distinct f [] d = tt
  update_each-Distinct f ((j, w) ∷ m) d =
      (lookup-update_each f j m ∙ ap (updated f j) d.0, update_each-Distinct f m d.1)

  pub delete-Distinct : (k : K) (m : Map K V) → Distinct m → Distinct (delete k m)
  unfolding delete
  delete-Distinct k [] d = tt
  delete-Distinct k ((j, w) ∷ m) d = elim (Bool-cases (j == k)) [
    | inl hit ↦ rw (hit, delete) (delete-Distinct k m d.1)
    | inr miss ↦ rw (miss, delete) (ground (arith, lookup-delete k j m), delete-Distinct k m d.1)
  ]

  -- With distinct keys an entry that a search finds is the one under its key.
  pub find-lookup :
      (p : K × V → Bool) (m : Map K V) (k : K) (v : V)
      → Distinct m
      → find p m ≡ some (k, v)
      → lookup k m ≡ some v
  unfolding find lookup
  find-lookup p [] k v d h = absurd (ground arith)
  find-lookup p ((j, w) ∷ m) k v d h = elim (Bool-cases (p (j, w))) [
    | inl hit ↦ ground (arith, e.beq_iff j k)
    | inr miss ↦
        let rest = find-lookup p m k v d.1 (ground arith) in
        elim (Bool-cases (j == k)) [
          | inl same ↦
              absurd (ground (arith, subst (λ i. lookup i m ≡ none) ((e.beq_iff j k).0 same) d.0))
          | inr other ↦ ground arith
        ]
  ]

  -- An entry that passes the test is found, or an earlier one is.
  pub lookup-find :
      (p : K × V → Bool) (m : Map K V) (k : K) (v : V)
      → lookup k m ≡ some v
      → p (k, v) ≡ true
      → is_some (find p m) ≡ true
  unfolding find lookup
  lookup-find p [] k v h t = absurd (ground arith)
  lookup-find p ((j, w) ∷ m) k v h t = elim (Bool-cases (j == k)) [
    | inl same ↦
        let first : p (j, w) ≡ true =
          subst (λ (a : K × V). p a ≡ true) (ground (arith, e.beq_iff j k)) t in
        rw (first, find) refl
    | inr other ↦ ground (arith, lookup-find p m k v (ground arith) t)
  ]
