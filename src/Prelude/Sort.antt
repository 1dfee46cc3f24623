-- ===== src/Prelude/Sort.antt =====
-- Sorting by a test of which of two elements goes first, as sort.Slice does. Of elements that the
-- test does not tell apart the first one stays first; Go leaves their order open.
use Prim.Native.Nat.{suc}
use mathlib.Core.Path.{◌≡◌}
use mathlib.Core.Logic.{inl, inr}
use mathlib.Core.Bool.{Bool}
use mathlib.Core.List.{List, [], ◌∷◌}
use native.Mathlib.Omega.{arith}
use secure_file_storage_syst.Prelude.Tests.{if◌then◌else◌, Bool-cases}
use secure_file_storage_syst.Prelude.Lists.{All, length}

module _ {ℓ} {A : Type ℓ} (before : A → A → Bool) where
  unfoldable pub put_in : A → List A → List A
  put_in x [] = x ∷ []
  put_in x (y ∷ ys) = if before y x then y ∷ put_in x ys else x ∷ y ∷ ys

  unfoldable pub sort : List A → List A
  sort [] = []
  sort (x ∷ xs) = put_in x (sort xs)

  put_in-All {κ} : (P : A → Type κ) (x : A) (ys : List A) → P x → All P ys → All P (put_in x ys)
  unfolding put_in
  put_in-All P x [] p h = (p, tt)
  put_in-All P x (y ∷ ys) p h = elim (Bool-cases (before y x)) [
    | inl later ↦ rw (later, put_in) (h.0, put_in-All P x ys p h.1)
    | inr first ↦ rw (first, put_in) (p, h)
  ]

  pub sort-All {κ} : (P : A → Type κ) (xs : List A) → All P xs → All P (sort xs)
  unfolding sort
  sort-All P [] h = tt
  sort-All P (x ∷ xs) h = put_in-All P x (sort xs) h.0 (sort-All P xs h.1)

  length-put_in : (x : A) (ys : List A) → length (put_in x ys) ≡ suc (length ys)
  unfolding put_in
  length-put_in x [] = omega arith
  length-put_in x (y ∷ ys) = ground (arith, length-put_in x ys)

  pub length-sort : (xs : List A) → length (sort xs) ≡ length xs
  unfolding sort
  length-sort [] = omega arith
  length-sort (x ∷ xs) = omega (arith, length-put_in x (sort xs), length-sort xs)

  All-of_put_in {κ} : (P : A → Type κ) (x : A) (ys : List A) → All P (put_in x ys) → P x × All P ys
  unfolding put_in
  All-of_put_in P x [] h = (h.0, tt)
  All-of_put_in P x (y ∷ ys) h = elim (Bool-cases (before y x)) [
    | inl later ↦
        let split = rw (later, put_in) at h in
        let rest = All-of_put_in P x ys split.1 in (rest.0, (split.0, rest.1))
    | inr first ↦ let split = rw (first, put_in) at h in (split.0, split.1)
  ]

  pub All-of_sort {κ} : (P : A → Type κ) (xs : List A) → All P (sort xs) → All P xs
  unfolding sort
  All-of_sort P [] h = tt
  All-of_sort P (x ∷ xs) h =
      let split = All-of_put_in P x (sort xs) h in (split.0, All-of_sort P xs split.1)

module _ {ℓ κ} {A : Type ℓ} (R : A → A → Type κ) where
  -- Every element and each that follows it.
  abbrev pub Pairwise : List A → Type κ
  Pairwise [] = Unit
  Pairwise (x ∷ xs) = All (R x) xs × Pairwise xs

  module _ (before : A → A → Bool) (symmetric : (x y : A) → R x y → R y x) where
    put_in-Pairwise :
        (x : A) (ys : List A) → All (R x) ys → Pairwise ys → Pairwise (put_in before x ys)
    unfolding put_in
    put_in-Pairwise x [] h p = (tt, tt)
    put_in-Pairwise x (y ∷ ys) h p = elim (Bool-cases (before y x)) [
      | inl later ↦
          rw (later, put_in)
            (put_in-All before (R y) x ys (symmetric x y h.0) p.0, put_in-Pairwise x ys h.1 p.1)
      | inr first ↦ rw (first, put_in) (h, p)
    ]

    pub sort-Pairwise : (xs : List A) → Pairwise xs → Pairwise (sort before xs)
    unfolding sort
    sort-Pairwise [] p = tt
    sort-Pairwise (x ∷ xs) p =
        put_in-Pairwise x (sort before xs) (sort-All before (R x) xs p.0) (sort-Pairwise xs p.1)
