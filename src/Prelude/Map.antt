-- ===== src/Prelude/Map.antt =====
-- A Go map as an association list. The list order stands for the iteration order of `range`.
use mathlib.Core.Path.{◌≡◌, refl, subst}
use mathlib.Core.Logic.{inl, inr}
use mathlib.Core.Option.{Option, none, some}
use mathlib.Core.List.{List, [], ◌∷◌}
use native.Mathlib.Omega.{arith}
use secure_file_storage_syst.Prelude.Tests.{Eq, ◌==◌, if◌then◌else◌, Bool-cases}
use secure_file_storage_syst.Prelude.Lists.{All}

abbrev pub Map {ℓ κ} : Type ℓ → Type κ → Type (ℓ ⊔ κ)
Map K V = List (K × V)

module _ {ℓ κ} {K : Type ℓ} ⦃e : Eq K⦄ {V : Type κ} where
  -- v, ok := m[k]
  unfoldable pub lookup : K → Map K V → Option V
  lookup key [] = none
  lookup key ((k, v) ∷ rest) = if k == key then some v else lookup key rest

  -- m[k] = v
  unfoldable pub insert : K → V → Map K V → Map K V
  insert key new [] = (key, new) ∷ []
  insert key new ((k, v) ∷ rest) =
      if k == key then (key, new) ∷ rest else (k, v) ∷ insert key new rest

  -- delete(m, k)
  unfoldable pub delete : K → Map K V → Map K V
  delete k [] = []
  delete k ((j, w) ∷ m) = if j == k then delete k m else (j, w) ∷ delete k m

  pub lookup-insert :
      (key other : K) (new : V) (m : Map K V)
      → lookup other (insert key new m) ≡ (if key == other then some new else lookup other m)
  unfolding lookup insert
  lookup-insert key other new [] = refl
  lookup-insert key other new ((k, v) ∷ rest) = ground (
    arith,
    lookup-insert key other new rest,
    e.beq_iff k other,
    e.beq_iff k key,
    e.beq_iff key other,
  )

  pub lookup-insert_same :
      (key : K) (new : V) (m : Map K V) → lookup key (insert key new m) ≡ some new
  lookup-insert_same key new m = ground (arith, lookup-insert key key new m, e.beq_iff key key)

  pub lookup-delete :
      (k j : K) (m : Map K V) → lookup j (delete k m) ≡ (if k == j then none else lookup j m)
  unfolding lookup delete
  lookup-delete k j [] = ground arith
  lookup-delete k j ((i, w) ∷ m) =
      ground (arith, e.beq_iff k j, e.beq_iff i k, e.beq_iff i j, lookup-delete k j m)

  -- for k, v := range m { m[k] = f(k, v) }
  unfoldable pub update_each : (K → V → V) → Map K V → Map K V
  update_each f [] = []
  update_each f ((j, w) ∷ m) = (j, f j w) ∷ update_each f m

  abbrev pub updated : (K → V → V) → K → Option V → Option V
  updated f k none = none
  updated f k (some v) = some (f k v)

  pub lookup-update_each :
      (f : K → V → V) (k : K) (m : Map K V) → lookup k (update_each f m) ≡ updated f k (lookup k m)
  unfolding lookup update_each
  lookup-update_each f k [] = refl
  lookup-update_each f k ((j, w) ∷ m) = ground (arith, e.beq_iff j k, lookup-update_each f k m)

  pub update_each-All {μ} :
      (P : K × V → Type μ) (f : K → V → V) (m : Map K V)
      → ((k : K) (v : V) → P (k, f k v))
      → All P (update_each f m)
  unfolding update_each
  update_each-All P f [] h = tt
  update_each-All P f ((j, w) ∷ m) h = (h j w, update_each-All P f m h)

  -- What holds of all entries holds of the one that is looked up.
  pub lookup-All {μ} :
      (P : K × V → Type μ) (k : K) (m : Map K V) (v : V) → All P m → lookup k m ≡ some v → P (k, v)
  unfolding lookup
  lookup-All P k [] v h eq = absurd (ground arith)
  lookup-All P k ((j, w) ∷ m) v h eq = elim (Bool-cases (j == k)) [
    | inl hit ↦ subst P (ground (arith, e.beq_iff j k)) h.0
    | inr miss ↦ lookup-All P k m v h.1 (ground arith)
  ]

  pub insert-All {μ} :
      (P : K × V → Type μ) (k : K) (v : V) (m : Map K V) → P (k, v) → All P m → All P (insert k v m)
  unfolding insert
  insert-All P k v [] p h = (p, tt)
  insert-All P k v ((j, w) ∷ m) p h = elim (Bool-cases (j == k)) [
    | inl hit ↦ rw (hit, insert) (p, h.1)
    | inr miss ↦ rw (miss, insert) (h.0, insert-All P k v m p h.1)
  ]

  pub delete-All {μ} : (P : K × V → Type μ) (k : K) (m : Map K V) → All P m → All P (delete k m)
  unfolding delete
  delete-All P k [] h = tt
  delete-All P k ((j, w) ∷ m) h = elim (Bool-cases (j == k)) [
    | inl hit ↦ rw (hit, delete) (delete-All P k m h.1)
    | inr miss ↦ rw (miss, delete) (h.0, delete-All P k m h.1)
  ]

  -- What writes under one key undo and repeat.
  pub delete_missing : (k : K) (m : Map K V) → lookup k m ≡ none → delete k m ≡ m
  unfolding lookup delete
  delete_missing k [] h = refl
  delete_missing k ((j, w) ∷ m) h = ground (arith, delete_missing k m)

  pub delete-insert :
      (k : K) (v : V) (m : Map K V) → lookup k m ≡ none → delete k (insert k v m) ≡ m
  unfolding lookup delete insert
  delete-insert k v [] h = ground (arith, e.beq_iff k k)
  delete-insert k v ((j, w) ∷ m) h = ground (arith, delete-insert k v m)

  pub insert-insert : (k : K) (v w : V) (m : Map K V) → insert k v (insert k w m) ≡ insert k v m
  unfolding insert
  insert-insert k v w [] = ground (arith, e.beq_iff k k)
  insert-insert k v w ((j, x) ∷ m) = ground (arith, e.beq_iff k k, insert-insert k v w m)

  pub insert_same : (k : K) (v : V) (m : Map K V) → lookup k m ≡ some v → insert k v m ≡ m
  unfolding lookup insert
  insert_same k v [] h = absurd (ground arith)
  insert_same k v ((j, x) ∷ m) h = ground (arith, e.beq_iff j k, insert_same k v m)

pub ruleset map_laws = (lookup-insert, lookup-delete, lookup-update_each)
