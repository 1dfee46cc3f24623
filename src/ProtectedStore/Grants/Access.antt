-- ===== src/ProtectedStore/Grants/Access.antt =====
-- Who may read a protected file: the decision of `authorized` in
-- internal/protectedstore/memory_repository.go, and what revocation and the trash do to it.
use secure_file_storage_syst.Prelude.{
  ℕ, String, ◌≡◌, ◌⊎◌, ◌↔◌, inl, inr, Bool, true, false, some, arith, ◌==◌, string_eq, Option-cases,
  Bool-cases, is_some, find, find-eq-some,
}
use secure_file_storage_syst.Prelude.Map.{Map, lookup}
use secure_file_storage_syst.Prelude.Keys.{Distinct, find-lookup, lookup-find}
use secure_file_storage_syst.ProtectedStore.{LogicalFile, Grant, MemoryRepository, lifecycle_of}
use secure_file_storage_syst.ProtectedStore.Catalog.{is_live}
use secure_file_storage_syst.ProtectedStore.Grants.{stands_for, allows, authorized}

-- The policy: the file is live, and the requester owns it or holds a grant that allows it.
abbrev pub MayAccess : String → String → String → ℕ → MemoryRepository → LogicalFile → Type 0
MayAccess requester_id file_id capability now r file =
    (is_live (lifecycle_of r file_id) ≡ true)
    × ((file.owner_id ≡ requester_id)
        ⊎ ((id : String) × (g : Grant) × (lookup id r.grants ≡ some g)
            × (allows requester_id file_id capability now g ≡ true)))

abbrev test : String → String → String → ℕ → String × Grant → Bool
test requester_id file_id capability now e = allows requester_id file_id capability now e.1

module _ (requester_id file_id capability : String) (now : ℕ) (r : MemoryRepository)
    (file : LogicalFile) (found : lookup file_id r.files ≡ some file) where
  by_grant :
      Distinct r.grants
      → is_live (lifecycle_of r file_id) ≡ true
      → (file.owner_id == requester_id) ≡ false
      → is_some (authorized requester_id file_id capability now r) ≡ true
      → MayAccess requester_id file_id capability now r file
  unfolding authorized
  by_grant distinct live other h =
      elim (Option-cases (find (test requester_id file_id capability now) r.grants)) [
        | inl nobody ↦ absurd (ground arith)
        | inr (entry, hit) ↦ (
          live,
          inr (
            entry.0,
            entry.1,
            find-lookup (test requester_id file_id capability now) r.grants entry.0 entry.1 distinct
                hit,
            find-eq-some (test requester_id file_id capability now) r.grants entry hit,
          ),
        )
      ]

  authorized_sound :
      Distinct r.grants
      → is_some (authorized requester_id file_id capability now r) ≡ true
      → MayAccess requester_id file_id capability now r file
  unfolding authorized
  authorized_sound distinct h = elim (Bool-cases (is_live (lifecycle_of r file_id))) [
    | inr dead ↦ absurd (ground arith)
    | inl live ↦ elim (Bool-cases (file.owner_id == requester_id)) [
      | inl owner ↦ (live, inl ((string_eq.beq_iff file.owner_id requester_id).0 owner))
      | inr other ↦ by_grant distinct live other h
    ]
  ]

  authorized_complete :
      MayAccess requester_id file_id capability now r file
      → is_some (authorized requester_id file_id capability now r) ≡ true
  unfolding authorized
  authorized_complete (live, inl owner) =
      ground (arith, string_eq.beq_iff file.owner_id requester_id)
  authorized_complete (live, inr (id, g, has, passes)) =
      ground
        (arith, lookup-find (test requester_id file_id capability now) r.grants id g has passes)

  pub authorized_iff :
      Distinct r.grants
      → (is_some (authorized requester_id file_id capability now r) ≡ true)
        ↔ MayAccess requester_id file_id capability now r file
  authorized_iff distinct = (authorized_sound distinct, authorized_complete)

-- For each file and recipient at most one grant stands.
abbrev pub OneStanding : Map String Grant → Type 0
OneStanding grants =
    (file_id recipient_id i j : String) (g h : Grant)
    → lookup i grants ≡ some g
    → lookup j grants ≡ some h
    → stands_for file_id recipient_id g ≡ true
    → stands_for file_id recipient_id h ≡ true
    → i ≡ j

-- The invariant of the grants that the operations keep.
pub record IsGrantTable (grants : Map String Grant) : Type 0 where
  pub distinct : Distinct grants
  pub one_standing : OneStanding grants
