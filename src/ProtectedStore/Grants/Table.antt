-- ===== src/ProtectedStore/Grants/Table.antt =====
-- At most one grant stands for a file and a recipient: what revoking grants does to the table of
-- internal/protectedstore/memory_repository.go.
use secure_file_storage_syst.Prelude.{
  ℕ, String, ◌≡◌, ◌⊎◌, inl, inr, subst, true, ◌&&◌, some, arith, ◌==◌, string_eq, Option-cases,
  Bool-cases, is_none,
}
use secure_file_storage_syst.Prelude.Map.{Map, lookup, insert, lookup-insert}
use secure_file_storage_syst.Prelude.Keys.{insert-Distinct, update_each-Distinct}
use secure_file_storage_syst.ProtectedStore.{Grant, MemoryRepository}
use secure_file_storage_syst.ProtectedStore.Grants.{stands_for, revoke_grant}
use secure_file_storage_syst.ProtectedStore.Grants.Access.{IsGrantTable, OneStanding}
use secure_file_storage_syst.ProtectedStore.Lifecycle.{revoke_grants_of, revoke_for}
use secure_file_storage_syst.ProtectedStore.Lifecycle.Erasure.{revoke_grants_of-lookup}

-- Every standing grant of the new table stands under the same key in the old one.
abbrev pub Shrinks : Map String Grant → Map String Grant → Type 0
Shrinks old new =
    (file_id recipient_id i : String) (g : Grant)
    → lookup i new ≡ some g
    → stands_for file_id recipient_id g ≡ true
    → (g' : Grant) × (lookup i old ≡ some g') × (stands_for file_id recipient_id g' ≡ true)

pub fewer_standing :
    (old new : Map String Grant) → Shrinks old new → OneStanding old → OneStanding new
fewer_standing old new shrinks one file_id recipient_id i j g h has_g has_h st_g st_h =
    let (g', old_g, st_g') = shrinks file_id recipient_id i g has_g st_g in
    let (h', old_h, st_h') = shrinks file_id recipient_id j h has_h st_h in
    one file_id recipient_id i j g' h' old_g old_h st_g' st_h'

pub insert-Shrinks :
    (id : String) (before after : Grant) (grants : Map String Grant)
    → lookup id grants ≡ some before
    → ((file_id recipient_id : String)
        → stands_for file_id recipient_id after ≡ true
        → stands_for file_id recipient_id before ≡ true)
    → Shrinks grants (insert id after grants)
insert-Shrinks id before after grants has weaker file_id recipient_id i g has_g st =
    elim (Bool-cases (id == i)) [
      | inl same ↦
          let is_after : after ≡ g = ground (arith, lookup-insert id i after grants) in
          (
            before,
            subst (λ k. lookup k grants ≡ some before) ((string_eq.beq_iff id i).0 same) has,
            weaker file_id recipient_id (rw is_after st),
          )
      | inr other ↦ (g, ground (arith, lookup-insert id i after grants), st)
    ]

pub insert-IsGrantTable :
    (id : String) (before after : Grant) (grants : Map String Grant)
    → lookup id grants ≡ some before
    → ((file_id recipient_id : String)
        → stands_for file_id recipient_id after ≡ true
        → stands_for file_id recipient_id before ≡ true)
    → IsGrantTable grants
    → IsGrantTable (insert id after grants)
insert-IsGrantTable id before after grants has weaker t = record {
  distinct = insert-Distinct id after grants t.distinct;
  one_standing =
      fewer_standing grants (insert id after grants)
        (insert-Shrinks id before after grants has weaker) t.one_standing;
}

revoke_for-stands :
    (file_id f x i : String) (now : ℕ) (g' : Grant)
    → stands_for f x (revoke_for file_id now i g') ≡ true
    → stands_for f x g' ≡ true
unfolding revoke_for
revoke_for-stands file_id f x i now g' h = ground arith

revoked_from :
    (file_id f x i : String) (now : ℕ) (grants : Map String Grant) (g : Grant)
    → lookup i (revoke_grants_of file_id now grants) ≡ some g
    → stands_for f x g ≡ true
    → (g' : Grant) × (lookup i grants ≡ some g') × (stands_for f x g' ≡ true)
revoked_from file_id f x i now grants g has st = elim (Option-cases (lookup i grants)) [
  | inl missing ↦ absurd (ground (arith, revoke_grants_of-lookup file_id i now grants))
  | inr (g', old) ↦
      let now_g : revoke_for file_id now i g' ≡ g =
        ground (arith, revoke_grants_of-lookup file_id i now grants) in
      (g', old, revoke_for-stands file_id f x i now g' (rw now_g st))
]

-- Revoking the grants of a file, as the trash and the purge do, keeps the invariant of the table.
pub revoke_grants_of-IsGrantTable :
    (file_id : String) (now : ℕ) (grants : Map String Grant)
    → IsGrantTable grants
    → IsGrantTable (revoke_grants_of file_id now grants)
revoke_grants_of-IsGrantTable file_id now grants t = record {
  distinct =
      unfold revoke_grants_of in update_each-Distinct (revoke_for file_id now) grants t.distinct;
  one_standing =
      fewer_standing grants (revoke_grants_of file_id now grants)
        (λ f x i g has st. revoked_from file_id f x i now grants g has st) t.one_standing;
}

revoke_grant_cases :
    (owner_id file_id grant_id : String) (now : ℕ) (r : MemoryRepository)
    → ((revoke_grant owner_id file_id grant_id now r).1.grants ≡ r.grants)
      ⊎ ((g : Grant) × (lookup grant_id r.grants ≡ some g)
          × ((revoke_grant owner_id file_id grant_id now r).1.grants
              ≡ insert grant_id (record g { revoked_at = some now }) r.grants))
unfolding revoke_grant
revoke_grant_cases owner_id file_id grant_id now r =
    elim (Option-cases (lookup grant_id r.grants)) [
      | inl missing ↦ inl (ground arith)
      | inr (g, has) ↦
          elim (Bool-cases
            (g.owner_id == owner_id && g.file_id == file_id && is_none g.revoked_at)) [
              | inl passes ↦ inr (g, has, ground arith)
              | inr refused ↦ inl (ground arith)
            ]
    ]

-- Revoking a grant, or refusing to, keeps the invariant of the table.
pub revoke_grant-IsGrantTable :
    (owner_id file_id grant_id : String) (now : ℕ) (r : MemoryRepository)
    → IsGrantTable r.grants
    → IsGrantTable (revoke_grant owner_id file_id grant_id now r).1.grants
revoke_grant-IsGrantTable owner_id file_id grant_id now r t =
    elim (revoke_grant_cases owner_id file_id grant_id now r) [
      | inl same ↦ rw same t
      | inr (g, has, e) ↦ rw e (
          insert-IsGrantTable grant_id g (record g { revoked_at = some now }) r.grants has
            (λ f x h. ground arith) t)
    ]
