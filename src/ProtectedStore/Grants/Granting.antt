-- ===== src/ProtectedStore/Grants/Granting.antt =====
-- At most one grant stands for a file and a recipient: what `CreateGrant` of
-- internal/protectedstore/memory_repository.go does to the table.
use secure_file_storage_syst.Prelude.{
  ℕ, String, ◌≡◌, ◌⊎◌, inl, inr, refl, sym, ◌∙◌, true, false, not, ◌||◌, Option, none, some, arith,
  ◌==◌, string_eq, Option-cases, Bool-cases, find,
}
use secure_file_storage_syst.Prelude.Map.{Map, lookup, insert, lookup-insert}
use secure_file_storage_syst.Prelude.Keys.{insert-Distinct, find-lookup, lookup-find}
use secure_file_storage_syst.ProtectedStore.{Recipient, Grant, MemoryRepository}
use secure_file_storage_syst.ProtectedStore.Catalog.{OpaqueId}
use secure_file_storage_syst.ProtectedStore.Grants.{stands_for, create_grant, new_grant}
use secure_file_storage_syst.ProtectedStore.Grants.Access.{IsGrantTable, OneStanding}
use secure_file_storage_syst.ProtectedStore.Grants.Table.{insert-IsGrantTable}

none_standing :
    (file_id recipient_id : String) (grants : Map String Grant)
    → find (λ (e : String × Grant). stands_for file_id recipient_id e.1) grants ≡ none
    → (i : String) (g : Grant) → lookup i grants ≡ some g
    → stands_for file_id recipient_id g ≡ false
none_standing file_id recipient_id grants nobody i g has =
    elim (Bool-cases (stands_for file_id recipient_id g)) [
      | inr fine ↦ fine
      | inl st ↦ absurd (
          ground (
            arith,
            lookup-find (λ (e : String × Grant). stands_for file_id recipient_id e.1) grants i g has
                st,
          ))
    ]

pub stands_alike :
    (file_id recipient_id f x : String) (new h : Grant)
    → new.file_id ≡ file_id
    → new.recipient_id ≡ recipient_id
    → stands_for f x new ≡ true
    → stands_for f x h ≡ true
    → stands_for file_id recipient_id h ≡ true
stands_alike file_id recipient_id f x new h ef er st_new st_h =
    ground (arith, string_eq.beq_iff new.file_id f, string_eq.beq_iff new.recipient_id x)

-- A first standing grant for a file and a recipient.
insert_first :
    (file_id recipient_id id : String) (new : Grant) (grants : Map String Grant)
    → new.file_id ≡ file_id
    → new.recipient_id ≡ recipient_id
    → ((i : String) (g : Grant)
        → lookup i grants ≡ some g
        → stands_for file_id recipient_id g ≡ false)
    → OneStanding grants
    → OneStanding (insert id new grants)
insert_first file_id recipient_id id new grants ef er nobody one f x i j g h has_g has_h st_g st_h =
    elim (Bool-cases (id == i)) [
      | inl at_i ↦ elim (Bool-cases (id == j)) [
        | inl at_j ↦ sym ((string_eq.beq_iff id i).0 at_i) ∙ (string_eq.beq_iff id j).0 at_j
        | inr off_j ↦ absurd (
            ground (
              arith,
              lookup-insert id i new grants,
              lookup-insert id j new grants,
              stands_alike file_id recipient_id f x new h ef er,
              nobody j h (ground (arith, lookup-insert id j new grants)),
            ))
      ]
      | inr off_i ↦ elim (Bool-cases (id == j)) [
        | inl at_j ↦ absurd (
            ground (
              arith,
              lookup-insert id i new grants,
              lookup-insert id j new grants,
              stands_alike file_id recipient_id f x new g ef er,
              nobody i g (ground (arith, lookup-insert id i new grants)),
            ))
        | inr off_j ↦
            one f x i j g h (ground (arith, lookup-insert id i new grants))
              (ground (arith, lookup-insert id j new grants)) st_g st_h
      ]
    ]

module _ (owner_id file_id : String) (recipient : Recipient) (permission : String)
    (expires_at : Option ℕ) (id : OpaqueId) (now : ℕ) (r : MemoryRepository) where
  standing : Option (String × Grant)
  standing = find (λ (e : String × Grant). stands_for file_id recipient.id e.1) r.grants

  after_create : Map String Grant
  after_create = (create_grant owner_id file_id recipient permission expires_at id now r).1.grants

  renewed : Grant → Grant
  renewed g = record g { permission = permission; expires_at = expires_at; created_at = now }

  create_grant_cases :
      (after_create ≡ r.grants)
      ⊎ ((e : String × Grant) × (standing ≡ some e)
          × (after_create ≡ insert e.0 (renewed e.1) r.grants))
      ⊎ ((k : String) × (standing ≡ none)
          × (after_create
              ≡ insert k
                  (new_grant k owner_id file_id recipient permission expires_at now)
                  r.grants))
  unfolding create_grant after_create standing renewed
  create_grant_cases = elim (Option-cases (lookup file_id r.files)) [
    | inl missing ↦ inl (ground arith)
    | inr (file, found) ↦
        elim (Bool-cases (not (file.owner_id == owner_id) || recipient.id == owner_id)) [
          | inl refused ↦ inl (ground arith)
          | inr passes ↦ elim (Option-cases standing) [
            | inr (e, hit) ↦ inr (inl (e, hit, ground arith))
            | inl nobody ↦ elim (Option-cases id) [
              | inl failed ↦ inl (ground arith)
              | inr (k, drawn) ↦ inr (inr (k, nobody, ground arith))
            ]
          ]
        ]
  ]

  -- Granting anew or once more, or refusing to, keeps the invariant of the table.
  pub create_grant-IsGrantTable :
      IsGrantTable r.grants
      → IsGrantTable
          (create_grant owner_id file_id recipient permission expires_at id now r).1.grants
  unfolding after_create standing renewed new_grant
  create_grant-IsGrantTable t = elim create_grant_cases [
    | inl same ↦ rw same t
    | inr (inl (e, hit, eq)) ↦ rw eq (
        insert-IsGrantTable e.0 e.1 (renewed e.1) r.grants
          (find-lookup (λ (e' : String × Grant). stands_for file_id recipient.id e'.1) r.grants e.0
            e.1 t.distinct hit)
          (λ f x h. h) t)
    | inr (inr (k, nobody, eq)) ↦
        let g = new_grant k owner_id file_id recipient permission expires_at now in
        rw eq (record {
          distinct = insert-Distinct k g r.grants t.distinct;
          one_standing =
              insert_first file_id recipient.id k g r.grants refl refl
                (none_standing file_id recipient.id r.grants nobody) t.one_standing;
        })
  ]
