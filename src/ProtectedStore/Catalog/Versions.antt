-- ===== src/ProtectedStore/Catalog/Versions.antt =====
-- The version histories of internal/protectedstore/memory_repository.go: what `RegisterInitial`
-- starts and `CommitRestore` extends.
use secure_file_storage_syst.Prelude.{
  suc, String, ◌≡◌, ◌⊎◌, inl, inr, refl, sym, ◌∙◌, ap, subst, true, false, ◌&&◌, some, List, [],
  ◌∷◌, arith, ◌==◌, string_eq, Result, ok, Option-cases, Bool-cases, beq_refl, find, any, length,
  map, if◌then◌else◌,
}
use secure_file_storage_syst.Prelude.Map.{Map, lookup, insert, lookup-insert}
use secure_file_storage_syst.ProtectedStore.{
  Error, Metadata, LogicalFile, Version, MemoryRepository, versions_of,
}
use secure_file_storage_syst.ProtectedStore.Catalog.{
  OpaqueId, register_initial, commit_restore, restore_new, retire, restored_version,
  initial_version,
}

-- Superseded versions, the newest first, numbered down to 1.
abbrev pub Superseded : List Version → Type 0
Superseded [] = Unit
Superseded (v ∷ vs) = (v.number ≡ suc (length vs)) × (v.current ≡ false) × Superseded vs

-- A history: the newest version is the current one, and the versions are numbered down to 1.
abbrev pub IsHistory : List Version → Type 0
IsHistory [] = ⊥
IsHistory (v ∷ vs) = (v.number ≡ suc (length vs)) × (v.current ≡ true) × Superseded vs

-- Every recorded version list is a history.
abbrev pub HasHistories : MemoryRepository → Type 0
HasHistories r =
    (file_id : String) (vs : List Version) → lookup file_id r.versions ≡ some vs → IsHistory vs

length-retire : (vs : List Version) → length (map retire vs) ≡ length vs
length-retire [] = refl
length-retire (v ∷ vs) = ap suc (length-retire vs)

retire-Superseded : (vs : List Version) → Superseded vs → Superseded (map retire vs)
unfolding retire
retire-Superseded [] h = tt
retire-Superseded (v ∷ vs) h =
    (h.0 ∙ ap suc (sym (length-retire vs)), refl, retire-Superseded vs h.2)

retire-IsHistory : (vs : List Version) → IsHistory vs → Superseded (map retire vs)
unfolding retire
retire-IsHistory [] h = absurd h
retire-IsHistory (v ∷ vs) h =
    (h.0 ∙ ap suc (sym (length-retire vs)), refl, retire-Superseded vs h.2)

module _ (owner_id file_id source_version_id : String) (metadata : Metadata)
    (r : MemoryRepository) where
  abbrev restored : Result Error Version × MemoryRepository
  restored = commit_restore owner_id file_id source_version_id metadata r

  extended : List Version
  extended =
      restored_version file_id source_version_id metadata (versions_of r file_id)
      ∷ map retire (versions_of r file_id)

  -- The two ways in which a restore can end: the state is kept, or a version is added.
  pub restore_cases :
      (restored.1 ≡ r)
      ⊎ ((file : LogicalFile) × (lookup file_id r.files ≡ some file)
          × (file.owner_id ≡ owner_id)
          × (restored ≡ restore_new file_id source_version_id metadata file r))
  unfolding commit_restore
  restore_cases = elim (Option-cases (lookup file_id r.files)) [
    | inl missing ↦ inl (ground arith)
    | inr (file, found) ↦ elim (Bool-cases (file.owner_id == owner_id)) [
      | inr other ↦ inl (ground arith)
      | inl owned ↦
          elim (Option-cases (
            find (λ (v : Version). v.operation_id == metadata.upload_id) (versions_of r file_id))) [
              | inr (v, again) ↦ elim (Bool-cases (v.source_version_id == source_version_id)) [
                | inl same ↦ inl (ground arith)
                | inr conflict ↦ inl (ground arith)
              ]
              | inl new ↦
                  elim (Bool-cases (
                    any (λ (v : Version). v.version_id == source_version_id)
                      (versions_of r file_id))) [
                        | inr unknown ↦ inl (ground arith)
                        | inl known ↦ inr (
                          file,
                          found,
                          (string_eq.beq_iff file.owner_id owner_id).0 owned,
                          ground arith,
                        )
                      ]
            ]
    ]
  ]

  extended-IsHistory :
      (file : LogicalFile) (vs : List Version)
      → HasHistories r
      → versions_of r file_id ≡ vs
      → IsHistory (restored_version file_id source_version_id metadata vs ∷ map retire vs)
  unfolding restored_version
  extended-IsHistory file vs h e = (rw length-retire (omega arith), refl, old vs e)
    where
      old : (ws : List Version) → versions_of r file_id ≡ ws → Superseded (map retire ws)
      old [] e = tt
      old (w ∷ ws) e = elim (Option-cases (lookup file_id r.versions)) [
        | inl missing ↦ absurd (ground arith)
        | inr (us, found) ↦
            retire-IsHistory (w ∷ ws)
              (subst IsHistory {y = w ∷ ws} (ground arith) (h file_id us found))
      ]

  -- A restore keeps every version list a history: it puts the new version in front under the next
  -- number as the only current one, or changes nothing.
  pub commit_restore-HasHistories : HasHistories r → HasHistories restored.1
  unfolding restore_new extended
  commit_restore-HasHistories h = elim restore_cases [
    | inl same ↦ rw same h
    | inr (file, found, owned, e) ↦ λ j vs has.
        let at_j : (if file_id == j then some extended else lookup j r.versions) ≡ some vs =
          sym (lookup-insert file_id j extended r.versions)
          ∙ subst (λ (x : Result Error Version × MemoryRepository). lookup j x.1.versions ≡ some vs)
              e has in
        elim (Bool-cases (file_id == j)) [
          | inl hit ↦
              subst IsHistory {x = extended} (ground arith)
                (extended-IsHistory file (versions_of r file_id) h refl)
          | inr miss ↦ h j vs (ground arith)
        ]
  ]

  retry_new :
      (file : LogicalFile) (v : Version)
      → lookup file_id r.files ≡ some file
      → file.owner_id ≡ owner_id
      → restored ≡ restore_new file_id source_version_id metadata file r
      → restored.0 ≡ ok v
      → commit_restore owner_id file_id source_version_id metadata restored.1 ≡ (ok v, restored.1)
  unfolding commit_restore restore_new extended find restored_version
  retry_new file v found owned e answer =
      let file' : LogicalFile = record file {
        current_version_id = metadata.version_id;
        updated_at = metadata.created_at;
      } in
      rw e (
        ground (
          arith,
          e,
          string_eq.beq_iff file.owner_id owner_id,
          lookup-insert file_id file_id file' r.files,
          lookup-insert file_id file_id extended r.versions,
          beq_refl file_id,
          beq_refl metadata.upload_id,
          beq_refl source_version_id,
        ))

  -- A restore that has succeeded can be asked for again: the same request gives the same version
  -- and keeps the state.
  pub commit_restore_retry :
      (v : Version)
      → restored.0 ≡ ok v
      → commit_restore owner_id file_id source_version_id metadata restored.1 ≡ (ok v, restored.1)
  commit_restore_retry v answer = elim restore_cases [
    | inl same ↦ rw same (λ i. (answer i, same i))
    | inr (file, found, owned, e) ↦ retry_new file v found owned e answer
  ]

module _ (owner_id name : String) (metadata : Metadata) (id : OpaqueId) (r : MemoryRepository) where
  register_cases :
      ((register_initial owner_id name metadata id r).1.versions ≡ r.versions)
      ⊎ ((k : String) × ((register_initial owner_id name metadata id r).1.versions
            ≡ insert k (initial_version k metadata ∷ []) r.versions))
  unfolding register_initial
  register_cases = elim (Option-cases id) [
    | inl failed ↦ inl (ground arith)
    | inr (k, drawn) ↦
        elim (Option-cases (
          find
            (λ (e : String × LogicalFile).
              e.1.owner_id == owner_id && e.1.current_version_id == metadata.version_id)
            r.files)) [ inl new ↦ inr (k, ground arith) | inr (e, known) ↦ inl (ground arith) ]
  ]

  -- Registering a file starts a history of one version, and keeps the others.
  pub register_initial-HasHistories :
      HasHistories r → HasHistories (register_initial owner_id name metadata id r).1
  unfolding initial_version
  register_initial-HasHistories h = elim register_cases [
    | inl same ↦ λ j vs has. h j vs (rw same at has)
    | inr (k, e) ↦ λ j vs has.
        let first = initial_version k metadata ∷ [] in
        let at_j : (if k == j then some first else lookup j r.versions) ≡ some vs =
          sym (lookup-insert k j first r.versions)
          ∙ subst (λ (m : Map String (List Version)). lookup j m ≡ some vs) e has in
        elim (Bool-cases (k == j)) [
          | inl hit ↦ subst IsHistory {x = first} (ground arith) (refl, refl, tt)
          | inr miss ↦ h j vs (ground arith)
        ]
  ]

-- A restore does not maintain the lifecycle records.
pub commit_restore_lifecycle :
    (owner_id file_id source_version_id : String) (metadata : Metadata) (r : MemoryRepository)
    → (commit_restore owner_id file_id source_version_id metadata r).1.lifecycle ≡ r.lifecycle
unfolding restore_new
commit_restore_lifecycle owner_id file_id source_version_id metadata r =
    elim (restore_cases owner_id file_id source_version_id metadata r) [
      | inl same ↦ ap (λ (s : MemoryRepository). s.lifecycle) same
      | inr (file, found, owned, e) ↦
          ap (λ (s : Result Error Version × MemoryRepository). s.1.lifecycle) e
    ]

pub commit_restore_grants :
    (owner_id file_id source_version_id : String) (metadata : Metadata) (r : MemoryRepository)
    → (commit_restore owner_id file_id source_version_id metadata r).1.grants ≡ r.grants
unfolding restore_new
commit_restore_grants owner_id file_id source_version_id metadata r =
    elim (restore_cases owner_id file_id source_version_id metadata r) [
      | inl same ↦ ap (λ (s : MemoryRepository). s.grants) same
      | inr (file, found, owned, e) ↦
          ap (λ (s : Result Error Version × MemoryRepository). s.1.grants) e
    ]
