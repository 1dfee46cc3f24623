-- ===== src/ProtectedStore/Entries/Rewrap.antt =====
-- The rewrapping of data-encryption keys of internal/protectedstore/memory_repository.go.
use secure_file_storage_syst.Prelude.{
  ℕ, ◌+◌, String, ◌≡◌, ◌≢◌, refl, ap, ◌∙◌, true, false, none, some, List, [], ◌∷◌, arith, ◌==◌,
  string_eq, ltb, length, Bool-cases, inl, inr, beq_refl,
}
use secure_file_storage_syst.Prelude.Map.{Map, lookup, insert, lookup-insert}
use secure_file_storage_syst.ProtectedStore.{Metadata, MemoryRepository, LifecycleFile, versions_of}
use secure_file_storage_syst.ProtectedStore.Entries.{
  has_key, is_current, count_keys, key_rotation_posture, same_wrapped_dek, commit_dek_rewrap,
}
use secure_file_storage_syst.ProtectedStore.Lifecycle.{purge, is_eligible}
use secure_file_storage_syst.ProtectedStore.Lifecycle.Erasure.{is_version, purge_erases}

same_wrapped_dek_nil : (dek : List ℕ) → ltb 0 (length dek) ≡ true → same_wrapped_dek [] dek ≡ false
unfolding same_wrapped_dek
same_wrapped_dek_nil [] h = ground arith
same_wrapped_dek_nil (b ∷ bs) h = refl

-- A key that a purge destroyed cannot come back by a rewrap that was listed before the purge: the
-- commit finds another wrapped key than the candidate's, and changes nothing.
pub rewrap_after_purge :
    (owner_id file_id operation_id target_id target_version : String) (now : ℕ)
    (replacement : List ℕ) (candidate : Metadata) (r : MemoryRepository) (f : LifecycleFile)
    → lookup operation_id r.purges ≡ none
    → lookup file_id r.lifecycle ≡ some f
    → f.owner_id ≡ owner_id
    → is_eligible now f ≡ true
    → lookup candidate.upload_id r.entries ≡ some candidate
    → has_key candidate ≡ true
    → is_version (versions_of r file_id) candidate ≡ true
    → commit_dek_rewrap candidate replacement target_id target_version
        (purge owner_id file_id operation_id now r).1
      ≡ (false, (purge owner_id file_id operation_id now r).1)
unfolding commit_dek_rewrap
rewrap_after_purge owner_id file_id operation_id target_id target_version now replacement candidate
      r f fresh found owned due has key version =
    let r' = (purge owner_id file_id operation_id now r).1 in
    let stored : lookup candidate.upload_id r'.entries
        ≡ some (record candidate { wrapped_dek = [] }) =
      purge_erases owner_id file_id operation_id now r f fresh found owned due candidate.upload_id
      ∙ rw (has, version) refl in
    ground (arith, stored, same_wrapped_dek_nil candidate.wrapped_dek key)

-- What a rewrap writes over the stored entry.
abbrev pub rewrapped : List ℕ → String → String → Metadata → Metadata
rewrapped replacement target_id target_version stored = record stored {
  wrapped_dek = replacement;
  wrapping_kek_id = target_id;
  wrapping_kek_version = target_version;
}

count_keys-insert :
    (id version k : String) (old new : Metadata) (m : Map String Metadata)
    → lookup k m ≡ some old
    → is_current id version old ≡ false
    → is_current id version new ≡ true
    → ((count_keys id version (insert k new m)).0 ≡ (count_keys id version m).0 + 1)
      × ((count_keys id version (insert k new m)).1 + 1 ≡ (count_keys id version m).1)
      × (length (insert k new m) ≡ length m)
unfolding count_keys insert lookup
count_keys-insert id version k old new [] has pending fresh = absurd (ground arith)
count_keys-insert id version k old new ((j, w) ∷ m) has pending fresh = elim (Bool-cases (j == k)) [
  | inl hit ↦ (ground arith, ground arith, ground arith)
  | inr miss ↦
      let ih = count_keys-insert id version k old new m (ground arith) pending fresh in
      (ground (arith, ih.0, ih.1), ground (arith, ih.0, ih.1), ground (arith, ih.2))
]

rewrapped-current :
    (target_id target_version : String) (replacement : List ℕ) (stored : Metadata)
    → target_id ≢ ""
    → target_version ≢ ""
    → is_current target_id target_version (rewrapped replacement target_id target_version stored)
      ≡ true
unfolding is_current
rewrapped-current target_id target_version replacement stored idp vp = ground (
  arith,
  string_eq.beq_iff target_id "",
  string_eq.beq_iff target_version "",
  beq_refl target_id,
  beq_refl target_version,
)

committed_state :
    (target_id target_version : String) (replacement : List ℕ) (candidate stored : Metadata)
    (r : MemoryRepository)
    → lookup candidate.upload_id r.entries ≡ some stored
    → (commit_dek_rewrap candidate replacement target_id target_version r).0 ≡ true
    → (commit_dek_rewrap candidate replacement target_id target_version r).1 ≡ record r {
      entries =
          insert candidate.upload_id
            (rewrapped replacement target_id target_version stored)
            r.entries;
    }
unfolding commit_dek_rewrap
committed_state target_id target_version replacement candidate stored r has done = ground arith

-- A committed rewrap of a pending key to the current one is progress: the entry changes in its
-- wrapped key and the identity of the wrapping key alone, one key fewer is pending, and one more
-- is current.
pub commit_dek_rewrap_progress :
    (target_id target_version : String) (replacement : List ℕ) (candidate stored : Metadata)
    (r : MemoryRepository)
    → target_id ≢ ""
    → target_version ≢ ""
    → lookup candidate.upload_id r.entries ≡ some stored
    → is_current target_id target_version stored ≡ false
    → (commit_dek_rewrap candidate replacement target_id target_version r).0 ≡ true
    → let r' = (commit_dek_rewrap candidate replacement target_id target_version r).1 in
      let before = key_rotation_posture target_id target_version r in
      let after = key_rotation_posture target_id target_version r' in
      (lookup candidate.upload_id r'.entries
        ≡ some (rewrapped replacement target_id target_version stored))
      × (after.pending_versions + 1 ≡ before.pending_versions)
      × (after.current_versions ≡ before.current_versions + 1)
      × (after.protected_versions ≡ before.protected_versions)
unfolding key_rotation_posture
commit_dek_rewrap_progress target_id target_version replacement candidate stored r idp vp has
      pending done =
    let k = candidate.upload_id in
    let new = rewrapped replacement target_id target_version stored in
    let state = committed_state target_id target_version replacement candidate stored r has done in
    let counts =
      count_keys-insert target_id target_version k stored new r.entries has pending
        (rewrapped-current target_id target_version replacement stored idp vp) in
    (
      ap (λ (s : MemoryRepository). lookup k s.entries) state ∙ rw (lookup-insert, beq_refl k) refl,
      ap (λ (s : MemoryRepository). (count_keys target_id target_version s.entries).1 + 1) state
          ∙ counts.1,
      ap (λ (s : MemoryRepository). (count_keys target_id target_version s.entries).0) state
          ∙ counts.0,
      ap (λ (s : MemoryRepository). length s.entries) state ∙ counts.2,
    )
