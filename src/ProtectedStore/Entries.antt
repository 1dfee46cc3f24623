-- ===== src/ProtectedStore/Entries.antt =====
-- internal/protectedstore/memory_repository.go: the envelope entries, the inventory of protected
-- blobs and the rewrapping of data-encryption keys; wrappingKeyIdentity of service.go.
pub mod Rewrap
use secure_file_storage_syst.Prelude.{
  ℕ, ◌+◌, String, ◌≡◌, Bool, true, false, not, ◌&&◌, ◌||◌, Option, none, some, List, [], ◌∷◌, ltb,
  length, take, keep, any, map, if◌then◌else◌, ◌==◌, Eq, string_eq, Result, ok, err,
}
use secure_file_storage_syst.Prelude.Map.{Map, lookup, insert}
use secure_file_storage_syst.Prelude.Bytes.{bytes_equal}
use secure_file_storage_syst.ProtectedStore.{Error, not_found, Metadata, MemoryRepository}

create_answer : Metadata → MemoryRepository → Option Metadata → Metadata × Bool × MemoryRepository
create_answer metadata r (some existing) = (existing, true, r)
create_answer metadata r none =
    (metadata, false, record r { entries = insert metadata.upload_id metadata r.entries })

-- The result, whether an earlier entry is reused, and the new state; it never fails.
unfoldable pub create : Metadata → MemoryRepository → Metadata × Bool × MemoryRepository
unfolding create_answer
create metadata r = create_answer metadata r (lookup metadata.upload_id r.entries)

unfoldable pub find_by_upload : String → String → MemoryRepository → Result Error Metadata
find_by_upload owner_id upload_id r = elim (lookup upload_id r.entries) [
  | none ↦ err not_found
  | some metadata ↦ if metadata.owner_id == owner_id then ok metadata else err not_found
]

-- len(metadata.WrappedDEK) > 0
abbrev pub has_key : Metadata → Bool
has_key metadata = ltb 0 (length metadata.wrapped_dek)

unfoldable pub protected_blob_object_exists : String → MemoryRepository → Bool
protected_blob_object_exists object r =
    any (λ (e : String × Metadata). e.1.blob_object == object && has_key e.1) r.entries

unfoldable pub wrapping_key_identity : Metadata → String × String
wrapping_key_identity value =
    if value.wrapping_kek_id == "" || value.wrapping_kek_version == ""
    then (value.kek_id, value.kek_version)
    else (value.wrapping_kek_id, value.wrapping_kek_version)

-- The key that wraps an entry is the current one.
unfoldable pub is_current : String → String → Metadata → Bool
unfolding wrapping_key_identity
is_current current_id current_version metadata =
    let (id, version) = wrapping_key_identity metadata in
    id == current_id && version == current_version

pub record KeyRotationPosture : Type 0 where
  pub protected_versions : ℕ
  pub current_versions : ℕ
  pub pending_versions : ℕ

-- The loop of `KeyRotationPosture`.
pub count_keys : String → String → Map String Metadata → ℕ × ℕ
count_keys id version [] = (0, 0)
count_keys id version ((upload_id, metadata) ∷ rest) =
    let (current, pending) = count_keys id version rest in
    if is_current id version metadata then (current + 1, pending) else (current, pending + 1)

unfoldable pub key_rotation_posture : String → String → MemoryRepository → KeyRotationPosture
unfolding count_keys is_current
key_rotation_posture current_id current_version r =
    let (current, pending) = count_keys current_id current_version r.entries in
    record {
      protected_versions = length r.entries;
      current_versions = current;
      pending_versions = pending;
    }

needs_rewrap : String → String → Metadata → Bool
needs_rewrap id version metadata = has_key metadata && not (is_current id version metadata)

-- The loop stops once `limit` candidates are found. The caller has checked that 0 < limit.
unfoldable pub list_dek_rewrap_candidates : String → String → ℕ → MemoryRepository → List Metadata
unfolding needs_rewrap is_current
list_dek_rewrap_candidates id version limit r =
    take limit (keep (needs_rewrap id version) (map (λ (e : String × Metadata). e.1) r.entries))

-- bytes.Equal
unfoldable pub same_wrapped_dek : List ℕ → List ℕ → Bool
unfolding bytes_equal
same_wrapped_dek = bytes_equal

pub rewrap_stored :
    Metadata → List ℕ → String → String → MemoryRepository → Metadata → Bool × MemoryRepository
rewrap_stored candidate replacement target_id target_version r stored =
    if not (stored.version_id == candidate.version_id)
      || not (same_wrapped_dek stored.wrapped_dek candidate.wrapped_dek)
    then (false, r)
    else (true, record r { entries = insert candidate.upload_id rewrapped r.entries })
  where
    rewrapped : Metadata
    rewrapped = record stored {
      wrapped_dek = replacement;
      wrapping_kek_id = target_id;
      wrapping_kek_version = target_version;
    }

unfoldable pub commit_dek_rewrap :
    Metadata → List ℕ → String → String → MemoryRepository → Bool × MemoryRepository
unfolding rewrap_stored
commit_dek_rewrap candidate replacement target_id target_version r =
    elim (lookup candidate.upload_id r.entries) [
      | none ↦ (false, r)
      | some stored ↦ rewrap_stored candidate replacement target_id target_version r stored
    ]
