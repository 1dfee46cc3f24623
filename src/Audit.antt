-- ===== src/Audit.antt =====
-- internal/audit/service.go and memory_repository.go: the audit events, their canonical bytes, the
-- MAC of an event, and the in-memory repository. HMAC-SHA-256, the genesis MAC and the RFC 3339
-- format of a time are parameters.
pub mod Canonical
pub mod Chain
pub mod Retry
pub mod Query
pub mod Service
pub mod Examples
use secure_file_storage_syst.Prelude.{
  ℕ, ◌+◌, String, Bool, true, false, ◌&&◌, ◌||◌, not, Option, none, some, List, [], ◌∷◌, ◌++◌, find,
  length, if◌then◌else◌, ◌==◌, string_eq, nat_eq, is_none,
}
use secure_file_storage_syst.Prelude.Map.{Map, lookup}
use secure_file_storage_syst.Prelude.Bytes.{Bytes, bytes_eq, utf8, be64, write_field, write_fields}

pub record Event : Type 0 where
  pub sequence : ℕ
  pub event_id : String
  pub occurred_at : ℕ
  pub actor_type : String
  pub actor_id : String
  pub action : String
  pub resource_type : String
  pub resource_id : String
  pub outcome : String
  pub reason_code : String
  pub correlation_id : String
  pub from_state : String
  pub to_state : String
  pub key_version : String
  pub network_source : String
  pub previous_mac : Bytes
  pub event_mac : Bytes

pub record Checkpoint : Type 0 where
  pub chain_id : String
  pub key_version : String
  pub last_sequence : ℕ
  pub last_mac : Bytes
  pub updated_at : ℕ

pub record MemoryRepository : Type 0 where
  pub events : List Event
  pub checkpoint : Checkpoint

-- What the program takes from Go's standard library.
pub record Primitives : Type 0 where
  pub hmac : Bytes → Bytes → Bytes  -- key and message
  pub genesis_mac : Bytes
  pub format_time : ℕ → String  -- RFC3339Nano

abbrev pub chain_id : String
chain_id = "securestore-main-v2"

abbrev pub default_key_version : String
default_key_version = "v1"

module _ (p : Primitives) where
  -- The fields of `canonicalEvent` that are always written.
  unfoldable pub canonical_fields : Event → List Bytes
  canonical_fields e =
      utf8 e.event_id
      ∷ utf8 (p.format_time e.occurred_at)
      ∷ utf8 e.actor_type
      ∷ utf8 e.actor_id
      ∷ utf8 e.action
      ∷ utf8 e.resource_type
      ∷ utf8 e.resource_id
      ∷ utf8 e.outcome
      ∷ utf8 e.reason_code
      ∷ utf8 e.correlation_id
      ∷ utf8 e.from_state
      ∷ utf8 e.to_state
      ∷ utf8 e.key_version
      ∷ []

  -- The optional last field.
  unfoldable pub network_field : Event → Bytes
  network_field e = if e.network_source == "" then [] else write_field (utf8 e.network_source)

  unfoldable pub canonical_event : Event → Bytes
  unfolding canonical_fields network_field
  canonical_event e = write_fields (canonical_fields e) ++ network_field e

  -- `s.keys[version]`: no bytes where there is no such key.
  unfoldable pub key_of : Map String Bytes → String → Bytes
  key_of keys version = elim (lookup version keys) [ none ↦ [] | some key ↦ key ]

  unfoldable pub mac_message : ℕ → Bytes → Event → Bytes
  mac_message sequence previous e =
      write_field (utf8 "securestore.audit.chain.v2")
      ++ (be64 sequence ++ (write_field previous ++ write_field (canonical_event e)))

  unfoldable pub compute_mac : Map String Bytes → ℕ → Bytes → Event → Bytes
  compute_mac keys sequence previous e =
      p.hmac (key_of keys e.key_version) (mac_message sequence previous e)

  unfoldable pub new_memory_repository : MemoryRepository
  new_memory_repository = record {
    events = [];
    checkpoint = record {
      chain_id = chain_id;
      key_version = default_key_version;
      last_sequence = 0;
      last_mac = p.genesis_mac;
      updated_at = 0;
    };
  }

-- The event as it is appended: numbered, linked and signed.
unfoldable pub sealed : (ℕ → Bytes → Event → Bytes) → MemoryRepository → Event → Event
sealed compute r e =
    let n = length r.events + 1 in
    let linked = record e { sequence = n; previous_mac = r.checkpoint.last_mac } in
    record linked { event_mac = compute n r.checkpoint.last_mac linked }

pub append_new : (ℕ → Bytes → Event → Bytes) → Event → MemoryRepository → Event × MemoryRepository
unfolding sealed
append_new compute e r =
    let e' = sealed compute r e in
    (
      e',
      record {
        events = r.events ++ e' ∷ [];
        checkpoint = record {
          chain_id = chain_id;
          key_version = e'.key_version;
          last_sequence = e'.sequence;
          last_mac = e'.event_mac;
          updated_at = e'.occurred_at;
        };
      },
    )

-- `Append` of the memory repository, which never fails.
unfoldable pub append :
    (ℕ → Bytes → Event → Bytes) → Event → MemoryRepository → Event × MemoryRepository
append compute e r =
    elim (if not (e.event_id == "")
      then find (λ (existing : Event). existing.event_id == e.event_id) r.events
      else none) [ some existing ↦ (existing, r) | none ↦ append_new compute e r ]

-- `Verification`, without the fields that come from the checkpoint anchor.
pub record Verification : Type 0 where
  pub valid : Bool
  pub event_count : ℕ
  pub verified_through : ℕ
  pub checkpoint_at : ℕ
  pub failure_category : String
  pub first_invalid_sequence : ℕ

unfoldable pub invalid : Verification → ℕ → String → Verification
invalid result sequence category = record result {
  valid = false;
  first_invalid_sequence = sequence;
  failure_category = category;
}

module _ (p : Primitives) (keys : Map String Bytes) where
  -- The loop of `Verify`, with what follows it: `expected` and `previous` are of the next event.
  unfoldable pub verify_loop : ℕ → Checkpoint → ℕ → Bytes → Verification → List Event → Verification
  verify_loop count checkpoint expected previous result [] =
      if checkpoint.last_sequence == count && checkpoint.last_mac == previous
      then result
      else invalid result checkpoint.last_sequence "checkpoint_mismatch"
  verify_loop count checkpoint expected previous result (e ∷ es) =
      if not (e.sequence == expected)
      then invalid result expected "sequence_discontinuity"
      else if not (e.previous_mac == previous)
      then invalid result e.sequence "previous_mac_mismatch"
      else if is_none (lookup e.key_version keys)
      then invalid result e.sequence "historical_key_unavailable"
      else if not (e.event_mac == compute_mac p keys e.sequence previous e)
      then invalid result e.sequence "event_mac_mismatch"
      else verify_loop count checkpoint (expected + 1) e.event_mac
          (record result { verified_through = e.sequence }) es

  unfoldable pub verify : MemoryRepository → Verification
  verify r =
      verify_loop (length r.events) r.checkpoint 1 p.genesis_mac
        (record {
          valid = true;
          event_count = length r.events;
          verified_through = 0;
          checkpoint_at = r.checkpoint.updated_at;
          failure_category = "";
          first_invalid_sequence = 0;
        })
        r.events
