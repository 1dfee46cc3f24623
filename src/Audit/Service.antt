-- ===== src/Audit/Service.antt =====
-- internal/audit/service.go: the service over the memory repository, without a checkpoint anchor:
-- its keyring and what it appends. Randomness and the clock are given to a run.
pub mod Keyring
pub mod Answers
pub mod Listing
pub mod Start
pub mod Counts
pub mod Pages
pub mod Examples
use Prim.Native.String.{◌++◌ as str_append}
use secure_file_storage_syst.Prelude.{
  ℕ, ◌-◌, String, Bool, true, false, not, ◌&&◌, ◌||◌, Option, none, some, List, [], ◌∷◌, ◌++◌,
  length, take, ltb, leb, if◌then◌else◌, ◌==◌, string_eq, nat_eq, Result, ok, err,
}
use secure_file_storage_syst.Prelude.Map.{Map, insert}
use secure_file_storage_syst.Prelude.Bytes.{Bytes, utf8, write_field}
use secure_file_storage_syst.Prelude.Int64.{Int64, lt64}
use secure_file_storage_syst.Prelude.Time.{truncate, minutes}
use secure_file_storage_syst.Audit.{
  Event, MemoryRepository, Primitives, Verification, key_of, compute_mac, append, verify,
}
use secure_file_storage_syst.Audit.Query.{Text, Query, Summary, list, summary}

pub data Error : Type 0 where
  key_required : Error
  invalid_key : Error
  historical_key_unavailable : Error
  key_version_unavailable : Error
  random_failure : Error
  invalid_search : Error
  invalid_date_range : Error
  invalid_query : Error
  panic : Error  -- the runtime's, of an index out of range

pub record Input : Type 0 where
  pub actor_type : String
  pub actor_id : String
  pub action : String
  pub resource_type : String
  pub resource_id : String
  pub outcome : String
  pub reason_code : String
  pub correlation_id : String
  pub from_state : String
  pub to_state : String
  pub network_address : String

pub record Service : Type 0 where
  pub repository : MemoryRepository
  pub keys : Map String Bytes
  pub current_key_version : String

pub record Alert : Type 0 where
  pub id : String
  pub alert_type : String
  pub severity : String
  pub title : String
  pub detail : String
  pub count : ℕ
  pub detected_at : ℕ

pub record Page : Type 0 where
  pub events : List Event
  pub total : ℕ
  pub limit : Int64
  pub offset : Int64
  pub verification : Verification
  pub summary : Summary
  pub alerts : List Alert

-- Event{}
abbrev pub no_event : Event
no_event = record {
  sequence = 0;
  event_id = "";
  occurred_at = 0;
  actor_type = "";
  actor_id = "";
  action = "";
  resource_type = "";
  resource_id = "";
  outcome = "";
  reason_code = "";
  correlation_id = "";
  from_state = "";
  to_state = "";
  key_version = "";
  network_source = "";
  previous_mac = [];
  event_mac = [];
}

module _ (p : Primitives) (t : Text) where
  unfoldable pub safe : String → String
  safe value =
      let trimmed = t.trim_space value in
      if ltb 160 (length (utf8 trimmed)) then t.first_bytes 160 trimmed else trimmed

  unfoldable pub network_fingerprint : Service → String → String
  network_fingerprint s address =
      let trimmed = t.trim_space address in
      let message =
        write_field (utf8 "securestore.audit.network.v1") ++ write_field (utf8 trimmed) in
      if trimmed == ""
      then ""
      else str_append "net_"
          (t.base64_raw_url (take 12 (p.hmac (key_of p s.keys s.current_key_version) message)))

  -- The loop over the keyring.
  unfoldable pub clone_keys : Map String Bytes → Map String Bytes → Option (Map String Bytes)
  clone_keys [] cloned = some cloned
  clone_keys ((version, key) ∷ keys) cloned =
      if safe version == "" || ltb (length key) 32
      then none
      else clone_keys keys (insert (safe version) key cloned)

  unfoldable pub new_service : MemoryRepository → String → Map String Bytes → Result Error Service
  new_service r current keys =
      let version = safe current in
      let continued = ltb 0 r.checkpoint.last_sequence in
      let active = if continued then r.checkpoint.key_version else version in
      if version == "" || ltb (length (key_of p keys version)) 32
      then err key_required
      else elim (clone_keys keys []) [
        | none ↦ err invalid_key
        | some cloned ↦
            if continued && ltb (length (key_of p cloned active)) 32
            then err historical_key_unavailable
            else ok (record { repository = r; keys = cloned; current_key_version = active })
      ]

  unfoldable pub event_of : Service → Input → Bytes → ℕ → Event
  event_of s input drawn now = record no_event {
    event_id = str_append "aud_" (t.base64_raw_url drawn);
    occurred_at = truncate now;
    actor_type = safe input.actor_type;
    actor_id = safe input.actor_id;
    action = safe input.action;
    resource_type = safe input.resource_type;
    resource_id = safe input.resource_id;
    outcome = safe input.outcome;
    reason_code = safe input.reason_code;
    correlation_id = safe input.correlation_id;
    from_state = safe input.from_state;
    to_state = safe input.to_state;
    key_version = s.current_key_version;
    network_source = network_fingerprint s input.network_address;
  }

  -- `Append`, with the bytes that the generator draws, or its failure, and the time.
  unfoldable pub append_input : Input → Option Bytes → ℕ → Service → Result Error Event × Service
  append_input input none now s = (err random_failure, s)
  append_input input (some drawn) now s =
      let (e, r) = append (compute_mac p s.keys) (event_of s input drawn now) s.repository in
      (ok e, record s { repository = r })

  abbrev rotation : String → String → Input
  rotation previous version = record {
    actor_type = "system";
    actor_id = "audit-key-manager";
    action = "AUDIT_KEY_ROTATED";
    resource_type = "audit_key";
    resource_id = version;
    outcome = "success";
    reason_code = "configured_key_rotation";
    correlation_id = "";
    from_state = previous;
    to_state = version;
    network_address = "";
  }

  -- What follows the append of a rotation.
  abbrev pub rotated : String → Result Error Event × Service → Result Error Event × Service
  rotated previous (ok e, s) = (ok e, s)
  rotated previous (err e, s) = (err e, record s { current_key_version = previous })

  unfoldable pub rotate_to : String → Option Bytes → ℕ → Service → Result Error Event × Service
  rotate_to requested drawn now s =
      let version = safe requested in
      let previous = s.current_key_version in
      if version == "" || ltb (length (key_of p s.keys version)) 32
      then (err key_version_unavailable, s)
      else if version == previous
      then (ok no_event, s)
      else rotated previous (
          append_input (rotation previous version) drawn now
            (record s { current_key_version = version }))
