-- ===== src/Audit/Examples.antt =====
-- The theorems on internal/audit at a log of one event, with a keyring of one key. In place of
-- HMAC-SHA-256 stands the function that gives the message back, and for the format of times one
-- that writes them in unary.
use secure_file_storage_syst.Prelude.{
  ℕ, zero, suc, String, ◌≡◌, refl, sym, ◌∙◌, ap, true, [], ◌∷◌, find, arith, string_eq,
}
use secure_file_storage_syst.Prelude.Map.{Map, lookup}
use secure_file_storage_syst.Prelude.Bytes.{
  Bytes, utf8, write_field, write_fields, be32, be64, utf8_char,
}
use secure_file_storage_syst.Audit.{
  Event, MemoryRepository, Primitives, canonical_fields, network_field, canonical_event,
  compute_mac, mac_message, new_memory_repository, append, append_new, sealed, verify,
}
use secure_file_storage_syst.Audit.Canonical.{IsShort, canonical_event_injective}
use secure_file_storage_syst.Audit.Chain.{
  append_all, append_verifies, history_verifies, tampering_is_detected,
}

unary : ℕ → String
unary zero = ""
unary (suc n) = String.◌∷◌ "x" (unary n)

size : String → ℕ
size String.[] = 0
size (String.◌∷◌ c s) = suc (size s)

size-unary : (n : ℕ) → size (unary n) ≡ n
unfolding size unary
size-unary zero = refl
size-unary (suc n) = ap suc (size-unary n)

unary-injective : (m n : ℕ) → unary m ≡ unary n → m ≡ n
unary-injective m n h = sym (size-unary m) ∙ ap size h ∙ size-unary n

abbrev plain : Primitives
plain = record { hmac = λ key message. message; genesis_mac = 0 ∷ []; format_time = unary }

abbrev keyring : Map String Bytes
keyring = ("v1", 9 ∷ []) ∷ []

abbrev upload : Event
upload = record {
  sequence = 0;
  event_id = "a1";
  occurred_at = 2;
  actor_type = "user";
  actor_id = "al";
  action = "UP";
  resource_type = "file";
  resource_id = "f1";
  outcome = "success";
  reason_code = "ok";
  correlation_id = "c";
  from_state = "";
  to_state = "";
  key_version = "v1";
  network_source = "";
  previous_mac = [];
  event_mac = [];
}

abbrev moved : Event
moved = record upload { sequence = 4; event_mac = 5 ∷ [] }

upload-IsShort : IsShort plain upload
unfolding canonical_fields canonical_event network_field utf8 write_fields write_field unary be32
    utf8_char
upload-IsShort = record {
  fields = ground arith;
  network = omega arith;
  whole = omega arith;
  mac = omega arith;
}

moved-IsShort : IsShort plain moved
unfolding canonical_event
moved-IsShort = record {
  fields = upload-IsShort.fields;
  network = upload-IsShort.network;
  whole = upload-IsShort.whole;
  mac = omega arith;
}

canonical_event_injective_example : upload ≡ record moved {
  sequence = upload.sequence;
  previous_mac = upload.previous_mac;
  event_mac = upload.event_mac;
}
unfolding canonical_event
canonical_event_injective_example =
    canonical_event_injective plain upload moved unary-injective upload-IsShort moved-IsShort refl

abbrev log : MemoryRepository
log = append_all plain keyring (upload ∷ []) (new_memory_repository plain)

history_verifies_example : (verify plain keyring log).valid ≡ true
unfolding lookup
history_verifies_example = history_verifies plain keyring (upload ∷ []) (refl, tt)

append_verifies_example :
    (verify plain keyring (append (compute_mac plain keyring) moved log).1).valid ≡ true
unfolding lookup
append_verifies_example = append_verifies plain keyring moved log refl history_verifies_example

abbrev stored : Event
stored = record upload {
  sequence = 1;
  previous_mac = 0 ∷ [];
  event_mac = compute_mac plain keyring 1 (0 ∷ []) upload;
}

stored-IsShort : IsShort plain stored
unfolding canonical_fields canonical_event network_field utf8 write_fields write_field unary be32
    utf8_char be64 compute_mac mac_message
stored-IsShort = record {
  fields = unfold canonical_fields in upload-IsShort.fields;
  network = upload-IsShort.network;
  whole = upload-IsShort.whole;
  mac = omega arith;
}

abbrev stored_log : MemoryRepository
stored_log = record {
  events = stored ∷ [];
  checkpoint = record {
    chain_id = "securestore-main-v2";
    key_version = "v1";
    last_sequence = 1;
    last_mac = stored.event_mac;
    updated_at = 2;
  };
}

stored_log_verifies : (verify plain keyring stored_log).valid ≡ true
unfolding append_all append new_memory_repository lookup sealed find append_new compute_mac
    mac_message canonical_event
stored_log_verifies = history_verifies_example

tampering_is_detected_example : stored_log.events ≡ stored_log.events
tampering_is_detected_example =
    tampering_is_detected plain keyring stored_log stored_log (λ k l m m' h. h) unary-injective
      (omega arith) (stored-IsShort, tt) (stored-IsShort, tt) refl stored_log_verifies
      stored_log_verifies
