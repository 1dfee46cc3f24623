-- ===== src/Audit/Service/Start.antt =====
-- internal/audit/service.go at a start of the server: what it leaves of the log and of its keys.
use secure_file_storage_syst.Prelude.{
  ℕ, String, true, false, ◌≡◌, refl, sym, ap, ◌∙◌, Option, some, List, [], ◌∷◌, ◌++◌, All, length,
  ltb, arith, ◌==◌, string_eq, nat_eq, Bool-cases, Option-cases, inl, inr, is_some, ok,
}
use secure_file_storage_syst.Prelude.Map.{Map, lookup, lookup-All}
use secure_file_storage_syst.Prelude.Keys.{Distinct}
use secure_file_storage_syst.Prelude.Bytes.{Bytes}
use secure_file_storage_syst.Audit.{
  Event, MemoryRepository, Primitives, key_of, compute_mac, append, append_new, sealed,
}
use secure_file_storage_syst.Audit.Chain.{append_cases}
use secure_file_storage_syst.Audit.Chain.Keyrings.{Extends}
use secure_file_storage_syst.Audit.Query.{Text}
use secure_file_storage_syst.Audit.Service.{
  Service, no_event, append_input, event_of, rotation, rotate_to,
}
use secure_file_storage_syst.Audit.Service.Keyring.{
  IsKept, IsKey, Cloned, start, key_of_lem, append_keeps, append_nil, first_version,
  new_service_lem, clone_lem, IsKept-Extends, start_lem,
}

module _ (p : Primitives) (t : Text) where
  -- What a start leaves: the version that was asked for signs, the keyring has its keys, the log
  -- verifies, and it begins with the events that it had.
  pub record IsStarted (r : MemoryRepository) (configured : String) (keys : Map String Bytes)
      (s : Service) : Type 0 where
    pub current : s.current_key_version ≡ configured
    pub kept_keys : Extends keys s.keys
    pub kept_log : IsKept p s.keys s.repository
    pub kept_events : (es : List Event) × (s.repository.events ≡ r.events ++ es)

  rotation_event : Service → String → Bytes → ℕ → Event
  rotation_event s configured raw now =
      event_of p t (record s { current_key_version = configured })
        (rotation p t s.current_key_version configured) raw now

  rotation_lem :
      (s : Service) (configured : String) (raw : Bytes) (now : ℕ) (k : Bytes)
      → IsKey p t (configured, k)
      → lookup configured s.keys ≡ some k
      → (configured == s.current_key_version) ≡ false
      → rotate_to p t configured (some raw) now s ≡ (
        ok (append (compute_mac p s.keys) (rotation_event s configured raw now) s.repository).0,
        record s {
          current_key_version = configured;
          repository =
              (append (compute_mac p s.keys) (rotation_event s configured raw now) s.repository).1;
        },
      )
  unfolding IsKey rotate_to append_input rotation_event
  rotation_lem s configured raw now k good found other =
      let long = key_of_lem p t s.keys configured k found good.2 in
      rw (good.0, good.1, long, other) refl

  no_rotation_lem :
      (s : Service) (configured : String) (drawn : Option Bytes) (now : ℕ) (k : Bytes)
      → IsKey p t (configured, k)
      → lookup configured s.keys ≡ some k
      → (configured == s.current_key_version) ≡ true
      → rotate_to p t configured drawn now s ≡ (ok no_event, s)
  unfolding IsKey rotate_to
  no_rotation_lem s configured drawn now k good found same =
      let long = key_of_lem p t s.keys configured k found good.2 in
      rw (good.0, good.1, long, same) refl

  append-prefix :
      (e : Event) (keys : Map String Bytes) (r : MemoryRepository)
      → (es : List Event) × ((append (compute_mac p keys) e r).1.events ≡ r.events ++ es)
  append-prefix e keys r = elim (append_cases p keys e r) [
    | inl same ↦
        ([], ap (λ (r' : MemoryRepository). r'.events) (sym same) ∙ sym (append_nil r.events))
    | inr new ↦ (
      sealed (compute_mac p keys) r e ∷ [],
      ap (λ (a : Event × MemoryRepository). a.1.events) (sym new) ∙ unfold append_new in refl,
    )
  ]

  rotate_lem :
      (s : Service) (configured : String) (keys : Map String Bytes) (raw : Bytes) (now : ℕ)
      (k : Bytes)
      → IsKey p t (configured, k)
      → Extends keys s.keys
      → lookup configured s.keys ≡ some k
      → IsKept p s.keys s.repository
      → (e : Event) × (s' : Service) × (rotate_to p t configured (some raw) now s ≡ (ok e, s'))
        × IsStarted s.repository configured keys s'
  rotate_lem s configured keys raw now k good more found kept =
      elim (Bool-cases (configured == s.current_key_version)) [
        | inl same ↦ (
          no_event,
          s,
          no_rotation_lem s configured (some raw) now k good found same,
          record {
            current = sym ((string_eq.beq_iff configured s.current_key_version).0 same);
            kept_keys = more;
            kept_log = kept;
            kept_events = ([], sym (append_nil s.repository.events));
          },
        )
        | inr other ↦
            let e = rotation_event s configured raw now in
            let known : is_some (lookup e.key_version s.keys) ≡ true =
              unfold rotation_event event_of in ap is_some found in
            (
              _,
              _,
              rotation_lem s configured raw now k good found other,
              record {
                current = refl;
                kept_keys = more;
                kept_log = append_keeps p t e s.keys s.repository known kept;
                kept_events = append-prefix e s.keys s.repository;
              },
            )
      ]

  -- The key under which a service signs first is long enough.
  first_key_lem :
      (r : MemoryRepository) (configured : String) (old keys cloned : Map String Bytes) (k : Bytes)
      → All (IsKey p t) keys
      → Extends old keys
      → Extends keys cloned
      → IsKey p t (configured, k)
      → lookup configured keys ≡ some k
      → IsKept p old r
      → ltb (length (key_of p cloned (first_version p t r configured))) 32 ≡ false
  unfolding IsKey Extends
  first_key_lem r configured old keys cloned k all more copied good found kept =
      elim (Bool-cases (ltb 0 r.checkpoint.last_sequence)) [
        | inl continued ↦ elim kept.last_key [
          | inl first ↦ absurd (ground arith)
          | inr known ↦ elim (Option-cases (lookup r.checkpoint.key_version old)) [
            | inl missing ↦ absurd (ground (arith, missing, known))
            | inr (j, last) ↦
                let held = more r.checkpoint.key_version j last in
                let long = lookup-All (IsKey p t) r.checkpoint.key_version keys j all held in
                let cloned_long =
                  key_of_lem p t cloned r.checkpoint.key_version j
                    (copied r.checkpoint.key_version j held) long.2 in
                ground (arith, continued, cloned_long)
          ]
        ]
        | inr fresh ↦
            let cloned_long =
              key_of_lem p t cloned configured k (copied configured k found) good.2 in
            ground (arith, fresh, cloned_long)
      ]

  -- A start of the server on a log that verifies succeeds, and leaves a log that verifies, begins
  -- with the same events and is signed from then on under the version that was asked for, whichever
  -- version signed it last. The keyring has distinct versions: those that the log was verified with, its
  -- checkpoint's included, the version that is asked for and possibly others, each with a key of at
  -- least 32 bytes and with nothing to trim; an identifier can be drawn.
  pub start_verifies :
      (r : MemoryRepository) (configured : String) (old keys : Map String Bytes) (k raw : Bytes)
      (now : ℕ)
      → Distinct keys
      → All (IsKey p t) keys
      → Extends old keys
      → lookup configured keys ≡ some k
      → IsKept p old r
      → (e : Event) × (s : Service) × (start p t r configured keys (some raw) now ≡ (ok e, some s))
        × IsStarted r configured keys s
  unfolding Cloned Extends
  start_verifies r configured old keys k raw now distinct all more found kept =
      let good = lookup-All (IsKey p t) configured keys k all found in
      let (cloned, copy, (copied, others)) = clone_lem p t keys [] all distinct in
      let long = first_key_lem r configured old keys cloned k all more copied good found kept in
      let opened = new_service_lem p t r configured keys cloned k good found copy long in
      let s : Service = record {
        repository = r;
        keys = cloned;
        current_key_version = first_version p t r configured;
      } in
      let still : IsKept p cloned r =
        IsKept-Extends p t old cloned r (λ v j h. copied v j (more v j h)) kept in
      let (e, s', rotated, started) =
        rotate_lem s configured keys raw now k good copied (copied configured k found) still in
      (e, s', start_lem p t r configured keys raw now s e s' opened rotated, started)
