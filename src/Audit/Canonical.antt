-- ===== src/Audit/Canonical.antt =====
-- The canonical bytes of an event determine it: internal/audit/service.go.
use secure_file_storage_syst.Prelude.{
  ℕ, ◌^◌, ◌<◌, ◌≡◌, refl, sym, ◌∙◌, ap, [], ◌++◌, length, arith, ◌==◌, string_eq, Bool-cases, inl,
  inr,
}
use secure_file_storage_syst.Prelude.Bytes.{
  Bytes, utf8, utf8-injective, write_field, AllShort, write_field_cancel, write_fields_cancel, be32,
}
use secure_file_storage_syst.Audit.{
  Event, Primitives, canonical_fields, network_field, canonical_event,
}

module _ (p : Primitives) where
  -- No field is as long as the uint32 in front of it can count.
  pub record IsShort (e : Event) : Type 0 where
    pub fields : AllShort (canonical_fields p e)
    pub network : length (utf8 e.network_source) < 2 ^ 32
    pub whole : length (canonical_event p e) < 2 ^ 32
    pub mac : length e.event_mac < 2 ^ 32

  field-ne-nil : (b : Bytes) → write_field b ≡ [] → ⊥
  unfolding write_field be32
  field-ne-nil b h = cc

  network_cancel :
      (e f : Event)
      → IsShort e
      → IsShort f
      → network_field p e ≡ network_field p f
      → e.network_source ≡ f.network_source
  unfolding network_field
  network_cancel e f he hf h = elim (Bool-cases (e.network_source == "")) [
    | inl none_e ↦ elim (Bool-cases (f.network_source == "")) [
      | inl none_f ↦
          (string_eq.beq_iff e.network_source "").0 none_e
          ∙ sym ((string_eq.beq_iff f.network_source "").0 none_f)
      | inr some_f ↦ absurd (field-ne-nil (utf8 f.network_source) (ground arith))
    ]
    | inr some_e ↦ elim (Bool-cases (f.network_source == "")) [
      | inl none_f ↦ absurd (field-ne-nil (utf8 e.network_source) (ground arith))
      | inr some_f ↦
          let same : write_field (utf8 e.network_source) ≡ write_field (utf8 f.network_source) =
            ground arith in
          utf8-injective e.network_source f.network_source
            (write_field_cancel (utf8 e.network_source) (utf8 f.network_source) [] [] he.network
              hf.network (ap (λ (b : Bytes). b ++ []) same)).0
    ]
  ]

  fields_cancel :
      (e f : Event)
      → ((a b : ℕ) → p.format_time a ≡ p.format_time b → a ≡ b)
      → canonical_fields p e ≡ canonical_fields p f
      → (e.event_id ≡ f.event_id)
        × (e.occurred_at ≡ f.occurred_at)
        × (e.actor_type ≡ f.actor_type)
        × (e.actor_id ≡ f.actor_id)
        × (e.action ≡ f.action)
        × (e.resource_type ≡ f.resource_type)
        × (e.resource_id ≡ f.resource_id)
        × (e.outcome ≡ f.outcome)
        × (e.reason_code ≡ f.reason_code)
        × (e.correlation_id ≡ f.correlation_id)
        × (e.from_state ≡ f.from_state)
        × (e.to_state ≡ f.to_state)
        × (e.key_version ≡ f.key_version)
  unfolding canonical_fields
  fields_cancel e f times h = (
    utf8-injective _ _ (cc),
    times _ _ (utf8-injective _ _ (cc)),
    utf8-injective _ _ (cc),
    utf8-injective _ _ (cc),
    utf8-injective _ _ (cc),
    utf8-injective _ _ (cc),
    utf8-injective _ _ (cc),
    utf8-injective _ _ (cc),
    utf8-injective _ _ (cc),
    utf8-injective _ _ (cc),
    utf8-injective _ _ (cc),
    utf8-injective _ _ (cc),
    utf8-injective _ _ (cc),
  )

  -- Two events with the same canonical bytes agree in everything but their place in the chain and
  -- their MACs, the network fingerprint that older events lack included. Times are told apart by
  -- their format, and the fields are shorter than 2^32 bytes.
  pub canonical_event_injective :
      (e f : Event)
      → ((a b : ℕ) → p.format_time a ≡ p.format_time b → a ≡ b)
      → IsShort e
      → IsShort f
      → canonical_event p e ≡ canonical_event p f
      → e
        ≡ record f { sequence = e.sequence; previous_mac = e.previous_mac; event_mac = e.event_mac }
  unfolding canonical_event
  canonical_event_injective e f times he hf h =
      let (fields, rest) =
        write_fields_cancel (canonical_fields p e) (canonical_fields p f) (network_field p e)
          (network_field p f) (unfold canonical_fields in refl) he.fields hf.fields h in
      let network = network_cancel e f he hf rest in
      let same = fields_cancel e f times fields in
      λ i. record f {
        sequence = e.sequence;
        previous_mac = e.previous_mac;
        event_mac = e.event_mac;
        event_id = same.0 i;
        occurred_at = same.1 i;
        actor_type = same.2 i;
        actor_id = same.3 i;
        action = same.4 i;
        resource_type = same.5 i;
        resource_id = same.6 i;
        outcome = same.7 i;
        reason_code = same.8 i;
        correlation_id = same.9 i;
        from_state = same.10 i;
        to_state = same.11 i;
        key_version = same.12 i;
        network_source = network i;
      }
