-- ===== src/Audit/Chain/Keyrings.antt =====
-- The keys of the log: internal/audit/service.go, `Verify`, under a keyring to which keys were added.
use secure_file_storage_syst.Prelude.{
  ℕ, ◌+◌, String, true, ◌≡◌, ap, ◌∙◌, some, List, [], ◌∷◌, arith, Option-cases, inl, inr, is_some,
  string_eq,
}
use secure_file_storage_syst.Prelude.Map.{Map, lookup}
use secure_file_storage_syst.Prelude.Bytes.{Bytes}
use secure_file_storage_syst.Audit.{
  Event, MemoryRepository, Primitives, key_of, mac_message, compute_mac, verify,
}
use secure_file_storage_syst.Audit.Chain.{Chained, Linked, verify_lem}

-- The second keyring has the keys of the first, and possibly others.
unfoldable pub Extends : Map String Bytes → Map String Bytes → Type 0
Extends old new = (v : String) (k : Bytes) → lookup v old ≡ some k → lookup v new ≡ some k

module _ (p : Primitives) (old new : Map String Bytes) (more_keys : Extends old new) where
  key_of-Extends :
      (v : String)
      → is_some (lookup v old) ≡ true
      → (key_of p old v ≡ key_of p new v) × (is_some (lookup v new) ≡ true)
  unfolding key_of Extends
  key_of-Extends v known = elim (Option-cases (lookup v old)) [
    | inl missing ↦ absurd (ground (arith, missing, known))
    | inr (k, found) ↦
        let found' = more_keys v k found in (ground (arith, found, found'), ground (arith, found'))
  ]

  Chained-Extends :
      (n : ℕ) (previous : Bytes) (es : List Event) (end : Bytes)
      → Chained p old n previous es end
      → Chained p new n previous es end
  unfolding Chained
  Chained-Extends n previous [] end h = h
  Chained-Extends n previous (e ∷ es) end h =
      let (same, known) = key_of-Extends e.key_version h.2 in
      let mac = ap (λ (k : Bytes). p.hmac k (mac_message p n previous e)) same in
      (
        h.0,
        h.1,
        known,
        h.3 ∙ unfold compute_mac in mac,
        Chained-Extends (n + 1) e.event_mac es end h.4,
      )

  -- A log that verifies also verifies under a keyring with more keys.
  pub verify-Extends :
      (r : MemoryRepository) → (verify p old r).valid ≡ true → (verify p new r).valid ≡ true
  unfolding Linked
  verify-Extends r good =
      let linked = (verify_lem p old r).0 good in
      (verify_lem p new r).1
        (Chained-Extends 1 p.genesis_mac r.events r.checkpoint.last_mac linked.0, linked.1)
