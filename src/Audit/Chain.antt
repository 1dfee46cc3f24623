-- ===== src/Audit/Chain.antt =====
-- The hash chain: internal/audit/service.go, `Verify`, over what `Append` builds.
pub mod Keyrings
use secure_file_storage_syst.Prelude.{
  ℕ, ◌+◌, ◌^◌, ◌<◌, String, ◌≡◌, ◌↔◌, ◌⊎◌, refl, sym, ◌∙◌, ap, subst, true, List, [], ◌∷◌, ◌++◌,
  length, length-append, All, find, arith, ◌==◌, string_eq, nat_eq, Option-cases, inl, inr, is_some,
}
use secure_file_storage_syst.Prelude.Map.{Map, lookup}
use secure_file_storage_syst.Prelude.Bytes.{
  Bytes, bytes_eq, utf8, be64, write_field, append_cancel, write_field_cancel,
}
use secure_file_storage_syst.Audit.Canonical.{IsShort, canonical_event_injective}
use secure_file_storage_syst.Audit.{
  Event, Checkpoint, Verification, MemoryRepository, Primitives, compute_mac, verify, verify_loop,
  invalid, append, append_new, sealed, mac_message, canonical_event, canonical_fields,
  network_field, new_memory_repository,
}

module _ (p : Primitives) (keys : Map String Bytes) where
  -- The events are numbered from a first number on, each signed under a key that is known and
  -- linked to the MAC before it; `Chained n prev es end`: `end` is the last MAC, or `prev`.
  pub Chained : ℕ → Bytes → List Event → Bytes → Type 0
  Chained n previous [] end = previous ≡ end
  Chained n previous (e ∷ es) end =
      (e.sequence ≡ n)
      × (e.previous_mac ≡ previous)
      × (is_some (lookup e.key_version keys) ≡ true)
      × (e.event_mac ≡ compute_mac p keys n previous e)
      × Chained (n + 1) e.event_mac es end

  loop_lem :
      (count : ℕ) (checkpoint : Checkpoint) (n : ℕ) (previous : Bytes) (result : Verification)
      (es : List Event)
      → result.valid ≡ true
      → ((verify_loop p keys count checkpoint n previous result es).valid ≡ true)
        ↔ (Chained n previous es checkpoint.last_mac × (checkpoint.last_sequence ≡ count))
  unfolding verify_loop invalid Chained
  loop_lem count checkpoint n previous result [] ok = ground (
    arith,
    nat_eq.beq_iff checkpoint.last_sequence count,
    bytes_eq.beq_iff checkpoint.last_mac previous,
  )
  loop_lem count checkpoint n previous result (e ∷ es) ok =
      let rest =
        loop_lem count checkpoint (n + 1) e.event_mac
          (record result { verified_through = e.sequence }) es ok in
      ground (
        arith,
        rest,
        nat_eq.beq_iff e.sequence n,
        bytes_eq.beq_iff e.previous_mac previous,
        bytes_eq.beq_iff e.event_mac (compute_mac p keys e.sequence previous e),
      )

  Chained-append :
      (n : ℕ) (previous : Bytes) (es : List Event) (middle : Bytes) (fs : List Event) (end : Bytes)
      → Chained n previous es middle
      → Chained (n + length es) middle fs end
      → Chained n previous (es ++ fs) end
  unfolding Chained
  Chained-append n previous [] middle fs end h g =
      let start : Chained n middle fs end =
        subst (λ (k : ℕ). Chained k middle fs end) {x = n + 0} {y = n} (omega arith) g in
      subst (λ (b : Bytes). Chained n b fs end) {x = middle} {y = previous} (sym h) start
  Chained-append n previous (e ∷ es) middle fs end h g =
      let moved : Chained ((n + 1) + length es) middle fs end =
        subst (λ (k : ℕ). Chained k middle fs end) {x = n + length (e ∷ es)}
          {y = (n + 1) + length es} (omega arith) g in
      (h.0, h.1, h.2, h.3, Chained-append (n + 1) e.event_mac es middle fs end h.4 moved)

  -- A repository that passes `Verify`, in terms of its chain.
  pub Linked : MemoryRepository → Type 0
  Linked r =
      Chained 1 p.genesis_mac r.events r.checkpoint.last_mac
      × (r.checkpoint.last_sequence ≡ length r.events)

  pub verify_lem : (r : MemoryRepository) → ((verify p keys r).valid ≡ true) ↔ Linked r
  unfolding verify Linked
  verify_lem r = loop_lem (length r.events) r.checkpoint 1 p.genesis_mac _ r.events refl

  pub append_cases :
      (e : Event) (r : MemoryRepository)
      → (r ≡ (append (compute_mac p keys) e r).1)
        ⊎ (append_new (compute_mac p keys) e r ≡ append (compute_mac p keys) e r)
  unfolding append
  append_cases e r =
      ground (
        arith,
        Option-cases (find (λ (existing : Event). existing.event_id == e.event_id) r.events),
      )

  append_new-Linked :
      (e : Event) (r : MemoryRepository)
      → is_some (lookup e.key_version keys) ≡ true
      → Linked r
      → Linked (append_new (compute_mac p keys) e r).1
  unfolding append_new sealed Linked
  append_new-Linked e r known h =
      let n = length r.events in
      let last = r.checkpoint.last_mac in
      let e' = sealed (compute_mac p keys) r e in
      let number : n + 1 ≡ 1 + n = omega arith in
      let one : Chained (1 + n) last (e' ∷ []) e'.event_mac =
        unfold Chained compute_mac mac_message canonical_event canonical_fields network_field in
        (number, refl, known, ap (λ (k : ℕ). compute_mac p keys k last e') number, refl) in
      (
        Chained-append 1 p.genesis_mac r.events last (e' ∷ []) e'.event_mac h.0 one,
        sym (length-append r.events (e' ∷ [])),
      )

  -- Appending to a log that verifies leaves a log that verifies, whether the event is new or known,
  -- when its key is in the keyring.
  pub append_verifies :
      (e : Event) (r : MemoryRepository)
      → is_some (lookup e.key_version keys) ≡ true
      → (verify p keys r).valid ≡ true
      → (verify p keys (append (compute_mac p keys) e r).1).valid ≡ true
  append_verifies e r known ok =
      let stored = (verify_lem r).0 ok in
      let target = (append (compute_mac p keys) e r).1 in
      (verify_lem target).1 (elim (append_cases e r) [
        | inl same ↦ subst Linked {x = r} {y = target} same stored
        | inr new ↦
            subst Linked {x = (append_new (compute_mac p keys) e r).1} {y = target}
              (ap (λ (a : Event × MemoryRepository). a.1) new) (append_new-Linked e r known stored)
      ])

  -- `Append` of each event in turn.
  unfoldable pub append_all : List Event → MemoryRepository → MemoryRepository
  append_all [] r = r
  append_all (e ∷ es) r = append_all es (append (compute_mac p keys) e r).1

  append_all_verifies :
      (es : List Event) (r : MemoryRepository)
      → All (λ (e : Event). is_some (lookup e.key_version keys) ≡ true) es
      → (verify p keys r).valid ≡ true
      → (verify p keys (append_all es r)).valid ≡ true
  unfolding append_all
  append_all_verifies [] r known ok = ok
  append_all_verifies (e ∷ es) r known ok =
      append_all_verifies es (append (compute_mac p keys) e r).1 known.1
        (append_verifies e r known.0 ok)

  -- Whatever events are appended to a new log, in whatever order and however often, the log
  -- verifies, when the keys that sign them are in the keyring.
  pub history_verifies :
      (es : List Event)
      → All (λ (e : Event). is_some (lookup e.key_version keys) ≡ true) es
      → (verify p keys (append_all es (new_memory_repository p))).valid ≡ true
  unfolding new_memory_repository
  history_verifies es known =
      append_all_verifies es (new_memory_repository p) known
        ((verify_lem (new_memory_repository p)).1 (unfold Linked Chained in (refl, refl)))

  mac_cancel :
      (n : ℕ) (a b : Bytes) (e f : Event)
      → ((k l m m' : Bytes) → p.hmac k m ≡ p.hmac l m' → m ≡ m')
      → length a < 2 ^ 32
      → length b < 2 ^ 32
      → IsShort p e
      → IsShort p f
      → compute_mac p keys n a e ≡ compute_mac p keys n b f
      → (a ≡ b) × (canonical_event p e ≡ canonical_event p f)
  unfolding compute_mac mac_message
  mac_cancel n a b e f hmac_cancel ha hb he hf h =
      let label = write_field (utf8 "securestore.audit.chain.v2") in
      let message = hmac_cancel _ _ _ _ h in
      let numbered = (append_cancel label label _ _ refl message).1 in
      let linked = (append_cancel (be64 n) (be64 n) _ _ refl numbered).1 in
      let (previous, last) = write_field_cancel a b _ _ ha hb linked in
      (
        previous,
        (write_field_cancel (canonical_event p e) (canonical_event p f) [] [] he.whole hf.whole
            (ap (λ (x : Bytes). x ++ []) last)).0,
      )

  chains_agree :
      (es fs : List Event) (n : ℕ) (a b end : Bytes)
      → ((k l m m' : Bytes) → p.hmac k m ≡ p.hmac l m' → m ≡ m')
      → ((t u : ℕ) → p.format_time t ≡ p.format_time u → t ≡ u)
      → All (IsShort p) es
      → All (IsShort p) fs
      → length es ≡ length fs
      → length a < 2 ^ 32
      → length b < 2 ^ 32
      → Chained n a es end
      → Chained n b fs end
      → (a ≡ b) × (es ≡ fs)
  unfolding Chained
  chains_agree [] [] n a b end hmac_cancel times se sf l ha hb h g = (h ∙ sym g, refl)
  chains_agree [] (f ∷ fs) n a b end hmac_cancel times se sf l ha hb h g = absurd (omega arith)
  chains_agree (e ∷ es) [] n a b end hmac_cancel times se sf l ha hb h g = absurd (omega arith)
  chains_agree (e ∷ es) (f ∷ fs) n a b end hmac_cancel times se sf l ha hb h g =
      let (macs, rest) =
        chains_agree es fs (n + 1) e.event_mac f.event_mac end hmac_cancel times se.1 sf.1
          (omega arith) se.0.mac sf.0.mac h.4 g.4 in
      let (previous, canonical) =
        mac_cancel n a b e f hmac_cancel ha hb se.0 sf.0 (sym h.3 ∙ macs ∙ g.3) in
      let same = canonical_event_injective p e f times se.0 sf.0 canonical in
      let places : record f {
        sequence = e.sequence;
        previous_mac = e.previous_mac;
        event_mac = e.event_mac;
      }
          ≡ f =
        λ i. record f {
          sequence = (h.0 ∙ sym g.0) i;
          previous_mac = (h.1 ∙ previous ∙ sym g.1) i;
          event_mac = macs i;
        } in
      (previous, λ i. (same ∙ places) i ∷ rest i)

  -- Two logs that verify against the same checkpoint are the same log, event for event: a change, a
  -- removal, an insertion or a reordering of stored events is found. HMAC tells messages apart (as if
  -- it had no collisions), the format of times tells times apart, and no field
  -- is as long as its uint32 length can count.
  pub tampering_is_detected :
      (r s : MemoryRepository)
      → ((k l m m' : Bytes) → p.hmac k m ≡ p.hmac l m' → m ≡ m')
      → ((t u : ℕ) → p.format_time t ≡ p.format_time u → t ≡ u)
      → length p.genesis_mac < 2 ^ 32
      → All (IsShort p) r.events
      → All (IsShort p) s.events
      → r.checkpoint ≡ s.checkpoint
      → (verify p keys r).valid ≡ true
      → (verify p keys s).valid ≡ true
      → r.events ≡ s.events
  tampering_is_detected r s hmac_cancel times genesis short_r short_s same ok_r ok_s =
      let linked_r = (verify_lem r).0 ok_r in
      let linked_s = (verify_lem s).0 ok_s in
      unfold Linked in
      (chains_agree r.events s.events 1 p.genesis_mac p.genesis_mac s.checkpoint.last_mac
        hmac_cancel times short_r short_s
        (sym linked_r.1 ∙ ap (λ (c : Checkpoint). c.last_sequence) same ∙ linked_s.1) genesis
        genesis
        (subst (λ (m : Bytes). Chained 1 p.genesis_mac r.events m) {x = r.checkpoint.last_mac}
          {y = s.checkpoint.last_mac} (ap (λ (c : Checkpoint). c.last_mac) same) linked_r.0)
        linked_s.0).1
