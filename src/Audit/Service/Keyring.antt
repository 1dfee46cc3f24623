-- ===== src/Audit/Service/Keyring.antt =====
-- The keyring of the audit log over a start of the server: internal/audit/service.go,
-- `NewServiceWithKeyring` and `RotateTo`, in the order in which cmd/server/main.go calls them.
use secure_file_storage_syst.Prelude.{
  ℕ, String, true, false, ◌≡◌, ◌⊎◌, refl, sym, ap, subst, ◌∙◌, Option, none, some, List, [], ◌∷◌,
  ◌++◌, All, length, ltb, if◌then◌else◌, arith, ◌==◌, string_eq, nat_eq, Bool-cases, Option-cases,
  inl, inr, is_some, Result, ok, err,
}
use secure_file_storage_syst.Prelude.Map.{Map, lookup, insert, lookup-insert}
use secure_file_storage_syst.Prelude.Keys.{Distinct}
use secure_file_storage_syst.Prelude.Bytes.{Bytes}
use secure_file_storage_syst.Audit.{
  Event, MemoryRepository, Primitives, key_of, compute_mac, append, append_new, sealed, verify,
}
use secure_file_storage_syst.Audit.Chain.{append_verifies, append_cases}
use secure_file_storage_syst.Audit.Chain.Keyrings.{Extends, verify-Extends}
use secure_file_storage_syst.Audit.Query.{Text}
use secure_file_storage_syst.Audit.Service.{
  Service, Error, safe, clone_keys, new_service, rotate_to,
}

-- A log that verifies, and whose last event was signed with a key of the keyring.
pub record IsKept (p : Primitives) (keys : Map String Bytes) (r : MemoryRepository) : Type 0 where
  pub verifies : (verify p keys r).valid ≡ true
  pub last_key :
      (r.checkpoint.last_sequence ≡ 0) ⊎ (is_some (lookup r.checkpoint.key_version keys) ≡ true)

pub append_nil : (es : List Event) → es ++ [] ≡ es
append_nil [] = refl
append_nil (e ∷ es) = ap (λ (fs : List Event). e ∷ fs) (append_nil es)

module _ (p : Primitives) (t : Text) where
  -- A version that is kept as it is written, with a key that is long enough.
  unfoldable pub IsKey : String × Bytes → Type 0
  IsKey (version, key) =
      (safe p t version ≡ version) × ((version == "") ≡ false) × (ltb (length key) 32 ≡ false)

  -- The answer of `RotateTo`, and the service that it leaves.
  abbrev opened_as : Result Error Event × Service → Result Error Event × Option Service
  opened_as (answer, s) = (answer, some s)

  abbrev rotate_opened :
      String → Option Bytes → ℕ → Result Error Service → Result Error Event × Option Service
  rotate_opened configured drawn now (err e) = (err e, none)
  rotate_opened configured drawn now (ok s) = opened_as (rotate_to p t configured drawn now s)

  -- The start of the server: the service is opened, and turned to the version that is asked for.
  unfoldable pub start :
      MemoryRepository
      → String
      → Map String Bytes
      → Option Bytes
      → ℕ
      → Result Error Event × Option Service
  start r configured keys drawn now =
      rotate_opened configured drawn now (new_service p t r configured keys)

  pub append_keeps :
      (e : Event) (keys : Map String Bytes) (r : MemoryRepository)
      → is_some (lookup e.key_version keys) ≡ true
      → IsKept p keys r
      → IsKept p keys (append (compute_mac p keys) e r).1
  append_keeps e keys r known h = record {
    verifies = append_verifies p keys e r known h.verifies;
    last_key = elim (append_cases p keys e r) [
      | inl same ↦
          subst
            (λ (r' : MemoryRepository).
              (r'.checkpoint.last_sequence ≡ 0)
              ⊎ (is_some (lookup r'.checkpoint.key_version keys) ≡ true))
            same h.last_key
      | inr new ↦ inr (
          subst
            (λ (a : Event × MemoryRepository).
              is_some (lookup a.1.checkpoint.key_version keys) ≡ true)
            new (unfold append_new sealed in known))
    ];
  }

  -- What a clone of a keyring has.
  unfoldable pub Cloned : Map String Bytes → Map String Bytes → Map String Bytes → Type 0
  Cloned keys start cloned =
      Extends keys cloned × ((v : String) → lookup v keys ≡ none → lookup v cloned ≡ lookup v start)

  pub IsKept-Extends :
      (old new : Map String Bytes) (r : MemoryRepository)
      → Extends old new
      → IsKept p old r
      → IsKept p new r
  unfolding Extends
  IsKept-Extends old new r more kept = record {
    verifies = verify-Extends p old new more r kept.verifies;
    last_key = elim kept.last_key [
      | inl first ↦ inl first
      | inr known ↦ elim (Option-cases (lookup r.checkpoint.key_version old)) [
        | inl missing ↦ absurd (ground (arith, missing, known))
        | inr (k, found) ↦ inr (ap is_some (more r.checkpoint.key_version k found))
      ]
    ];
  }

  pub start_lem :
      (r : MemoryRepository) (configured : String) (keys : Map String Bytes) (raw : Bytes) (now : ℕ)
      (s : Service) (e : Event) (s' : Service)
      → new_service p t r configured keys ≡ ok s
      → rotate_to p t configured (some raw) now s ≡ (ok e, s')
      → start r configured keys (some raw) now ≡ (ok e, some s')
  unfolding start
  start_lem r configured keys raw now s e s' opened rotated =
      ap (rotate_opened configured (some raw) now) opened ∙ ap opened_as rotated

  clone_step :
      (w : String) (k : Bytes) (m acc : Map String Bytes)
      → IsKey (w, k)
      → clone_keys p t ((w, k) ∷ m) acc ≡ clone_keys p t m (insert w k acc)
  unfolding IsKey clone_keys
  clone_step w k m acc h = rw (clone_keys, h.0, h.1, h.2) refl

  pub clone_lem :
      (keys acc : Map String Bytes)
      → All IsKey keys
      → Distinct keys
      → (cloned : Map String Bytes) × (clone_keys p t keys acc ≡ some cloned)
        × Cloned keys acc cloned
  unfolding Cloned Extends lookup
  clone_lem [] acc good distinct =
      (acc, unfold clone_keys in refl, (λ v k h. absurd (ground arith), λ v h. refl))
  clone_lem ((w, k) ∷ m) acc good distinct =
      let (cloned, rest, (more, others)) = clone_lem m (insert w k acc) good.1 distinct.1 in
      (
        cloned,
        clone_step w k m acc good.0 ∙ rest,
        (
          λ v j h. elim (Bool-cases (w == v)) [
            | inl hit ↦
                let gone = ap (λ (u : String). lookup u m) (sym ((string_eq.beq_iff w v).0 hit)) in
                others v (gone ∙ distinct.0) ∙ ground (arith, hit, h, lookup-insert w v k acc)
            | inr miss ↦ more v j (ground (arith, h, miss))
          ],
          λ v h. elim (Bool-cases (w == v)) [
            | inl hit ↦ absurd (ground (arith, h, hit))
            | inr miss ↦
                others v (ground (arith, h, miss)) ∙ ground (arith, miss, lookup-insert w v k acc)
          ],
        ),
      )

  pub key_of_lem :
      (keys : Map String Bytes) (v : String) (k : Bytes)
      → lookup v keys ≡ some k
      → ltb (length k) 32 ≡ false
      → ltb (length (key_of p keys v)) 32 ≡ false
  unfolding key_of
  key_of_lem keys v k found long = ground (arith, found, long)

  -- The version under which a service signs first.
  abbrev pub first_version : MemoryRepository → String → String
  first_version r configured =
      if ltb 0 r.checkpoint.last_sequence then r.checkpoint.key_version else configured

  pub new_service_lem :
      (r : MemoryRepository) (configured : String) (keys cloned : Map String Bytes) (k : Bytes)
      → IsKey (configured, k)
      → lookup configured keys ≡ some k
      → clone_keys p t keys [] ≡ some cloned
      → ltb (length (key_of p cloned (first_version r configured))) 32 ≡ false
      → new_service p t r configured keys
        ≡ ok (record {
          repository = r;
          keys = cloned;
          current_key_version = first_version r configured;
        })
  unfolding IsKey new_service
  new_service_lem r configured keys cloned k good found known long =
      let long_enough = key_of_lem keys configured k found good.2 in
      elim (Bool-cases (ltb 0 r.checkpoint.last_sequence)) [
        | inl continued ↦ ground (arith, good.0, good.1, long_enough, known, continued, long)
        | inr fresh ↦ ground (arith, good.0, good.1, long_enough, known, fresh, long)
      ]
