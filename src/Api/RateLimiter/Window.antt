-- ===== src/Api/RateLimiter/Window.antt =====
-- What the stored times of internal/api/rate_limiter.go count: the admitted requests of a window.
use secure_file_storage_syst.Prelude.{
  ℕ, ◌+◌, ◌≤◌, String, ◌≡◌, inl, inr, refl, ap, sym, subst, beq_refl, ◌<◌, ◌∙◌, Option, some, Bool,
  true, false, ◌&&◌, List, [], ◌∷◌, ◌++◌, keep, length, ltb, leb, if◌then◌else◌, ◌==◌, string_eq,
  arith, Bool-cases,
}
use secure_file_storage_syst.Prelude.Map.{lookup, insert, lookup-insert}
use secure_file_storage_syst.Api.RateLimiter.{
  AuthenticationRateLimiter, values_of, or_nil, is_recent, allow_key,
}

module _ {A : Type 0} (p q : A → Bool) where
  count_mono :
      ((a : A) → p a ≡ true → q a ≡ true) → (xs : List A) → length (keep p xs) ≤ length (keep q xs)
  unfolding keep
  count_mono weaker [] = omega arith
  count_mono weaker (x ∷ xs) = ground (arith, weaker x, count_mono weaker xs)

  keep-keep : ((a : A) → p a ≡ true → q a ≡ true) → (xs : List A) → keep p (keep q xs) ≡ keep p xs
  unfolding keep
  keep-keep weaker [] = refl
  keep-keep weaker (x ∷ xs) = elim (Bool-cases (q x)) [
    | inl kept ↦ rw (kept, keep) (ground (arith, keep-keep weaker xs))
    | inr dropped ↦ rw (dropped, keep) (ground (arith, dropped, weaker x, keep-keep weaker xs))
  ]

count_append :
    {A : Type 0} (p : A → Bool) (xs : List A) (x : A)
    → length (keep p (xs ++ x ∷ [])) ≡ length (keep p xs) + (if p x then 1 else 0)
unfolding keep
count_append p [] x = ground arith
count_append p (y ∷ xs) x = ground (arith, count_append p xs x)

-- The admitted requests, the newest first: the digest of each and its time.
abbrev pub Log : Type 0
Log = List (String × ℕ)

abbrev pub logged : String → ℕ → Bool → Log → Log
logged key now true log = (key, now) ∷ log
logged key now false log = log

-- A request of a digest within the window that ends `window` after a time.
abbrev pub in_window : String → ℕ → ℕ → String × ℕ → Bool
in_window key window from entry = entry.0 == key && ltb from entry.1 && leb entry.1 (from + window)

-- The admitted requests of a digest that are recent at a time.
abbrev pub live : String → ℕ → ℕ → String × ℕ → Bool
live key window now entry = entry.0 == key && is_recent window now entry.1

-- How the stored times relate to the admitted requests at a clock reading.
pub record Counts (t : ℕ) (log : Log) (limiter : AuthenticationRateLimiter) : Type 0 where
  pub stored :
      (key : String) (now : ℕ)
      → t ≤ now
      → length (keep (live key limiter.window now) log)
        ≡ length (keep (is_recent limiter.window now) (values_of key limiter))
  pub bounded :
      (key : String) (from : ℕ)
      → length (keep (in_window key limiter.window from) log) ≤ limiter.limit

or_nil_if :
    (b : Bool) (values : List ℕ) (o : Option (List ℕ))
    → or_nil (if b then some values else o) ≡ (if b then values else or_nil o)
or_nil_if true values o = refl
or_nil_if false values o = refl

values_of-insert :
    (key other : String) (values : List ℕ) (limiter : AuthenticationRateLimiter)
    → values_of other (record limiter { attempts = insert key values limiter.attempts })
      ≡ (if key == other then values else values_of other limiter)
values_of-insert key other values limiter =
    ap or_nil (lookup-insert key other values limiter.attempts)
    ∙ or_nil_if (key == other) values (lookup other limiter.attempts)

module _ (key : String) (t now : ℕ) (log : Log) (limiter : AuthenticationRateLimiter)
    (onwards : t ≤ now) (counts : Counts t log limiter) where
  kept_later :
      (later : ℕ)
      → now ≤ later
      → keep
          (is_recent limiter.window later)
          (keep (is_recent limiter.window now) (values_of key limiter))
        ≡ keep (is_recent limiter.window later) (values_of key limiter)
  kept_later later le =
      keep-keep (is_recent limiter.window later) (is_recent limiter.window now)
        (λ v recent. ground (arith, le, recent)) (values_of key limiter)

  insert_stored :
      (values : List ℕ) (after : Log)
      → ((later : ℕ)
          → now ≤ later
          → length (keep (live key limiter.window later) after)
            ≡ length (keep (is_recent limiter.window later) values))
      → ((other : String)
          → (key == other) ≡ false
          → (later : ℕ)
          → length (keep (live other limiter.window later) after)
            ≡ length (keep (live other limiter.window later) log))
      → (other : String) (later : ℕ) → now ≤ later
      → length (keep (live other limiter.window later) after)
        ≡ length (
            keep
              (is_recent limiter.window later)
              (values_of other (record limiter { attempts = insert key values limiter.attempts })))
  insert_stored values after own others other later le = elim (Bool-cases (key == other)) [
    | inl same ↦
        let is_values : values_of key
              (record limiter { attempts = insert key values limiter.attempts })
            ≡ values =
          values_of-insert key key values limiter
          ∙ ap (λ b. if b then values else values_of key limiter) (beq_refl key) in
        subst
          (λ k.
            length (keep (live k limiter.window later) after)
            ≡ length (
                keep (is_recent limiter.window later)
                  (values_of k (record limiter { attempts = insert key values limiter.attempts }))))
          ((string_eq.beq_iff key other).0 same)
          (subst
            (λ vs.
              length (keep (live key limiter.window later) after)
              ≡ length (keep (is_recent limiter.window later) vs))
            (sym is_values) (own later le))
    | inr differ ↦
        let is_old : values_of other
              (record limiter { attempts = insert key values limiter.attempts })
            ≡ values_of other limiter =
          values_of-insert key other values limiter
          ∙ ap (λ b. if b then values else values_of other limiter) differ in
        subst
          (λ vs.
            length (keep (live other limiter.window later) after)
            ≡ length (keep (is_recent limiter.window later) vs))
          (sym is_old)
          (omega (
            arith,
            others other differ later,
            counts.stored other later (omega (arith, onwards, le)),
          ))
  ]

  refused : Counts now log (record limiter {
    attempts =
        insert key (keep (is_recent limiter.window now) (values_of key limiter)) limiter.attempts;
  })
  refused = record {
    stored =
        insert_stored (keep (is_recent limiter.window now) (values_of key limiter)) log
          (λ later le. omega (
            arith,
            ap length (kept_later later le),
            counts.stored key later (omega (arith, onwards, le)),
          ))
          (λ other differ later. refl);
    bounded = counts.bounded;
  }

  recent_of_window :
      (from : ℕ) (entry : String × ℕ)
      → now ≤ from + limiter.window
      → in_window key limiter.window from entry ≡ true
      → live key limiter.window now entry ≡ true
  recent_of_window from entry inside h = ground (arith, inside, h)

  admit_own :
      (later : ℕ)
      → now ≤ later
      → length (keep (live key limiter.window later) ((key, now) ∷ log))
        ≡ length (
            keep
              (is_recent limiter.window later)
              (keep (is_recent limiter.window now) (values_of key limiter) ++ now ∷ []))
  unfolding keep
  admit_own later le =
      let old = counts.stored key later (omega (arith, onwards, le)) in
      let same = ap length (kept_later later le) in
      let more =
        count_append (is_recent limiter.window later)
          (keep (is_recent limiter.window now) (values_of key limiter)) now in
      elim (Bool-cases (is_recent limiter.window later now)) [
        | inl recent ↦ ground (arith, old, same, more, recent, beq_refl key)
        | inr stale ↦ ground (arith, old, same, more, stale, beq_refl key)
      ]

  admit_other :
      (other : String)
      → (key == other) ≡ false
      → (later : ℕ)
      → length (keep (live other limiter.window later) ((key, now) ∷ log))
        ≡ length (keep (live other limiter.window later) log)
  unfolding keep
  admit_other other differ later = ground (arith, differ)

  admit_bounded :
      leb limiter.limit (length (keep (is_recent limiter.window now) (values_of key limiter)))
        ≡ false
      → (other : String) (from : ℕ)
      → length (keep (in_window other limiter.window from) ((key, now) ∷ log)) ≤ limiter.limit
  unfolding keep
  admit_bounded room other from =
      elim (Bool-cases (in_window other limiter.window from (key, now))) [
        | inl inside ↦
            let own : key ≡ other = (string_eq.beq_iff key other).0 (ground (arith, inside)) in
            let le : now ≤ from + limiter.window = ground (arith, inside) in
            let fewer =
              count_mono (in_window key limiter.window from) (live key limiter.window now)
                (λ entry h. recent_of_window from entry le h) log in
            let old = counts.stored key now onwards in
            let before : length (keep (in_window other limiter.window from) log) < limiter.limit =
              subst (λ k. length (keep (in_window k limiter.window from) log) < limiter.limit) own
                (ground (arith, fewer, old, room)) in
            ground (arith, inside, before)
        | inr outside ↦ ground (arith, outside, counts.bounded other from)
      ]

  admitted :
      leb limiter.limit (length (keep (is_recent limiter.window now) (values_of key limiter)))
        ≡ false
      → Counts now ((key, now) ∷ log) (record limiter {
        attempts =
            insert key
              (keep (is_recent limiter.window now) (values_of key limiter) ++ now ∷ [])
              limiter.attempts;
      })
  admitted room = record {
    stored =
        insert_stored (keep (is_recent limiter.window now) (values_of key limiter) ++ now ∷ [])
          ((key, now) ∷ log) admit_own admit_other;
    bounded = admit_bounded room;
  }

pub request-Counts :
    (key : String) (t now : ℕ) (log : Log) (limiter : AuthenticationRateLimiter)
    → t ≤ now
    → Counts t log limiter
    → Counts now (logged key now (allow_key key now limiter).0 log) (allow_key key now limiter).1
unfolding allow_key
request-Counts key t now log limiter onwards counts =
    elim (Bool-cases
      (leb limiter.limit (length (keep (is_recent limiter.window now) (values_of key limiter))))) [
        | inl full ↦ rw full (refused key t now log limiter onwards counts)
        | inr room ↦ rw room (admitted key t now log limiter onwards counts room)
      ]
