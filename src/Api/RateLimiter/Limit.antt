-- ===== src/Api/RateLimiter/Limit.antt =====
-- How many requests internal/api/rate_limiter.go lets through.
use secure_file_storage_syst.Prelude.{
  ◌↔◌, ℕ, ◌≤◌, String, ◌≡◌, inl, inr, refl, sym, subst, ◌<◌, true, [], keep, length, leb, string_eq,
  arith, Bool-cases,
}
use secure_file_storage_syst.Prelude.Map.{lookup}
use secure_file_storage_syst.Api.RateLimiter.{
  AuthenticationRateLimiter, new_authentication_rate_limiter, key_of, values_of, is_recent,
  allow_key, allow,
}
use secure_file_storage_syst.Api.RateLimiter.Window.{
  Log, logged, live, in_window, Counts, request-Counts,
}

-- The states that requests lead to, at clock readings that do not go back.
pub data Reach (sha256 : String → String) (limit window : ℕ)
    : ℕ → Log → AuthenticationRateLimiter → Type 0 where
  start : Reach sha256 limit window 0 [] (new_authentication_rate_limiter limit window)
  request :
      {t : ℕ} {log : Log} {limiter : AuthenticationRateLimiter} (scope network_address : String)
      (now : ℕ)
      → Reach sha256 limit window t log limiter
      → t ≤ now
      → Reach sha256 limit window now
          (logged
            (key_of sha256 scope network_address)
            now
            (allow sha256 scope network_address now limiter).0
            log)
          (allow sha256 scope network_address now limiter).1

room_iff :
    (key : String) (now : ℕ) (limiter : AuthenticationRateLimiter)
    → ((allow_key key now limiter).0 ≡ true)
      ↔ (length (keep (is_recent limiter.window now) (values_of key limiter)) < limiter.limit)
unfolding allow_key
room_iff key now limiter =
    elim (Bool-cases
      (leb limiter.limit (length (keep (is_recent limiter.window now) (values_of key limiter))))) [
        | inl full ↦
            rw full ((λ h. absurd (ground (arith, h))), (λ h. absurd (ground (arith, full, h))))
        | inr room ↦ rw room ((λ h. ground (arith, room)), (λ h. refl))
      ]

module _ (sha256 : String → String) (limit window : ℕ) where
  kept_settings :
      {t : ℕ} {log : Log} {limiter : AuthenticationRateLimiter}
      → Reach sha256 limit window t log limiter
      → (limiter.limit ≡ limit) × (limiter.window ≡ window)
  unfolding allow_key
  kept_settings start = (refl, refl)
  kept_settings (request {limiter = limiter} scope network_address now path onwards) =
      elim (Bool-cases (
        leb limiter.limit (
          length (
            keep (is_recent limiter.window now)
              (values_of (key_of sha256 scope network_address) limiter))))) [
                | inl full ↦ rw full (kept_settings path)
                | inr room ↦ rw room (kept_settings path)
              ]

  reach-Counts :
      {t : ℕ} {log : Log} {limiter : AuthenticationRateLimiter}
      → Reach sha256 limit window t log limiter
      → Counts t log limiter
  unfolding keep lookup
  reach-Counts start = record { stored = λ key now le. refl; bounded = λ key from. omega arith }
  reach-Counts
        (request {t = t} {log = log} {limiter = limiter} scope network_address now path onwards) =
      request-Counts (key_of sha256 scope network_address) t now log limiter onwards
        (reach-Counts path)

  -- The limit holds for every window: whatever requests come, in the order of the clock, the requests
  -- admitted for a scope and address in the time after `from` and up to `from + window` are at most
  -- `limit`.
  pub rate_limited :
      {t : ℕ} {log : Log} {limiter : AuthenticationRateLimiter}
      → Reach sha256 limit window t log limiter
      → (scope network_address : String) (from : ℕ)
      → length (keep (in_window (key_of sha256 scope network_address) window from) log) ≤ limit
  rate_limited {log = log} {limiter = limiter} path scope network_address from =
      let key = key_of sha256 scope network_address in
      let (same_limit, same_window) = kept_settings path in
      subst (λ w. length (keep (in_window key w from) log) ≤ limit) same_window
        (subst (λ l. length (keep (in_window key limiter.window from) log) ≤ l) same_limit
          ((reach-Counts path).bounded key from))

  -- A request is admitted exactly when fewer than `limit` requests of its scope and address were
  -- admitted in the window that ends now: refused requests do not count.
  pub allow_iff :
      {t : ℕ} {log : Log} {limiter : AuthenticationRateLimiter}
      → Reach sha256 limit window t log limiter
      → (scope network_address : String) (now : ℕ) → t ≤ now
      → ((allow sha256 scope network_address now limiter).0 ≡ true)
        ↔ (length (keep (live (key_of sha256 scope network_address) window now) log) < limit)
  allow_iff {log = log} {limiter = limiter} path scope network_address now onwards =
      let key = key_of sha256 scope network_address in
      let (same_limit, same_window) = kept_settings path in
      let stored = (reach-Counts path).stored key now onwards in
      let room : ((allow_key key now limiter).0 ≡ true)
          ↔ (length (keep (live key limiter.window now) log) < limiter.limit) =
        subst (λ n. ((allow_key key now limiter).0 ≡ true) ↔ (n < limiter.limit)) (sym stored)
          (room_iff key now limiter) in
      subst
        (λ w. ((allow_key key now limiter).0 ≡ true) ↔ (length (keep (live key w now) log) < limit))
        same_window
        (subst
          (λ l.
            ((allow_key key now limiter).0 ≡ true)
            ↔ (length (keep (live key limiter.window now) log) < l))
          same_limit room)
