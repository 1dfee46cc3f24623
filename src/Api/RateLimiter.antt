-- ===== src/Api/RateLimiter.antt =====
-- internal/api/rate_limiter.go. Times are nanoseconds since Go's zero time, and SHA-256 is a
-- parameter; a limit below 0 behaves as the limit 0.
pub mod Window
pub mod Limit
pub mod Examples
use Prim.Native.String.{◌++◌ as str_append}
use secure_file_storage_syst.Prelude.{
  ℕ, ◌+◌, String, Bool, true, false, Option, none, some, List, [], ◌∷◌, ◌++◌, keep, length, ltb,
  leb, if◌then◌else◌, Eq, string_eq,
}
use secure_file_storage_syst.Prelude.Map.{Map, lookup, insert}

pub record AuthenticationRateLimiter : Type 0 where
  pub attempts : Map String (List ℕ)
  pub limit : ℕ
  pub window : ℕ

abbrev pub new_authentication_rate_limiter : ℕ → ℕ → AuthenticationRateLimiter
new_authentication_rate_limiter limit window = record {
  attempts = [];
  limit = limit;
  window = window;
}

-- sha256.Sum256([]byte(scope + "\x00" + networkAddress))
abbrev pub key_of : (String → String) → String → String → String
key_of sha256 scope network_address = sha256 (str_append scope (str_append "\0" network_address))

abbrev pub or_nil : Option (List ℕ) → List ℕ
or_nil none = []
or_nil (some values) = values

-- limiter.attempts[key]: the nil slice where there is no entry.
abbrev pub values_of : String → AuthenticationRateLimiter → List ℕ
values_of key limiter = or_nil (lookup key limiter.attempts)

-- value.After(now.Add(-window))
abbrev pub is_recent : ℕ → ℕ → ℕ → Bool
is_recent window now value = ltb now (value + window)

unfoldable pub allow_key : String → ℕ → AuthenticationRateLimiter → Bool × AuthenticationRateLimiter
allow_key key now limiter =
    let kept = keep (is_recent limiter.window now) (values_of key limiter) in
    if leb limiter.limit (length kept)
    then (false, record limiter { attempts = insert key kept limiter.attempts })
    else (true, record limiter { attempts = insert key (kept ++ now ∷ []) limiter.attempts })

-- `Allow`, with the reading of the clock.
abbrev pub allow :
    (String → String)
    → String
    → String
    → ℕ
    → AuthenticationRateLimiter
    → Bool × AuthenticationRateLimiter
allow sha256 scope network_address now limiter =
    allow_key (key_of sha256 scope network_address) now limiter
