-- ===== src/Api/RateLimiter/Examples.antt =====
-- The theorems on internal/api/rate_limiter.go at a limit of one request in ten nanoseconds.
use secure_file_storage_syst.Prelude.{◌≤◌, ◌<◌, String, ◌≡◌, ◌↔◌, true, [], keep, length, arith}
use secure_file_storage_syst.Api.RateLimiter.{
  AuthenticationRateLimiter, new_authentication_rate_limiter, key_of, allow,
}
use secure_file_storage_syst.Api.RateLimiter.Window.{Log, logged, live, in_window}
use secure_file_storage_syst.Api.RateLimiter.Limit.{start, request, rate_limited, allow_iff}

abbrev digest : String → String
digest text = text

abbrev fresh : AuthenticationRateLimiter
fresh = new_authentication_rate_limiter 1 10

abbrev key : String
key = key_of digest "login" "127.0.0.1"

-- One request at 5, and another at 7.
abbrev first : AuthenticationRateLimiter
first = (allow digest "login" "127.0.0.1" 5 fresh).1

abbrev one : Log
one = logged key 5 (allow digest "login" "127.0.0.1" 5 fresh).0 []

abbrev two : Log
two = logged key 7 (allow digest "login" "127.0.0.1" 7 first).0 one

rate_limited_example : length (keep (in_window key 10 0) two) ≤ 1
rate_limited_example =
    rate_limited digest 1 10
      (request "login" "127.0.0.1" 7 (request "login" "127.0.0.1" 5 start (omega arith))
        (omega arith))
      "login" "127.0.0.1" 0

allow_iff_example :
    ((allow digest "login" "127.0.0.1" 7 first).0 ≡ true) ↔ (length (keep (live key 10 7) one) < 1)
allow_iff_example =
    allow_iff digest 1 10 (request "login" "127.0.0.1" 5 start (omega arith)) "login" "127.0.0.1" 7
      (omega arith)
