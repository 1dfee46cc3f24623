-- ===== src/Api.antt =====
-- internal/api: the rate limiter of the authentication routes.
pub mod RateLimiter
