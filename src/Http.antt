-- ===== src/Http.antt =====
-- src/http/: the error taxonomy, the retry policy and the three rate-limiting guards.
pub mod Errors
pub mod RetryAfter
pub mod Retry
pub mod Client
pub mod Spacing
pub mod Budget
pub mod Limiter
mod Examples
