-- ===== src/Services.antt =====
-- src/services: helpers of the gateway that keep state.
pub mod RateLimiter
pub mod Debounce
