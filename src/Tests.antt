-- ===== src/Tests.antt =====
-- The theorems at concrete inputs, and runs of the model.
mod Breakers
mod Caches
mod CookieHeaders
mod Dedups
mod Jars
mod Limiters
mod RateLimits
mod Registrations
mod Streams
