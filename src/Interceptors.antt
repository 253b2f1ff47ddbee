-- ===== src/Interceptors.antt =====
-- Parts of src/interceptors.ts beside its concurrency limiter, which Limiter has.
pub mod Manager
pub mod Order
pub mod Ejection
pub mod Registration
pub mod RateLimit
pub mod Rate
pub mod Throughput
pub mod Waiting
