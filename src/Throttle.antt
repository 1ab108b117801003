-- ===== src/Throttle.antt =====
-- backend/internal/services/ratelimit.go: the locks, the quotas and the counters of running
-- operations that the services keep in Redis.
pub mod Locking
pub mod Quota
pub mod Concurrency
pub mod Running
pub mod Overshoot
pub mod Exclusion
mod Tests
