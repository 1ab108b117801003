-- ===== src/Queue.antt =====
-- backend/internal/queue: the job queue on Redis. Times are nanoseconds of the Unix epoch, a time
-- before it is written 0. `uuid.New().String()` and `time.Now()` are arguments.
pub mod Jobs
pub mod Backoff
pub mod Records
pub mod Producer
pub mod Consumer
pub mod Settler
pub mod Stats
pub mod Distinct
pub mod Retries
pub mod Places
pub mod Moves
pub mod Invariant
pub mod Lifecycle
pub mod Handout
pub mod Wire
pub mod Worker
mod Tests
