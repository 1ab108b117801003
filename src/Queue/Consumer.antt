-- ===== src/Queue/Consumer.antt =====
-- `Dequeue` (queue.go).
use web3airdrop_os.Base.{
  ℕ, ◌+◌, ◌/◌, not, Option, none, some, List, [], ◌∷◌, if◌then◌else◌, Outcome, ok, err, Call, ◌>>=◌,
  ◌>>◌, return,
}
use web3airdrop_os.Base.Text.{Text}
use web3airdrop_os.Redis.Keyspace.{Cmd, Item}
use web3airdrop_os.Redis.{Redis, Fault}
use web3airdrop_os.Queue.Jobs.{Job, Status, Codec}
use web3airdrop_os.Queue.Backoff.{millisecond}
use web3airdrop_os.Queue.Records.{
  Error, redis_error, unix, pending_key, processing_key, scheduled_key, lock_key, sent, read,
  get_job, fetch, update_job,
}

module _ (r : Redis) (codec : Codec) (prefix : Text) where
  open r use {Store, get, exists, set_nx, write, pipeline, zrange_by_score, zrev_range_first}

  abbrev pub moved : Outcome Error Job → Text → Store → Store
  moved (err e) id s = s
  moved (ok j) id s =
      (pipeline
        (Cmd.zrem (scheduled_key prefix) id ∷ Cmd.zadd (pending_key prefix) j.priority id ∷ []) s).0

  -- The loop that moves the scheduled jobs that are due.
  unfoldable pub promote : List Text → Store → Store
  promote [] s = s
  promote (id ∷ ids) s = promote ids (moved (get_job r codec prefix id s) id s)

  abbrev pub promoted : List Text → Call Store Error (Unit {0})
  promoted ids s = (promote ids s, ok tt)

  abbrev pub lock_and_start : Text → ℕ → ℕ → Text → Job → Job
  lock_and_start worker now lock_duration id j = record j {
    status = Status.processing;
    started_at = some now;
    locked_by = worker;
    locked_until = some (now + lock_duration);
  }

  -- A pipeline that fails gives the lock back.
  abbrev pub or_unlock : Text → Store × Outcome Fault (Unit {0}) → Store × Outcome Error (Unit {0})
  or_unlock id (s, ok _) = (s, ok tt)
  or_unlock id (s, err e) = ((write (Cmd.del (lock_key prefix id)) s).0, err (redis_error e))

  unfoldable pub take_job : Text → ℕ → ℕ → Text → Call Store Error (Option Job)
  take_job worker now lock_duration id = do
    locked ← sent r codec prefix (set_nx (lock_key prefix id) worker (lock_duration / millisecond))
    if not locked then return none else (do
      (λ s. or_unlock id (
          pipeline (Cmd.zrem (pending_key prefix) id ∷ Cmd.sadd (processing_key prefix) id ∷ []) s))
      j ← fetch r codec prefix id
      _ ← update_job r codec prefix (lock_and_start worker now lock_duration id j)
      return (some (lock_and_start worker now lock_duration id j)))

  abbrev pub take_first : Text → ℕ → ℕ → Option Item → Call Store Error (Option Job)
  take_first worker now lock_duration none = return none
  take_first worker now lock_duration (some i) = take_job worker now lock_duration i.member

  -- `now` is the first reading of the clock, `started` the second.
  unfoldable pub dequeue : Text → ℕ → ℕ → ℕ → Call Store Error (Option Job)
  unfolding take_job
  dequeue worker lock_duration now started = do
    due ← read r codec prefix (zrange_by_score (scheduled_key prefix) (unix now))
    promoted due
    first ← read r codec prefix (zrev_range_first (pending_key prefix))
    take_first worker started lock_duration first
