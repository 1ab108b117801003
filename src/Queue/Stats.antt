-- ===== src/Queue/Stats.antt =====
-- `Stats` (queue.go).
use web3airdrop_os.Base.{ℕ, Outcome, ok, err}
use web3airdrop_os.Base.Text.{Text}
use web3airdrop_os.Redis.{Redis, Fault}
use web3airdrop_os.Queue.Jobs.{Codec}
use web3airdrop_os.Queue.Records.{
  Error, redis_error, pending_key, processing_key, completed_key, failed_key, scheduled_key,
}

pub record QueueStats : Type 0 where
  pub pending : ℕ
  pub processing : ℕ
  pub completed : ℕ
  pub failed : ℕ
  pub scheduled : ℕ

-- The pipeline of `Stats` reports an error where one of its commands does.
abbrev pub counted_stats :
    Outcome Fault ℕ
    → Outcome Fault ℕ
    → Outcome Fault ℕ
    → Outcome Fault ℕ
    → Outcome Fault ℕ
    → Outcome Error QueueStats
counted_stats (ok p) (ok q) (ok c) (ok f) (ok s) =
    ok (record { pending = p; processing = q; completed = c; failed = f; scheduled = s })
counted_stats _ _ _ _ _ = err (redis_error Fault.io_error)

module _ (r : Redis) (codec : Codec) (prefix : Text) where
  open r use {Store, get, exists, set_nx, write, pipeline, zrange_by_score, zrev_range_first}

  unfoldable pub stats : Store → Outcome Error QueueStats
  stats s =
      counted_stats (r.zcard (pending_key prefix) s) (r.scard (processing_key prefix) s)
        (r.zcard (completed_key prefix) s) (r.zcard (failed_key prefix) s)
        (r.zcard (scheduled_key prefix) s)
