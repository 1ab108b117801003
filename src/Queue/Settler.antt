-- ===== src/Queue/Settler.antt =====
-- `Complete` and `Fail` (queue.go).
use web3airdrop_os.Base.{
  ℕ, suc, Option, none, some, List, [], ◌∷◌, ltb, if◌then◌else◌, Call, ◌>>=◌, ◌>>◌, return, throw,
}
use web3airdrop_os.Base.Text.{Text}
use web3airdrop_os.Redis.Keyspace.{Cmd}
use web3airdrop_os.Redis.{Redis}
use web3airdrop_os.Queue.Jobs.{Job, Status, Codec, is_empty}
use web3airdrop_os.Queue.Backoff.{backoff, after}
use web3airdrop_os.Queue.Records.{
  Error, marshal_failed, unix, job_ttl, processing_key, completed_key, failed_key, scheduled_key,
  job_key, dedupe_key, lock_key, sent, unchecked, fetch,
}

module _ (r : Redis) (codec : Codec) (prefix : Text) where
  open r use {Store, get, exists, set_nx, write, pipeline, zrange_by_score, zrev_range_first}

  abbrev pub release_dedupe : Job → Call Store Error (Unit {0})
  release_dedupe j =
      if is_empty j.dedupe_key
      then return tt
      else unchecked r codec prefix (write (Cmd.del (dedupe_key prefix j.dedupe_key)))

  -- The commands of the closing pipelines of `Complete` and `Fail`.
  abbrev pub settling : Text → Cmd → Job → List Cmd
  settling id place j =
      Cmd.srem (processing_key prefix) id
      ∷ place
      ∷ Cmd.del (lock_key prefix id)
      ∷ Cmd.set (job_key prefix id) (codec.encode j) job_ttl
      ∷ []

  abbrev pub completed_job : ℕ → Option Text → Job → Job
  completed_job now none j = record j { status = Status.completed; completed_at = some now }
  completed_job now (some result) j = record j {
    status = Status.completed;
    completed_at = some now;
    result = result;
  }

  -- The JSON of a result: nil stays away, and `json.Marshal` may fail.
  abbrev pub marshalled : Option (Option Text) → Call Store Error (Option Text)
  marshalled none = return none
  marshalled (some none) = throw marshal_failed
  marshalled (some (some t)) = return (some t)

  unfoldable pub complete : Text → Option (Option Text) → ℕ → Call Store Error (Unit {0})
  complete id result now = do
    j ← fetch r codec prefix id
    json ← marshalled result
    release_dedupe j
    sent r codec prefix (
        pipeline
          (settling id (Cmd.zadd (completed_key prefix) (unix now) id) (completed_job now json j)))

  abbrev pub retried_job : ℕ → Text → Job → Job
  retried_job now message j = record j {
    error = message;
    retry_count = suc j.retry_count;
    status = Status.retrying;
    scheduled_at = some (after now (backoff (suc j.retry_count)));
    locked_by = [];
    locked_until = none;
  }

  abbrev pub failed_job : ℕ → Text → Job → Job
  failed_job now message j = record j {
    error = message;
    retry_count = suc j.retry_count;
    status = Status.failed;
    completed_at = some now;
  }

  abbrev pub failing : Text → Text → ℕ → Job → List Cmd
  failing id message now j =
      if ltb (suc j.retry_count) j.max_retries
      then settling id
          (Cmd.zadd (scheduled_key prefix) (unix (after now (backoff (suc j.retry_count)))) id)
          (retried_job now message j)
      else settling id (Cmd.zadd (failed_key prefix) (unix now) id) (failed_job now message j)

  unfoldable pub fail : Text → Text → ℕ → Call Store Error (Unit {0})
  fail id message now = do
    j ← fetch r codec prefix id
    sent r codec prefix (pipeline (failing id message now j))
