-- ===== src/Queue/Records.antt =====
-- The keys of a queue, the stored job records, and the calls on them (queue.go).
use web3airdrop_os.Base.{ℕ, ◌/◌, Option, none, some, ◌++◌, Outcome, ok, err, map_err, Call}
use web3airdrop_os.Base.Text.{Text, codes}
use web3airdrop_os.Redis.Keyspace.{Cmd}
use web3airdrop_os.Redis.{Redis, Fault}
use web3airdrop_os.Queue.Jobs.{Job, Codec}
use web3airdrop_os.Queue.Backoff.{second}

pub data Error : Type 0 where
  job_not_found duplicate_job marshal_failed unmarshal_failed : Error
  redis_error : Fault → Error

abbrev pub queue_prefix : Text → Text
queue_prefix name = codes "web3airdropos:queue:" ++ (name ++ codes ":")

abbrev pub unix : ℕ → ℕ
unix t = t / second

-- Keys live for 7 days, dedupe keys for 24 hours; in milliseconds.
abbrev pub job_ttl : ℕ
job_ttl = 604800000

abbrev pub dedupe_ttl : ℕ
dedupe_ttl = 86400000

module _ (prefix : Text) where
  unfoldable pub pending_key : Text
  pending_key = prefix ++ codes "pending"

  unfoldable pub processing_key : Text
  processing_key = prefix ++ codes "processing"

  unfoldable pub completed_key : Text
  completed_key = prefix ++ codes "completed"

  unfoldable pub failed_key : Text
  failed_key = prefix ++ codes "failed"

  unfoldable pub scheduled_key : Text
  scheduled_key = prefix ++ codes "scheduled"

  unfoldable pub job_key : Text → Text
  job_key id = prefix ++ (codes "job:" ++ id)

  unfoldable pub dedupe_key : Text → Text
  dedupe_key k = prefix ++ (codes "dedupe:" ++ k)

  unfoldable pub lock_key : Text → Text
  lock_key id = prefix ++ (codes "lock:" ++ id)

abbrev pub decoded : Option Job → Outcome Error Job
decoded none = err unmarshal_failed
decoded (some j) = ok j

abbrev pub found : Codec → Outcome Fault (Option Text) → Outcome Error Job
found codec (err e) = err (redis_error e)
found codec (ok none) = err job_not_found
found codec (ok (some t)) = decoded (codec.decode t)

module _ (r : Redis) (codec : Codec) (prefix : Text) where
  open r use {Store, get, exists, set_nx, write, pipeline, zrange_by_score, zrev_range_first}

  -- A command whose error is passed on; one whose error is dropped; a read.
  abbrev pub sent : {A : Type 0} → (Store → Store × Outcome Fault A) → Call Store Error A
  sent f s = ((f s).0, map_err redis_error (f s).1)

  abbrev pub unchecked :
      {A : Type 0} → (Store → Store × Outcome Fault A) → Call Store Error (Unit {0})
  unchecked f s = ((f s).0, ok tt)

  abbrev pub read : {A : Type 0} → (Store → Outcome Fault A) → Call Store Error A
  read f s = (s, map_err redis_error (f s))

  unfoldable pub get_job : Text → Store → Outcome Error Job
  get_job id s = found codec (get (job_key prefix id) s)

  abbrev pub fetch : Text → Call Store Error Job
  fetch id s = (s, get_job id s)

  abbrev pub store_job : Job → Cmd
  store_job j = Cmd.set (job_key prefix j.id) (codec.encode j) job_ttl

  unfoldable pub update_job : Job → Call Store Error ℕ
  update_job j = sent (write (store_job j))
