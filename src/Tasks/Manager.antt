-- ===== src/Tasks/Manager.antt =====
-- `Execute` on its two stores, the database and Redis. The executors and the JSON of a payload are
-- parameters.
use mathlib.Core.Option
use web3airdrop_os.Base.{
  ℕ, ◌+◌, Bool, true, false, Option, none, some, [], ◌∷◌, ◌++◌, Outcome, ok, err, ltb,
  if◌then◌else◌,
}
use web3airdrop_os.Base.Text.{Text, codes, text_eq}
use web3airdrop_os.Redis.{Redis}
use web3airdrop_os.Locks.{ResourceType, DistributedLock, release}
use web3airdrop_os.Locks as Locks
use web3airdrop_os.Locks.Retry.{Turn, acquire_with_retry}
use web3airdrop_os.Queue.Jobs.{Codec, with_delay}
use web3airdrop_os.Queue.Producer.{enqueue}
use web3airdrop_os.Tasks.Records.{
  manual_required, TaskProof, TaskExecution, ExecutionRequest, Database, DbError,
}
use web3airdrop_os.Tasks.Status.{with_proof, completed}
use web3airdrop_os.Tasks.Execute.{
  Error, lock_failed, create_failed, Problem, task_not_found, no_executor, executor_error,
  ExecutionResult, Report, Draws, generate_idempotency_key, answered, lock_resource, new_execution,
  again, reusable, retry_backoff, with_effect, failing,
}

module _ (d : Database) (r : Redis) where
  pub record World : Type 0 where
    pub db : d.Store
    pub redis : r.Store

  -- An executor may change everything that it can reach.
  abbrev pub TaskExecutor : Type 0
  TaskExecutor = ExecutionRequest → World → World × Outcome Text Report

  unfoldable pub register_executor :
      Text → TaskExecutor → (Text → Option TaskExecutor) → Text → Option TaskExecutor
  register_executor task_type executor executors other =
      if text_eq task_type other then some executor else executors other

  -- The world that an execution runs in, besides the stores.
  pub record Setting : Type 0 where
    pub executors : Text → Option TaskExecutor
    pub marshal : TaskProof → Option Text
    pub retry_payload : Text → Text → Option Text
    pub sha256_hex : Text → Text
    pub codec : Codec
    pub prefix : Text

module _ (d : Database) (r : Redis) (setting : Setting d r) (req : ExecutionRequest)
    (draws : Draws) where
  abbrev W : Type 0
  W = World d r

  -- The last `Save` of a run; its error is dropped.
  unfoldable pub settle :
      TaskExecution → Option TaskProof → Option Problem → W → W × ExecutionResult
  settle x proof problem w =
      let (s, reply) = d.save x w.db in
      (record w { db = s }, record { execution = reply.0; proof = proof; error = problem })

  -- The retry job; what `Enqueue` returns is dropped.
  unfoldable pub enqueue_retry : TaskExecution → W → W
  enqueue_retry x w = record w {
    redis =
        (enqueue r setting.codec setting.prefix draws.job_id (codes "task_retry")
          (setting.retry_payload x.id req.task_id)
          (with_delay draws.enqueue_now (retry_backoff x.retry_count) ∷ []) draws.enqueue_now
          w.redis).0;
  }

  unfoldable pub after_failure : Text → TaskExecution → W → W × ExecutionResult
  unfolding settle
  after_failure message x w =
      if ltb x.retry_count x.max_retries
      then settle
          (record (failing message x) {
            next_retry_at = some (draws.retry_now + retry_backoff x.retry_count);
          })
          none (some (executor_error message)) (enqueue_retry x w)
      else settle (failing message x) none (some (executor_error message)) w

  unfoldable pub after_executor : TaskExecution → W × Outcome Text Report → W × ExecutionResult
  unfolding after_failure
  after_executor x (w, err message) = after_failure message x w
  after_executor x (w, ok report) =
      settle
        (with_effect report.execution
          (with_proof setting.marshal report.proof (completed draws.completed_at x)))
        report.proof none w

  abbrev pub with_executor :
      Text → Option (TaskExecutor d r) → TaskExecution → W → W × ExecutionResult
  with_executor type none x w =
      settle (failing (codes "No executor for task type: " ++ type) x) none
        (some (no_executor type)) w
  with_executor type (some executor) x w = after_executor x (executor req w)

  abbrev pub with_task : Outcome DbError (Text × Bool) → TaskExecution → W → W × ExecutionResult
  with_task (err e) x w =
      settle (failing (codes "Task not found") x) none (some (task_not_found e)) w
  with_task (ok (type, true)) x w = settle (record x { status = manual_required }) none none w
  with_task (ok (type, false)) x w = with_executor type (setting.executors type) x w

  unfoldable pub run_task : TaskExecution → W → W × ExecutionResult
  run_task x w = with_task (d.find_task req.task_id w.db) x w

  abbrev pub key : Text
  key =
      generate_idempotency_key setting.sha256_hex req.task_id req.account_id req.wallet_id draws.day

  -- The record is written, or made anew, before the task runs. An error of `Save` is dropped, one of
  -- `Create` ends the call.
  abbrev pub made :
      W → d.Store × (TaskExecution × Option DbError) → W × Outcome Error ExecutionResult
  made w (s, (x, some e)) = (record w { db = s }, err (create_failed e))
  made w (s, (x, none)) = let (w', result) = run_task x (record w { db = s }) in (w', ok result)

  abbrev pub begin_with : Option TaskExecution → W → W × Outcome Error ExecutionResult
  begin_with (some old) w =
      let (s, reply) = d.save (again old (new_execution req key draws)) w.db in
      let (w', result) = run_task reply.0 (record w { db = s }) in (w', ok result)
  begin_with none w = made w (d.create (new_execution req key draws) w.db)

  unfoldable pub begin : Outcome DbError TaskExecution → W → W × Outcome Error ExecutionResult
  begin existing w = begin_with (reusable existing) w

  abbrev pub unlock :
      DistributedLock → W × Outcome Error ExecutionResult → W × Outcome Error ExecutionResult
  unlock l (w, result) = (record w { redis = (release r l w.redis).0 }, result)

  -- `meanwhile` is what others do to the database while the lock is waited for.
  abbrev pub locked :
      (d.Store → d.Store)
      → Outcome DbError TaskExecution
      → W
      → r.Store × Outcome Locks.Error DistributedLock
      → W × Outcome Error ExecutionResult
  locked meanwhile existing w (s, err e) =
      (record { db = meanwhile w.db; redis = s }, err (lock_failed e))
  locked meanwhile existing w (s, ok l) =
      unlock l (begin existing (record { db = meanwhile w.db; redis = s }))

  -- 5 minutes and 30 seconds are in milliseconds.
  abbrev pub execute_unless :
      (ℕ → Turn r.Store)
      → ℕ
      → (d.Store → d.Store)
      → Outcome DbError TaskExecution
      → W
      → Option ExecutionResult
      → Option (W × Outcome Error ExecutionResult)
  execute_unless turns fuel meanwhile existing w (some result) = some (w, ok result)
  execute_unless turns fuel meanwhile existing w none =
      let (type, id) = lock_resource req in
      Option.map (locked meanwhile existing w)
        (acquire_with_retry r type id 300000 turns draws.lock_now 30000 fuel w.redis)

  -- None where the rounds of `AcquireWithRetry` run out.
  unfoldable pub execute :
      (ℕ → Turn r.Store) → ℕ → (d.Store → d.Store) → W → Option (W × Outcome Error ExecutionResult)
  unfolding begin
  execute turns fuel meanwhile w =
      let existing = d.find_key key w.db in
      let (type, id) = lock_resource req in
      elim (answered req.force existing) [
        | some result ↦ some (w, ok result)
        | none ↦
            Option.map (locked meanwhile existing w)
              (acquire_with_retry r type id 300000 turns draws.lock_now 30000 fuel w.redis)
      ]
