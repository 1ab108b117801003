-- ===== src/Tasks/Settled.antt =====
-- How `Execute` ends: the record that it returns, and what the table holds then.
use web3airdrop_os.Base.{
  ◌+◌, ◌++◌, ◌≡◌, ◌⊎◌, refl, sym, ap, ◌∙◌, Bool, true, false, Option, none, some, is_some, Outcome,
  ok, err, Bool-cases, inl, inr, ltb,
}
use web3airdrop_os.Base.Text.{Text, codes}
use web3airdrop_os.Redis.{Redis}
use web3airdrop_os.Tasks.Records.{
  Status, pending, running, manual_required, done, failed, skipped, permits, TaskProof,
  TaskExecution, ExecutionRequest, Database, DbError, Lawful,
}
use web3airdrop_os.Tasks.Status.{is_failed, with_proof, completed}
use web3airdrop_os.Tasks.Execute.{
  Problem, ExecutionResult, Report, Effect, Draws, with_effect, failing, executor_error,
  task_not_found, no_executor, retry_backoff,
}
use web3airdrop_os.Tasks.Manager.{
  World, Setting, TaskExecutor, settle, enqueue_retry, after_failure, after_executor, with_executor,
  with_task, run_task,
}

abbrev pub is_settled : Status → Bool
is_settled manual_required = true
is_settled done = true
is_settled failed = true
is_settled _ = false

abbrev pub is_ended : Status → Bool
is_ended done = true
is_ended failed = true
is_ended _ = false

permits_done : (s : Status) → permits s done ≡ true
permits_done pending = refl
permits_done running = refl
permits_done manual_required = refl
permits_done done = refl
permits_done failed = refl
permits_done skipped = refl

permits_failed : (s : Status) → permits s failed ≡ true
permits_failed pending = refl
permits_failed running = refl
permits_failed manual_required = refl
permits_failed done = refl
permits_failed failed = refl
permits_failed skipped = refl

-- A row that may not become manual_required has ended.
permits-manual : (s : Status) → permits s manual_required ≡ false → is_ended s ≡ true
permits-manual pending h = sym h
permits-manual running h = sym h
permits-manual manual_required h = sym h
permits-manual done h = refl
permits-manual failed h = refl
permits-manual skipped h = sym h

-- The table has a row of this identifier and this idempotency key.
abbrev pub HasRow : (d : Database) → Text → Text → d.Store → Type 0
HasRow d k id s = (e : TaskExecution) × (d.row s id ≡ some e) × (e.idempotency_key ≡ k)

module _ (d : Database) (law : Lawful d) (r : Redis) where
  -- A result that the table agrees with.
  abbrev pub IsStored : Text → Text → World d r × ExecutionResult → Type 0
  IsStored k id (w, result) =
      (is_settled result.execution.status ≡ true)
      × (is_some result.error ≡ is_failed result.execution.status)
      × (d.row w.db id ≡ some result.execution)
      × (result.execution.idempotency_key ≡ k)

  -- A manual task whose row had ended: the trigger refuses the last `Save`, and the row stays.
  abbrev pub IsLost : Text → Text → World d r × ExecutionResult → Type 0
  IsLost k id (w, result) =
      (result.execution.status ≡ manual_required)
      × (result.error ≡ none)
      × ((e : TaskExecution) × (d.row w.db id ≡ some e)
          × (is_ended e.status ≡ true)
          × (e.idempotency_key ≡ k))

  abbrev pub IsEnded : Text → Text → World d r × ExecutionResult → Type 0
  IsEnded k id end = IsStored k id end ⊎ IsLost k id end

  module _ (setting : Setting d r) (req : ExecutionRequest) (draws : Draws) where
    settle-IsStored :
        (k id : Text) (x : TaskExecution) (proof : Option TaskProof) (problem : Option Problem)
        (w : World d r) (old : TaskExecution)
        → (d.row w.db id ≡ some old) × (old.idempotency_key ≡ k)
        → permits old.status x.status ≡ true
        → (x.id ≡ id) × (x.idempotency_key ≡ k)
        → is_settled x.status ≡ true
        → is_some problem ≡ is_failed x.status
        → IsStored k id (settle d r setting req draws x proof problem w)
    unfolding settle
    settle-IsStored k id x proof problem w old (here, same) may (is_id, is_key) settled failing =
        let (t, stamped) = law.save_stamped x w.db in
        let known =
          law.save_known x old w.db (ap (d.row w.db) is_id ∙ here) (same ∙ sym is_key) may in
        (
          ap (λ e. is_settled e.status) stamped ∙ settled,
          failing ∙ sym (ap (λ e. is_failed e.status) stamped),
          sym (ap (d.row (d.save x w.db).0) is_id) ∙ known.1,
          ap (λ e. e.idempotency_key) stamped ∙ is_key,
        )

    settle_failing-IsStored :
        (k id : Text) (x : TaskExecution) (proof : Option TaskProof) (problem : Problem)
        (w : World d r)
        → HasRow d k id w.db
        → (x.id ≡ id) × (x.idempotency_key ≡ k)
        → x.status ≡ failed
        → IsStored k id (settle d r setting req draws x proof (some problem) w)
    settle_failing-IsStored k id x proof problem w (old, here, same) is_x fails =
        settle-IsStored k id x proof (some problem) w old (here, same)
          (ap (permits old.status) fails ∙ permits_failed old.status) is_x (ap is_settled fails)
          (sym (ap is_failed fails))

    settle_manual-IsEnded :
        (k : Text) (x : TaskExecution) (w : World d r)
        → x.idempotency_key ≡ k
        → HasRow d k x.id w.db
        → IsEnded k x.id
            (settle d r setting req draws (record x { status = manual_required }) none none w)
    unfolding settle
    settle_manual-IsEnded k x w is_key (old, here, same) =
        let y : TaskExecution = record x { status = manual_required } in
        elim (Bool-cases (permits old.status manual_required)) [
          | inl may ↦
              inl
                (settle-IsStored k x.id y none none w old (here, same) may (refl, is_key) refl refl)
          | inr refused ↦
              let (t, stamped) = law.save_stamped y w.db in
              let (problem, kept) = law.save_refused y old w.db here refused in
              inr (
                ap (λ e. e.status) stamped,
                refl,
                (old, ap (λ s. d.row s x.id) kept ∙ here, permits-manual old.status refused, same),
              )
        ]

    after_failure-IsStored :
        (message k : Text) (x : TaskExecution) (w : World d r)
        → x.idempotency_key ≡ k
        → HasRow d k x.id w.db
        → IsStored k x.id (after_failure d r setting req draws message x w)
    unfolding after_failure enqueue_retry
    after_failure-IsStored message k x w is_key has =
        let problem = executor_error message in
        elim (Bool-cases (ltb x.retry_count x.max_retries)) [
          | inl more ↦ rw more (
              settle_failing-IsStored k x.id
                (record (failing message x) {
                  next_retry_at = some (draws.retry_now + retry_backoff x.retry_count);
                })
                none problem (enqueue_retry d r setting req draws x w) has (refl, is_key) refl)
          | inr last ↦ rw last (
              settle_failing-IsStored k x.id (failing message x) none problem w has (refl, is_key)
                refl)
        ]

    pub finished-fields :
        (proof : Option TaskProof) (effect : Option Effect) (x : TaskExecution)
        → let y =
            with_effect effect
              (with_proof setting.marshal proof (completed draws.completed_at x)) in
          (y.id ≡ x.id) × (y.idempotency_key ≡ x.idempotency_key) × (y.status ≡ done)
    finished-fields none none x = (refl, refl, refl)
    finished-fields none (some e) x = (refl, refl, refl)
    finished-fields (some p) none x = (refl, refl, refl)
    finished-fields (some p) (some e) x = (refl, refl, refl)

    pub after_executor-IsStored :
        (k : Text) (x : TaskExecution) (w : World d r) (reply : Outcome Text Report)
        → x.idempotency_key ≡ k
        → HasRow d k x.id w.db
        → IsStored k x.id (after_executor d r setting req draws x (w, reply))
    unfolding after_executor
    after_executor-IsStored k x w (err message) is_key has =
        after_failure-IsStored message k x w is_key has
    after_executor-IsStored k x w (ok report) is_key (old, here, same) =
        let (same_id, same_key, is_done) = finished-fields report.proof report.execution x in
        settle-IsStored k x.id _ report.proof none w old (here, same)
          (ap (permits old.status) is_done ∙ permits_done old.status) (same_id, same_key ∙ is_key)
          (ap is_settled is_done) (sym (ap is_failed is_done))

    -- No executor takes away the row of an execution or its key.
    abbrev pub KeepRows : Type 0
    KeepRows =
        (type k id : Text) (executor : TaskExecutor d r) (w : World d r)
        → setting.executors type ≡ some executor
        → HasRow d k id w.db
        → HasRow d k id (executor req w).0.db

    with_executor-IsStored :
        (type k : Text) (executor : Option (TaskExecutor d r)) (x : TaskExecution) (w : World d r)
        → KeepRows
        → setting.executors type ≡ executor
        → x.idempotency_key ≡ k
        → HasRow d k x.id w.db
        → IsStored k x.id (with_executor d r setting req draws type executor x w)
    with_executor-IsStored type k none x w keeps known is_key has =
        settle_failing-IsStored k x.id (failing (codes "No executor for task type: " ++ type) x)
          none (no_executor type) w has (refl, is_key) refl
    with_executor-IsStored type k (some executor) x w keeps known is_key has =
        after_executor-IsStored k x (executor req w).0 (executor req w).1 is_key
          (keeps type k x.id executor w known has)

    with_task-IsEnded :
        (k : Text) (task : Outcome DbError (Text × Bool)) (x : TaskExecution) (w : World d r)
        → KeepRows
        → x.idempotency_key ≡ k
        → HasRow d k x.id w.db
        → IsEnded k x.id (with_task d r setting req draws task x w)
    with_task-IsEnded k (err e) x w keeps is_key has = inl (
        settle_failing-IsStored k x.id (failing (codes "Task not found") x) none (task_not_found e)
          w has (refl, is_key) refl)
    with_task-IsEnded k (ok (type, true)) x w keeps is_key has =
        settle_manual-IsEnded k x w is_key has
    with_task-IsEnded k (ok (type, false)) x w keeps is_key has =
        inl (with_executor-IsStored type k (setting.executors type) x w keeps refl is_key has)

    pub run_task-IsEnded :
        (k : Text) (x : TaskExecution) (w : World d r)
        → KeepRows
        → x.idempotency_key ≡ k
        → HasRow d k x.id w.db
        → IsEnded k x.id (run_task d r setting req draws x w)
    unfolding run_task
    run_task-IsEnded k x w keeps is_key has =
        with_task-IsEnded k (d.find_task req.task_id w.db) x w keeps is_key has
