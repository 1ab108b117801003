-- ===== src/Tasks/Lost.antt =====
-- A manual task whose execution has failed, executed again under the status trigger of the table.
use mathlib.Core.Option
use web3airdrop_os.Base.{
  ℕ, ◌≡◌, refl, sym, ap, ◌∙◌, true, false, none, some, Outcome, ok, err, subst, some_inj,
  Option-cases, inl, inr, arith, Bool,
}
use web3airdrop_os.Base.Text.{Text, text_eq}
use web3airdrop_os.Redis.{Redis}
use web3airdrop_os.Locks.{DistributedLock}
use web3airdrop_os.Locks as Locks
use web3airdrop_os.Locks.Retry.{Turn, acquire_with_retry}
use web3airdrop_os.Tasks.Records.{
  running, manual_required, failed, permits, TaskExecution, ExecutionRequest, Database, DbError,
  Lawful,
}
use web3airdrop_os.Tasks.Execute.{
  Error, ExecutionResult, Draws, answered, lock_resource, new_execution, again, reusable, nil_id,
}
use web3airdrop_os.Tasks.Manager.{
  World, Setting, key, begin_with, begin, unlock, locked, settle, run_task, with_task,
  execute_unless, execute,
}

answered_failed :
    (force : Bool) (existing : Outcome DbError TaskExecution) (e : TaskExecution)
    → existing ≡ ok e
    → e.status ≡ failed
    → answered force existing ≡ none
unfolding answered
answered_failed true existing e found fails = rw found refl
answered_failed false existing e found fails = rw (found, fails) refl

reusable_failed :
    (existing : Outcome DbError TaskExecution) (e : TaskExecution)
    → existing ≡ ok e
    → e.status ≡ failed
    → text_eq e.id nil_id ≡ false
    → reusable existing ≡ some e
unfolding reusable
reusable_failed existing e found fails known = rw (found, fails, known) refl

module _ (d : Database) (law : Lawful d) (r : Redis) (setting : Setting d r)
    (req : ExecutionRequest) (draws : Draws) where
  abbrev k : Text
  k = key d r setting req draws

  -- The database is as it was, and the result waits for manual input.
  abbrev IsKept : d.Store → World d r × ExecutionResult → Type 0
  IsKept s (w, result) =
      (w.db ≡ s) × (result.execution.status ≡ manual_required) × (result.error ≡ none)

  settle-IsKept :
      (x e : TaskExecution) (w : World d r)
      → d.row w.db x.id ≡ some e
      → e.status ≡ failed
      → IsKept w.db
          (settle d r setting req draws (record x { status = manual_required }) none none w)
  unfolding settle
  settle-IsKept x e w here fails =
      let y : TaskExecution = record x { status = manual_required } in
      let (t, stamped) = law.save_stamped y w.db in
      let (problem, kept) =
        law.save_refused y e w.db here (ap (λ s. permits s manual_required) fails) in
      (kept, ap (λ e'. e'.status) stamped, refl)

  run_task-IsKept :
      (type : Text) (x e : TaskExecution) (w : World d r)
      → d.find_task req.task_id w.db ≡ ok (type, true)
      → d.row w.db x.id ≡ some e
      → e.status ≡ failed
      → IsKept w.db (run_task d r setting req draws x w)
  unfolding run_task
  run_task-IsKept type x e w manual here fails =
      subst (λ task. IsKept w.db (with_task d r setting req draws task x w)) (sym manual)
        (settle-IsKept x e w here fails)

  abbrev pub IsReported : d.Store → World d r × Outcome Error ExecutionResult → Type 0
  IsReported s (w, o) =
      (w.db ≡ s)
      × ((result : ExecutionResult) × (o ≡ ok result)
          × (result.execution.status ≡ manual_required)
          × (result.error ≡ none))

  begin_with-IsReported :
      (type : Text) (e : TaskExecution) (w : World d r)
      → d.find_task req.task_id w.db ≡ ok (type, true)
      → d.row w.db e.id ≡ some e
      → e.status ≡ failed
      → IsReported w.db (begin_with d r setting req draws (some e) w)
  unfolding new_execution
  begin_with-IsReported type e w manual here fails =
      let new = again e (new_execution req k draws) in
      let (t, stamped) = law.save_stamped new w.db in
      let (problem, kept) = law.save_refused new e w.db here (ap (λ s. permits s running) fails) in
      let (s, (x, dropped)) = d.save new w.db in
      let there : d.row s x.id ≡ some e =
        ap (λ s'. d.row s' x.id) kept ∙ ap (λ y. d.row w.db y.id) stamped ∙ here in
      let (same, status, fine) =
        run_task-IsKept type x e (record w { db = s }) (ap (d.find_task req.task_id) kept ∙ manual)
          there fails in
      (same ∙ kept, (_, refl, status, fine))

  -- A result of the whole call; an error claims nothing.
  abbrev IsLostIf : d.Store → World d r × Outcome Error ExecutionResult → Type 0
  IsLostIf s (w, err x) = Unit {0}
  IsLostIf s (w, ok result) =
      (w.db ≡ s) × (result.execution.status ≡ manual_required) × (result.error ≡ none)

  IsReported-IsLostIf :
      (s : d.Store) (w : World d r) (o : Outcome Error ExecutionResult)
      → IsReported s (w, o)
      → IsLostIf s (w, o)
  IsReported-IsLostIf s w (err x) h = tt
  IsReported-IsLostIf s w (ok result) (same, (other, is_other, status, fine)) = (
    same,
    let is_result : result ≡ other = ground (arith, is_other) in
        ap (λ x. x.execution.status) is_result ∙ status,
    let is_result : result ≡ other = ground (arith, is_other) in ap (λ x. x.error) is_result ∙ fine,
  )

  unlocked-IsLostIf :
      (s : d.Store) (l : DistributedLock) (w : World d r) (o : Outcome Error ExecutionResult)
      → IsLostIf s (w, o)
      → IsLostIf s (unlock d r setting req draws l (w, o))
  unlocked-IsLostIf s l w (err x) h = tt
  unlocked-IsLostIf s l w (ok result) h = h

  locked-IsLostIf :
      (meanwhile : d.Store → d.Store) (existing : Outcome DbError TaskExecution) (type : Text)
      (e : TaskExecution) (w : World d r) (s : r.Store)
      (reply : Outcome Locks.Error DistributedLock)
      → reusable existing ≡ some e
      → d.find_task req.task_id (meanwhile w.db) ≡ ok (type, true)
      → d.row (meanwhile w.db) e.id ≡ some e
      → e.status ≡ failed
      → IsLostIf (meanwhile w.db) (locked d r setting req draws meanwhile existing w (s, reply))
  unfolding begin
  locked-IsLostIf meanwhile existing type e w s (err x) is_again manual here fails = tt
  locked-IsLostIf meanwhile existing type e w s (ok l) is_again manual here fails =
      let w1 : World d r = record { db = meanwhile w.db; redis = s } in
      unlocked-IsLostIf (meanwhile w.db) l (begin d r setting req draws existing w1).0
        (begin d r setting req draws existing w1).1
        (subst (λ old. IsLostIf (meanwhile w.db) (begin_with d r setting req draws old w1))
          (sym is_again)
          (IsReported-IsLostIf (meanwhile w.db) (begin_with d r setting req draws (some e) w1).0
            (begin_with d r setting req draws (some e) w1).1
            (begin_with-IsReported type e w1 manual here fails)))

  -- A request for a manual task whose execution of the day has failed, if it gives a result, reports
  -- that manual input is waited for, without an error, while the database is just as the others left
  -- it, with the failed row.
  pub refailed_manual_lost :
      (turns : ℕ → Turn r.Store) (fuel : ℕ) (meanwhile : d.Store → d.Store) (w w' : World d r)
      (result : ExecutionResult) (type : Text) (e : TaskExecution)
      → d.row w.db e.id ≡ some e
      → e.idempotency_key ≡ k
      → e.status ≡ failed
      → text_eq e.id nil_id ≡ false
      → d.row (meanwhile w.db) e.id ≡ some e
      → d.find_task req.task_id (meanwhile w.db) ≡ ok (type, true)
      → execute d r setting req draws turns fuel meanwhile w ≡ some (w', ok result)
      → (w'.db ≡ meanwhile w.db)
        × (result.execution.status ≡ manual_required)
        × (result.error ≡ none)
  unfolding execute
  refailed_manual_lost turns fuel meanwhile w w' result type e row is_key fails known there manual
        h =
      let existing = d.find_key k w.db in
      let found : existing ≡ ok e =
        subst (λ t. d.find_key t w.db ≡ ok e) is_key (law.find_key_row e.id w.db e row) in
      let (resource, id) = lock_resource req in
      let finish = Option.map (locked d r setting req draws meanwhile existing w) in
      let tried = acquire_with_retry r resource id 300000 turns draws.lock_now 30000 fuel w.redis in
      let goes : finish tried ≡ some (w', ok result) =
        subst
          (λ a.
            execute_unless d r setting req draws turns fuel meanwhile existing w a
            ≡ some (w', ok result))
          (answered_failed req.force existing e found fails) h in
      elim (Option-cases tried) [
        | inl out ↦ let ends : none ≡ some (w', ok result) = sym (ap finish out) ∙ goes in cc
        | inr ((s, reply), got) ↦
            subst (IsLostIf (meanwhile w.db)) (some_inj (sym (ap finish got) ∙ goes)) (
              locked-IsLostIf meanwhile existing type e w s reply
                (reusable_failed existing e found fails known) manual there fails)
      ]
