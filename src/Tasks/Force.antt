-- ===== src/Tasks/Force.antt =====
-- A forced request for a task that is done.
use mathlib.Core.Option
use web3airdrop_os.Base.{
  ℕ, ◌≡◌, refl, sym, ap, ◌∙◌, true, false, none, some, Outcome, ok, err, subst, some_inj,
  Option-cases, inl, inr,
}
use web3airdrop_os.Base.Text.{Text}
use web3airdrop_os.Redis.{Redis}
use web3airdrop_os.Locks.{DistributedLock}
use web3airdrop_os.Locks as Locks
use web3airdrop_os.Locks.Retry.{Turn, acquire_with_retry}
use web3airdrop_os.Tasks.Records.{
  TaskExecution, ExecutionRequest, Database, DbError, Lawful, unique_violation,
}
use web3airdrop_os.Tasks.Execute.{
  Error, lock_failed, create_failed, ExecutionResult, Draws, answered, may_execute, lock_resource,
  new_execution, reusable,
}
use web3airdrop_os.Tasks.Manager.{World, Setting, key, begin, locked, execute_unless, execute}
use web3airdrop_os.Tasks.Settled.{HasRow}
use web3airdrop_os.Base.{arith}

reusable-none :
    (existing : Outcome DbError TaskExecution) (e : TaskExecution)
    → existing ≡ ok e
    → may_execute e.status ≡ false
    → reusable existing ≡ none
unfolding reusable
reusable-none existing e found over = rw (found, over) (ground arith)

answered_forced : (existing : Outcome DbError TaskExecution) → answered true existing ≡ none
unfolding answered
answered_forced (err x) = refl
answered_forced (ok e) = refl

module _ (d : Database) (law : Lawful d) (r : Redis) (setting : Setting d r)
    (req : ExecutionRequest) (draws : Draws) where
  abbrev k : Text
  k = key d r setting req draws

  -- The call fails and leaves the database as the others made it.
  abbrev IsFailure : d.Store → World d r × Outcome Error ExecutionResult → Type 0
  IsFailure s ended = (ended.0.db ≡ s) × ((e : Error) × (ended.1 ≡ err e))

  begin-IsFailure :
      (existing : Outcome DbError TaskExecution) (w : World d r)
      → reusable existing ≡ none
      → (id : Text) × HasRow d k id w.db
      → (begin d r setting req draws existing w).1 ≡ err (create_failed unique_violation)
        × ((begin d r setting req draws existing w).0.db ≡ w.db)
  unfolding begin new_execution
  begin-IsFailure existing w not_again (id, (e, here, is_key)) =
      let new = new_execution req k draws in
      let (violated, kept) = law.create_taken id new e w.db here is_key in
      rw (not_again, violated, kept) (refl, refl)

  locked-IsFailure :
      (meanwhile : d.Store → d.Store) (existing : Outcome DbError TaskExecution) (w : World d r)
      (s : r.Store) (reply : Outcome Locks.Error DistributedLock)
      → reusable existing ≡ none
      → (id : Text) × HasRow d k id (meanwhile w.db)
      → IsFailure (meanwhile w.db) (locked d r setting req draws meanwhile existing w (s, reply))
  locked-IsFailure meanwhile existing w s (err e) not_again has = (refl, (lock_failed e, refl))
  locked-IsFailure meanwhile existing w s (ok l) not_again has =
      let (fails, kept) =
        begin-IsFailure existing (record { db = meanwhile w.db; redis = s }) not_again has in
      (kept, (create_failed unique_violation, fails))

  -- A forced request whose key belongs to a stored execution that may not be executed again (done,
  -- running, skipped or waiting for manual input) never gives a result: if the call returns, it
  -- returns an error, and the database is as the others left it.
  pub forced_done_fails :
      (turns : ℕ → Turn r.Store) (fuel : ℕ) (meanwhile : d.Store → d.Store) (w : World d r)
      (ended : World d r × Outcome Error ExecutionResult) (e : TaskExecution)
      → d.row w.db e.id ≡ some e
      → e.idempotency_key ≡ k
      → may_execute e.status ≡ false
      → req.force ≡ true
      → HasRow d k e.id (meanwhile w.db)
      → execute d r setting req draws turns fuel meanwhile w ≡ some ended
      → (ended.0.db ≡ meanwhile w.db) × ((x : Error) × (ended.1 ≡ err x))
  unfolding execute
  forced_done_fails turns fuel meanwhile w ended e row is_key over forced has h =
      let found : d.find_key k w.db ≡ ok e =
        subst (λ t. d.find_key t w.db ≡ ok e) is_key (law.find_key_row e.id w.db e row) in
      let not_again = reusable-none (d.find_key k w.db) e found over in
      let (type, id) = lock_resource req in
      let finish = Option.map (locked d r setting req draws meanwhile (d.find_key k w.db) w) in
      let tried = acquire_with_retry r type id 300000 turns draws.lock_now 30000 fuel w.redis in
      let goes : finish tried ≡ some ended =
        subst
          (λ a.
            execute_unless d r setting req draws turns fuel meanwhile (d.find_key k w.db) w a
            ≡ some ended)
          (ap (λ b. answered b (d.find_key k w.db)) forced ∙ answered_forced (d.find_key k w.db))
          h in
      elim (Option-cases tried) [
        | inl out ↦ let ends : none ≡ some ended = sym (ap finish out) ∙ goes in cc
        | inr ((s, reply), got) ↦
            subst (IsFailure (meanwhile w.db)) (some_inj (sym (ap finish got) ∙ goes))
              (locked-IsFailure meanwhile (d.find_key k w.db) w s reply not_again (e.id, has))
      ]
