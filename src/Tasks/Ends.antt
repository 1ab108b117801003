-- ===== src/Tasks/Ends.antt =====
-- `Execute` returns: the wait for the lock is bounded.
use mathlib.Core.Option
use web3airdrop_os.Base.{ℕ, suc, ◌+◌, ◌*◌, ◌<◌, ◌≤◌, ◌≡◌, refl, ap, Option, none, some, Outcome}
use web3airdrop_os.Redis.{Redis}
use web3airdrop_os.Redis as Redis
use web3airdrop_os.Locks.Retry.{Turn, acquire_with_retry_ends}
use web3airdrop_os.Tasks.Records.{ExecutionRequest, Database, DbError, TaskExecution}
use web3airdrop_os.Tasks.Execute.{Error, ExecutionResult, Draws, lock_resource}
use web3airdrop_os.Tasks.Manager.{World, Setting, locked, execute_unless, execute}

module _ (d : Database) (r : Redis) (law : Redis.Lawful r) (setting : Setting d r)
    (req : ExecutionRequest) (draws : Draws) where
  execute_unless_ends :
      (turns : ℕ → Turn r.Store) (fuel : ℕ) (meanwhile : d.Store → d.Store)
      (existing : Outcome DbError TaskExecution) (w : World d r) (answer : Option ExecutionResult)
      → ((j : ℕ) → (turns j).checked_at + 50 ≤ (turns (suc j)).checked_at)
      → draws.lock_now ≤ (turns 0).checked_at
      → 30000 < 50 * fuel
      → (ended : World d r × Outcome Error ExecutionResult) × (execute_unless d r setting req draws
            turns
            (suc fuel)
            meanwhile
            existing
            w
            answer
          ≡ some ended)
  execute_unless_ends turns fuel meanwhile existing w (some x) pace begun enough = (_, refl)
  execute_unless_ends turns fuel meanwhile existing w none pace begun enough =
      let (type, id) = lock_resource req in
      let (tried, run_lem, j, within, before, end) =
        acquire_with_retry_ends r type id 300000 turns law draws.lock_now 30000 fuel w.redis pace
          begun enough in
      (_, ap (Option.map (locked d r setting req draws meanwhile existing w)) run_lem)

  -- If every wait of the lock's loop takes at least its 50 ms by the clock, and the clock does not
  -- go back before the first check, more than 600 rounds are enough for `Execute` to return.
  pub execute_ends :
      (turns : ℕ → Turn r.Store) (fuel : ℕ) (meanwhile : d.Store → d.Store) (w : World d r)
      → ((j : ℕ) → (turns j).checked_at + 50 ≤ (turns (suc j)).checked_at)
      → draws.lock_now ≤ (turns 0).checked_at
      → 30000 < 50 * fuel
      → (ended : World d r × Outcome Error ExecutionResult) × (execute d r setting req draws turns
            (suc fuel)
            meanwhile
            w
          ≡ some ended)
  unfolding execute
  execute_ends turns fuel meanwhile w pace begun enough =
      execute_unless_ends turns fuel meanwhile _ w _ pace begun enough
