-- ===== src/Tasks/Once.antt =====
-- `Execute` as a whole: its results beside the table, and a second request for the same task.
use mathlib.Core.Option
use web3airdrop_os.Base.{◌≡◌, ◌⊎◌, Option, some, Outcome, ok, err}
use web3airdrop_os.Base.Text.{Text}
use web3airdrop_os.Redis.{Redis}
use web3airdrop_os.Locks as Locks
use web3airdrop_os.Tasks.Records.{ExecutionRequest, Database, Lawful}
use web3airdrop_os.Tasks.Execute.{Error, ExecutionResult, Draws, in_progress_unless_done}
use web3airdrop_os.Tasks.Manager.{World, Setting, key}
use web3airdrop_os.Tasks.Settled.{HasRow, IsEnded, KeepRows}

module _ (d : Database) (law : Lawful d) (r : Redis) (setting : Setting d r)
    (req : ExecutionRequest) (draws : Draws) (keeps : KeepRows d law r setting req draws) where
  abbrev k : Text
  k = key d r setting req draws

  abbrev HasEnd : World d r × Outcome Error ExecutionResult → Type 0
  HasEnd (w, err e) = Unit {0}
  HasEnd (w, ok result) = (id : Text) × IsEnded d law r k id (w, result)

  -- An answer of the idempotency check: the stored record, and nothing is touched.
  abbrev pub IsAnswer : World d r → World d r → ExecutionResult → Type 0
  IsAnswer w w' result =
      (w' ≡ w)
      × (d.row w.db result.execution.id ≡ some result.execution)
      × (result.execution.idempotency_key ≡ k)
      × (result.error ≡ in_progress_unless_done result.execution.status)

  -- What others do to the database while the lock is waited for takes no row away.
  abbrev pub LosesNone : (d.Store → d.Store) → Type 0
  LosesNone meanwhile = (id : Text) (s : d.Store) → HasRow d k id s → HasRow d k id (meanwhile s)

  abbrev Ends : World d r → World d r × Outcome Error ExecutionResult → Type 0
  Ends w (w', err e) = Unit {0}
  Ends w (w', ok result) = IsAnswer w w' result ⊎ ((id : Text) × IsEnded d law r k id (w', result))
