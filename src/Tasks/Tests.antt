-- ===== src/Tasks/Tests.antt =====
-- Runs of the task manager on a table with one row and the Redis in memory.
use web3airdrop_os.Base.{
  ℕ, ◌*◌, ◌≡◌, ◌≤◌, ◌⊎◌, refl, Bool, true, false, Option, none, some, List, [], ◌∷◌, Outcome, ok,
  err, arith,
}
use web3airdrop_os.Base.Text.{Text, codes, text_eq}
use web3airdrop_os.Redis.Keyspace.{View, age, apply}
use web3airdrop_os.Memory.{memory, memory-Lawful, empty_store}
use web3airdrop_os.Locks.{lock_key, resource_text, acquire, release, if_owned}
use web3airdrop_os.Locks.Retry.{Turn, attempts, acquire_with_retry}
use web3airdrop_os.Queue.Wire.{wire}
use web3airdrop_os.Tasks.Records.{
  pending, running, done, failed, TaskProof, TaskExecution, ExecutionRequest, Database, Lawful,
}
use web3airdrop_os.Tasks.Status.{cancelled, cancel_execution, cannot_be_cancelled}
use web3airdrop_os.Tasks.Execute.{
  Error, ExecutionResult, Report, Draws, key_parts, generate_idempotency_key, answered,
  lock_resource, new_execution, reusable,
}
use web3airdrop_os.Tasks.Manager.{
  World, Setting, TaskExecutor, begin, run_task, after_executor, settle, execute,
}
use web3airdrop_os.Tasks.Ends.{execute_ends}
use web3airdrop_os.Tasks.Force.{forced_done_fails}
use web3airdrop_os.Tasks.Transitions.{
  Operation, cancels, retries, operate_all, MovesTo, operations_follow, final_untouched,
}
use web3airdrop_os.Tasks.Cancel.{cancels_only_pending}
use web3airdrop_os.Tasks.OneRow.{one_row, one_row-Lawful}

abbrev table : Database
table = one_row (codes "tw") false

abbrev table-Lawful : Lawful table
table-Lawful = one_row-Lawful (codes "tw") false

abbrev W : Type 0
W = World table memory

abbrev pub report : Report
report = record {
  proof = none;
  execution =
      some (record { transaction_hash = codes "h"; post_id = []; post_url = []; result_data = [] });
}

abbrev executor : TaskExecutor table memory
executor req w = (w, ok report)

abbrev pub marshal : TaskProof → Option Text
marshal p = none

abbrev setting : Setting table memory
setting = record {
  executors = λ type. some executor;
  marshal = marshal;
  retry_payload = λ a b. none;
  sha256_hex = λ t. t;
  codec = wire;
  prefix = codes "q:";
}

abbrev pub request : Bool → ExecutionRequest
request force = record {
  task_id = codes "t";
  user_id = codes "u";
  wallet_id = none;
  account_id = none;
  force = force;
  metadata = [];
}

abbrev pub draws : Draws
draws = record {
  execution_id = codes "e";
  job_id = codes "j";
  day = codes "d";
  lock_now = 0;
  now = 1;
  retry_now = 2;
  enqueue_now = 3;
  completed_at = 4;
}

abbrev pub turns : ℕ → Turn View
turns i = record {
  token = codes "l";
  acquired_at = 60 * i;
  checked_at = 60 * i;
  cancelled = false;
  elsewhere = age;
}

abbrev start : W
start = record { db = none; redis = empty_store }

abbrev pub others : Option TaskExecution → Option TaskExecution
others s = s

abbrev world_of : Option (W × Outcome Error ExecutionResult) → W
world_of none = start
world_of (some (w, o)) = w

abbrev first_run : Option (W × Outcome Error ExecutionResult)
first_run = execute table memory setting (request false) draws turns 2 others start

abbrev finished : TaskExecution
finished = record (new_execution (request false) (codes "t:d") draws) {
  status = done;
  completed_at = some 4;
  transaction_hash = codes "h";
}

abbrev pub result : ExecutionResult
result = record { execution = finished; proof = none; error = none }

abbrev done_world : W
done_world = record { db = some finished; redis = empty_store }

abbrev forced_run : Option (W × Outcome Error ExecutionResult)
forced_run = execute table memory setting (request true) draws turns 2 others done_world

abbrev outcome_of : Option (W × Outcome Error ExecutionResult) → Outcome Error ExecutionResult
outcome_of none = ok result
outcome_of (some (w, o)) = o

forced_run_lem : forced_run ≡ some (world_of forced_run, outcome_of forced_run)
unfolding execute generate_idempotency_key key_parts answered lock_resource reusable begin
    new_execution run_task after_executor settle attempts acquire_with_retry acquire release
    if_owned apply lock_key resource_text text_eq
forced_run_lem = refl

forced_done_fails_example :
    ((world_of forced_run).db ≡ some finished) × ((x : Error) × (outcome_of forced_run ≡ err x))
unfolding text_eq generate_idempotency_key key_parts new_execution
forced_done_fails_example =
    forced_done_fails table table-Lawful memory setting (request true) draws turns 2 others
      done_world (world_of forced_run, outcome_of forced_run) finished refl refl refl refl
      (finished, refl, refl) forced_run_lem

abbrev pub failed_execution : TaskExecution
failed_execution = record (new_execution (request false) (codes "t:d") draws) {
  status = failed;
  retry_count = 2;
}

abbrev clicks : List (ℕ × Operation)
clicks = (5, retries) ∷ (6, cancels) ∷ (7, retries) ∷ []

operations_follow_example :
    (e' : TaskExecution) × (table.row
        (operate_all table marshal (codes "e") clicks (some failed_execution))
        (codes "e")
      ≡ some e')
    × MovesTo failed e'.status
    × (e'.idempotency_key ≡ codes "t:d")
    × (e'.max_retries ≡ 3)
    × (e'.retry_count ≤ e'.max_retries)
unfolding text_eq new_execution
operations_follow_example =
    operations_follow table table-Lawful marshal (codes "e") clicks failed_execution
      (some failed_execution) refl (omega arith)

final_untouched_example :
    operate_all table marshal (codes "e") clicks (some finished) ≡ some finished
unfolding text_eq new_execution
final_untouched_example =
    final_untouched table table-Lawful marshal (codes "e") clicks finished (some finished) refl refl

abbrev running_execution : TaskExecution
running_execution = new_execution (request false) (codes "t:d") draws

cancels_only_pending_example :
    let (s', reply) = cancel_execution table (codes "e") 3 (some running_execution) in
    ((running ≡ pending)
      × (reply ≡ ok tt)
      × (table.row s' (codes "e") ≡ some (cancelled 3 running_execution)))
    ⊎ (¬ (running ≡ pending) × (reply ≡ err cannot_be_cancelled) × (s' ≡ some running_execution))
unfolding text_eq new_execution
cancels_only_pending_example =
    cancels_only_pending table table-Lawful (codes "e") 3 running_execution (some running_execution)
      refl

execute_ends_example :
    (ended : W × Outcome Error ExecutionResult) × (execute table memory setting
        (request false)
        draws
        turns
        602
        others
        start
      ≡ some ended)
execute_ends_example =
    execute_ends table memory memory-Lawful setting (request false) draws turns 601 others start
      (λ j. omega arith) (omega arith) (omega arith)
