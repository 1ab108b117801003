-- ===== src/Tasks/LostTests.antt =====
-- A manual task, executed again after a failure, on a table with one row and the Redis in memory.
use web3airdrop_os.Base.{◌≡◌, refl, true, false, Option, none, some, Outcome, ok}
use web3airdrop_os.Base.Text.{codes, text_eq}
use web3airdrop_os.Redis.Keyspace.{apply}
use web3airdrop_os.Memory.{memory, empty_store}
use web3airdrop_os.Locks.{lock_key, resource_text, acquire, release, if_owned}
use web3airdrop_os.Locks.Retry.{attempts, acquire_with_retry}
use web3airdrop_os.Queue.Wire.{wire}
use web3airdrop_os.Tasks.Records.{manual_required, Database}
use web3airdrop_os.Tasks.Execute.{
  Error, ExecutionResult, key_parts, generate_idempotency_key, answered, lock_resource,
  new_execution, reusable,
}
use web3airdrop_os.Tasks.Manager.{World, Setting, begin, run_task, after_executor, settle, execute}
use web3airdrop_os.Tasks.OneRow.{one_row, one_row-Lawful}
use web3airdrop_os.Tasks.Lost.{refailed_manual_lost}
use web3airdrop_os.Tasks.Tests.{request, draws, turns, others, marshal, failed_execution, result}

abbrev manual_table : Database
manual_table = one_row (codes "tw") true

abbrev manual_setting : Setting manual_table memory
manual_setting = record {
  executors = λ type. none;
  marshal = marshal;
  retry_payload = λ a b. none;
  sha256_hex = λ t. t;
  codec = wire;
  prefix = codes "q:";
}

abbrev failed_world : World manual_table memory
failed_world = record { db = some failed_execution; redis = empty_store }

abbrev again_run : Option (World manual_table memory × Outcome Error ExecutionResult)
again_run =
    execute manual_table memory manual_setting (request false) draws turns 2 others failed_world

abbrev last_world :
    Option (World manual_table memory × Outcome Error ExecutionResult) → World manual_table memory
last_world none = failed_world
last_world (some (w, o)) = w

abbrev last_result :
    Option (World manual_table memory × Outcome Error ExecutionResult) → ExecutionResult
last_result (some (w, ok x)) = x
last_result _ = result

again_run_lem : again_run ≡ some (last_world again_run, ok (last_result again_run))
unfolding execute generate_idempotency_key key_parts answered lock_resource reusable begin
    new_execution run_task after_executor settle attempts acquire_with_retry acquire release
    if_owned apply lock_key resource_text text_eq
again_run_lem = refl

refailed_manual_lost_example :
    ((last_world again_run).db ≡ some failed_execution)
    × ((last_result again_run).execution.status ≡ manual_required)
    × ((last_result again_run).error ≡ none)
unfolding text_eq generate_idempotency_key key_parts new_execution
refailed_manual_lost_example =
    refailed_manual_lost manual_table (one_row-Lawful (codes "tw") true) memory manual_setting
      (request false) draws turns 2 others failed_world (last_world again_run)
      (last_result again_run) (codes "tw") failed_execution refl refl refl refl refl refl
      again_run_lem
