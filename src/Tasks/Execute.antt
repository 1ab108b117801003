-- ===== src/Tasks/Execute.antt =====
-- The parts of `Execute` that touch no store: the idempotency key, the check, the records it makes.
-- The clock's readings and the identifiers that are drawn are the record `Draws`; SHA-256 is a
-- parameter.

use web3airdrop_os.Base.{
  ℕ, suc, ◌*◌, ◌%◌, ◌^◌, Bool, true, false, not, ◌&&◌, ◌||◌, Option, none, some, [], ◌++◌, Outcome,
  ok, err, if◌then◌else◌,
}
use web3airdrop_os.Base.Text.{Text, text_eq, codes}
use web3airdrop_os.Locks.{ResourceType, account, wallet, task, DistributedLock, release}
use web3airdrop_os.Locks as Locks
use web3airdrop_os.Queue.Backoff.{second}
use web3airdrop_os.Tasks.Records.{
  Status, pending, running, done, failed, TaskProof, TaskExecution, ExecutionRequest, DbError,
}

pub data Error : Type 0 where
  lock_failed : Locks.Error → Error
  create_failed : DbError → Error

-- The `Error` field of a result.
pub data Problem : Type 0 where
  in_progress : Problem
  task_not_found : DbError → Problem
  no_executor : Text → Problem
  executor_error : Text → Problem

pub record ExecutionResult : Type 0 where
  pub execution : TaskExecution
  pub proof : Option TaskProof
  pub error : Option Problem

-- What an executor gives back: `result.Proof`, and of `result.Execution` the fields that are read.
pub record Effect : Type 0 where
  pub transaction_hash : Text
  pub post_id : Text
  pub post_url : Text
  pub result_data : Text

pub record Report : Type 0 where
  pub proof : Option TaskProof
  pub execution : Option Effect

pub record Draws : Type 0 where
  pub execution_id : Text
  pub job_id : Text
  pub day : Text
  pub lock_now : ℕ
  pub now : ℕ
  pub retry_now : ℕ
  pub enqueue_now : ℕ
  pub completed_at : ℕ

abbrev pub optional_part : Option Text → Text
optional_part none = []
optional_part (some t) = codes ":" ++ t

-- `day` is the date of the request's time in the layout 2006-01-02.
unfoldable pub key_parts : Text → Option Text → Option Text → Text → Text
key_parts task_id account_id wallet_id day =
    task_id ++ (optional_part account_id ++ (optional_part wallet_id ++ (codes ":" ++ day)))

unfoldable pub generate_idempotency_key :
    (Text → Text) → Text → Option Text → Option Text → Text → Text
unfolding key_parts
generate_idempotency_key sha256_hex task_id account_id wallet_id day =
    sha256_hex (key_parts task_id account_id wallet_id day)

abbrev pub may_execute : Status → Bool
may_execute failed = true
may_execute pending = true
may_execute _ = false

abbrev pub in_progress_unless_done : Status → Option Problem
in_progress_unless_done done = none
in_progress_unless_done _ = some in_progress

-- What the idempotency check answers; none where the execution goes on.
unfoldable pub answered : Bool → Outcome DbError TaskExecution → Option ExecutionResult
answered force (err x) = none
answered force (ok e) =
    if force || may_execute e.status
    then none
    else some (record { execution = e; proof = none; error = in_progress_unless_done e.status })

unfoldable pub lock_resource : ExecutionRequest → ResourceType × Text
lock_resource req = elim req.account_id [
  | some a ↦ (account, a)
  | none ↦ elim req.wallet_id [ some w ↦ (wallet, w) | none ↦ (task, req.task_id) ]
]

-- `uuid.Nil`, the identifier of the zero `existingExec`.
abbrev pub nil_id : Text
nil_id = codes "00000000-0000-0000-0000-000000000000"

unfoldable pub new_execution : ExecutionRequest → Text → Draws → TaskExecution
new_execution req key draws = record {
  id = draws.execution_id;
  task_id = req.task_id;
  wallet_id = req.wallet_id;
  account_id = req.account_id;
  status = running;
  started_at = some draws.now;
  completed_at = none;
  idempotency_key = key;
  proof_type = none;
  proof_value = [];
  proof_data = [];
  screenshot_path = [];
  transaction_hash = [];
  post_id = [];
  post_url = [];
  result_data = [];
  error_message = [];
  error_code = [];
  browser_session_id = none;
  retry_count = 0;
  max_retries = 3;
  next_retry_at = none;
  audit_log_id = none;
  created_at = draws.now;
  updated_at = draws.now;
}

abbrev pub again : TaskExecution → TaskExecution → TaskExecution
again old e = record e {
  id = old.id;
  retry_count = suc old.retry_count;
  created_at = old.created_at;
}

-- The record that is executed again, if there is one.
unfoldable pub reusable : Outcome DbError TaskExecution → Option TaskExecution
reusable (err x) = none
reusable (ok e) = if not (text_eq e.id nil_id) && may_execute e.status then some e else none

-- `time.Duration(1<<uint(n)) * time.Minute` in 64 bits.
unfoldable pub retry_backoff : ℕ → ℕ
retry_backoff n = (2 ^ n % 2 ^ 64) * (60 * second) % 2 ^ 64

abbrev pub with_effect : Option Effect → TaskExecution → TaskExecution
with_effect none e = e
with_effect (some x) e = record e {
  transaction_hash = x.transaction_hash;
  post_id = x.post_id;
  post_url = x.post_url;
  result_data = x.result_data;
}

abbrev pub failing : Text → TaskExecution → TaskExecution
failing message e = record e { status = failed; error_message = message }
