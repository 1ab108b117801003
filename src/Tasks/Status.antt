-- ===== src/Tasks/Status.antt =====
-- `ContinueManualTask`, `CancelExecution` and `RetryExecution`.
use web3airdrop_os.Base.{
  ℕ, zero, suc, Bool, true, false, Option, none, some, Outcome, ok, err, Call, leb, [],
  if◌then◌else◌,
}
use web3airdrop_os.Base.Text.{Text, codes}
use web3airdrop_os.Tasks.Records.{
  Status, pending, running, manual_required, done, failed, skipped, TaskProof, TaskExecution,
  Database, DbError,
}

pub data Error : Type 0 where
  execution_not_found : DbError → Error
  not_waiting_for_manual cannot_be_cancelled only_failed max_retries_exceeded : Error
  database : DbError → Error

abbrev pub is_waiting : Status → Bool
is_waiting manual_required = true
is_waiting _ = false

abbrev pub is_failed : Status → Bool
is_failed failed = true
is_failed _ = false

abbrev pub is_cancellable : Status → Bool
is_cancellable pending = true
is_cancellable running = true
is_cancellable manual_required = true
is_cancellable _ = false

-- `marshal` is none where `json.Marshal` of the proof fails; the data are then left as they are.
abbrev pub proof_data_or : Text → Option Text → Text
proof_data_or old none = old
proof_data_or old (some t) = t

abbrev pub with_proof : (TaskProof → Option Text) → Option TaskProof → TaskExecution → TaskExecution
with_proof marshal none e = e
with_proof marshal (some p) e = record e {
  proof_type = some p.type;
  proof_value = p.value;
  proof_data = proof_data_or e.proof_data (marshal p);
  screenshot_path = p.screenshot_path;
}

abbrev pub completed : ℕ → TaskExecution → TaskExecution
completed now e = record e { status = done; completed_at = some now }

abbrev pub cancelled : ℕ → TaskExecution → TaskExecution
cancelled now e = record e {
  status = skipped;
  error_message = codes "Cancelled by user";
  updated_at = now;
}

abbrev pub reset : ℕ → TaskExecution → TaskExecution
reset now e = record e {
  status = pending;
  retry_count = suc e.retry_count;
  error_message = [];
  error_code = [];
  updated_at = now;
}

module _ (d : Database) where
  open d use {Store}

  abbrev pub saved : Store × (TaskExecution × Option DbError) → Store × Outcome Error TaskExecution
  saved (s, (e, none)) = (s, ok e)
  saved (s, (e, some x)) = (s, err (database x))

  abbrev pub continue_found :
      (TaskProof → Option Text)
      → Option TaskProof
      → ℕ
      → Outcome DbError TaskExecution
      → Call Store Error TaskExecution
  continue_found marshal proof now (err x) s = (s, err (execution_not_found x))
  continue_found marshal proof now (ok e) s =
      if is_waiting e.status
      then saved (d.save (with_proof marshal proof (completed now e)) s)
      else (s, err not_waiting_for_manual)

  -- The result is the execution; the proof that is handed back is the argument.
  unfoldable pub continue_manual_task :
      (TaskProof → Option Text) → Text → Option TaskProof → ℕ → Call Store Error TaskExecution
  continue_manual_task marshal id proof now s = continue_found marshal proof now (d.find id s) s

  abbrev pub cancel_reply : Store × (ℕ × Option DbError) → Store × Outcome Error (Unit {0})
  cancel_reply (s, (zero, x)) = (s, err cannot_be_cancelled)
  cancel_reply (s, (suc n, none)) = (s, ok tt)
  cancel_reply (s, (suc n, some x)) = (s, err (database x))

  unfoldable pub cancel_execution : Text → ℕ → Call Store Error (Unit {0})
  cancel_execution id now s =
      cancel_reply (d.update_where id (λ e. is_cancellable e.status) (cancelled now) s)

  -- The two tests: has it failed, are its retries used up.
  abbrev pub retry_tested : Bool → Bool → ℕ → TaskExecution → Call Store Error TaskExecution
  retry_tested false over now e s = (s, err only_failed)
  retry_tested true true now e s = (s, err max_retries_exceeded)
  retry_tested true false now e s = saved (d.save (reset now e) s)

  abbrev pub retry_found : ℕ → Outcome DbError TaskExecution → Call Store Error TaskExecution
  retry_found now (err x) s = (s, err (database x))
  retry_found now (ok e) s =
      retry_tested (is_failed e.status) (leb e.max_retries e.retry_count) now e s

  unfoldable pub retry_execution : Text → ℕ → Call Store Error TaskExecution
  retry_execution id now s = retry_found now (d.find id s) s

  unfoldable pub get_execution : Text → Store → Outcome DbError TaskExecution
  get_execution id s = d.find id s

  unfoldable pub get_execution_by_idempotency_key : Text → Store → Outcome DbError TaskExecution
  get_execution_by_idempotency_key key s = d.find_key key s
