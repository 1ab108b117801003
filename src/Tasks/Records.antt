-- ===== src/Tasks/Records.antt =====
-- The records of backend/internal/tasks/manager.go, and the table they are kept in. GORM and its
-- database are parameters.
use web3airdrop_os.Base.{ℕ, ◌≡◌, Bool, true, false, Option, none, some, Outcome, ok, err}
use web3airdrop_os.Base.Text.{Text}
pub use web3airdrop_os.Gorm.{DbError, record_not_found, unique_violation, failure}

pub data Status : Type 0 where
  pending running manual_required done failed skipped : Status

-- The trigger of the table: whether the status of a row may go from the first to the second.
abbrev pub permits : Status → Status → Bool
permits pending _ = true
permits running pending = false
permits running skipped = false
permits running _ = true
permits manual_required pending = false
permits manual_required skipped = false
permits manual_required _ = true
permits done pending = true
permits done done = true
permits done failed = true
permits done _ = false
permits failed pending = true
permits failed done = true
permits failed failed = true
permits failed _ = false
permits skipped _ = true

pub data ProofType : Type 0 where
  post_url tx_hash cast_hash screenshot api_response signature manual_verify : ProofType

-- `metadata` and `raw_data` are JSON texts.
pub record TaskProof : Type 0 where
  pub type : ProofType
  pub value : Text
  pub timestamp : ℕ
  pub metadata : Text
  pub screenshot_path : Text
  pub raw_data : Text

pub record TaskExecution : Type 0 where
  pub id : Text
  pub task_id : Text
  pub wallet_id : Option Text
  pub account_id : Option Text
  pub status : Status
  pub started_at : Option ℕ
  pub completed_at : Option ℕ
  pub idempotency_key : Text
  pub proof_type : Option ProofType
  pub proof_value : Text
  pub proof_data : Text
  pub screenshot_path : Text
  pub transaction_hash : Text
  pub post_id : Text
  pub post_url : Text
  pub result_data : Text
  pub error_message : Text
  pub error_code : Text
  pub browser_session_id : Option Text
  pub retry_count : ℕ
  pub max_retries : ℕ
  pub next_retry_at : Option ℕ
  pub audit_log_id : Option Text
  pub created_at : ℕ
  pub updated_at : ℕ

-- `Metadata` is a JSON text that only the executors read.
pub record ExecutionRequest : Type 0 where
  pub task_id : Text
  pub user_id : Text
  pub wallet_id : Option Text
  pub account_id : Option Text
  pub force : Bool
  pub metadata : Text

-- The statements of the manager. `save` and `create` also give the record as GORM leaves it in the
-- caller's variable.
pub record Database : Type 1 where
  pub Store : Type 0
  pub row : Store → Text → Option TaskExecution
  pub find : Text → Store → Outcome DbError TaskExecution
  pub find_key : Text → Store → Outcome DbError TaskExecution
  pub save : TaskExecution → Store → Store × (TaskExecution × Option DbError)
  pub create : TaskExecution → Store → Store × (TaskExecution × Option DbError)
  pub update_where :
      Text
      → (TaskExecution → Bool)
      → (TaskExecution → TaskExecution)
      → Store
      → Store × (ℕ × Option DbError)
  pub find_task : Text → Store → Outcome DbError (Text × Bool)

-- A record as GORM writes it: `updated_at` is set to the time of the statement.
abbrev pub IsStamped : TaskExecution → TaskExecution → Type 0
IsStamped e e' = (t : ℕ) × (e' ≡ record e { updated_at = t })

-- What the documentation of GORM and of the table promises of statements that reach the database:
-- a unique primary key, a unique idempotency key, reads of what was written, and a status trigger
-- whose exception undoes the statement.
pub record Lawful (d : Database) : Type 0 where
  pub row_id : (id : Text) (s : d.Store) (e : TaskExecution) → d.row s id ≡ some e → e.id ≡ id
  pub find_row :
      (id : Text) (s : d.Store) (e : TaskExecution) → d.row s id ≡ some e → d.find id s ≡ ok e
  pub find_none : (id : Text) (s : d.Store) → d.row s id ≡ none → d.find id s ≡ err record_not_found
  pub find_key_row :
      (id : Text) (s : d.Store) (e : TaskExecution)
      → d.row s id ≡ some e
      → d.find_key e.idempotency_key s ≡ ok e
  pub find_key_ok :
      (k : Text) (s : d.Store) (e : TaskExecution)
      → d.find_key k s ≡ ok e
      → (d.row s e.id ≡ some e) × (e.idempotency_key ≡ k)
  pub save_stamped : (e : TaskExecution) (s : d.Store) → IsStamped e (d.save e s).1.0
  pub save_known :
      (e old : TaskExecution) (s : d.Store)
      → d.row s e.id ≡ some old
      → old.idempotency_key ≡ e.idempotency_key
      → permits old.status e.status ≡ true
      → ((d.save e s).1.1 ≡ none) × (d.row (d.save e s).0 e.id ≡ some (d.save e s).1.0)
  pub save_refused :
      (e old : TaskExecution) (s : d.Store)
      → d.row s e.id ≡ some old
      → permits old.status e.status ≡ false
      → ((d.save e s).1.1 ≡ some failure) × ((d.save e s).0 ≡ s)
  pub create_stamped : (e : TaskExecution) (s : d.Store) → IsStamped e (d.create e s).1.0
  pub create_stored :
      (e : TaskExecution) (s : d.Store)
      → (d.create e s).1.1 ≡ none
      → d.row (d.create e s).0 e.id ≡ some (d.create e s).1.0
  pub create_taken :
      (id : Text) (e old : TaskExecution) (s : d.Store)
      → d.row s id ≡ some old
      → old.idempotency_key ≡ e.idempotency_key
      → ((d.create e s).1.1 ≡ some unique_violation) × ((d.create e s).0 ≡ s)
  pub update_hit :
      (id : Text) (test : TaskExecution → Bool) (f : TaskExecution → TaskExecution)
      (e : TaskExecution) (s : d.Store)
      → d.row s id ≡ some e
      → test e ≡ true
      → (f e).id ≡ e.id
      → permits e.status (f e).status ≡ true
      → ((d.update_where id test f s).1 ≡ (1, none))
        × (d.row (d.update_where id test f s).0 id ≡ some (f e))
  pub update_refused :
      (id : Text) (test : TaskExecution → Bool) (f : TaskExecution → TaskExecution)
      (e : TaskExecution) (s : d.Store)
      → d.row s id ≡ some e
      → test e ≡ true
      → permits e.status (f e).status ≡ false
      → ((d.update_where id test f s).1 ≡ (0, some failure)) × ((d.update_where id test f s).0 ≡ s)
  pub update_miss :
      (id : Text) (test : TaskExecution → Bool) (f : TaskExecution → TaskExecution)
      (e : TaskExecution) (s : d.Store)
      → d.row s id ≡ some e
      → test e ≡ false
      → ((d.update_where id test f s).1 ≡ (0, none)) × ((d.update_where id test f s).0 ≡ s)
