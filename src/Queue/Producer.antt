-- ===== src/Queue/Producer.antt =====
-- `Enqueue` (queue.go).
use web3airdrop_os.Base.{
  ℕ, Bool, false, Option, none, some, List, [], ◌∷◌, ltb, if◌then◌else◌, Call, ◌>>=◌, ◌>>◌, return,
  throw,
}
use web3airdrop_os.Base.Text.{Text}
use web3airdrop_os.Redis.Keyspace.{Cmd}
use web3airdrop_os.Redis.{Redis}
use web3airdrop_os.Queue.Jobs.{Job, JobOption, Codec, new_job, apply_options, is_empty}
use web3airdrop_os.Queue.Records.{
  Error, duplicate_job, marshal_failed, unix, dedupe_ttl, pending_key, scheduled_key, dedupe_key,
  sent, unchecked, read, store_job,
}

abbrev pub is_due_later : ℕ → Option ℕ → Bool
is_due_later now none = false
is_due_later now (some t) = ltb now t

abbrev pub score_of : Option ℕ → ℕ
score_of none = 0
score_of (some t) = unix t

module _ (r : Redis) (codec : Codec) (prefix : Text) where
  open r use {Store, get, exists, set_nx, write, pipeline, zrange_by_score, zrev_range_first}

  -- `Exists` and `SetEX` are two commands; the error of the second is dropped.
  unfoldable pub claim_dedupe : Job → Call Store Error (Unit {0})
  claim_dedupe j = if is_empty j.dedupe_key then return tt else (do
    taken ← read r codec prefix (exists (dedupe_key prefix j.dedupe_key))
    if taken
        then throw duplicate_job
        else unchecked r codec prefix
            (write (Cmd.set (dedupe_key prefix j.dedupe_key) j.id dedupe_ttl)))

  abbrev pub placing : Job → ℕ → Cmd
  placing j now =
      if is_due_later now j.scheduled_at
      then Cmd.zadd (scheduled_key prefix) (score_of j.scheduled_at) j.id
      else Cmd.zadd (pending_key prefix) j.priority j.id

  abbrev pub store_new : ℕ → Job → Call Store Error Job
  store_new now j = do
    claim_dedupe j
    _ ← sent r codec prefix (pipeline (store_job r codec prefix j ∷ placing j now ∷ []))
    return j

  -- `payload` is none where `json.Marshal(payload)` fails.
  unfoldable pub enqueue : Text → Text → Option Text → List JobOption → ℕ → Call Store Error Job
  unfolding claim_dedupe
  enqueue id type payload options now = elim payload [
    | none ↦ throw marshal_failed
    | some p ↦ store_new now (record (apply_options options (new_job id type now)) { payload = p })
  ]
