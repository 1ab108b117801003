-- ===== src/Queue/Retries.antt =====
-- What becomes of a job that fails.
use web3airdrop_os.Base.{ℕ, suc, ◌+◌, ◌≡◌, List, [], ◌∷◌, arith, ok, if◌then◌else◌, ltb, length}
use web3airdrop_os.Base.Text.{Text, text_eq_self}
use web3airdrop_os.Redis.Keyspace.{apply, apply_all}
use web3airdrop_os.Redis.{Redis, Lawful}
use web3airdrop_os.Queue.Jobs.{Job, Status, Codec}
use web3airdrop_os.Queue.Records.{get_job, job_key}
use web3airdrop_os.Queue.Settler.{fail, failing, retried_job, failed_job}

module _ (r : Redis) (law : Lawful r) (codec : Codec) (prefix : Text) where
  open r use {Store, view}

  abbrev after_failure : Text → ℕ → Job → Job
  after_failure message now j =
      if ltb (suc j.retry_count) j.max_retries
      then retried_job r codec prefix now message j
      else failed_job r codec prefix now message j

  fail-get_job :
      (id message : Text) (now : ℕ) (j : Job) (s : Store)
      → get_job r codec prefix id s ≡ ok j
      → ((fail r codec prefix id message now s).1 ≡ ok tt)
        × (get_job r codec prefix id (fail r codec prefix id message now s).0
            ≡ ok (after_failure message now j))
  unfolding fail get_job apply_all apply
  fail-get_job id message now j s h =
      let cs = failing r codec prefix id message now j in
      let s' = (r.pipeline cs s).0 in
      ground (
        arith,
        h,
        law.pipeline_view cs s,
        law.pipeline_reply cs s,
        law.get_reply (job_key prefix id) s',
        text_eq_self (job_key prefix id),
        codec.decode-encode (retried_job r codec prefix now message j),
        codec.decode-encode (failed_job r codec prefix now message j),
      )

  -- The failures of one job, each with its message and its time.
  pub fail_all : Text → List (Text × ℕ) → Store → Store
  fail_all id [] s = s
  fail_all id ((message, now) ∷ fs) s = fail_all id fs (fail r codec prefix id message now s).0

  abbrev pub status_after : Job → Status
  status_after j = if ltb j.retry_count j.max_retries then Status.retrying else Status.failed

  -- Each failure of a job is one retry more. While fewer than `max_retries` are counted the job waits
  -- for its next run, and from then on it has failed; its limit and its payload do not change.
  pub fail_all_counts :
      (id message : Text) (now : ℕ) (fs : List (Text × ℕ)) (j : Job) (s : Store)
      → get_job r codec prefix id s ≡ ok j
      → (j' : Job) × (get_job r codec prefix id (fail_all id ((message, now) ∷ fs) s) ≡ ok j')
        × (j'.retry_count ≡ j.retry_count + suc (length fs))
        × (j'.status ≡ status_after j')
        × (j'.max_retries ≡ j.max_retries)
        × (j'.payload ≡ j.payload)
  unfolding fail_all
  fail_all_counts id message now [] j s h = (
    after_failure message now j,
    (fail-get_job id message now j s h).1,
    ground arith,
    ground arith,
    ground arith,
    ground arith,
  )
  fail_all_counts id message now ((message', now') ∷ fs) j s h =
      let k = after_failure message now j in
      let (j', stored, count, status, limit, payload) =
        fail_all_counts id message' now' fs k (fail r codec prefix id message now s).0
          (fail-get_job id message now j s h).1 in
      (j', stored, ground arith, status, ground arith, ground arith)
