-- ===== src/Queue/Tests.antt =====
-- A job's way through the queue on the server in memory, and the queue's theorems at it.
use web3airdrop_os.Base.{
  if◌then◌else◌, ◌+◌, ◌*◌, ◌^◌, ◌≤◌, ◌≡◌, refl, List, [], ◌∷◌, arith, ok, some, none, min, All,
  Option,
}
use web3airdrop_os.Base.Text.{Text, codes, text_eq}
use web3airdrop_os.Redis.Keyspace.{View, Item, apply, apply_all, z_insert}
use web3airdrop_os.Memory.{memory, memory-Lawful, empty_store}
use web3airdrop_os.Queue.Jobs.{Job, Status, JobOption, with_priority, new_job, apply_options}
use web3airdrop_os.Queue.Wire.{wire}
use web3airdrop_os.Queue.Backoff.{backoff, second, backoff_doubles, backoff_wraps}
use web3airdrop_os.Queue.Records.{
  update_job, processing_key, completed_key, failed_key, get_job, pending_key, scheduled_key,
  job_key, lock_key,
}
use web3airdrop_os.Queue.Producer.{enqueue}
use web3airdrop_os.Queue.Consumer.{dequeue, take_job, promote, lock_and_start}
use web3airdrop_os.Queue.Retries.{fail_all, fail_all_counts, status_after}
use web3airdrop_os.Queue.Places.{places, lists, holds, Site, settled}
use web3airdrop_os.Queue.Invariant.{IsOnce}
use web3airdrop_os.Queue.Lifecycle.{Reach, here, next, enqueues, dequeues, Reach-IsOnce}
use web3airdrop_os.Queue.Worker.{Handler, process_job, process_job_settles}
use web3airdrop_os.Queue.Handout.{dequeue_highest}

backoff_doubles_example : backoff 3 ≡ min (2 ^ 3) 300 * second
backoff_doubles_example = backoff_doubles 3 (omega arith)

backoff_wraps_example : backoff (2 + 55) ≡ 0
backoff_wraps_example = backoff_wraps 2

abbrev prefix : Text
prefix = codes "q:"

abbrev id : Text
id = codes "j"

abbrev options : List JobOption
options = with_priority 10 ∷ []

abbrev queued : View
queued = (enqueue memory wire prefix id (codes "t") (some (codes "{}")) options 5 empty_store).0

abbrev stored_job : Job
stored_job = record (apply_options options (new_job id (codes "t") 5)) { payload = codes "{}" }

queued_lem : get_job memory wire prefix id queued ≡ ok stored_job
unfolding get_job enqueue apply apply_all job_key text_eq apply_options new_job wire
queued_lem = refl

fail_all_counts_example :
    (j' : Job) × (get_job memory wire prefix id (
        fail_all memory memory-Lawful wire prefix id
          ((codes "e", 6) ∷ (codes "f", 7) ∷ (codes "g", 8) ∷ [])
          queued)
      ≡ ok j')
    × (j'.retry_count ≡ stored_job.retry_count + 3)
    × (j'.status ≡ status_after memory memory-Lawful wire prefix j')
    × (j'.max_retries ≡ stored_job.max_retries)
    × (j'.payload ≡ stored_job.payload)
fail_all_counts_example =
    fail_all_counts memory memory-Lawful wire prefix id (codes "e") 6
      ((codes "f", 7) ∷ (codes "g", 8) ∷ []) stored_job queued queued_lem

empty_store-IsOnce : IsOnce memory memory-Lawful wire prefix empty_store
unfolding places lists holds
empty_store-IsOnce m = omega arith

handed_out :
    Reach memory memory-Lawful wire prefix empty_store
      (dequeue memory wire prefix (codes "w") 300000000000 6 7 queued).0
unfolding places lists holds
handed_out =
    next (next here (enqueues id (codes "t") (some (codes "{}")) options 5 empty_store refl))
      (dequeues (codes "w") 300000000000 6 7 queued)

Reach-IsOnce_example :
    IsOnce memory memory-Lawful wire prefix
      (dequeue memory wire prefix (codes "w") 300000000000 6 7 queued).0
Reach-IsOnce_example = Reach-IsOnce memory memory-Lawful wire prefix empty_store-IsOnce handed_out

abbrev listed : Item
listed = record { member = id; score = 10 }

dequeue_highest_example :
    let result = dequeue memory wire prefix (codes "w") 300000000000 6 7 queued in
    let given = lock_and_start memory wire prefix (codes "w") 7 300000000000 id stored_job in
    (result.1 ≡ ok (some given))
    × ((given.status ≡ Status.processing) × (given.locked_by ≡ codes "w"))
    × All (λ x. x.score ≤ 10) (queued.zsets (pending_key prefix)).items
    × (get_job memory wire prefix id result.0 ≡ ok given)
    × ((take_job memory wire prefix (codes "v") 8 300000000000 id result.0).1 ≡ ok none)
unfolding enqueue apply apply_all pending_key scheduled_key lock_key job_key text_eq z_insert
    promote get_job apply_options new_job wire
dequeue_highest_example =
    dequeue_highest memory memory-Lawful wire prefix (codes "w") (codes "v") 300000000000 6 7 8
      listed stored_job queued tt refl refl refl refl

abbrev taken : View
taken = (dequeue memory wire prefix (codes "w") 300000000000 6 7 queued).0

abbrev handlers : Text → Option (Handler memory wire prefix)
handlers type = some (λ j s. (s, some (codes "timeout")))

process_job_settles_example :
    places prefix (process_job memory wire prefix handlers 9 stored_job taken) id ≡ (
      if text_eq id id
      then settled Site.scheduled (places prefix taken id)
      else places prefix taken id)
unfolding dequeue take_job update_job get_job enqueue apply apply_all z_insert promote pending_key
    processing_key completed_key failed_key scheduled_key lock_key job_key text_eq apply_options
    new_job wire
process_job_settles_example =
    process_job_settles memory wire prefix memory-Lawful handlers 9 stored_job
      (lock_and_start memory wire prefix (codes "w") 7 300000000000 id stored_job) taken id refl
