-- ===== src/Queue/Handout.antt =====
-- Which job `Dequeue` hands out, and to whom.
use web3airdrop_os.Base.{
  is_none, ℕ, ◌/◌, ◌≤◌, ◌≡◌, refl, ap, ◌∙◌, none, some, List, [], ◌∷◌, arith, ok, All, last?,
}
use web3airdrop_os.Base.Text.{Text, text_eq_self}
use web3airdrop_os.Redis.Keyspace.{View, Cmd, Item, apply, apply_all, members, up_to}
use web3airdrop_os.Redis.{Redis, Lawful}
use web3airdrop_os.Queue.Jobs.{Job, Codec, Status}
use web3airdrop_os.Queue.Records.{
  get_job, update_job, store_job, pending_key, processing_key, scheduled_key, lock_key, job_key,
  job_ttl, unix,
}
use web3airdrop_os.Queue.Backoff.{millisecond}
use web3airdrop_os.Queue.Distinct.{lock≢job, job≢lock}
use web3airdrop_os.Queue.Consumer.{promote, take_job, dequeue, lock_and_start}

-- A sorted set is in the order of its scores.
abbrev pub IsAscending : List Item → Type 0
IsAscending [] = Unit {0}
IsAscending (x ∷ []) = Unit {0}
IsAscending (x ∷ y ∷ xs) = (x.score ≤ y.score) × IsAscending (y ∷ xs)

head-le-last :
    (x i : Item) (xs : List Item)
    → IsAscending (x ∷ xs)
    → last? (x ∷ xs) ≡ some i
    → x.score ≤ i.score
head-le-last x i [] h e = ground arith
head-le-last x i (y ∷ xs) h e = omega (arith, h.0, head-le-last y i xs h.1 e)

All-le-last :
    (xs : List Item) (i : Item)
    → IsAscending xs
    → last? xs ≡ some i
    → All (λ x. x.score ≤ i.score) xs
All-le-last [] i h e = tt
All-le-last (x ∷ []) i h e = (head-le-last x i [] h e, tt)
All-le-last (x ∷ y ∷ xs) i h e = (head-le-last x i (y ∷ xs) h e, All-le-last (y ∷ xs) i h.1 e)

module _ (r : Redis) (law : Lawful r) (codec : Codec) (prefix : Text) where
  open r use {Store, view}

  get_job_same :
      (id : Text) (s s' : Store)
      → (view s').strings (job_key prefix id) ≡ (view s).strings (job_key prefix id)
      → get_job r codec prefix id s' ≡ get_job r codec prefix id s
  unfolding get_job
  get_job_same id s s' e =
      ground (arith, law.get_reply (job_key prefix id) s, law.get_reply (job_key prefix id) s', e)

  get_job_stored :
      (id : Text) (j : Job) (t : ℕ) (s : Store)
      → (view s).strings (job_key prefix id) ≡ some (record { value = codec.encode j; left = t })
      → get_job r codec prefix id s ≡ ok j
  unfolding get_job
  get_job_stored id j t s e =
      ground (arith, law.get_reply (job_key prefix id) s, e, codec.decode-encode j)

  taking : Text → List Cmd
  taking id = Cmd.zrem (pending_key prefix) id ∷ Cmd.sadd (processing_key prefix) id ∷ []

  taking-strings : (id k : Text) (w : View) → (apply_all (taking id) w).strings k ≡ w.strings k
  unfolding taking apply_all apply
  taking-strings id k w = refl

  -- The state after a successful take: the job record is updated and the lock names the worker.
  take_job_ok :
      (worker id : Text) (now d : ℕ) (j : Job) (s : Store)
      → (view s).strings (lock_key prefix id) ≡ none
      → get_job r codec prefix id s ≡ ok j
      → j.id ≡ id
      → let j' = lock_and_start r codec prefix worker now d id j in
        let s' = (take_job r codec prefix worker now d id s).0 in
        ((take_job r codec prefix worker now d id s).1 ≡ ok (some j'))
        × ((left : ℕ) × ((view s').strings (lock_key prefix id)
              ≡ some (record { value = worker; left = left })))
        × (get_job r codec prefix id s' ≡ ok j')
  unfolding take_job update_job apply taking
  take_job_ok worker id now d j s free stored same =
      let lock = lock_key prefix id in
      let job = job_key prefix id in
      let t = d / millisecond in
      let j' = lock_and_start r codec prefix worker now d id j in
      let s1 = (r.set_nx lock worker t s).0 in
      let s2 = (r.pipeline (taking id) s1).0 in
      let s3 = (r.write (store_job r codec prefix j') s2).0 in
      let (left, made) = law.set_nx_free lock worker t s (ap is_none free) in
      let lock1 : (view s1).strings lock ≡ some (record { value = worker; left = left }) =
        ground (arith, free, made, text_eq_self lock) in
      let job1 : (view s1).strings job ≡ (view s).strings job =
        ground (arith, free, made, lock≢job prefix id id) in
      let lock2 : (view s2).strings lock ≡ some (record { value = worker; left = left }) =
        ap (λ w. w.strings lock) (law.pipeline_view (taking id) s1)
        ∙ taking-strings id lock (view s1)
        ∙ lock1 in
      let job2 : (view s2).strings job ≡ (view s).strings job =
        ap (λ w. w.strings job) (law.pipeline_view (taking id) s1)
        ∙ taking-strings id job (view s1)
        ∙ job1 in
      let stored2 : get_job r codec prefix id s2 ≡ ok j = get_job_same id s s2 job2 ∙ stored in
      let lock3 : (view s3).strings lock ≡ some (record { value = worker; left = left }) = ground (
        arith,
        lock2,
        same,
        law.write_view (store_job r codec prefix j') s2,
        job≢lock prefix id id,
      ) in
      let job3 : (view s3).strings job ≡ some (record { value = codec.encode j'; left = job_ttl }) =
        ground (arith, same, law.write_view (store_job r codec prefix j') s2, text_eq_self job) in
      let run_lem : take_job r codec prefix worker now d id s ≡ (s3, ok (some j')) = ground (
        arith,
        free,
        stored2,
        law.set_nx_reply lock worker t s,
        law.pipeline_reply (taking id) s1,
        law.write_reply (store_job r codec prefix j') s2,
      ) in
      rw run_lem (refl, (left, lock3), get_job_stored id j' job_ttl s3 job3)

  take_job_locked :
      (worker id owner : Text) (now d left : ℕ) (s : Store)
      → (view s).strings (lock_key prefix id) ≡ some (record { value = owner; left = left })
      → (take_job r codec prefix worker now d id s).1 ≡ ok none
  unfolding take_job
  take_job_locked worker id owner now d left s held =
      ground (arith, held, law.set_nx_reply (lock_key prefix id) worker (d / millisecond) s)

  -- `Dequeue` hands out the last of the pending jobs, with the due ones among them, if nobody holds
  -- its lock: no pending job has a higher priority, it is marked as processing by this worker, and
  -- from then on, while the lock lasts, no other worker can take the same job.
  pub dequeue_highest :
      (worker other : Text) (d now started later : ℕ) (i : Item) (j : Job) (s : Store)
      → let due = members (up_to (unix now) ((view s).zsets (scheduled_key prefix)).items) in
        let s' = promote r codec prefix due s in
        let items = ((view s').zsets (pending_key prefix)).items in
        IsAscending items
        → last? items ≡ some i
        → (view s').strings (lock_key prefix i.member) ≡ none
        → get_job r codec prefix i.member s' ≡ ok j
        → j.id ≡ i.member
        → let result = dequeue r codec prefix worker d now started s in
          let given = lock_and_start r codec prefix worker started d i.member j in
          (result.1 ≡ ok (some given))
          × ((given.status ≡ Status.processing) × (given.locked_by ≡ worker))
          × All (λ x. x.score ≤ i.score) items
          × (get_job r codec prefix i.member result.0 ≡ ok given)
          × ((take_job r codec prefix other later d i.member result.0).1 ≡ ok none)
  unfolding dequeue
  dequeue_highest worker other d now started later i j s ascending last free stored same =
      let due = members (up_to (unix now) ((view s).zsets (scheduled_key prefix)).items) in
      let s' = promote r codec prefix due s in
      let (reply, (left, locked), updated) =
        take_job_ok worker i.member started d j s' free stored same in
      rw
        (
          law.zrange_by_score_reply (scheduled_key prefix) (unix now) s,
          law.zrev_range_first_reply (pending_key prefix) s',
          last,
        )
        (
          reply,
          (refl, refl),
          All-le-last _ i ascending last,
          updated,
          take_job_locked other i.member worker later d left _ locked,
        )
