-- ===== src/Queue/Lifecycle.antt =====
-- The calls of any number of clients and workers on one queue, and what they keep.
use web3airdrop_os.Base.{
  ℕ, ◌≤◌, ◌≡◌, Bool, true, Option, none, some, List, [], ◌∷◌, arith, if◌then◌else◌, ok, inl, inr,
  Outcome-cases, ◌⊎◌,
}
use web3airdrop_os.Base.Text.{Text, text_eq, text_eq_iff, text_eq_self}
use web3airdrop_os.Redis.Keyspace.{View, Cmd, apply, apply_all}
use web3airdrop_os.Redis.{Redis, Lawful}
use web3airdrop_os.Queue.Jobs.{Job, Codec, JobOption, new_job, id-apply_options}
use web3airdrop_os.Queue.Records.{
  get_job, pending_key, scheduled_key, completed_key, dedupe_key, dedupe_ttl, job_key, job_ttl,
  unix, store_job,
}
use web3airdrop_os.Queue.Distinct.{
  pending≢completed, pending≢failed, pending≢scheduled, scheduled≢pending, scheduled≢completed,
  scheduled≢failed,
}
use web3airdrop_os.Queue.Producer.{
  enqueue, claim_dedupe, store_new, placing, is_due_later, score_of,
}
use web3airdrop_os.Queue.Consumer.{dequeue}
use web3airdrop_os.Queue.Settler.{fail, complete, release_dedupe, settling, completed_job}
use web3airdrop_os.Queue.Places.{Places, Site, places, settling-places, lists-z_put, settled}
use web3airdrop_os.Queue.Moves.{at, set-places, del_dedupe-places}
use web3airdrop_os.Queue.Invariant.{total, IsOnce, dequeue-IsOnce, fail-IsOnce}

-- A new job is listed as scheduled if its time is still to come, and as pending if not.
abbrev pub entered : Bool → Places → Places
entered later b = if later then record b { scheduled = true } else record b { pending = true }

module _ (r : Redis) (law : Lawful r) (codec : Codec) (prefix : Text) where
  open r use {Store, view}

  abbrev spot : Store → Text → Places
  spot s m = at r law codec prefix s m

  placing-places :
      (now : ℕ) (j : Job) (m : Text) (w : View)
      → places prefix (apply (placing r codec prefix j now) w) m ≡ (
          if text_eq j.id m
          then entered (is_due_later now j.scheduled_at) (places prefix w m)
          else places prefix w m)
  unfolding places apply
  placing-places now j m w = ground (
    arith,
    text_eq_self (scheduled_key prefix),
    text_eq_self (pending_key prefix),
    pending≢completed prefix,
    pending≢failed prefix,
    pending≢scheduled prefix,
    scheduled≢pending prefix,
    scheduled≢completed prefix,
    scheduled≢failed prefix,
    lists-z_put m j.id (score_of j.scheduled_at) (w.zsets (scheduled_key prefix)).items,
    lists-z_put m j.id j.priority (w.zsets (pending_key prefix)).items,
  )

  claim_dedupe-places :
      (j : Job) (m : Text) (s : Store) → spot (claim_dedupe r codec prefix j s).0 m ≡ spot s m
  unfolding claim_dedupe
  claim_dedupe-places j m s =
      let key = dedupe_key prefix j.dedupe_key in
      ground (
        arith,
        law.exists_reply key s,
        law.write_view (Cmd.set key j.id dedupe_ttl) s,
        set-places prefix key j.id m dedupe_ttl (view s),
      )

  -- A job that is refused enters nowhere, any other one place.
  store_new-places :
      (now : ℕ) (j : Job) (m : Text) (s : Store)
      → (spot (store_new r codec prefix now j s).0 m ≡ spot s m)
        ⊎ (spot (store_new r codec prefix now j s).0 m ≡ (
            if text_eq j.id m
            then entered (is_due_later now j.scheduled_at) (spot s m)
            else spot s m))
  unfolding apply_all
  store_new-places now j m s =
      let claimed = claim_dedupe r codec prefix j s in
      let put = store_job r codec prefix j in
      let cs = put ∷ placing r codec prefix j now ∷ [] in
      elim (Outcome-cases claimed.1) [
        | inr (e, refused) ↦ inl (ground (arith, refused, claim_dedupe-places j m s))
        | inl (u, passed) ↦ inr (
            ground (
              arith,
              passed,
              law.pipeline_view cs claimed.0,
              law.pipeline_reply cs claimed.0,
              placing-places now j m (apply put (view claimed.0)),
              set-places prefix (job_key prefix j.id) (codec.encode j) m job_ttl (view claimed.0),
              claim_dedupe-places j m s,
            ))
      ]

  store_new-IsOnce :
      (now : ℕ) (j : Job) (s : Store)
      → total (spot s j.id) ≡ 0
      → IsOnce r law codec prefix s
      → IsOnce r law codec prefix (store_new r codec prefix now j s).0
  store_new-IsOnce now j s free once m = elim (store_new-places now j m s) [
    | inl same ↦ rw same (once m)
    | inr moved ↦ rw moved (ground (arith, once m, free, text_eq_iff j.id m))
  ]

  enqueue-IsOnce :
      (id type : Text) (payload : Option Text) (options : List JobOption) (now : ℕ) (s : Store)
      → total (spot s id) ≡ 0
      → IsOnce r law codec prefix s
      → IsOnce r law codec prefix (enqueue r codec prefix id type payload options now s).0
  unfolding enqueue new_job
  enqueue-IsOnce id type none options now s free once = once
  enqueue-IsOnce id type (some p) options now s free once =
      store_new-IsOnce now _ s (rw (id-apply_options options (new_job id type now)) free) once

  release_dedupe-places :
      (j : Job) (m : Text) (s : Store) → spot (release_dedupe r codec prefix j s).0 m ≡ spot s m
  release_dedupe-places j m s =
      let key = dedupe_key prefix j.dedupe_key in
      ground
        (arith, law.write_view (Cmd.del key) s, del_dedupe-places prefix j.dedupe_key m (view s))

  complete-places :
      (id m : Text) (json : Option Text) (now : ℕ) (j : Job) (s : Store)
      → spot
          (r.pipeline
            (settling r codec prefix id
              (Cmd.zadd (completed_key prefix) (unix now) id)
              (completed_job r codec prefix now json j))
            (release_dedupe r codec prefix j s).0).0
          m
        ≡ (if text_eq id m then settled Site.completed (spot s m) else spot s m)
  complete-places id m json now j s =
      let freed = (release_dedupe r codec prefix j s).0 in
      let done = completed_job r codec prefix now json j in
      rw (
        law.pipeline_view _ freed,
        settling-places r codec prefix Site.completed id m (unix now) done (view freed),
        release_dedupe-places j m s,
      )

  release_dedupe_ok : (j : Job) (s : Store) → (release_dedupe r codec prefix j s).1 ≡ ok tt
  release_dedupe_ok j s = ground arith

  pub completed-places :
      (id m : Text) (now : ℕ) (j : Job) (s : Store)
      → get_job r codec prefix id s ≡ ok j
      → spot (complete r codec prefix id none now s).0 m
        ≡ (if text_eq id m then settled Site.completed (spot s m) else spot s m)
  unfolding complete
  completed-places id m now j s e =
      rw (e, release_dedupe_ok j s) (complete-places id m none now j s)

  settled-once :
      (id m : Text) (json : Option Text) (now : ℕ) (j : Job) (s : Store)
      → (spot s id).processing ≡ true
      → IsOnce r law codec prefix s
      → total (
          spot
            (r.pipeline
              (settling r codec prefix id
                (Cmd.zadd (completed_key prefix) (unix now) id)
                (completed_job r codec prefix now json j))
              (release_dedupe r codec prefix j s).0).0
            m)
        ≤ 1
  settled-once id m json now j s p once =
      rw (complete-places id m json now j s) (ground (arith, once m, text_eq_iff id m))

  pub complete-IsOnce :
      (id : Text) (result : Option (Option Text)) (now : ℕ) (s : Store)
      → (spot s id).processing ≡ true
      → IsOnce r law codec prefix s
      → IsOnce r law codec prefix (complete r codec prefix id result now s).0
  unfolding complete
  complete-IsOnce id none now s p once m = elim (Outcome-cases (get_job r codec prefix id s)) [
    | inl (j, e) ↦ rw (e, release_dedupe_ok j s) (settled-once id m none now j s p once)
    | inr (f, e) ↦ rw e (once m)
  ]
  complete-IsOnce id (some none) now s p once m =
      elim (Outcome-cases (get_job r codec prefix id s)) [
        | inl (j, e) ↦ rw e (once m)
        | inr (f, e) ↦ rw e (once m)
      ]
  complete-IsOnce id (some (some t)) now s p once m =
      elim (Outcome-cases (get_job r codec prefix id s)) [
        | inl (j, e) ↦ rw (e, release_dedupe_ok j s) (settled-once id m (some t) now j s p once)
        | inr (f, e) ↦ rw e (once m)
      ]

  pub failed-IsOnce :
      (id message : Text) (now : ℕ) (s : Store)
      → (spot s id).processing ≡ true
      → IsOnce r law codec prefix s
      → IsOnce r law codec prefix (fail r codec prefix id message now s).0
  failed-IsOnce id message now s p once = elim (Outcome-cases (get_job r codec prefix id s)) [
    | inl (j, e) ↦ fail-IsOnce r law codec prefix id message now j s e p once
    | inr (f, e) ↦ λ m. unfold fail in rw e (once m)
  ]

  -- One call: a new job has an identifier that is listed nowhere, and a job is settled by a worker
  -- that it was handed to.
  pub data Step : Store → Store → Type 0 where
    enqueues :
        (id type : Text) (payload : Option Text) (options : List JobOption) (now : ℕ) (s : Store)
        → total (spot s id) ≡ 0
        → Step s (enqueue r codec prefix id type payload options now s).0
    dequeues :
        (worker : Text) (lock_duration now started : ℕ) (s : Store)
        → Step s (dequeue r codec prefix worker lock_duration now started s).0
    completes :
        (id : Text) (result : Option (Option Text)) (now : ℕ) (s : Store)
        → (spot s id).processing ≡ true
        → Step s (complete r codec prefix id result now s).0
    fails :
        (id message : Text) (now : ℕ) (s : Store)
        → (spot s id).processing ≡ true
        → Step s (fail r codec prefix id message now s).0

  pub data Reach (s : Store) : Store → Type 0 where
    here : Reach s s
    next : {t u : Store} → Reach s t → Step t u → Reach s u

  Step-IsOnce : {s t : Store} → Step s t → IsOnce r law codec prefix s → IsOnce r law codec prefix t
  Step-IsOnce (enqueues id type payload options now s free) once =
      enqueue-IsOnce id type payload options now s free once
  Step-IsOnce (dequeues worker d now started s) once =
      dequeue-IsOnce r law codec prefix worker d now started s once
  Step-IsOnce (completes id result now s p) once = complete-IsOnce id result now s p once
  Step-IsOnce (fails id message now s p) once = failed-IsOnce id message now s p once

  -- After any sequence of calls that starts with each job listed at most once, each job is: it waits,
  -- is scheduled, is processed, has completed or has failed, and never two of these.
  pub Reach-IsOnce :
      {s t : Store} → IsOnce r law codec prefix s → Reach s t → IsOnce r law codec prefix t
  Reach-IsOnce once here = once
  Reach-IsOnce once (next reach step) = Step-IsOnce step (Reach-IsOnce once reach)
