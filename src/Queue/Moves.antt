-- ===== src/Queue/Moves.antt =====
-- The places of a job before and after each operation of the queue.
use web3airdrop_os.Base.{
  ap, ℕ, suc, ◌/◌, ◌≡◌, refl, true, false, ◌&&◌, [], ◌∷◌, arith, if◌then◌else◌, ok, ltb, is_none,
  inl, inr, Option-cases, Outcome-cases,
}
use web3airdrop_os.Base.Text.{Text, text_eq, text_eq_self}
use web3airdrop_os.Redis.Keyspace.{View, Cmd, apply, apply_all, z_without}
use web3airdrop_os.Redis.SortedSets.{trim_items}
use web3airdrop_os.Redis.{Redis, Lawful}
use web3airdrop_os.Queue.Jobs.{Job, Codec}
use web3airdrop_os.Queue.Records.{
  get_job, pending_key, processing_key, scheduled_key, lock_key, dedupe_key, unix, store_job,
  update_job, job_key, job_ttl,
}
use web3airdrop_os.Queue.Backoff.{backoff, after, millisecond}
use web3airdrop_os.Queue.Distinct.{
  pending≢completed, pending≢failed, pending≢scheduled, scheduled≢pending, scheduled≢completed,
  scheduled≢failed, dedupe≢pending, dedupe≢scheduled, dedupe≢completed, dedupe≢failed,
  dedupe≢processing,
}
use web3airdrop_os.Queue.Settler.{fail, failing, retried_job, failed_job}
use web3airdrop_os.Queue.Consumer.{moved, take_job, lock_and_start}
use web3airdrop_os.Queue.Places.{
  Places, places, Site, settled, settling-places, lists-z_put, lists-z_without, holds-add,
}

abbrev pub promoted_places : Places → Places
promoted_places b = record b { scheduled = false; pending = true }

abbrev pub taken_places : Places → Places
taken_places b = record b { pending = false; processing = true }

module _ (prefix : Text) where
  -- The commands on string keys move no job.
  pub set-places :
      (k v m : Text) (t : ℕ) (w : View)
      → places prefix (apply (Cmd.set k v t) w) m ≡ places prefix w m
  unfolding places apply
  set-places k v m t w = refl

  pub del_dedupe-places :
      (k m : Text) (w : View)
      → places prefix (apply (Cmd.del (dedupe_key prefix k)) w) m ≡ places prefix w m
  unfolding places apply
  del_dedupe-places k m w = ground (
    arith,
    dedupe≢pending prefix k,
    dedupe≢scheduled prefix k,
    dedupe≢completed prefix k,
    dedupe≢failed prefix k,
    dedupe≢processing prefix k,
  )

  pub promoting-places :
      (id m : Text) (sc : ℕ) (w : View)
      → places prefix
          (apply_all
            (Cmd.zrem (scheduled_key prefix) id ∷ Cmd.zadd (pending_key prefix) sc id ∷ [])
            w)
          m
        ≡ (if text_eq id m then promoted_places (places prefix w m) else places prefix w m)
  unfolding places apply_all apply
  promoting-places id m sc w =
      let z = w.zsets (scheduled_key prefix) in
      ground (
        arith,
        text_eq_self (scheduled_key prefix),
        text_eq_self (pending_key prefix),
        pending≢completed prefix,
        pending≢failed prefix,
        pending≢scheduled prefix,
        scheduled≢pending prefix,
        scheduled≢completed prefix,
        scheduled≢failed prefix,
        trim_items (z_without id z.items) z.left,
        lists-z_without m id z.items,
        lists-z_put m id sc (w.zsets (pending_key prefix)).items,
      )

  pub taking-places :
      (id m : Text) (w : View)
      → places prefix
          (apply_all
            (Cmd.zrem (pending_key prefix) id ∷ Cmd.sadd (processing_key prefix) id ∷ [])
            w)
          m
        ≡ (if text_eq id m then taken_places (places prefix w m) else places prefix w m)
  unfolding places apply_all apply
  taking-places id m w =
      let z = w.zsets (pending_key prefix) in
      ground (
        arith,
        text_eq_self (pending_key prefix),
        text_eq_self (processing_key prefix),
        pending≢completed prefix,
        pending≢failed prefix,
        pending≢scheduled prefix,
        trim_items (z_without id z.items) z.left,
        lists-z_without m id z.items,
        holds-add m id (w.sets (processing_key prefix)),
      )

module _ (r : Redis) (law : Lawful r) (codec : Codec) (prefix : Text) where
  open r use {Store, view}

  abbrev pub at : Store → Text → Places
  at s m = places prefix (view s) m

  abbrev pub failure_site : Job → Site
  failure_site j = if ltb (suc j.retry_count) j.max_retries then Site.scheduled else Site.failed

  pub fail-places :
      (id message m : Text) (now : ℕ) (j : Job) (s : Store)
      → get_job r codec prefix id s ≡ ok j
      → at (fail r codec prefix id message now s).0 m
        ≡ (if text_eq id m then settled (failure_site j) (at s m) else at s m)
  unfolding fail
  fail-places id message m now j s h = ground (
    arith,
    h,
    law.pipeline_view (failing r codec prefix id message now j) s,
    settling-places r codec prefix Site.scheduled id m
        (unix (after now (backoff (suc j.retry_count)))) (retried_job r codec prefix now message j)
        (view s),
    settling-places r codec prefix Site.failed id m (unix now)
        (failed_job r codec prefix now message j) (view s),
  )

  pub moved-places :
      (id m : Text) (j : Job) (s : Store)
      → at (moved r codec prefix (ok j) id s) m
        ≡ (if text_eq id m then promoted_places (at s m) else at s m)
  moved-places id m j s =
      rw (law.pipeline_view _ s) (promoting-places prefix id m j.priority (view s))

  pub take_job-places :
      (worker id m : Text) (now d : ℕ) (s : Store)
      → at (take_job r codec prefix worker now d id s).0 m ≡ (
          if is_none ((view s).strings (lock_key prefix id)) && text_eq id m
          then taken_places (at s m)
          else at s m)
  unfolding take_job update_job
  take_job-places worker id m now d s =
      let lock = lock_key prefix id in
      let t = d / millisecond in
      let s1 = (r.set_nx lock worker t s).0 in
      let taking = Cmd.zrem (pending_key prefix) id ∷ Cmd.sadd (processing_key prefix) id ∷ [] in
      let s2 = (r.pipeline taking s1).0 in
      elim (Option-cases ((view s).strings lock)) [
        | inr (e, taken) ↦ ground (
          arith,
          taken,
          law.set_nx_kept lock worker t s (ap is_none taken),
          law.set_nx_reply lock worker t s,
        )
        | inl free ↦
            let (l, made) = law.set_nx_free lock worker t s (ap is_none free) in
            elim (Outcome-cases (get_job r codec prefix id s2)) [
              | inl (j, e) ↦ ground (
                arith,
                free,
                e,
                made,
                law.set_nx_reply lock worker t s,
                law.pipeline_view taking s1,
                law.pipeline_reply taking s1,
                law.write_view
                    (store_job r codec prefix (lock_and_start r codec prefix worker now d id j)) s2,
                taking-places prefix id m (view s1),
                set-places prefix lock worker m l (view s),
                set-places prefix (job_key prefix j.id)
                    (codec.encode (lock_and_start r codec prefix worker now d id j)) m job_ttl
                    (view s2),
              )
              | inr (f, e) ↦ ground (
                arith,
                free,
                e,
                made,
                law.set_nx_reply lock worker t s,
                law.pipeline_view taking s1,
                law.pipeline_reply taking s1,
                taking-places prefix id m (view s1),
                set-places prefix lock worker m l (view s),
              )
            ]
      ]
