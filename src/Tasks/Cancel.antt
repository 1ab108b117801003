-- ===== src/Tasks/Cancel.antt =====
-- `CancelExecution` in backend/internal/tasks/manager.go under the status trigger of the table, in
-- backend/migrations/002_indexes_and_constraints.sql.
use web3airdrop_os.Base.{ℕ, ◌≡◌, ◌⊎◌, refl, true, false, some, ok, err, inl, inr}
use web3airdrop_os.Base.Text.{Text}
use web3airdrop_os.Tasks.Records.{
  Status, pending, running, manual_required, done, failed, skipped, permits, TaskExecution,
  Database, Lawful,
}
use web3airdrop_os.Tasks.Status.{is_cancellable, cancelled, cancel_execution, cannot_be_cancelled}

-- The three ways of a status: the update is made, refused by the trigger, or missed.
cancel-cases :
    (s : Status)
    → ((s ≡ pending) × (is_cancellable s ≡ true) × (permits s skipped ≡ true))
      ⊎ (((s ≡ running) ⊎ (s ≡ manual_required))
          × (is_cancellable s ≡ true)
          × (permits s skipped ≡ false))
      ⊎ (is_cancellable s ≡ false)
cancel-cases pending = inl (refl, refl, refl)
cancel-cases running = inr (inl (inl refl, refl, refl))
cancel-cases manual_required = inr (inl (inr refl, refl, refl))
cancel-cases done = inr (inr refl)
cancel-cases failed = inr (inr refl)
cancel-cases skipped = inr (inr refl)

module _ (d : Database) (law : Lawful d) where
  -- A cancellation of a stored execution either finds it pending, reports success and leaves the row
  -- skipped, with the message and the time of the call; or finds it in another status, fails and
  -- changes nothing in the table.
  pub cancels_only_pending :
      (id : Text) (now : ℕ) (e : TaskExecution) (s : d.Store)
      → d.row s id ≡ some e
      → let (s', reply) = cancel_execution d id now s in
        ((e.status ≡ pending) × (reply ≡ ok tt) × (d.row s' id ≡ some (cancelled now e)))
        ⊎ (¬ (e.status ≡ pending) × (reply ≡ err cannot_be_cancelled) × (s' ≡ s))
  unfolding cancel_execution
  cancels_only_pending id now e s here =
      let able = λ (x : TaskExecution). is_cancellable x.status in
      let (s1, o) = d.update_where id able (cancelled now) s in
      elim (cancel-cases e.status) [
        | inl (is_pending, can, may) ↦
            let (reply, stored) = law.update_hit id able (cancelled now) e s here can refl may in
            inl (is_pending, rw reply refl, rw reply stored)
        | inr (inl (is_active, can, refused)) ↦
            let (reply, kept) = law.update_refused id able (cancelled now) e s here can refused in
            inr (
              elim is_active [ inl r ↦ λ p. cc | inr m ↦ λ p. cc ],
              rw reply refl,
              rw (reply, kept) refl,
            )
        | inr (inr cannot) ↦
            let (reply, kept) = law.update_miss id able (cancelled now) e s here cannot in
            inr (λ p. cc, rw reply refl, rw (reply, kept) refl)
      ]
