-- ===== src/Tasks/Transitions.antt =====
-- The status machine of an execution under the user's three operations.
use web3airdrop_os.Base.{
  ℕ, zero, suc, ◌≤◌, ◌≡◌, ◌⊎◌, refl, sym, ap, ◌∙◌, Bool, true, false, Option, none, some, List, [],
  ◌∷◌, ok, err, arith, Bool-cases, inl, inr, subst, leb, if◌then◌else◌,
}
use web3airdrop_os.Base.Text.{Text}
use web3airdrop_os.Tasks.Records.{
  Status, pending, running, manual_required, done, failed, skipped, permits, TaskProof,
  TaskExecution, Database, DbError, Lawful,
}
use web3airdrop_os.Tasks.Status.{
  is_waiting, is_failed, is_cancellable, with_proof, completed, cancelled, reset, saved,
  cancel_reply, continue_manual_task, cancel_execution, retry_execution, continue_found,
  retry_found, retry_tested, not_waiting_for_manual,
}

pub data Operation : Type 0 where
  continues : Option TaskProof → Operation
  cancels retries : Operation

-- The moves of the status machine.
pub data Move : Status → Status → Type 0 where
  finish : Move manual_required done
  skip : Move pending skipped
  restart : Move failed pending

waiting-Move : (s : Status) → is_waiting s ≡ true → Move s done
waiting-Move manual_required h = finish
waiting-Move pending h = cc
waiting-Move running h = cc
waiting-Move done h = cc
waiting-Move failed h = cc
waiting-Move skipped h = cc

failed-Move : (s : Status) → is_failed s ≡ true → Move s pending
failed-Move failed h = restart
failed-Move pending h = cc
failed-Move running h = cc
failed-Move done h = cc
failed-Move manual_required h = cc
failed-Move skipped h = cc

cancelled-Move : (s : Status) → is_cancellable s ≡ true → permits s skipped ≡ true → Move s skipped
cancelled-Move pending h may = skip
cancelled-Move running h may = cc
cancelled-Move manual_required h may = cc
cancelled-Move done h may = cc
cancelled-Move failed h may = cc
cancelled-Move skipped h may = cc

-- The trigger permits every move.
Move-permits : (s t : Status) → Move s t → permits s t ≡ true
Move-permits _ _ finish = refl
Move-permits _ _ skip = refl
Move-permits _ _ restart = refl

with_proof-fields :
    (marshal : TaskProof → Option Text) (p : Option TaskProof) (e : TaskExecution)
    → let y = with_proof marshal p e in
      (y.id ≡ e.id)
      × (y.idempotency_key ≡ e.idempotency_key)
      × (y.status ≡ e.status)
      × (y.retry_count ≡ e.retry_count)
      × (y.max_retries ≡ e.max_retries)
with_proof-fields marshal none e = (refl, refl, refl, refl, refl)
with_proof-fields marshal (some p) e = (refl, refl, refl, refl, refl)

retry-le : (n m : ℕ) → leb m n ≡ false → suc n ≤ m
retry-le n m h = ground arith

-- A record after a move: the key and the limit stay, and the retries stay within the limit.
abbrev pub IsMoved : TaskExecution → TaskExecution → Type 0
IsMoved e e' =
    Move e.status e'.status
    × (e'.idempotency_key ≡ e.idempotency_key)
    × (e'.max_retries ≡ e.max_retries)
    × (e.retry_count ≤ e.max_retries → e'.retry_count ≤ e'.max_retries)

module _ (d : Database) (marshal : TaskProof → Option Text) (id : Text) (now : ℕ) where
  pub operate : Operation → d.Store → d.Store
  operate (continues proof) s = (continue_manual_task d marshal id proof now s).0
  operate cancels s = (cancel_execution d id now s).0
  operate retries s = (retry_execution d id now s).0

module _ (d : Database) (law : Lawful d) (marshal : TaskProof → Option Text) (id : Text)
    (now : ℕ) where
  -- The row stays as it is with the whole table, or it is moved.
  abbrev pub IsStep : TaskExecution → d.Store → d.Store → Type 0
  IsStep e s s' = (s' ≡ s) ⊎ ((e' : TaskExecution) × (d.row s' id ≡ some e') × IsMoved e e')

  save-IsStep :
      (e y : TaskExecution) (s : d.Store)
      → d.row s id ≡ some e
      → y.id ≡ e.id
      → IsMoved e y
      → IsStep e s (d.save y s).0
  save-IsStep e y s here same (move, is_key, limit, bound) =
      let (t, stamped) = law.save_stamped y s in
      let is_id : y.id ≡ id = same ∙ law.row_id id s e here in
      let (fine, stored) =
        law.save_known y e s (ap (d.row s) is_id ∙ here) (sym is_key) (Move-permits _ _ move) in
      inr (
        (d.save y s).1.0,
        sym (ap (d.row (d.save y s).0) is_id) ∙ stored,
        subst (IsMoved e) (sym stamped) (move, is_key, limit, bound),
      )

  saved-state : (o : d.Store × (TaskExecution × Option DbError)) → (saved d o).0 ≡ o.0
  saved-state (s, (e, none)) = refl
  saved-state (s, (e, some x)) = refl

  cancel_reply-state : (o : d.Store × (ℕ × Option DbError)) → (cancel_reply d o).0 ≡ o.0
  cancel_reply-state (s, (zero, x)) = refl
  cancel_reply-state (s, (suc n, none)) = refl
  cancel_reply-state (s, (suc n, some x)) = refl

  continue_found-IsStep :
      (proof : Option TaskProof) (e : TaskExecution) (s : d.Store)
      → d.row s id ≡ some e
      → IsStep e s (continue_found d marshal proof now (ok e) s).0
  continue_found-IsStep proof e s here = elim (Bool-cases (is_waiting e.status)) [
    | inl waits ↦
        let y = with_proof marshal proof (completed now e) in
        let (same, is_key, status, count, limit) =
          with_proof-fields marshal proof (completed now e) in
        let move : IsMoved e y = (
          subst (Move e.status) (sym status) (waiting-Move e.status waits),
          is_key,
          limit,
          λ h. omega (arith, h, count, limit),
        ) in
        subst
          (λ b. IsStep e s (if b then saved d (d.save y s) else (s, err not_waiting_for_manual)).0)
          (sym waits)
          (subst (IsStep e s) (sym (saved-state (d.save y s))) (save-IsStep e y s here same move))
    | inr other ↦
        let y = with_proof marshal proof (completed now e) in
        subst
          (λ b. IsStep e s (if b then saved d (d.save y s) else (s, err not_waiting_for_manual)).0)
          (sym other) (inl refl)
  ]

  retry_tested-IsStep :
      (fails over : Bool) (e : TaskExecution) (s : d.Store)
      → d.row s id ≡ some e
      → is_failed e.status ≡ fails
      → leb e.max_retries e.retry_count ≡ over
      → IsStep e s (retry_tested d fails over now e s).0
  retry_tested-IsStep false over e s here f o = inl refl
  retry_tested-IsStep true true e s here f o = inl refl
  retry_tested-IsStep true false e s here f o =
      let y = reset now e in
      let move : IsMoved e y =
        (failed-Move e.status f, refl, refl, λ h. retry-le e.retry_count e.max_retries o) in
      subst (IsStep e s) (sym (saved-state (d.save y s))) (save-IsStep e y s here refl move)

  pub operation-IsStep :
      (op : Operation) (e : TaskExecution) (s : d.Store)
      → d.row s id ≡ some e
      → IsStep e s (operate d marshal id now op s)
  unfolding operate continue_manual_task cancel_execution retry_execution
  operation-IsStep (continues proof) e s here =
      subst (λ found. IsStep e s (continue_found d marshal proof now found s).0)
        (sym (law.find_row id s e here)) (continue_found-IsStep proof e s here)
  operation-IsStep cancels e s here =
      let able = λ (x : TaskExecution). is_cancellable x.status in
      let updated = d.update_where id able (cancelled now) s in
      elim (Bool-cases (is_cancellable e.status)) [
        | inl can ↦ elim (Bool-cases (permits e.status skipped)) [
          | inl may ↦
              let (reply, stored) = law.update_hit id able (cancelled now) e s here can refl may in
              let move : IsMoved e (cancelled now e) =
                (cancelled-Move e.status can may, refl, refl, λ h. h) in
              subst (IsStep e s) (sym (cancel_reply-state updated))
                (inr (cancelled now e, stored, move))
          | inr refused ↦
              let (reply, kept) = law.update_refused id able (cancelled now) e s here can refused in
              inl (cancel_reply-state updated ∙ kept)
        ]
        | inr cannot ↦
            let (reply, kept) = law.update_miss id able (cancelled now) e s here cannot in
            inl (cancel_reply-state updated ∙ kept)
      ]
  operation-IsStep retries e s here =
      subst (λ found. IsStep e s (retry_found d now found s).0) (sym (law.find_row id s e here))
        (retry_tested-IsStep _ _ e s here refl refl)

-- Operations one after another on the execution `id`, each with its time.
pub operate_all :
    (d : Database) → (TaskProof → Option Text) → Text → List (ℕ × Operation) → d.Store → d.Store
operate_all d marshal id [] s = s
operate_all d marshal id ((now, op) ∷ ops) s =
    operate_all d marshal id ops (operate d marshal id now op s)

-- IsStep one after another.
pub data MovesTo : Status → Status → Type 0 where
  stay : (s : Status) → MovesTo s s
  move : (s t u : Status) → Move s t → MovesTo t u → MovesTo s u

module _ (d : Database) (law : Lawful d) (marshal : TaskProof → Option Text) (id : Text) where
  -- From a row within its limit, any sequence of operations leaves a row with the same idempotency
  -- key and limit, still within the limit, whose status is reached by moves of the status machine.
  pub operations_follow :
      (ops : List (ℕ × Operation)) (e : TaskExecution) (s : d.Store)
      → d.row s id ≡ some e
      → e.retry_count ≤ e.max_retries
      → (e' : TaskExecution) × (d.row (operate_all d marshal id ops s) id ≡ some e')
        × MovesTo e.status e'.status
        × (e'.idempotency_key ≡ e.idempotency_key)
        × (e'.max_retries ≡ e.max_retries)
        × (e'.retry_count ≤ e'.max_retries)
  unfolding operate_all
  operations_follow [] e s here bound = (e, here, stay e.status, refl, refl, bound)
  operations_follow ((now, op) ∷ ops) e s here bound =
      elim (operation-IsStep d law marshal id now op e s here) [
        | inl same ↦ operations_follow ops e _ (ap (λ s'. d.row s' id) same ∙ here) bound
        | inr (e1, there, (step, is_key, limit, bounded)) ↦
            let (e', last, path, key', limit', bound') =
              operations_follow ops e1 _ there (bounded bound) in
            (e', last, move _ _ _ step path, key' ∙ is_key, limit' ∙ limit, bound')
      ]

abbrev pub is_final : Status → Bool
is_final done = true
is_final skipped = true
is_final _ = false

Move-not_final : (s t : Status) → Move s t → is_final s ≡ false
Move-not_final _ _ finish = refl
Move-not_final _ _ skip = refl
Move-not_final _ _ restart = refl

module _ (d : Database) (law : Lawful d) (marshal : TaskProof → Option Text) (id : Text) where
  -- Once an execution is done or skipped, no sequence of operations changes the table.
  pub final_untouched :
      (ops : List (ℕ × Operation)) (e : TaskExecution) (s : d.Store)
      → d.row s id ≡ some e
      → is_final e.status ≡ true
      → operate_all d marshal id ops s ≡ s
  unfolding operate_all
  final_untouched [] e s here final = refl
  final_untouched ((now, op) ∷ ops) e s here final =
      elim (operation-IsStep d law marshal id now op e s here) [
        | inl same ↦ final_untouched ops e _ (ap (λ s'. d.row s' id) same ∙ here) final ∙ same
        | inr (e1, there, (step, is_key, limit, bounded)) ↦
            let stays : is_final e.status ≡ false = Move-not_final _ _ step in cc
      ]
