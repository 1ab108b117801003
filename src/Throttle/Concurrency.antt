-- ===== src/Throttle/Concurrency.antt =====
-- `CheckGlobalConcurrency`, `IncrementConcurrency` and `DecrementConcurrency`.
use web3airdrop_os.Base.{
  ℕ, zero, suc, ◌+◌, ◌≤◌, ◌≡◌, refl, ap, ◌∙◌, Bool, true, false, Option, none, some, [], ◌∷◌, ◌++◌,
  arith, ltb, Outcome, ok, err, map_err, Call,
}
use web3airdrop_os.Base.Text.{Text, codes, text_eq_self}
use web3airdrop_os.Redis.Keyspace.{
  Cmd, Count, up, down, Counter, apply, apply_all, count_of, counter_left, counter_step, count_succ,
  count_pred, age, age_counter,
}
use web3airdrop_os.Redis.{Redis, Lawful, Fault}
use web3airdrop_os.Throttle.Locking.{Error, redis_error, key_prefix}

unfoldable pub concurrency_key : Text → Text
concurrency_key user_id = key_prefix ++ (codes "concurrency:" ++ user_id)

-- `count < maxConcurrent`; a key that is missing counts as 0.
abbrev pub is_below : ℕ → Option Count → Bool
is_below max none = ltb 0 max
is_below max (some (up n)) = ltb n max
is_below max (some (down zero)) = ltb 0 max
is_below max (some (down (suc n))) = true

abbrev count_or_zero : Option Count → Count
count_or_zero none = up 0
count_or_zero (some n) = n

begun-count :
    (o : Option Counter)
    → count_of (counter_left 300000 (counter_step count_succ o))
      ≡ some (count_succ (count_or_zero (count_of o)))
begun-count none = refl
begun-count (some c) = refl

ended-count :
    (o : Option Counter)
    → count_of (counter_step count_pred o) ≡ some (count_pred (count_or_zero (count_of o)))
ended-count none = refl
ended-count (some c) = refl

expired_count :
    (d : ℕ) (o : Option Counter)
    → ltb d 300000 ≡ false
    → count_of (age_counter d (counter_left 300000 (counter_step count_succ o))) ≡ none
expired_count d none h = ground (arith, h)
expired_count d (some c) h = ground (arith, h)

-- Five minutes.
abbrev pub cleanup_after : ℕ
cleanup_after = 300000

module _ (r : Redis) where
  open r use {Store, view, get_count, pipeline, write}

  abbrev pub below_reply : ℕ → Outcome Fault (Option Count) → Outcome Error Bool
  below_reply max (ok count) = ok (is_below max count)
  below_reply max (err e) = err (redis_error e)

  unfoldable pub check_global_concurrency : Text → ℕ → Store → Outcome Error Bool
  check_global_concurrency user_id max s = below_reply max (get_count (concurrency_key user_id) s)

  unfoldable pub increment_concurrency : Text → Call Store Error (Unit {0})
  increment_concurrency user_id s =
      let key = concurrency_key user_id in
      let (s', reply) = pipeline (Cmd.incr key ∷ Cmd.pexpire key cleanup_after ∷ []) s in
      (s', map_err redis_error reply)

  abbrev pub sent : Store × Outcome Fault ℕ → Store × Outcome Error (Unit {0})
  sent (s, ok n) = (s, ok tt)
  sent (s, err e) = (s, err (redis_error e))

  unfoldable pub decrement_concurrency : Text → Call Store Error (Unit {0})
  decrement_concurrency user_id s = sent (write (Cmd.decr (concurrency_key user_id)) s)

  sent-state : (o : Store × Outcome Fault ℕ) → (sent o).0 ≡ o.0
  sent-state (s, ok n) = refl
  sent-state (s, err e) = refl

  -- Operations that begin one after another.
  pub begins : Text → ℕ → Store → Store
  begins user_id zero s = s
  begins user_id (suc n) s = begins user_id n (increment_concurrency user_id s).0

  module _ (law : Lawful r) where
    abbrev pub counter : Text → Store → Option Count
    counter user_id s = count_of ((view s).counters (concurrency_key user_id))

    pub check_lem :
        (user_id : Text) (max : ℕ) (s : Store)
        → check_global_concurrency user_id max s ≡ ok (is_below max (counter user_id s))
    unfolding check_global_concurrency
    check_lem user_id max s = ap (below_reply max) (law.get_count_reply (concurrency_key user_id) s)

    pub increment-counter :
        (user_id : Text) (s : Store)
        → (view (increment_concurrency user_id s).0).counters (concurrency_key user_id)
          ≡ counter_left cleanup_after
              (counter_step count_succ ((view s).counters (concurrency_key user_id)))
    unfolding increment_concurrency apply apply_all
    increment-counter user_id s =
        let key = concurrency_key user_id in
        let cs = Cmd.incr key ∷ Cmd.pexpire key cleanup_after ∷ [] in
        ap (λ w. w.counters key) (law.pipeline_view cs s) ∙ ground (arith, text_eq_self key)

    pub decrement-counter :
        (user_id : Text) (s : Store)
        → (view (decrement_concurrency user_id s).0).counters (concurrency_key user_id)
          ≡ counter_step count_pred ((view s).counters (concurrency_key user_id))
    unfolding decrement_concurrency apply
    decrement-counter user_id s =
        let key = concurrency_key user_id in
        let o = write (Cmd.decr key) s in
        ap (λ v. (view v).counters key) (sent-state o)
        ∙ ap (λ w. w.counters key) (law.write_view (Cmd.decr key) s)
        ∙ ground (arith, text_eq_self key)

    -- The count after an operation begins, and after one ends.
    begin-counter :
        (user_id : Text) (s : Store) (o : Option Count)
        → counter user_id s ≡ o
        → counter user_id (increment_concurrency user_id s).0 ≡ some (count_succ (count_or_zero o))
    begin-counter user_id s o h =
        ap count_of (increment-counter user_id s)
        ∙ begun-count ((view s).counters (concurrency_key user_id))
        ∙ ap (λ x. some (count_succ (count_or_zero x))) h

    end-counter :
        (user_id : Text) (s : Store) (o : Option Count)
        → counter user_id s ≡ o
        → counter user_id (decrement_concurrency user_id s).0 ≡ some (count_pred (count_or_zero o))
    end-counter user_id s o h =
        ap count_of (decrement-counter user_id s)
        ∙ ended-count ((view s).counters (concurrency_key user_id))
        ∙ ap (λ x. some (count_pred (count_or_zero x))) h

    begins-up :
        (user_id : Text) (m n : ℕ) (s : Store)
        → counter user_id s ≡ some (up m)
        → counter user_id (begins user_id n s) ≡ some (up (m + n))
    unfolding begins
    begins-up user_id m zero s h = h ∙ ap (λ k. some (up k)) (omega arith)
    begins-up user_id m (suc n) s h =
        begins-up user_id (suc m) n (increment_concurrency user_id s).0
          (begin-counter user_id s (some (up m)) h)
        ∙ ap (λ k. some (up k)) (omega arith)

    elapsed-counter :
        (user_id : Text) (d : ℕ) (s : Store)
        → counter user_id (r.elapse d s)
          ≡ count_of (age_counter d ((view s).counters (concurrency_key user_id)))
    unfolding age
    elapsed-counter user_id d s =
        ap (λ w. count_of (w.counters (concurrency_key user_id))) (law.elapse_view d s)

    below_negative :
        (user_id : Text) (max n : ℕ) (s : Store)
        → counter user_id s ≡ some (down 1)
        → is_below max (counter user_id (begins user_id n s)) ≡ ltb n (suc max)
    unfolding begins
    below_negative user_id max zero s h = ap (is_below max) h ∙ ground arith
    below_negative user_id max (suc n) s h =
        ap (is_below max) (
          begins-up user_id 0 n (increment_concurrency user_id s).0
            (begin-counter user_id s (some (down 1)) h))
        ∙ ground arith

    -- If an operation runs until the counter has expired, its end leaves the count at -1, and from
    -- then on one operation more than `max` is admitted.
    pub late_end_admits_more :
        (user_id : Text) (max d n : ℕ) (s : Store)
        → counter user_id s ≡ none
        → cleanup_after ≤ d
        → let expired = r.elapse d (increment_concurrency user_id s).0 in
          check_global_concurrency user_id max
            (begins user_id n (decrement_concurrency user_id expired).0)
          ≡ ok (ltb n (suc max))
    unfolding begins
    late_end_admits_more user_id max d n s h late =
        let key = concurrency_key user_id in
        let begun = (increment_concurrency user_id s).0 in
        let expired = r.elapse d begun in
        let over : ltb d cleanup_after ≡ false = ground arith in
        let gone : counter user_id expired ≡ none =
          elapsed-counter user_id d begun
          ∙ ap (λ o. count_of (age_counter d o)) (increment-counter user_id s)
          ∙ expired_count d ((view s).counters key) over in
        let negative = end-counter user_id expired none gone in
        check_lem user_id max _
        ∙ ap ok (below_negative user_id max n (decrement_concurrency user_id expired).0 negative)
