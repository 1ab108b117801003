-- ===== src/Throttle/Running.antt =====
-- The counter of a user's operations, over operations that start and end in any order.
use web3airdrop_os.Base.{
  ℕ, zero, suc, ◌-◌, ◌≤◌, ◌<◌, ◌≡◌, refl, ap, ◌∙◌, Option, none, some, List, [], ◌∷◌, arith, ltb,
  lt→ltb, ok,
}
use web3airdrop_os.Base.Text.{Text}
use web3airdrop_os.Redis.Keyspace.{up, Counter, age, age_counter, count_of}
use web3airdrop_os.Redis.{Redis, Lawful}
use web3airdrop_os.Throttle.Concurrency.{
  concurrency_key, is_below, check_global_concurrency, increment_concurrency, decrement_concurrency,
  increment-counter, decrement-counter, check_lem,
}

-- An operation starts, one ends, and time passes, in milliseconds.
pub data Event : Type 0 where
  starts ends : Event
  passes : ℕ → Event

-- How many operations are running after the events, if `n` are before.
abbrev pub running : ℕ → List Event → ℕ
running n [] = n
running n (starts ∷ es) = running (suc n) es
running n (ends ∷ es) = running (n - 1) es
running n (passes d ∷ es) = running n es

-- Only what runs ends, and less than five minutes pass between two starts, and after the last one.
-- `left` is what remains of the five minutes, none before the first start.
abbrev pub IsTimely : ℕ → Option ℕ → List Event → Type 0
IsTimely n left [] = Unit {0}
IsTimely n left (starts ∷ es) = IsTimely (suc n) (some 300000) es
IsTimely n left (ends ∷ es) = (1 ≤ n) × IsTimely (n - 1) left es
IsTimely n none (passes d ∷ es) = IsTimely n none es
IsTimely n (some t) (passes d ∷ es) = (d < t) × IsTimely n (some (t - d)) es

-- The counter that has `n` and this time left; no counter stands for 0.
abbrev Shows : ℕ → Option ℕ → Option Counter → Type 0
Shows n none o = (o ≡ none) × (n ≡ 0)
Shows n (some t) o = o ≡ some (record { value = up n; left = some t })

Shows-below :
    (max n : ℕ) (left : Option ℕ) (o : Option Counter)
    → Shows n left o
    → is_below max (count_of o) ≡ ltb n max
Shows-below max n none o (h, none_run) = rw (h, none_run) refl
Shows-below max n (some t) o h = rw h refl

module _ (r : Redis) (user_id : Text) where
  open r use {Store, view, elapse}

  pub step : Event → Store → Store
  step starts s = (increment_concurrency r user_id s).0
  step ends s = (decrement_concurrency r user_id s).0
  step (passes d) s = elapse d s

  pub run : List Event → Store → Store
  run [] s = s
  run (e ∷ es) s = run es (step e s)

  module _ (law : Lawful r) where
    abbrev at : Store → Option Counter
    at s = (view s).counters (concurrency_key user_id)

    elapse-counter : (d : ℕ) (s : Store) → at (elapse d s) ≡ age_counter d (at s)
    unfolding age
    elapse-counter d s = ap (λ w. w.counters (concurrency_key user_id)) (law.elapse_view d s)

    start-Shows :
        (n : ℕ) (left : Option ℕ) (s : Store)
        → Shows n left (at s)
        → Shows (suc n) (some 300000) (at (step starts s))
    unfolding step
    start-Shows n none s (h, none_run) = increment-counter r law user_id s ∙ rw (h, none_run) refl
    start-Shows n (some t) s h = increment-counter r law user_id s ∙ rw h refl

    end-Shows :
        (n : ℕ) (left : Option ℕ) (s : Store)
        → 1 ≤ n
        → Shows n left (at s)
        → Shows (n - 1) left (at (step ends s))
    unfolding step
    end-Shows n none s some_run (h, none_run) = absurd (omega arith)
    end-Shows zero (some t) s some_run h = absurd (omega arith)
    end-Shows (suc n) (some t) s some_run h =
        decrement-counter r law user_id s
        ∙ rw h (ap (λ k. some (record { value = up k; left = some t })) (omega arith))

    pass-Shows :
        (n d t : ℕ) (s : Store)
        → d < t
        → Shows n (some t) (at s)
        → Shows n (some (t - d)) (at (step (passes d) s))
    unfolding step
    pass-Shows n d t s early h = elapse-counter d s ∙ rw (h, lt→ltb d t early) refl

    pass-none : (n d : ℕ) (s : Store) → Shows n none (at s) → Shows n none (at (step (passes d) s))
    unfolding step
    pass-none n d s (h, none_run) = (elapse-counter d s ∙ rw h refl, none_run)

    run-Shows :
        (max n : ℕ) (left : Option ℕ) (es : List Event) (s : Store)
        → IsTimely n left es
        → Shows n left (at s)
        → is_below max (count_of (at (run es s))) ≡ ltb (running n es) max
    unfolding run
    run-Shows max n left [] s timely h = Shows-below max n left (at s) h
    run-Shows max n left (starts ∷ es) s timely h =
        run-Shows max (suc n) (some 300000) es (step starts s) timely (start-Shows n left s h)
    run-Shows max n left (ends ∷ es) s (some_run, timely) h =
        run-Shows max (n - 1) left es (step ends s) timely (end-Shows n left s some_run h)
    run-Shows max n none (passes d ∷ es) s timely h =
        run-Shows max n none es (step (passes d) s) timely (pass-none n d s h)
    run-Shows max n (some t) (passes d ∷ es) s (early, timely) h =
        run-Shows max n (some (t - d)) es (step (passes d) s) timely (pass-Shows n d t s early h)

    -- For a user without a counter, after any interleaving of starts, ends and time in which only
    -- running operations end and less than five minutes pass between two starts and after the last
    -- one, the check admits another operation exactly if fewer than `max` are running.
    pub concurrency_counts :
        (max : ℕ) (es : List Event) (s : Store)
        → (view s).counters (concurrency_key user_id) ≡ none
        → IsTimely 0 none es
        → check_global_concurrency r user_id max (run es s) ≡ ok (ltb (running 0 es) max)
    concurrency_counts max es s free timely =
        check_lem r law user_id max (run es s)
        ∙ ap ok (run-Shows max 0 none es s timely (free, refl))
