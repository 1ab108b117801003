-- ===== src/Throttle/Tests.antt =====
-- The services' locks, quotas and counters on the server in memory.
use web3airdrop_os.Base.{ℕ, ◌≡◌, refl, inl, List, [], ◌∷◌, arith, true, ltb, ok, err, All, length}
use web3airdrop_os.Base.Text.{Text, codes, text_eq}
use web3airdrop_os.Redis.Keyspace.{View}
use web3airdrop_os.Memory.{memory, memory-Lawful, empty_store}
use web3airdrop_os.Locks as Locks
use web3airdrop_os.Locks.Exclusion.{Event, acquires, elapses, run}
use web3airdrop_os.Throttle.Locking.{lock_not_acquired, lock_key, acquire_lock}
use web3airdrop_os.Throttle.Quota.{default_rate_limits}
use web3airdrop_os.Throttle.Concurrency.{
  check_global_concurrency, increment_concurrency, decrement_concurrency, begins,
  late_end_admits_more,
}
use web3airdrop_os.Throttle.Running as Running
use web3airdrop_os.Throttle.Running.{starts, ends, passes, concurrency_counts}
use web3airdrop_os.Throttle.Overshoot.{log, checks, records, checks_reserve_nothing}
use web3airdrop_os.Throttle.Exclusion.{wallet, lock_type, resource, services_and_jobs_exclude}

abbrev user : Text
user = codes "u"

-- Two operations overlap, four minutes pass twice, and a third one starts.
abbrev busy : List Running.Event
busy = starts ∷ passes 240000 ∷ starts ∷ ends ∷ passes 240000 ∷ starts ∷ []

concurrency_counts_example :
    check_global_concurrency memory user 2 (Running.run memory user busy empty_store) ≡ ok (ltb 2 2)
concurrency_counts_example =
    concurrency_counts memory user memory-Lawful 2 busy empty_store refl
      (omega arith, (omega arith, (omega arith, tt)))

late_end_admits_more_example :
    check_global_concurrency memory user 2 (
      begins memory user 2
        (decrement_concurrency memory user
          (memory.elapse 300000 (increment_concurrency memory user empty_store).0)).0)
    ≡ ok (ltb 2 3)
late_end_admits_more_example =
    late_end_admits_more memory memory-Lawful user 2 300000 2 empty_store refl (omega arith)

-- A decimal with one byte.
abbrev decimal : ℕ → Text
decimal n = n ∷ []

decimal_injective : (m n : ℕ) → decimal m ≡ decimal n → m ≡ n
decimal_injective m n h = cc

abbrev platform : Text
platform = codes "twitter"

checks_reserve_nothing_example :
    let (checked, replies) = checks memory decimal platform user 9 2 empty_store in
    All (λ o. o ≡ ok true) replies
    × (length replies ≡ 2)
    × (length (
          log memory decimal platform user
            (records memory decimal platform user (10 ∷ 11 ∷ []) checked))
        ≡ 2)
unfolding default_rate_limits text_eq
checks_reserve_nothing_example =
    checks_reserve_nothing memory decimal platform user memory-Lawful decimal_injective 9
      (10 ∷ 11 ∷ []) empty_store refl (omega arith) (((λ h. absurd (omega arith)), tt), (tt, tt))

abbrev locked : View
locked = (acquire_lock memory (lock_type wallet) user 1000 (codes "a") 5 empty_store).0

locked_lem : acquire_lock memory (lock_type wallet) user 1000 (codes "a") 5 empty_store ≡ (
  locked,
  ok (record { key = lock_key (lock_type wallet) user; token = codes "a"; expires_at = 1005 }),
)
unfolding acquire_lock
locked_lem = refl

abbrev others : List Event
others = acquires Locks.wallet user 9 (codes "b") 6 ∷ elapses 900 ∷ []

services_and_jobs_exclude_example :
    ((acquire_lock memory (lock_type wallet) user 7 (codes "c") 8 (run memory others locked)).1
      ≡ err lock_not_acquired)
    × ((Locks.acquire memory (resource wallet) user 7 (codes "c") 8 (run memory others locked)).1
        ≡ err Locks.lock_not_acquired)
services_and_jobs_exclude_example =
    services_and_jobs_exclude memory memory-Lawful wallet user (codes "a") (codes "c") 1000 5 7 8
      empty_store locked others (inl (_, locked_lem)) (tt, (tt, tt)) (omega arith)
