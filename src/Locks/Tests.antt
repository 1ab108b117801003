-- ===== src/Locks/Tests.antt =====
-- Runs of the locks on the server in memory, and the guarantees at concrete inputs.
use web3airdrop_os.Base.{
  ℕ, ◌*◌, ◌≡◌, ◌≢◌, ◌≤◌, ◌⊎◌, refl, sym, ◌∙◌, Outcome, List, [], ◌∷◌, arith, ok, err, ap, false,
  some, Option, none, Call,
}
use web3airdrop_os.Base.Text.{Text, codes, text_eq, text_ne}
use web3airdrop_os.Redis.Keyspace.{View, Entry, apply, age}
use web3airdrop_os.Memory.{memory, memory-Lawful, empty_store}
use web3airdrop_os.Locks.{
  account, DistributedLock, Error, context_done, lock_not_acquired, lock_not_owned, lock_key,
  acquire, release, extend, with_lock, resource_text,
}
use web3airdrop_os.Locks.Exclusion.{Event, acquires, releases, elapses, Holds, run}
use web3airdrop_os.Locks.Guarantees.{
  held_lock_excludes, stale_handle_refused, expired_lock_free, with_lock_releases, holder_extends,
}
use web3airdrop_os.Locks.Keys.{lock_key_injective}
use web3airdrop_os.Locks.Retry.{Turn, acquire_with_retry, acquire_with_retry_ends, GoOn, EndsAt}

abbrev mine : Text
mine = codes "t1"

abbrev theirs : Text
theirs = codes "t2"

abbrev id : Text
id = codes "a"

abbrev stored : Option Entry → Text
stored none = []
stored (some e) = e.value

abbrev handle : Text → DistributedLock
handle token = record { key = lock_key account id; token = token; expires_at = 1050 }

abbrev locked : View
locked = (acquire memory account id 1000 mine 50 empty_store).0

locked_lem : acquire memory account id 1000 mine 50 empty_store ≡ (locked, ok (handle mine))
unfolding acquire
locked_lem = refl

locked-Holds : Holds locked (lock_key account id) mine 1000
unfolding acquire lock_key resource_text apply text_eq
locked-Holds = refl

mine≢theirs : theirs ≢ mine
unfolding text_eq
mine≢theirs = text_ne theirs mine refl

abbrev others : List Event
others = acquires account id 9 theirs 60 ∷ elapses 500 ∷ releases (handle theirs) ∷ elapses 400 ∷ []

held_lock_excludes_example :
    ((acquire memory account id 70 theirs 950 (run memory others locked)).1 ≡ err lock_not_acquired)
    × ((release memory (handle mine) (run memory others locked)).1 ≡ ok tt)
held_lock_excludes_example =
    held_lock_excludes memory memory-Lawful account id mine theirs 1000 50 70 950 empty_store locked
      (handle mine) others locked_lem (tt, (tt, (mine≢theirs, (tt, tt)))) (omega arith)

stale_handle_refused_example :
    ((release memory (handle theirs) locked).1 ≡ err lock_not_owned)
    × ((extend memory (handle theirs) 5 60 locked).1 ≡ err Error.lock_expired)
    × ((release memory (handle theirs) locked).0 ≡ locked)
    × ((extend memory (handle theirs) 5 60 locked).0 ≡ locked)
stale_handle_refused_example =
    stale_handle_refused memory memory-Lawful (handle theirs) 5 60 locked
      (λ left h. mine≢theirs (ap stored (sym h ∙ locked-Holds)))

expired_lock_free_example :
    (acquire memory account id 70 theirs 2000 (age 1000 locked)).1
    ≡ ok (record { key = lock_key account id; token = theirs; expires_at = 2070 })
expired_lock_free_example =
    expired_lock_free memory memory-Lawful account id mine theirs 1000 50 70 2000 1000 empty_store
      locked (handle mine) (omega arith) locked_lem (omega arith)

holder_extends_example :
    ((extend memory (handle mine) 30 60 locked).1 ≡ ok (record (handle mine) { expires_at = 90 }))
    × Holds (extend memory (handle mine) 30 60 locked).0 (lock_key account id) mine 30
holder_extends_example =
    holder_extends memory memory-Lawful (handle mine) 30 60 1000 locked (omega arith) locked-Holds

-- The lock's time to live runs out while `fn` works.
abbrev slow : Call View Error (Unit {0})
slow s = (age 2000 s, err context_done)

with_lock_releases_example :
    let k = lock_key account id in
    let after = with_lock memory account id 1000 mine 50 slow empty_store in
    (after.1 ≡ err context_done)
    × ((after.0.strings k ≡ none)
        ⊎ (((left : ℕ) → ¬ Holds (age 2000 locked) k mine left) × (after.0 ≡ age 2000 locked)))
with_lock_releases_example =
    with_lock_releases memory memory-Lawful account id mine 1000 50 slow empty_store locked
      (handle mine) locked_lem

lock_key_injective_example : (account ≡ account) × (id ≡ id)
lock_key_injective_example = lock_key_injective account account id id refl

-- The lock is taken; the clock of round `j` reads `60 * j`, and time passes while the loop waits.
abbrev rounds : ℕ → Turn View
rounds j = record {
  token = theirs;
  acquired_at = 60 * j;
  checked_at = 60 * j;
  cancelled = false;
  elsewhere = age;
}

acquire_with_retry_ends_example :
    let loop = acquire_with_retry memory account id 70 rounds 0 100 4 locked in
    (result : View × Outcome Error DistributedLock) × (loop ≡ some result)
    × (j : ℕ) × (j ≤ 3)
    × GoOn memory account id 70 rounds 100 locked j
    × EndsAt memory account id 70 rounds 100 locked j result
acquire_with_retry_ends_example =
    acquire_with_retry_ends memory account id 70 rounds memory-Lawful 0 100 3 locked
      (λ j. omega arith) (omega arith) (omega arith)
