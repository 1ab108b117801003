-- ===== src/Locks/Retry.antt =====
-- `AcquireWithRetry` and `WithLockRetry`. The loop takes fuel; what the clock, the context and the
-- other clients do in each round is the function `env`.
use web3airdrop_os.Base.{
  ℕ, zero, suc, ◌+◌, ◌*◌, ◌≤◌, ◌<◌, ◌≡◌, refl, ap, sym, Bool, true, false, Option, none, some,
  arith, Outcome, ok, err, if◌then◌else◌, ltb, Call, inl, inr, ◌⊎◌, Bool-cases, Option-cases,
  not_ltb, ltb→lt, subst, ◌^◌, min,
}
use mathlib.Core.Option
use native.Mathlib.Nat.{pow-suc}
use web3airdrop_os.Base.Text.{Text}
use web3airdrop_os.Redis.{Redis, Lawful}
use web3airdrop_os.Locks.{
  ResourceType, DistributedLock, Error, lock_not_acquired, context_done, lock_key, acquire,
  then_release,
}
use web3airdrop_os.Locks.Guarantees.{acquire_free, acquire_held}

-- One round: the token that is drawn, the two readings of the clock, whether the context is done,
-- and what becomes of the store while the loop waits so many milliseconds.
pub record Turn (S : Type 0) : Type 0 where
  pub token : Text
  pub acquired_at : ℕ
  pub checked_at : ℕ
  pub cancelled : Bool
  pub elsewhere : ℕ → S → S

abbrev pub first_interval : ℕ
first_interval = 50

abbrev pub max_retry_interval : ℕ
max_retry_interval = 500

unfoldable pub next_interval : ℕ → ℕ
next_interval i = if ltb max_retry_interval (i * 2) then max_retry_interval else i * 2

next_interval_closed :
    (i wait : ℕ) → wait ≡ min 500 (50 * 2 ^ i) → next_interval wait ≡ min 500 (50 * 2 ^ suc i)
unfolding next_interval
next_interval_closed i wait h = ground (arith, h, pow-suc 2 i)

module _ {S : Type 0} where
  -- After an attempt: return, or go on with the rest of the loop.
  abbrev pub after_attempt :
      ℕ
      → Turn S
      → S
      → Outcome Error DistributedLock
      → Option (S × Outcome Error DistributedLock)
      → Option (S × Outcome Error DistributedLock)
  after_attempt deadline turn s (ok lock) rest = some (s, ok lock)
  after_attempt deadline turn s (err lock_not_acquired) rest =
      if ltb deadline turn.checked_at
      then some (s, err lock_not_acquired)
      else if turn.cancelled
      then some (s, err context_done)
      else rest
  after_attempt deadline turn s (err e) rest = some (s, err e)

module _ (r : Redis) (type : ResourceType) (id : Text) (t : ℕ) where
  open r use {Store, view}

  unfoldable pub attempts :
      (ℕ → Turn Store) → ℕ → ℕ → ℕ → ℕ → Store → Option (Store × Outcome Error DistributedLock)
  attempts env deadline zero i wait s = none
  attempts env deadline (suc fuel) i wait s =
      let (s', reply) = acquire r type id t (env i).token (env i).acquired_at s in
      let rest =
        attempts env deadline fuel (suc i) (next_interval wait) ((env i).elsewhere wait s') in
      after_attempt deadline (env i) s' reply rest

  unfoldable pub acquire_with_retry :
      (ℕ → Turn Store) → ℕ → ℕ → ℕ → Store → Option (Store × Outcome Error DistributedLock)
  acquire_with_retry env started max_wait fuel s =
      attempts env (started + max_wait) fuel 0 first_interval s

  -- `WithLockRetry`: `fn` runs under the lock that the loop returns.
  abbrev pub run_locked :
      Call Store Error (Unit {0})
      → Store × Outcome Error DistributedLock
      → Store × Outcome Error (Unit {0})
  run_locked fn (s, ok l) = then_release r l (fn s)
  run_locked fn (s, err e) = (s, err e)

  pub with_lock_retry :
      (ℕ → Turn Store)
      → ℕ
      → ℕ
      → ℕ
      → Call Store Error (Unit {0})
      → Store
      → Option (Store × Outcome Error (Unit {0}))
  with_lock_retry env started max_wait fuel fn s =
      Option.map (run_locked fn) (acquire_with_retry env started max_wait fuel s)

module _ (r : Redis) (type : ResourceType) (id : Text) (t : ℕ) (env : ℕ → Turn r.Store) where
  open r use {Store, view}

  abbrev Result : Type 0
  Result = Store × Outcome Error DistributedLock

  -- The store at the start of round `j`, if the earlier rounds go on: each makes its attempt and
  -- waits, 50 ms after the first and twice as long after each further one, but 500 ms at most.
  pub store_at : Store → ℕ → Store
  store_at s zero = s
  store_at s (suc j) =
      (env j).elsewhere (min 500 (50 * 2 ^ j))
        (acquire r type id t (env j).token (env j).acquired_at (store_at s j)).0

  -- The attempt of round `j`.
  abbrev pub attempt : Store → ℕ → Result
  attempt s j = acquire r type id t (env j).token (env j).acquired_at (store_at s j)

  -- Each of the first rounds is refused the lock, before the deadline and before it is cancelled.
  abbrev pub GoOn : ℕ → Store → ℕ → Type 0
  GoOn deadline s zero = Unit {0}
  GoOn deadline s (suc j) =
      GoOn deadline s j
      × ((attempt s j).1 ≡ err lock_not_acquired)
      × ((env j).checked_at ≤ deadline)
      × ((env j).cancelled ≡ false)

  -- Round `j` has this result: it gets the lock; or it is refused after the deadline; or it is
  -- refused before, and the context is done.
  abbrev pub EndsAt : ℕ → Store → ℕ → Result → Type 0
  EndsAt deadline s j (s', o) =
      ((l : DistributedLock) × (attempt s j ≡ (s', ok l)) × (o ≡ ok l))
      ⊎ ((attempt s j ≡ (s', err lock_not_acquired))
          × (o ≡ err lock_not_acquired)
          × (deadline < (env j).checked_at))
      ⊎ ((attempt s j ≡ (s', err lock_not_acquired))
          × (o ≡ err context_done)
          × ((env j).checked_at ≤ deadline)
          × ((env j).cancelled ≡ true))

  -- The loop ends, in a round up to the last.
  abbrev Ends : ℕ → Store → ℕ → Option Result → Type 0
  Ends deadline s last end =
      (result : Result) × (end ≡ some result)
      × (j : ℕ) × (j ≤ last)
      × GoOn deadline s j
      × EndsAt deadline s j result

  acquire_cases :
      (law : Lawful r) (token : Text) (now : ℕ) (s : Store)
      → let (s', reply) = acquire r type id t token now s in
        (reply ≡ err lock_not_acquired) ⊎ ((l : DistributedLock) × (reply ≡ ok l))
  acquire_cases law token now s = elim (Option-cases ((view s).strings (lock_key type id))) [
    | inl free ↦ inr (_, acquire_free r law type id token t now s free)
    | inr (e, taken) ↦ inl (acquire_held r law type id token e.value t now e.left s taken)
  ]

  -- A round ends the loop, or the rest of the loop is what comes of it.
  round-Ends :
      (law : Lawful r) (deadline i last : ℕ) (s0 : Store) (rest : Option Result)
      → i ≤ last
      → GoOn deadline s0 i
      → ((env i).checked_at ≤ deadline → GoOn deadline s0 (suc i) → Ends deadline s0 last rest)
      → Ends deadline s0 last
          (after_attempt deadline (env i) (attempt s0 i).0 (attempt s0 i).1 rest)
  round-Ends law deadline i last s0 rest le before later =
      let s' = (attempt s0 i).0 in
      elim (acquire_cases law (env i).token (env i).acquired_at (store_at s0 i)) [
        | inr (l, e) ↦ rw e ((s', ok l), refl, i, le, before, inl (l, (λ k. (s', e k)), refl))
        | inl e ↦ elim (Bool-cases (ltb deadline (env i).checked_at)) [
          | inl late ↦
              rw (e, late)
                (
                  (s', err lock_not_acquired),
                  refl,
                  i,
                  le,
                  before,
                  inr (inl ((λ k. (s', e k)), refl, ltb→lt _ _ late)),
                )
          | inr early ↦ elim (Bool-cases (env i).cancelled) [
            | inl over ↦
                rw (e, early, over)
                  (
                    (s', err context_done),
                    refl,
                    i,
                    le,
                    before,
                    inr (inr ((λ k. (s', e k)), refl, not_ltb _ _ early, over)),
                  )
            | inr going ↦
                rw (e, early, going)
                  (later (not_ltb _ _ early) (before, e, not_ltb _ _ early, going))
          ]
        ]
      ]

  attempts-Ends :
      (law : Lawful r) (deadline fuel i last wait : ℕ) (s0 s : Store)
      → ((j : ℕ) → (env j).checked_at + 50 ≤ (env (suc j)).checked_at)
      → deadline < (env i).checked_at + 50 * fuel
      → i + fuel ≤ last
      → wait ≡ min 500 (50 * 2 ^ i)
      → store_at s0 i ≡ s
      → GoOn deadline s0 i
      → Ends deadline s0 last (attempts r type id t env deadline (suc fuel) i wait s)
  unfolding attempts store_at
  attempts-Ends law deadline zero i last wait s0 s pace h within waits here before =
      subst (λ x. Ends deadline s0 last (attempts r type id t env deadline 1 i wait x)) here
        (round-Ends law deadline i last s0 none (omega arith) before
          (λ early more. absurd (omega arith)))
  attempts-Ends law deadline (suc fuel) i last wait s0 s pace h within waits here before =
      subst
        (λ x. Ends deadline s0 last (attempts r type id t env deadline (suc (suc fuel)) i wait x))
        here
        (round-Ends law deadline i last s0 _ (omega arith) before (λ early more.
          attempts-Ends law deadline fuel (suc i) last (next_interval wait) s0 _ pace
            (omega (arith, pace i)) (omega arith) (next_interval_closed i wait waits)
            (ap (λ w. (env i).elsewhere w (attempt s0 i).0) (sym waits)) more))

  -- If every wait of the loop takes at least its 50 ms by the clock, `AcquireWithRetry` ends within
  -- `max_wait / 50 + 2` rounds, in a round `j` before which every round was refused the lock, before
  -- the deadline and without being cancelled, and waited: 50 ms at first, then twice as long each
  -- time, up to 500 ms. Round `j` gives the result: the lock it acquires; or "not acquired", if it is
  -- refused the lock after the deadline; or the error of the context, if it is refused the lock
  -- before the deadline and the context is done.
  pub acquire_with_retry_ends :
      (law : Lawful r) (started max_wait fuel : ℕ) (s : Store)
      → ((j : ℕ) → (env j).checked_at + 50 ≤ (env (suc j)).checked_at)
      → started ≤ (env 0).checked_at
      → max_wait < 50 * fuel
      → (result : Result) × (acquire_with_retry r type id t env started max_wait (suc fuel) s
          ≡ some result)
        × (j : ℕ) × (j ≤ fuel)
        × GoOn (started + max_wait) s j
        × EndsAt (started + max_wait) s j result
  unfolding acquire_with_retry store_at
  acquire_with_retry_ends law started max_wait fuel s pace begun enough =
      attempts-Ends law (started + max_wait) fuel 0 fuel first_interval s s pace (omega arith)
        (omega arith) refl refl tt
