-- ===== src/Throttle/Exclusion.antt =====
-- The locks of the services and those of locks.go stand under the same keys for accounts and wallets.
use web3airdrop_os.Base.{
  ℕ, ◌-◌, ◌<◌, ◌≡◌, ◌⊎◌, inl, inr, refl, List, arith, subst, sym, All, ok, err,
}
use web3airdrop_os.Base.Text.{Text, text_eq_iff}
use web3airdrop_os.Redis.Keyspace.{apply}
use web3airdrop_os.Redis.{Redis, Lawful}
use web3airdrop_os.Locks as Locks
use web3airdrop_os.Locks.{ResourceType, DistributedLock, resource_text}
use web3airdrop_os.Locks.Exclusion.{Event, IsForeign, total_duration, Holds, run, run-Holds}
use web3airdrop_os.Locks.Guarantees.{acquire_ok, acquire_held}
use web3airdrop_os.Throttle.Locking.{
  LockType, lock_not_acquired, type_text, lock_key, Lock, acquire_lock,
}

-- The resources that both sides lock.
pub data Shared : Type 0 where
  account wallet : Shared

abbrev pub lock_type : Shared → LockType
lock_type account = LockType.account
lock_type wallet = LockType.wallet

abbrev pub resource : Shared → ResourceType
resource account = ResourceType.account
resource wallet = ResourceType.wallet

lock_key_same :
    (x : Shared) (id : Text) → lock_key (lock_type x) id ≡ Locks.lock_key (resource x) id
unfolding lock_key type_text Locks.lock_key resource_text
lock_key_same account id = refl
lock_key_same wallet id = refl

module _ (r : Redis) (law : Lawful r) where
  open r use {Store, view}

  acquire_lock_ok :
      (type : LockType) (id token : Text) (t now : ℕ) (s s' : Store) (l : Lock)
      → 0 < t
      → acquire_lock r type id t token now s ≡ (s', ok l)
      → Holds (view s') (lock_key type id) token t
  unfolding acquire_lock apply
  acquire_lock_ok type id token t now s s' l positive h =
      let k = lock_key type id in
      ground
        (arith, law.set_nx_view k token t s positive, law.set_nx_reply k token t s, text_eq_iff k k)

  acquire_lock_held :
      (type : LockType) (id token mine : Text) (t now left : ℕ) (s : Store)
      → Holds (view s) (lock_key type id) mine left
      → (acquire_lock r type id t token now s).1 ≡ err lock_not_acquired
  unfolding acquire_lock
  acquire_lock_held type id token mine t now left s h =
      ground (arith, law.set_nx_reply (lock_key type id) token t s)

  held :
      (x : Shared) (id token : Text) (t now : ℕ) (s s' : Store)
      → 0 < t
      → ((l : Lock) × (acquire_lock r (lock_type x) id t token now s ≡ (s', ok l)))
        ⊎ ((l : DistributedLock) × (Locks.acquire r (resource x) id t token now s ≡ (s', ok l)))
      → Holds (view s') (Locks.lock_key (resource x) id) token t
  held x id token t now s s' positive (inl (l, h)) =
      subst (λ k. Holds (view s') k token t) (lock_key_same x id)
        (acquire_lock_ok (lock_type x) id token t now s s' l positive h)
  held x id token t now s s' positive (inr (l, h)) =
      acquire_ok r law (resource x) id token t now s s' l positive h

  -- An account or a wallet that is locked by a service or by a job is locked for both: whatever the
  -- clients of locks.go do with other tokens, and as long as less time passes than the time to live,
  -- neither of the two acquires it.
  pub services_and_jobs_exclude :
      (x : Shared) (id token other : Text) (t now t' now' : ℕ) (s s' : Store) (es : List Event)
      → ((l : Lock) × (acquire_lock r (lock_type x) id t token now s ≡ (s', ok l)))
        ⊎ ((l : DistributedLock) × (Locks.acquire r (resource x) id t token now s ≡ (s', ok l)))
      → All (IsForeign token) es
      → total_duration es < t
      → ((acquire_lock r (lock_type x) id t' other now' (run r es s')).1 ≡ err lock_not_acquired)
        × ((Locks.acquire r (resource x) id t' other now' (run r es s')).1
            ≡ err Locks.lock_not_acquired)
  services_and_jobs_exclude x id token other t now t' now' s s' es h foreign short =
      let still =
        run-Holds r law es (Locks.lock_key (resource x) id) token t s' foreign short
          (held x id token t now s s' (omega arith) h) in
      let left = t - total_duration es in
      (
        acquire_lock_held (lock_type x) id other token t' now' left (run r es s')
            (subst (λ k. Holds (view (run r es s')) k token left) (sym (lock_key_same x id)) still),
        acquire_held r law (resource x) id other token t' now' left (run r es s') still,
      )
