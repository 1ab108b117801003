-- ===== src/Throttle/Locking.antt =====
-- `AcquireLock`, `TryAcquireLock`, `Release` and `Extend` of the services' rate limiter.
use web3airdrop_os.Base.{
  ℕ, zero, suc, ◌+◌, ◌*◌, Bool, true, false, Option, none, some, ◌++◌, ltb, if◌then◌else◌, Outcome,
  ok, err, Call,
}
use web3airdrop_os.Base.Text.{Text, codes}
use web3airdrop_os.Redis.Keyspace.{Cmd}
use web3airdrop_os.Redis.{Redis, Fault}
use web3airdrop_os.Locks.{owns}
use web3airdrop_os.Locks.Retry.{Turn}

pub data LockType : Type 0 where
  account wallet platform global : LockType

pub data Error : Type 0 where
  lock_not_acquired lock_expired rate_limited context_done : Error
  redis_error : Fault → Error

unfoldable pub type_text : LockType → Text
type_text account = codes "account"
type_text wallet = codes "wallet"
type_text platform = codes "platform"
type_text global = codes "global"

abbrev pub key_prefix : Text
key_prefix = codes "web3airdropos:"

unfoldable pub lock_key : LockType → Text → Text
lock_key type id = key_prefix ++ (codes "lock:" ++ (type_text type ++ (codes ":" ++ id)))

pub record Lock : Type 0 where
  pub key : Text
  pub token : Text
  pub expires_at : ℕ

abbrev pub acquired : Lock → Outcome Fault Bool → Outcome Error Lock
acquired lock (err e) = err (redis_error e)
acquired lock (ok false) = err lock_not_acquired
acquired lock (ok true) = ok lock

-- The reply of a script, where it is read.
abbrev pub extension : Outcome Fault ℕ → Outcome Error (Unit {0})
extension (err e) = err (redis_error e)
extension (ok zero) = err lock_expired
extension (ok (suc n)) = ok tt

abbrev pub unread : Outcome Fault ℕ → Outcome Error (Unit {0})
unread (err e) = err (redis_error e)
unread (ok n) = ok tt

abbrev pub extended : Lock → Outcome Error (Unit {0}) → Outcome Error Lock
extended l (ok _) = ok l
extended l (err e) = err e

abbrev pub first_interval : ℕ
first_interval = 100

-- The interval grows while it is below a second.
unfoldable pub next_interval : ℕ → ℕ
next_interval i = if ltb i 1000 then i * 2 else i

module _ (r : Redis) where
  open r use {Store, set_nx, get, write}

  unfoldable pub acquire_lock : LockType → Text → ℕ → Text → ℕ → Call Store Error Lock
  acquire_lock type id t token now s =
      let (s', reply) = set_nx (lock_key type id) token t s in
      (s', acquired (record { key = lock_key type id; token = token; expires_at = now + t }) reply)

  -- The two Lua scripts.
  unfoldable pub if_owned : Lock → Cmd → Store → Store × Outcome Fault ℕ
  if_owned l c s = elim (get l.key s) [
    | err e ↦ (s, err e)
    | ok value ↦ if owns l.token value then write c s else (s, ok 0)
  ]

  -- A lock that is not owned any more is released without an error.
  unfoldable pub release : Lock → Call Store Error (Unit {0})
  unfolding if_owned
  release l s = let (s', reply) = if_owned l (Cmd.del l.key) s in (s', unread reply)

  unfoldable pub extend : Lock → ℕ → ℕ → Call Store Error Lock
  unfolding if_owned
  extend l t now s =
      let (s', reply) = if_owned l (Cmd.pexpire l.key t) s in
      (s', extended (record l { expires_at = now + t }) (extension reply))

  unfoldable pub account_lock : Text → ℕ → Text → ℕ → Call Store Error Lock
  account_lock = acquire_lock account

  unfoldable pub wallet_lock : Text → ℕ → Text → ℕ → Call Store Error Lock
  wallet_lock = acquire_lock wallet

  -- After an attempt: return, or wait and go on with the rest of the loop.
  abbrev pub after_attempt :
      Turn Store
      → Store
      → Outcome Error Lock
      → Option (Store × Outcome Error Lock)
      → Option (Store × Outcome Error Lock)
  after_attempt turn s (ok lock) rest = some (s, ok lock)
  after_attempt turn s (err lock_not_acquired) rest =
      if turn.cancelled then some (s, err context_done) else rest
  after_attempt turn s (err e) rest = some (s, err e)

  -- The clock is read before each attempt. None is where the fuel runs out.
  unfoldable pub attempts :
      LockType
      → Text
      → ℕ
      → (ℕ → Turn Store)
      → ℕ
      → ℕ
      → ℕ
      → ℕ
      → Store
      → Option (Store × Outcome Error Lock)
  attempts type id t turns deadline zero i wait s = none
  attempts type id t turns deadline (suc fuel) i wait s =
      let (s', reply) = acquire_lock type id t (turns i).token (turns i).acquired_at s in
      let rest =
        attempts type id t turns deadline fuel (suc i) (next_interval wait)
          ((turns i).elsewhere wait s') in
      if ltb (turns i).checked_at deadline
      then after_attempt (turns i) s' reply rest
      else some (s, err lock_not_acquired)

  unfoldable pub try_acquire_lock :
      LockType
      → Text
      → ℕ
      → (ℕ → Turn Store)
      → ℕ
      → ℕ
      → ℕ
      → Store
      → Option (Store × Outcome Error Lock)
  unfolding attempts
  try_acquire_lock type id t turns started max_wait fuel s =
      attempts type id t turns (started + max_wait) fuel 0 first_interval s
