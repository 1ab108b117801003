-- ===== src/Locks.antt =====
-- backend/internal/locks/locks.go: locks on Redis keys. Each method takes the store and the clock's
-- reading; `uuid.New().String()` is the argument `token`.
pub mod Exclusion
pub mod Guarantees
pub mod Keys
pub mod Retry
mod Tests
use web3airdrop_os.Base.{
  ℕ, suc, ◌+◌, ◌*◌, ◌≡◌, Bool, true, false, Option, none, some, ◌++◌, ltb, if◌then◌else◌, Outcome,
  ok, err, map_err, Call, ◌>>=◌, return, throw,
}
use web3airdrop_os.Base.Text.{Text, text_eq, codes}
use web3airdrop_os.Redis.Keyspace.{Cmd}
use web3airdrop_os.Redis.{Redis, Fault}

pub data Error : Type 0 where
  lock_not_acquired lock_expired lock_not_owned : Error
  redis_error : Fault → Error
  context_done : Error

pub data ResourceType : Type 0 where
  account wallet task browser campaign : ResourceType

unfoldable pub resource_text : ResourceType → Text
resource_text account = codes "account"
resource_text wallet = codes "wallet"
resource_text task = codes "task"
resource_text browser = codes "browser"
resource_text campaign = codes "campaign"

-- Of `client` and the manager's Redis handle there is one, the argument `r` below.
pub record DistributedLock : Type 0 where
  pub key : Text
  pub token : Text
  pub expires_at : ℕ

abbrev pub key_prefix : Text
key_prefix = codes "web3airdropos:lock:"

unfoldable pub lock_key : ResourceType → Text → Text
lock_key type id = key_prefix ++ (resource_text type ++ (codes ":" ++ id))

abbrev pub acquired : DistributedLock → Outcome Fault Bool → Outcome Error DistributedLock
acquired lock (err e) = err (redis_error e)
acquired lock (ok false) = err lock_not_acquired
acquired lock (ok true) = ok lock

-- What `script.Run` of the two scripts gives, as the methods read it.
abbrev pub scripted : Error → Outcome Fault ℕ → Outcome Error (Unit {0})
scripted denied (err e) = err (redis_error e)
scripted denied (ok ℕ.zero) = err denied
scripted denied (ok (suc n)) = ok tt

abbrev pub owns : Text → Option Text → Bool
owns token none = false
owns token (some value) = text_eq value token

abbrev pub is_locked_reply : Outcome Fault Bool → Outcome Error Bool
is_locked_reply = map_err redis_error

abbrev pub ttl_or_zero : Outcome Fault (Option ℕ) → Outcome Error ℕ
ttl_or_zero (err e) = err (redis_error e)
ttl_or_zero (ok none) = ok 0
ttl_or_zero (ok (some t)) = ok t

module _ (r : Redis) where
  open r use {Store, set_nx, get, write, exists, ttl}

  unfoldable pub acquire : ResourceType → Text → ℕ → Text → ℕ → Call Store Error DistributedLock
  acquire type id t token now s =
      let (s', reply) = set_nx (lock_key type id) token t s in
      (s', acquired (record { key = lock_key type id; token = token; expires_at = now + t }) reply)

  unfoldable pub is_locked : ResourceType → Text → Store → Outcome Error Bool
  is_locked type id s = is_locked_reply (exists (lock_key type id) s)

  unfoldable pub get_lock_ttl : ResourceType → Text → Store → Outcome Error ℕ
  get_lock_ttl type id s = ttl_or_zero (ttl (lock_key type id) s)

  -- The Lua scripts: the command is sent if the key holds the token, and 0 is returned if not.
  unfoldable pub if_owned : DistributedLock → Cmd → Store → Store × Outcome Fault ℕ
  if_owned l c s = elim (get l.key s) [
    | err e ↦ (s, err e)
    | ok value ↦ if owns l.token value then write c s else (s, ok 0)
  ]

  unfoldable pub release : DistributedLock → Call Store Error (Unit {0})
  unfolding if_owned
  release l s =
      let (s', reply) = if_owned l (Cmd.del l.key) s in (s', scripted lock_not_owned reply)

  -- A lock that is extended has a new local deadline: the result is the changed `*l`.
  abbrev pub extended : DistributedLock → Outcome Error (Unit {0}) → Outcome Error DistributedLock
  extended l (ok _) = ok l
  extended l (err e) = err e

  unfoldable pub extend : DistributedLock → ℕ → ℕ → Call Store Error DistributedLock
  unfolding if_owned
  extend l t now s =
      let (s', reply) = if_owned l (Cmd.pexpire l.key t) s in
      (s', extended (record l { expires_at = now + t }) (scripted lock_expired reply))

  abbrev pub is_expired : DistributedLock → ℕ → Bool
  is_expired l now = ltb l.expires_at now

  -- `defer lock.Release(ctx)` runs when `fn` has returned, and its error is dropped.
  abbrev pub then_release :
      {E A : Type 0} → DistributedLock → Store × Outcome E A → Store × Outcome E A
  then_release l (s, result) = ((release l s).0, result)

  unfoldable pub with_lock :
      ResourceType → Text → ℕ → Text → ℕ → Call Store Error (Unit {0}) → Call Store Error (Unit {0})
  with_lock type id t token now fn s =
      let (s', reply) = acquire type id t token now s in
      elim reply [ err e ↦ (s', err e) | ok lock ↦ then_release lock (fn s') ]

  unfoldable pub lock_account : Text → ℕ → Text → ℕ → Call Store Error DistributedLock
  lock_account = acquire account

  unfoldable pub lock_wallet : Text → ℕ → Text → ℕ → Call Store Error DistributedLock
  lock_wallet = acquire wallet
