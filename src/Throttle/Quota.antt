-- ===== src/Throttle/Quota.antt =====
-- `CheckRateLimit`, `RecordAction`, `GetRemainingQuota` and `WaitForQuota`. Times are milliseconds.
-- `decimal` is `fmt.Sprintf("%d", _)`.
use web3airdrop_os.Base.{
  ℕ, zero, suc, ◌+◌, ◌-◌, ◌*◌, Bool, true, false, Option, none, some, [], ◌∷◌, ◌++◌, ltb,
  if◌then◌else◌, Outcome, ok, err, map_err, Call, ◌>>=◌, ask, return,
}
use web3airdrop_os.Base.Text.{Text, codes, text_eq}
use web3airdrop_os.Redis.Keyspace.{Cmd}
use web3airdrop_os.Redis.{Redis, Fault}
use web3airdrop_os.Throttle.Locking.{Error, rate_limited, context_done, redis_error, key_prefix}

pub record RateLimitConfig : Type 0 where
  pub window : ℕ
  pub max_tokens : ℕ
  pub burst_size : ℕ

abbrev pub default_config : RateLimitConfig
default_config = record { window = 60000; max_tokens = 30; burst_size = 5 }

unfoldable pub default_rate_limits : Text → RateLimitConfig
default_rate_limits platform =
    if text_eq platform (codes "farcaster")
    then record { window = 60000; max_tokens = 20; burst_size = 5 }
    else if text_eq platform (codes "telegram")
    then record { window = 1000; max_tokens = 25; burst_size = 5 }
    else if text_eq platform (codes "twitter")
    then record { window = 15 * 60000; max_tokens = 15; burst_size = 0 }
    else if text_eq platform (codes "discord")
    then record { window = 60000; max_tokens = 50; burst_size = 10 }
    else default_config

unfoldable pub quota_key : Text → Text → Text
quota_key platform account_id =
    key_prefix ++ (codes "ratelimit:" ++ (platform ++ (codes ":" ++ account_id)))

abbrev pub max_allowed : RateLimitConfig → ℕ
max_allowed c = c.max_tokens + c.burst_size

module _ (r : Redis) (decimal : ℕ → Text) where
  open r use {Store, write, zcard, zcount, pipeline}

  -- The pipeline of the two commands, the second with a reply.
  unfoldable pub check_rate_limit : Text → Text → ℕ → Call Store Error Bool
  check_rate_limit platform account_id now = do
    let c = default_rate_limits platform
    let key = quota_key platform account_id
    _ ← λ s.
        let (s', reply) = write (Cmd.zrem_range key (now - c.window)) s in
        (s', map_err redis_error reply)
    count ← ask (λ s. map_err redis_error (zcard key s))
    return (ltb count (max_allowed c))

  unfoldable pub record_action : Text → Text → ℕ → Call Store Error (Unit {0})
  record_action platform account_id now s =
      let c = default_rate_limits platform in
      let key = quota_key platform account_id in
      let (s', reply) =
        pipeline (Cmd.zadd key now (decimal now) ∷ Cmd.pexpire key (c.window * 2) ∷ []) s in
      (s', map_err redis_error reply)

  -- The difference is negative where the log is longer than the limit, and then set to 0.
  abbrev pub remaining : ℕ → Outcome Fault ℕ → Outcome Error ℕ
  remaining max_tokens (ok count) = ok (max_tokens - count)
  remaining max_tokens (err e) = err (redis_error e)

  unfoldable pub get_remaining_quota : Text → Text → ℕ → Store → Outcome Error ℕ
  get_remaining_quota platform account_id now s =
      let c = default_rate_limits platform in
      remaining c.max_tokens (zcount (quota_key platform account_id) (now - c.window) now s)

  -- One round of the wait: the two readings of the clock, whether the context is done, and what
  -- becomes of the store in half a second.
  pub record Round : Type 0 where
    pub tested_at : ℕ
    pub checked_at : ℕ
    pub cancelled : Bool
    pub elsewhere : Store → Store

  abbrev pub after_check :
      Round
      → Store
      → Outcome Error Bool
      → Option (Store × Outcome Error (Unit {0}))
      → Option (Store × Outcome Error (Unit {0}))
  after_check round s (err e) rest = some (s, err e)
  after_check round s (ok true) rest = some (s, ok tt)
  after_check round s (ok false) rest = if round.cancelled then some (s, err context_done) else rest

  unfoldable pub wait_rounds :
      Text → Text → (ℕ → Round) → ℕ → ℕ → ℕ → Store → Option (Store × Outcome Error (Unit {0}))
  wait_rounds platform account_id rounds deadline zero i s = none
  wait_rounds platform account_id rounds deadline (suc fuel) i s =
      let (s', reply) = check_rate_limit platform account_id (rounds i).checked_at s in
      let rest =
        wait_rounds platform account_id rounds deadline fuel (suc i) ((rounds i).elsewhere s') in
      if ltb (rounds i).tested_at deadline
      then after_check (rounds i) s' reply rest
      else some (s, err rate_limited)

  unfoldable pub wait_for_quota :
      Text → Text → (ℕ → Round) → ℕ → ℕ → ℕ → Store → Option (Store × Outcome Error (Unit {0}))
  unfolding wait_rounds
  wait_for_quota platform account_id rounds started max_wait fuel s =
      wait_rounds platform account_id rounds (started + max_wait) fuel 0 s
