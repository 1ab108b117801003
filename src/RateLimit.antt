-- ===== src/RateLimit.antt =====
-- backend/internal/auth/ratelimit.go: the sliding window limiter. Times are milliseconds of the Unix
-- epoch; the member that the script makes of `now` and `math.random` is the argument `member`.
pub mod Bound
pub mod Window
pub mod Limit
pub mod Wait
pub mod Collision
pub mod Client
mod Tests
use web3airdrop_os.Base.{
  ℕ, ◌+◌, ◌-◌, ◌≡◌, Bool, true, false, Option, none, some, List, [], ◌∷◌, ◌++◌, ltb, if◌then◌else◌,
  Outcome, ok, err, map_err, Call, ◌>>=◌, return,
}
use web3airdrop_os.Base.Text.{Text, codes}
use web3airdrop_os.Redis.Keyspace.{Cmd, Item}
use web3airdrop_os.Redis.{Redis, Fault}

pub record RateLimitConfig : Type 0 where
  pub requests : ℕ
  pub window : ℕ
  pub burst_size : ℕ

abbrev pub minute : ℕ
minute = 60000

abbrev pub rate_limit_default : RateLimitConfig
rate_limit_default = record { requests = 100; window = minute; burst_size = 20 }

abbrev pub rate_limit_auth : RateLimitConfig
rate_limit_auth = record { requests = 5; window = minute; burst_size = 0 }

abbrev pub rate_limit_write : RateLimitConfig
rate_limit_write = record { requests = 30; window = minute; burst_size = 5 }

abbrev pub rate_limit_read : RateLimitConfig
rate_limit_read = record { requests = 200; window = minute; burst_size = 50 }

abbrev pub key_prefix : Text
key_prefix = codes "web3airdropos:ratelimit:"

pub record RateLimitResult : Type 0 where
  pub allowed : Bool
  pub remaining : ℕ
  pub reset_after : ℕ
  pub retry_after : ℕ
  pub limit : ℕ
  pub window : ℕ

-- What the script returns: { allowed, remaining, retry_after }.
pub record Reply : Type 0 where
  pub allowed : Bool
  pub remaining : ℕ
  pub retry_after : ℕ

abbrev pub total_allowed : RateLimitConfig → ℕ
total_allowed c = c.requests + c.burst_size

-- `oldest[2] + window_ms - now`: a request was counted, so its score lies inside the window.
abbrev pub retry_after_of : ℕ → ℕ → Option Item → ℕ
retry_after_of now window none = 0
retry_after_of now window (some i) = i.score + window - now

module _ (r : Redis) where
  open r use {Store, write, zcard, zcount, zrange_first}

  -- A redis.call of the script; an error of one ends the script.
  abbrev call : Cmd → Call Store Fault ℕ
  call = write

  abbrev read : {A : Type 0} → (Store → Outcome Fault A) → Call Store Fault A
  read f s = (s, f s)

  -- The Lua script, in its order.
  unfoldable pub script : Text → ℕ → ℕ → RateLimitConfig → Text → Call Store Fault Reply
  script key now window_start c member = do
    _ ← call (Cmd.zrem_range key window_start)
    current_count ← read (zcard key)
    if ltb current_count (total_allowed c)
        then (do
          _ ← call (Cmd.zadd key now member)
          _ ← call (Cmd.pexpire key c.window)
          return (record {
            allowed = true;
            remaining = total_allowed c - current_count - 1;
            retry_after = 0;
          }))
        else (do
          oldest ← read (zrange_first key)
          return (record {
            allowed = false;
            remaining = 0;
            retry_after = retry_after_of now c.window oldest;
          }))

  abbrev pub result_of : RateLimitConfig → Reply → RateLimitResult
  result_of c reply = record {
    allowed = reply.allowed;
    remaining = reply.remaining;
    reset_after = c.window;
    retry_after = reply.retry_after;
    limit = c.requests + c.burst_size;
    window = c.window;
  }

  -- `now` is past the window, so that `windowStart` is a time of the epoch.
  unfoldable pub check : Text → RateLimitConfig → ℕ → Text → Call Store Fault RateLimitResult
  unfolding script
  check identifier c now member = do
    reply ← script (key_prefix ++ identifier) now (now - c.window) c member
    return (result_of c reply)

  unfoldable pub check_ip : Text → RateLimitConfig → ℕ → Text → Call Store Fault RateLimitResult
  check_ip ip = check (codes "ip:" ++ ip)

  unfoldable pub check_user : Text → RateLimitConfig → ℕ → Text → Call Store Fault RateLimitResult
  check_user user_id = check (codes "user:" ++ user_id)

  unfoldable pub check_endpoint :
      Text → Text → RateLimitConfig → ℕ → Text → Call Store Fault RateLimitResult
  check_endpoint user_id endpoint =
      check (codes "endpoint:" ++ (user_id ++ (codes ":" ++ endpoint)))

  unfoldable pub reset : Text → Call Store Fault ℕ
  reset identifier = write (Cmd.del (key_prefix ++ identifier))

  -- The requests of the last minute.
  unfoldable pub get_stats : Text → ℕ → Store → Outcome Fault ℕ
  get_stats identifier now = zcount (key_prefix ++ identifier) (now - minute) now
