-- ===== src/RateLimit/Client.antt =====
-- The limiter's HTTP side: the middleware, its headers, and the client's address.
use web3airdrop_os.Base.{
  ℕ, ◌+◌, ◌-◌, ◌/◌, ◌*◌, ◌≤◌, ◌≡◌, ◌≢◌, refl, ap, false, not, Option, none, some, List, [], ◌∷◌,
  ◌++◌, arith, if◌then◌else◌, ◌==◌, Outcome, ok, err, Call, ◌⊎◌, inl, inr, All, Bool-cases, ==_iff,
  ◌%◌, length,
}
use web3airdrop_os.Base.Text.{Text, codes, text_eq}
use web3airdrop_os.Redis.{Redis, Lawful, Fault}
use web3airdrop_os.RateLimit.{
  RateLimitConfig, RateLimitResult, rate_limit_default, minute, key_prefix, total_allowed,
  result_of, check, check_ip,
}
use web3airdrop_os.Redis.Keyspace.{Item}
use web3airdrop_os.RateLimit.Bound.{counted}
use web3airdrop_os.RateLimit.Window.{recent, Agrees}
use web3airdrop_os.RateLimit.Wait.{AreSince, refused}

-- The headers and the address that the middleware reads; a header that is not there reads as "".
pub record HttpRequest : Type 0 where
  pub x_forwarded_for : Text
  pub x_real_ip : Text
  pub remote_addr : Text

abbrev pub comma : ℕ
comma = b','

unfoldable pub before_comma : Text → Text
before_comma [] = []
before_comma (x ∷ xs) = if x == comma then [] else x ∷ before_comma xs

abbrev pub or_else : Text → Text → Text
or_else [] t = t
or_else (x ∷ xs) t = x ∷ xs

abbrev client_ip : Text → HttpRequest → Text
client_ip [] q = or_else q.x_real_ip q.remote_addr
client_ip (x ∷ xs) q = before_comma (x ∷ xs)

unfoldable pub get_client_ip : HttpRequest → Text
unfolding before_comma
get_client_ip q = client_ip q.x_forwarded_for q

-- The rate limit headers, as numbers; `X-RateLimit-Reset` is in seconds of the epoch.
pub record Headers : Type 0 where
  pub limit : ℕ
  pub remaining : ℕ
  pub reset : ℕ
  pub retry_after : Option ℕ

unfoldable pub set_rate_limit_headers : ℕ → RateLimitResult → Headers
set_rate_limit_headers now result = record {
  limit = result.limit;
  remaining = result.remaining;
  reset = (now + result.reset_after) / 1000;
  retry_after = if not result.allowed then some (result.retry_after / 1000) else none;
}

-- The handler answers by itself, or hands the request on with the headers set.
pub data Response : Type 0 where
  internal_error : Response
  too_many_requests : Headers → Response
  next : Headers → Response

abbrev pub respond : ℕ → Outcome Fault RateLimitResult → Response
respond now (err e) = internal_error
respond now (ok result) =
    if not result.allowed
    then too_many_requests (set_rate_limit_headers now result)
    else next (set_rate_limit_headers now result)

abbrev pub platform_rate_limits : Text → Option RateLimitConfig
platform_rate_limits p =
    if text_eq p (codes "farcaster")
    then some (record { requests = 20; window = minute; burst_size = 5 })
    else if text_eq p (codes "twitter")
    then some (record { requests = 15; window = 15 * minute; burst_size = 0 })
    else if text_eq p (codes "telegram")
    then some (record { requests = 25; window = 1000; burst_size = 5 })
    else if text_eq p (codes "discord")
    then some (record { requests = 50; window = minute; burst_size = 10 })
    else none

abbrev pub config_or_default : Option RateLimitConfig → RateLimitConfig
config_or_default none = rate_limit_default
config_or_default (some c) = c

module _ (r : Redis) where
  open r use {Store}

  unfoldable pub check_platform : Text → Text → ℕ → Text → Call Store Fault RateLimitResult
  check_platform platform account_id =
      check r (codes "platform:" ++ (platform ++ (codes ":" ++ account_id)))
        (config_or_default (platform_rate_limits platform))

  unfoldable pub handler : RateLimitConfig → ℕ → Text → HttpRequest → Store → Store × Response
  handler c now member q s =
      let (s', reply) = check_ip r (get_client_ip q) c now member s in (s', respond now reply)

before_comma-All : (t : Text) → All (λ x. (x == comma) ≡ false) (before_comma t)
unfolding before_comma
before_comma-All [] = tt
before_comma-All (x ∷ xs) = elim (Bool-cases (x == comma)) [
  | inl stop ↦ rw stop tt
  | inr more ↦ rw more (more, before_comma-All xs)
]

before_comma-prefix :
    (t : Text) → (before_comma t ≡ t) ⊎ ((rest : Text) × (t ≡ before_comma t ++ (comma ∷ rest)))
unfolding before_comma
before_comma-prefix [] = inl refl
before_comma-prefix (x ∷ xs) = elim (Bool-cases (x == comma)) [
  | inl stop ↦ rw stop (inr (xs, ap (λ y. y ∷ xs) ((==_iff x comma).0 stop)))
  | inr more ↦ rw more (elim (before_comma-prefix xs) [
    | inl same ↦ inl (ap (◌∷◌ x) same)
    | inr (rest, e) ↦ inr (rest, ap (◌∷◌ x) e)
  ])
]

client_ip_lem :
    (h : Text) (q : HttpRequest)
    → h ≢ []
    → All (λ x. (x == comma) ≡ false) (client_ip h q)
      × ((client_ip h q ≡ h) ⊎ ((rest : Text) × (h ≡ client_ip h q ++ (comma ∷ rest))))
client_ip_lem [] q ne = absurd (ne refl)
client_ip_lem (x ∷ xs) q ne = (before_comma-All (x ∷ xs), before_comma-prefix (x ∷ xs))

-- Behind proxies the client is the first entry of a non-empty X-Forwarded-For: the address has no
-- comma, and the header is the address alone, or the address, a comma and more.
pub get_client_ip_forwarded :
    (q : HttpRequest)
    → q.x_forwarded_for ≢ []
    → let ip = get_client_ip q in
      All (λ x. (x == comma) ≡ false) ip
      × ((ip ≡ q.x_forwarded_for) ⊎ ((rest : Text) × (q.x_forwarded_for ≡ ip ++ (comma ∷ rest))))
unfolding get_client_ip
get_client_ip_forwarded q some_header = client_ip_lem q.x_forwarded_for q some_header

module _ (r : Redis) (law : Lawful r) where
  open r use {Store, view}

  -- The Retry-After header is the wait in whole seconds, rounded down. Where the wait is not a
  -- multiple of a second, a client that obeys the header meets a window that is still full.
  pub retry_after_header_early :
      (identifier : Text) (c : RateLimitConfig) (now : ℕ) (member : Text) (log : List ℕ) (s : Store)
      (first : Item) (rest : List Item)
      → let z = (view s).zsets (key_prefix ++ identifier) in
        c.window ≤ now
        → Agrees c now log z
        → counted c now z ≡ first ∷ rest
        → AreSince first.score rest
        → total_allowed c ≤ length (counted c now z)
        → (first.score + c.window - now) % 1000 ≢ 0
        → (headers : Headers) × (seconds : ℕ) × (respond now (check r identifier c now member s).1
            ≡ too_many_requests headers)
          × (headers.retry_after ≡ some seconds)
          × (recent c.window (now + seconds * 1000) log ≡ total_allowed c)
  unfolding set_rate_limit_headers
  retry_after_header_early identifier c now member log s first rest past agrees e since full odd =
      let z = (view s).zsets (key_prefix ++ identifier) in
      let wait = first.score + c.window - now in
      let (reply, early) =
        refused r law identifier c now member log s first rest past agrees e since full in
      (
        set_rate_limit_headers now
            (result_of r c (record { allowed = false; remaining = 0; retry_after = wait })),
        wait / 1000,
        rw reply refl,
        refl,
        early (wait / 1000 * 1000) (omega arith),
      )
