-- ===== src/RateLimit/Wait.antt =====
-- What `retry_after` of a refused request means.
use web3airdrop_os.Base.{
  ℕ, suc, ◌+◌, ◌-◌, ◌≤◌, ◌<◌, ◌≡◌, refl, List, [], ◌∷◌, ◌++◌, arith, ap, length, All, ok, false,
}
use web3airdrop_os.Base.Text.{Text}
use web3airdrop_os.Redis.Keyspace.{ZSet, Item}
use web3airdrop_os.Redis.{Redis, Lawful}
use web3airdrop_os.RateLimit.{
  RateLimitConfig, RateLimitResult, total_allowed, check, result_of, key_prefix,
}
use web3airdrop_os.RateLimit.Bound.{counted, check_reply}
use web3airdrop_os.RateLimit.Window.{recent, live, live-above, length-counted, Agrees}

-- No item is older than `n`.
abbrev pub AreSince : ℕ → List Item → Type 0
AreSince n = All λ i. n ≤ i.score

live_all :
    (w x n : ℕ) (items : List Item) → AreSince n items → x < n + w → live w x items ≡ length items
live_all w x n [] h lt = refl
live_all w x n (i ∷ items) h lt = ground (arith, live_all w x n items h.1 lt)

live-le : (w x : ℕ) (items : List Item) → live w x items ≤ length items
live-le w x [] = omega arith
live-le w x (i ∷ items) = ground (arith, live-le w x items)

recent-counted :
    (c : RateLimitConfig) (now x : ℕ) (log : List ℕ) (z : ZSet)
    → c.window ≤ now
    → now ≤ x
    → Agrees c now log z
    → recent c.window x log ≡ live c.window x (counted c now z)
recent-counted c now x log z past le h =
    omega (arith, h.covers x le, live-above c.window now x z.items past le)

live_before :
    (w x : ℕ) (first : Item) (rest : List Item)
    → AreSince first.score rest
    → x < first.score + w
    → live w x (first ∷ rest) ≡ suc (length rest)
live_before w x first rest since lt =
    live_all w x first.score (first ∷ rest) (omega arith, since) lt

live_after :
    (w x : ℕ) (first : Item) (rest : List Item)
    → first.score + w ≤ x
    → live w x (first ∷ rest) ≤ length rest
live_after w x first rest le = ground (arith, live-le w x rest)

live_inside :
    (w x : ℕ) (first : Item) (rest : List Item)
    → length rest < live w x (first ∷ rest)
    → x < first.score + w
live_inside w x first rest h = ground (arith, live-le w x rest)

module _ (r : Redis) (law : Lawful r) where
  open r use {Store, view}

  pub refused :
      (identifier : Text) (c : RateLimitConfig) (now : ℕ) (member : Text) (log : List ℕ) (s : Store)
      (first : Item) (rest : List Item)
      → let z = (view s).zsets (key_prefix ++ identifier) in
        c.window ≤ now
        → Agrees c now log z
        → counted c now z ≡ first ∷ rest
        → AreSince first.score rest
        → total_allowed c ≤ length (counted c now z)
        → ((check r identifier c now member s).1
            ≡ ok (
                result_of r c (record {
                  allowed = false;
                  remaining = 0;
                  retry_after = first.score + c.window - now;
                })))
          × ((d : ℕ)
              → d < first.score + c.window - now
              → recent c.window (now + d) log ≡ total_allowed c)
  refused identifier c now member log s first rest past agrees e since full =
      let z = (view s).zsets (key_prefix ++ identifier) in
      let w = c.window in
      let size = ap length e in
      let all_recent = length-counted c now log z past agrees in
      (
        ground (arith, check_reply r law identifier c now member s),
        λ d lt. omega (
          arith,
          agrees.bounded,
          recent-counted c now (now + d) log z past (omega arith) agrees,
          ap (live w (now + d)) e,
          live_before w (now + d) first rest since (omega arith),
        ),
      )

  -- A request refused at `now`, with `first` the oldest request of its window, is told to wait until
  -- `first` leaves the window. The wait is exact: a request that comes any sooner meets a full window
  -- still, and one that comes then finds room, if no other is let through in between.
  pub retry_after_exact :
      (identifier : Text) (c : RateLimitConfig) (now : ℕ) (member : Text) (log : List ℕ) (s : Store)
      (first : Item) (rest : List Item)
      → let z = (view s).zsets (key_prefix ++ identifier) in
        c.window ≤ now
        → Agrees c now log z
        → counted c now z ≡ first ∷ rest
        → AreSince first.score rest
        → total_allowed c ≤ length (counted c now z)
        → (result : RateLimitResult) × ((check r identifier c now member s).1 ≡ ok result)
          × (result.allowed ≡ false)
          × (recent c.window (now + result.retry_after) log < total_allowed c)
          × ((d : ℕ) → d < result.retry_after → recent c.window (now + d) log ≡ total_allowed c)
  retry_after_exact identifier c now member log s first rest past agrees e since full =
      let z = (view s).zsets (key_prefix ++ identifier) in
      let w = c.window in
      let wait = first.score + w - now in
      let size = ap length e in
      let all_recent = length-counted c now log z past agrees in
      let (reply, early) =
        refused identifier c now member log s first rest past agrees e since full in
      let inside : now < first.score + w = live_inside w now first rest (
        omega (
          arith,
          size,
          all_recent,
          recent-counted c now now log z past (omega arith) agrees,
          ap (live w now) e,
        )) in
      (
        result_of r c (record { allowed = false; remaining = 0; retry_after = wait }),
        reply,
        refl,
        omega (
          arith,
          agrees.bounded,
          recent-counted c now (now + wait) log z past (omega arith) agrees,
          ap (live w (now + wait)) e,
          live_after w (now + wait) first rest (omega arith),
        ),
        early,
      )
