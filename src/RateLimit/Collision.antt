-- ===== src/RateLimit/Collision.antt =====
-- Requests that draw the same member in the same millisecond.
use web3airdrop_os.Base.{
  ℕ, zero, suc, ◌+◌, ◌≤◌, ◌<◌, ◌≡◌, ◌∙◌, some, List, [], ◌∷◌, ◌++◌, arith, length, ◌⊎◌, inl, inr,
  replicate,
}
use native.Mathlib.Nat.{add-zero}
use web3airdrop_os.Base.Text.{Text, text_eq_self}
use web3airdrop_os.Redis.Keyspace.{ZSet, z_insert, age_zset_left, empty_zset}
use web3airdrop_os.Redis.{Redis, Lawful}
use web3airdrop_os.RateLimit.{RateLimitConfig, key_prefix, total_allowed, check}
use web3airdrop_os.RateLimit.Bound.{after_check, check_zset}
use web3airdrop_os.RateLimit.Window.{log_after}
use web3airdrop_os.RateLimit.Limit.{Request, run, run-cons, zset, zset_elapse}

abbrev only : Text → ℕ → ℕ → ZSet
only m now l = record { items = record { member = m; score = now } ∷ []; left = some l }

-- Nothing is counted, or this member alone.
abbrev CountsOnce : Text → ℕ → ZSet → Type 0
CountsOnce m now z = (z ≡ empty_zset) ⊎ ((l : ℕ) × (0 < l) × (z ≡ only m now l))

CountsOnce-age : (m : Text) (now : ℕ) (z : ZSet) → CountsOnce m now z → age_zset_left 0 z z.left ≡ z
CountsOnce-age m now z (inl e) = rw e
CountsOnce-age m now z (inr (l, pos, e)) = rw e (ground arith)

after_check_once :
    (c : RateLimitConfig) (now : ℕ) (m : Text) (log : List ℕ) (z : ZSet)
    → 0 < c.window
    → c.window ≤ now
    → 2 ≤ total_allowed c
    → CountsOnce m now z
    → (after_check c now m z ≡ only m now c.window) × (log_after c now z log ≡ now ∷ log)
unfolding z_insert
after_check_once c now m log z some_window past two (inl e) =
    rw e (ground (arith, text_eq_self m), ground arith)
after_check_once c now m log z some_window past two (inr (l, pos, e)) =
    rw e (ground (arith, text_eq_self m), ground arith)

module _ (r : Redis) (law : Lawful r) (identifier : Text) (c : RateLimitConfig) (m : Text) where
  open r use {Store, view, elapse}

  abbrev pub again : Request
  again = record { gap = 0; member = m }

  run_once :
      (n now : ℕ) (log : List ℕ) (s : Store)
      → 0 < c.window
      → c.window ≤ now
      → 2 ≤ total_allowed c
      → CountsOnce m now (zset r law identifier c s)
      → length (run r identifier c (replicate n again) now log s).1 ≡ n + length log
  run_once zero now log s some_window past two h = unfold run in omega arith
  run_once (suc n) now log s some_window past two h =
      let s1 = elapse 0 s in
      let s2 = (check r identifier c now m s1).0 in
      let same : zset r law identifier c s1 ≡ zset r law identifier c s =
        zset_elapse r law identifier c 0 s ∙ CountsOnce-age m now (zset r law identifier c s) h in
      let (counts, admits) =
        after_check_once c now m log (zset r law identifier c s1) some_window past two
          (rw same h) in
      let rest =
        run_once n now (now ∷ log) s2 some_window past two
          (inr (c.window, some_window, check_zset r law identifier c now m s1 ∙ counts)) in
      rw (run-cons r law identifier c again (replicate n again) now log s, add-zero now, admits)
        (omega (arith, rest))

  -- A script that draws one number again and again within a millisecond counts its requests once:
  -- however many they are, all are let through, if at least two are allowed in a window.
  pub repeated_member_unlimited :
      (n now : ℕ) (s : Store)
      → 0 < c.window
      → c.window ≤ now
      → 2 ≤ total_allowed c
      → (view s).zsets (key_prefix ++ identifier) ≡ empty_zset
      → length (run r identifier c (replicate n again) now [] s).1 ≡ n
  repeated_member_unlimited n now s some_window past two fresh =
      omega (arith, run_once n now [] s some_window past two (inl fresh))
