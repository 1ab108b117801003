-- ===== src/RateLimit/Bound.antt =====
-- How many requests the limiter lets through.
use web3airdrop_os.Base.{
  ℕ, ◌-◌, ◌≡◌, true, false, some, List, ◌++◌, arith, if◌then◌else◌, ltb, ok, length, head?,
}
use web3airdrop_os.Base.Text.{Text, text_eq_self}
use web3airdrop_os.Redis.Keyspace.{
  ZSet, Item, Cmd, apply, z_put, z_without, above, trim, empty_zset,
}
use web3airdrop_os.Redis.SortedSets.{trim-z_insert, trim_items}
use web3airdrop_os.Redis.{Redis, Lawful}
use web3airdrop_os.RateLimit.{
  RateLimitConfig, key_prefix, total_allowed, check, result_of, retry_after_of,
}

-- The sorted set of a key after one check, and whether the request was let through.
abbrev pub counted : RateLimitConfig → ℕ → ZSet → List Item
counted c now z = above (now - c.window) z.items

-- With a window of 0 the key is deleted at once.
abbrev pub expiring : ℕ → List Item → ZSet
expiring t items = if ltb 0 t then record { items = items; left = some t } else empty_zset

abbrev pub after_check : RateLimitConfig → ℕ → Text → ZSet → ZSet
after_check c now member z =
    if ltb (length (counted c now z)) (total_allowed c)
    then expiring c.window (z_put member now (counted c now z))
    else trim (counted c now z) z.left

module _ (r : Redis) (law : Lawful r) where
  open r use {Store, view, write, elapse}

  pub check_zset :
      (identifier : Text) (c : RateLimitConfig) (now : ℕ) (member : Text) (s : Store)
      → (view (check r identifier c now member s).0).zsets (key_prefix ++ identifier)
        ≡ after_check c now member ((view s).zsets (key_prefix ++ identifier))
  unfolding check apply
  check_zset identifier c now member s =
      let key = key_prefix ++ identifier in
      let z = (view s).zsets key in
      let s1 = (write (Cmd.zrem_range key (now - c.window)) s).0 in
      let s2 = (write (Cmd.zadd key now member) s1).0 in
      ground (
        arith,
        law.write_view (Cmd.zrem_range key (now - c.window)) s,
        law.write_reply (Cmd.zrem_range key (now - c.window)) s,
        law.zcard_reply key s1,
        law.write_view (Cmd.zadd key now member) s1,
        law.write_reply (Cmd.zadd key now member) s1,
        law.write_view (Cmd.pexpire key c.window) s2,
        law.write_reply (Cmd.pexpire key c.window) s2,
        law.zrange_first_reply key s1,
        text_eq_self key,
        trim_items (counted c now z) z.left,
        trim-z_insert (record { member = member; score = now }) (z_without member (counted c now z))
            (some c.window),
      )

  pub check_reply :
      (identifier : Text) (c : RateLimitConfig) (now : ℕ) (member : Text) (s : Store)
      → let z = (view s).zsets (key_prefix ++ identifier) in
        (check r identifier c now member s).1
        ≡ ok (
            result_of r c (
              if ltb (length (counted c now z)) (total_allowed c)
              then record {
                allowed = true;
                remaining = total_allowed c - length (counted c now z) - 1;
                retry_after = 0;
              }
              else record {
                allowed = false;
                remaining = 0;
                retry_after = retry_after_of now c.window (head? (counted c now z));
              }))
  unfolding check apply
  check_reply identifier c now member s =
      let key = key_prefix ++ identifier in
      let z = (view s).zsets key in
      let s1 = (write (Cmd.zrem_range key (now - c.window)) s).0 in
      let s2 = (write (Cmd.zadd key now member) s1).0 in
      ground (
        arith,
        law.write_view (Cmd.zrem_range key (now - c.window)) s,
        law.write_reply (Cmd.zrem_range key (now - c.window)) s,
        law.zcard_reply key s1,
        law.write_reply (Cmd.zadd key now member) s1,
        law.write_reply (Cmd.pexpire key c.window) s2,
        law.zrange_first_reply key s1,
        text_eq_self key,
        trim_items (counted c now z) z.left,
      )
