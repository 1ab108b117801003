-- ===== src/RateLimit/Limit.antt =====
-- The limiter over a sequence of requests to one identifier.
use web3airdrop_os.Base.{
  ℕ, ◌+◌, ◌≤◌, ◌≡◌, refl, ap, sym, false, Option, none, some, List, [], ◌∷◌, ◌++◌, arith,
  if◌then◌else◌, ltb, Outcome, ok, err, length, All, All-keep, Bool-cases, inl, inr,
}
use web3airdrop_os.Base.Text.{Text, text_eq}
use web3airdrop_os.Redis.Keyspace.{ZSet, Item, age, age_zset_left, empty_zset}
use web3airdrop_os.Redis.SortedSets.{All-z_insert, IsNew, trim_items}
use web3airdrop_os.Redis.{Redis, Lawful, Fault}
use web3airdrop_os.RateLimit.{RateLimitConfig, RateLimitResult, key_prefix, total_allowed, check}
use web3airdrop_os.RateLimit.Bound.{counted, expiring, after_check, check_zset, check_reply}
use web3airdrop_os.RateLimit.Window.{
  recent, Agrees, age-Agrees, length-counted, log_after, after_check-Agrees,
}

-- A request comes `gap` milliseconds after the one before, and draws its member.
pub record Request : Type 0 where
  pub gap : ℕ
  pub member : Text

abbrev pub logged : Outcome Fault RateLimitResult → ℕ → List ℕ → List ℕ
logged (ok result) now log = if result.allowed then now ∷ log else log
logged (err e) now log = log

module _ (r : Redis) (identifier : Text) (c : RateLimitConfig) where
  open r use {Store, view, elapse}

  -- The clock, the times of the requests that were let through, and the store.
  unfoldable pub run : List Request → ℕ → List ℕ → Store → ℕ × List ℕ × Store
  run [] now log s = (now, log, s)
  run (q ∷ qs) now log s =
      let now' = now + q.gap in
      let (s', reply) = check r identifier c now' q.member (elapse q.gap s) in
      run qs now' (logged reply now' log) s'

-- The specification: a request is let through exactly if the window that ends at it holds less than
-- `total_allowed` requests that were let through.
unfoldable pub sliding_window : RateLimitConfig → List Request → ℕ → List ℕ → ℕ × List ℕ
sliding_window c [] now log = (now, log)
sliding_window c (q ∷ qs) now log =
    let now' = now + q.gap in
    sliding_window c qs now'
      (if ltb (recent c.window now' log) (total_allowed c) then now' ∷ log else log)

abbrev pub IsUnused : Text → List Request → Type 0
IsUnused m = All λ q. text_eq m q.member ≡ false

-- No two requests draw the same member.
abbrev pub AreDistinct : List Request → Type 0
AreDistinct [] = Unit {0}
AreDistinct (q ∷ qs) = IsUnused q.member qs × AreDistinct qs

abbrev NoneUsed : List Request → List Item → Type 0
NoneUsed qs = All λ i. IsUnused i.member qs

NoneUsed-IsNew :
    (q : Request) (qs : List Request) (items : List Item)
    → NoneUsed (q ∷ qs) items
    → IsNew q.member items
NoneUsed-IsNew q qs [] h = tt
NoneUsed-IsNew q qs (i ∷ items) h = (h.0.0, NoneUsed-IsNew q qs items h.1)

NoneUsed-tail :
    (q : Request) (qs : List Request) (items : List Item)
    → NoneUsed (q ∷ qs) items
    → NoneUsed qs items
NoneUsed-tail q qs [] h = tt
NoneUsed-tail q qs (i ∷ items) h = (h.0.1, NoneUsed-tail q qs items h.1)

NoneUsed-age :
    (d : ℕ) (qs : List Request) (items : List Item) (l : Option ℕ)
    → NoneUsed qs items
    → NoneUsed qs (age_zset_left d (record { items = items; left = l }) l).items
NoneUsed-age d qs items none h = h
NoneUsed-age d qs items (some l) h = elim (Bool-cases (ltb d l)) [
  | inl alive ↦ rw alive h
  | inr expired ↦ rw expired tt
]

All-expiring :
    (P : Item → Type 0) (t : ℕ) (items : List Item) → All P items → All P (expiring t items).items
All-expiring P t items h = elim (Bool-cases (ltb 0 t)) [
  | inl kept ↦ rw kept h
  | inr gone ↦ rw gone tt
]

NoneUsed-after_check :
    (c : RateLimitConfig) (now : ℕ) (q : Request) (qs : List Request) (z : ZSet)
    → IsUnused q.member qs
    → NoneUsed (q ∷ qs) z.items
    → NoneUsed qs (after_check c now q.member z).items
NoneUsed-after_check c now q qs z unused h =
    let kept = All-keep (λ i. IsUnused i.member qs) _ z.items (NoneUsed-tail q qs z.items h) in
    elim (Bool-cases (ltb (length (counted c now z)) (total_allowed c))) [
      | inl room ↦ rw room (
          All-expiring (λ i. IsUnused i.member qs) c.window _
            (All-z_insert (λ i. IsUnused i.member qs) (record { member = q.member; score = now }) _
              unused (All-keep (λ i. IsUnused i.member qs) _ (counted c now z) kept)))
      | inr full ↦ rw (full, trim_items (counted c now z) z.left) kept
    ]

module _ (r : Redis) (law : Lawful r) (identifier : Text) (c : RateLimitConfig) where
  open r use {Store, view, elapse}

  abbrev pub zset : Store → ZSet
  zset s = (view s).zsets (key_prefix ++ identifier)

  pub zset_elapse : (d : ℕ) (s : Store) → zset (elapse d s) ≡ age_zset_left d (zset s) (zset s).left
  unfolding age
  zset_elapse d s = ap (λ w. w.zsets (key_prefix ++ identifier)) (law.elapse_view d s)

  logged-check :
      (now : ℕ) (member : Text) (log : List ℕ) (s : Store)
      → logged (check r identifier c now member s).1 now log ≡ log_after c now (zset s) log
  logged-check now member log s = ground (arith, check_reply r law identifier c now member s)

  pub run-cons :
      (q : Request) (qs : List Request) (now : ℕ) (log : List ℕ) (s : Store)
      → let now' = now + q.gap in
        let s1 = elapse q.gap s in
        run r identifier c (q ∷ qs) now log s
        ≡ run r identifier c qs now'
            (log_after c now' (zset s1) log)
            (check r identifier c now' q.member s1).0
  unfolding run
  run-cons q qs now log s =
      let now' = now + q.gap in
      let s1 = elapse q.gap s in
      ap (λ l. run r identifier c qs now' l (check r identifier c now' q.member s1).0)
        (logged-check now' q.member log s1)

  sliding_window-cons :
      (q : Request) (qs : List Request) (now : ℕ) (log : List ℕ) (z : ZSet)
      → c.window ≤ now + q.gap
      → Agrees c (now + q.gap) log z
      → sliding_window c (q ∷ qs) now log
        ≡ sliding_window c qs (now + q.gap) (log_after c (now + q.gap) z log)
  unfolding sliding_window
  sliding_window-cons q qs now log z past h =
      let now' = now + q.gap in
      ap (λ n. sliding_window c qs now' (if ltb n (total_allowed c) then now' ∷ log else log))
        (sym (length-counted c now' log z past h))

  run_lem :
      (qs : List Request) (now : ℕ) (log : List ℕ) (s : Store)
      → c.window ≤ now
      → AreDistinct qs
      → NoneUsed qs (zset s).items
      → Agrees c now log (zset s)
      → let (now', log', s') = run r identifier c qs now log s in
        ((now', log') ≡ sliding_window c qs now log) × (recent c.window now' log' ≤ total_allowed c)
  run_lem [] now log s past distinct unused h = unfold run sliding_window in (refl, h.bounded)
  run_lem (q ∷ qs) now log s past distinct unused h =
      let now' = now + q.gap in
      let s1 = elapse q.gap s in
      let s2 = (check r identifier c now' q.member s1).0 in
      let aged : Agrees c now' log (zset s1) =
        rw (zset_elapse q.gap s) (age-Agrees c now q.gap log (zset s) h) in
      let left_over : NoneUsed (q ∷ qs) (zset s1).items =
        rw (zset_elapse q.gap s)
          (NoneUsed-age q.gap (q ∷ qs) (zset s).items (zset s).left unused) in
      let new : IsNew q.member (counted c now' (zset s1)) =
        All-keep _ _ (zset s1).items (NoneUsed-IsNew q qs (zset s1).items left_over) in
      let agrees : Agrees c now' (log_after c now' (zset s1) log) (zset s2) =
        rw (check_zset r law identifier c now' q.member s1)
          (after_check-Agrees c now' q.member log (zset s1) (omega arith) new aged) in
      let none_used : NoneUsed qs (zset s2).items =
        rw (check_zset r law identifier c now' q.member s1)
          (NoneUsed-after_check c now' q qs (zset s1) distinct.0 left_over) in
      rw (run-cons q qs now log s, sliding_window-cons q qs now log (zset s1) (omega arith) aged)
        (run_lem qs now' (log_after c now' (zset s1) log) s2 (omega arith) distinct.1 none_used
          agrees)

  -- From an unused identifier, and with distinct members, the script lets through exactly the
  -- requests that the sliding window lets through, and never more than `requests + burst_size` of
  -- them lie in the window that ends at the last request.
  pub run_is_sliding_window :
      (qs : List Request) (now : ℕ) (s : Store)
      → c.window ≤ now
      → AreDistinct qs
      → (view s).zsets (key_prefix ++ identifier) ≡ empty_zset
      → let (now', log, s') = run r identifier c qs now [] s in
        ((now', log) ≡ sliding_window c qs now []) × (recent c.window now' log ≤ total_allowed c)
  run_is_sliding_window qs now s past distinct fresh =
      run_lem qs now [] s past distinct (rw fresh tt)
        (rw fresh (record { covers = λ x le. refl; lasts = tt; past = tt; bounded = omega arith }))
