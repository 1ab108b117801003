-- ===== src/RateLimit/Window.antt =====
-- The log of the requests that were let through, and its agreement with the sorted set.
use web3airdrop_os.Base.{
  ℕ, ◌+◌, ◌-◌, ◌≤◌, ◌<◌, ◌≡◌, refl, Option, none, some, List, [], ◌∷◌, arith, if◌then◌else◌, ltb,
  keep, length, All, Bool-cases, inl, inr, ltb→lt, not_ltb,
}
use web3airdrop_os.Base.Text.{Text}
use web3airdrop_os.Redis.Keyspace.{ZSet, Item, z_put, above, trim, age_zset_left}
use web3airdrop_os.Redis.SortedSets.{length-keep-z_insert, IsNew, z_without_new, trim_items}
use web3airdrop_os.RateLimit.{RateLimitConfig, total_allowed}
use web3airdrop_os.RateLimit.Bound.{counted, expiring, after_check}

-- How many logged times lie in the window that ends at `x`: they are later than `x - w`.
abbrev pub recent : ℕ → ℕ → List ℕ → ℕ
recent w x log = length (keep (λ t. ltb x (t + w)) log)

abbrev pub live : ℕ → ℕ → List Item → ℕ
live w x items = length (keep (λ i. ltb x (i.score + w)) items)

abbrev pub IsPast : ℕ → List ℕ → Type 0
IsPast now = All λ t. t ≤ now

recent_none : (w x : ℕ) (log : List ℕ) → All (λ t. t + w ≤ x) log → recent w x log ≡ 0
recent_none w x [] h = refl
recent_none w x (t ∷ log) h = ground (arith, recent_none w x log h.1)

recent_later : (w x y : ℕ) (log : List ℕ) → x ≤ y → recent w y log ≤ recent w x log
recent_later w x y [] h = omega arith
recent_later w x y (t ∷ log) h = ground (arith, recent_later w x y log h)

All-le_trans :
    (w a b : ℕ) (log : List ℕ) → a ≤ b → All (λ t. t + w ≤ a) log → All (λ t. t + w ≤ b) log
All-le_trans w a b [] le h = tt
All-le_trans w a b (t ∷ log) le h = (omega arith, All-le_trans w a b log le h.1)

IsPast-later : (a b : ℕ) (log : List ℕ) → a ≤ b → IsPast a log → IsPast b log
IsPast-later a b [] le h = tt
IsPast-later a b (t ∷ log) le h = (omega arith, IsPast-later a b log le h.1)

IsPast-window : (w now : ℕ) (log : List ℕ) → IsPast now log → All (λ t. t + w ≤ now + w) log
IsPast-window w now [] h = tt
IsPast-window w now (t ∷ log) h = (omega arith, IsPast-window w now log h.1)

-- What falls out of the window at `now` is in no window that ends later.
pub live-above :
    (w now x : ℕ) (items : List Item)
    → w ≤ now
    → now ≤ x
    → live w x (above (now - w) items) ≡ live w x items
live-above w now x [] h k = refl
live-above w now x (i ∷ items) h k = ground (arith, live-above w now x items h k)

live-now :
    (w now : ℕ) (items : List Item) → w ≤ now → live w now items ≡ length (above (now - w) items)
live-now w now [] h = refl
live-now w now (i ∷ items) h = ground (arith, live-now w now items h)

abbrev pub Lasts : ℕ → ℕ → List ℕ → Option ℕ → Type 0
Lasts w now log none = Unit {0}
Lasts w now log (some l) = All (λ t. t + w ≤ now + l) log

-- At time `now` the sorted set has an entry for each logged request that some window still holds.
pub record Agrees (c : RateLimitConfig) (now : ℕ) (log : List ℕ) (z : ZSet) : Type 0 where
  pub covers : (x : ℕ) → now ≤ x → recent c.window x log ≡ live c.window x z.items
  pub lasts : Lasts c.window now log z.left
  pub past : IsPast now log
  pub bounded : recent c.window now log ≤ total_allowed c

age-left :
    (c : RateLimitConfig) (now d : ℕ) (log : List ℕ) (items : List Item) (l : Option ℕ)
    → Agrees c now log (record { items = items; left = l })
    → Agrees c (now + d) log (age_zset_left d (record { items = items; left = l }) l)
age-left c now d log items none h = record {
  covers = λ x le. h.covers x (omega arith);
  lasts = tt;
  past = IsPast-later now (now + d) log (omega arith) h.past;
  bounded = omega (arith, h.bounded, recent_later c.window now (now + d) log (omega arith));
}
age-left c now d log items (some l) h = elim (Bool-cases (ltb d l)) [
  | inl alive ↦ rw alive (record {
    covers = λ x le. h.covers x (omega arith);
    lasts =
        All-le_trans c.window (now + l) (now + d + (l - d)) log (omega (arith, ltb→lt d l alive))
          h.lasts;
    past = IsPast-later now (now + d) log (omega arith) h.past;
    bounded = omega (arith, h.bounded, recent_later c.window now (now + d) log (omega arith));
  })
  | inr expired ↦ rw expired (record {
    covers = λ x le. omega (
      arith,
      recent_none c.window x log
          (All-le_trans c.window (now + l) x log (omega (arith, not_ltb d l expired)) h.lasts),
    );
    lasts = tt;
    past = IsPast-later now (now + d) log (omega arith) h.past;
    bounded = omega (arith, h.bounded, recent_later c.window now (now + d) log (omega arith));
  })
]

-- Time passes on the server and on the clients alike.
pub age-Agrees :
    (c : RateLimitConfig) (now d : ℕ) (log : List ℕ) (z : ZSet)
    → Agrees c now log z
    → Agrees c (now + d) log (age_zset_left d z z.left)
age-Agrees c now d log z h = age-left c now d log z.items z.left h

-- The requests that the check counts are the logged ones of its window.
pub length-counted :
    (c : RateLimitConfig) (now : ℕ) (log : List ℕ) (z : ZSet)
    → c.window ≤ now
    → Agrees c now log z
    → length (counted c now z) ≡ recent c.window now log
length-counted c now log z past h =
    omega (arith, h.covers now (omega arith), live-now c.window now z.items past)

-- A request that is let through is logged.
abbrev pub log_after : RateLimitConfig → ℕ → ZSet → List ℕ → List ℕ
log_after c now z log = if ltb (length (counted c now z)) (total_allowed c) then now ∷ log else log

live-z_put :
    (w x now : ℕ) (member : Text) (items : List Item)
    → IsNew member items
    → live w x (z_put member now items) ≡ live w x (record { member = member; score = now } ∷ items)
live-z_put w x now member items new = rw (z_without_new member items new) (
    length-keep-z_insert (λ i. ltb x (i.score + w)) (record { member = member; score = now }) items)

admit-Agrees :
    (c : RateLimitConfig) (now : ℕ) (member : Text) (log : List ℕ) (z : ZSet)
    → c.window ≤ now
    → IsNew member (counted c now z)
    → length (counted c now z) < total_allowed c
    → Agrees c now log z
    → Agrees c now (now ∷ log) (expiring c.window (z_put member now (counted c now z)))
admit-Agrees c now member log z past new room h = elim (Bool-cases (ltb 0 c.window)) [
  | inl some_window ↦ rw some_window (record {
    covers = λ x le. ground (
      arith,
      h.covers x le,
      live-z_put c.window x now member (counted c now z) new,
      live-above c.window now x z.items past le,
    );
    lasts = IsPast-window c.window now (now ∷ log) (omega arith, h.past);
    past = (omega arith, h.past);
    bounded = ground (arith, h.covers now (omega arith), live-now c.window now z.items past);
  })
  | inr no_window ↦
      let w0 : c.window ≡ 0 = omega (arith, not_ltb 0 c.window no_window) in
      let gone = λ (x : ℕ) (le : now ≤ x). recent_none c.window x (now ∷ log) (
        All-le_trans c.window (now + c.window) x (now ∷ log) (omega arith)
          (IsPast-window c.window now (now ∷ log) (omega arith, h.past))) in
      rw no_window (record {
        covers = gone;
        lasts = tt;
        past = (omega arith, h.past);
        bounded = omega (arith, gone now (omega arith));
      })
]

trim-Lasts :
    (w now : ℕ) (log : List ℕ) (items : List Item) (l : Option ℕ)
    → Lasts w now log l
    → Lasts w now log (trim items l).left
trim-Lasts w now log [] l h = tt
trim-Lasts w now log (i ∷ items) l h = h

reject-Agrees :
    (c : RateLimitConfig) (now : ℕ) (log : List ℕ) (z : ZSet)
    → c.window ≤ now
    → Agrees c now log z
    → Agrees c now log (trim (counted c now z) z.left)
reject-Agrees c now log z past h = record {
  covers = λ x le.
      rw (trim_items (counted c now z) z.left)
        (omega (arith, h.covers x le, live-above c.window now x z.items past le));
  lasts = trim-Lasts c.window now log (counted c now z) z.left h.lasts;
  past = h.past;
  bounded = h.bounded;
}

pub after_check-Agrees :
    (c : RateLimitConfig) (now : ℕ) (member : Text) (log : List ℕ) (z : ZSet)
    → c.window ≤ now
    → IsNew member (counted c now z)
    → Agrees c now log z
    → Agrees c now (log_after c now z log) (after_check c now member z)
after_check-Agrees c now member log z past new h =
    elim (Bool-cases (ltb (length (counted c now z)) (total_allowed c))) [
      | inl room ↦ rw room (admit-Agrees c now member log z past new (ltb→lt _ _ room) h)
      | inr full ↦ rw full (reject-Agrees c now log z past h)
    ]
