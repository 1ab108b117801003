-- ===== src/Redis/Keyspace.antt =====
-- What the keyspace of a Redis server holds, and the documented effect of the commands that the
-- backend sends. It serves to state the laws of `Redis`; nothing of src/ is modelled here.
use web3airdrop_os.Base.{
  ℕ, suc, ◌+◌, ◌-◌, ◌*◌, ◌/◌, Bool, true, ◌&&◌, not, Option, none, some, List, [], ◌∷◌, map, ltb,
  leb, ◌==◌, if◌then◌else◌, keep,
}
use web3airdrop_os.Base.Text.{Text, text_eq, text_lt}

-- A string key, with the milliseconds until it expires.
pub record Entry : Type 0 where
  pub value : Text
  pub left : ℕ

pub record Item : Type 0 where
  pub member : Text
  pub score : ℕ

-- A sorted set in the order of its scores, and of its members among equal scores. The key may expire.
pub record ZSet : Type 0 where
  pub items : List Item
  pub left : Option ℕ

-- An integer key: INCR and DECR take it as 0 where it is missing, and DECR goes below 0.
pub data Count : Type 0 where
  up down : ℕ → Count

pub record Counter : Type 0 where
  pub value : Count
  pub left : Option ℕ

pub record View : Type 0 where
  pub strings : Text → Option Entry
  pub zsets : Text → ZSet
  pub sets : Text → List Text
  pub counters : Text → Option Counter

-- The writing commands. `zrem_range k max` is ZREMRANGEBYSCORE k -inf max.
pub data Cmd : Type 0 where
  set : Text → Text → ℕ → Cmd
  del : Text → Cmd
  pexpire : Text → ℕ → Cmd
  zadd : Text → ℕ → Text → Cmd
  zrem : Text → Text → Cmd
  zrem_range : Text → ℕ → Cmd
  sadd : Text → Text → Cmd
  srem : Text → Text → Cmd
  incr : Text → Cmd
  decr : Text → Cmd

abbrev pub update {ℓ} : {A : Type ℓ} → (Text → A) → Text → A → Text → A
update f k v j = if text_eq k j then v else f j

abbrev pub item_lt : Item → Item → Bool
item_lt a b = if ltb a.score b.score then true else a.score == b.score && text_lt a.member b.member

unfoldable pub z_insert : Item → List Item → List Item
z_insert i [] = i ∷ []
z_insert i (x ∷ xs) = if item_lt i x then i ∷ x ∷ xs else x ∷ z_insert i xs

abbrev pub z_without : Text → List Item → List Item
z_without m = keep λ i. not (text_eq i.member m)

abbrev pub z_put : Text → ℕ → List Item → List Item
z_put m sc xs = z_insert (record { member = m; score = sc }) (z_without m xs)

abbrev pub up_to : ℕ → List Item → List Item
up_to hi = keep λ i. leb i.score hi

abbrev pub above : ℕ → List Item → List Item
above hi = keep λ i. ltb hi i.score

abbrev pub between : ℕ → ℕ → List Item → List Item
between lo hi = keep λ i. leb lo i.score && leb i.score hi

abbrev pub members : List Item → List Text
members = map λ i. i.member

abbrev pub without : Text → List Text → List Text
without m = keep λ x. not (text_eq x m)

abbrev pub empty_zset : ZSet
empty_zset = record { items = []; left = none }

-- A sorted set that has become empty is no key any more, and so has no expiry.
abbrev pub trim : List Item → Option ℕ → ZSet
trim [] l = empty_zset
trim (x ∷ xs) l = record { items = x ∷ xs; left = l }

abbrev pub with_left : ℕ → Option Entry → Option Entry
with_left t none = none
with_left t (some e) = some (record e { left = t })

abbrev pub counter_left : ℕ → Option Counter → Option Counter
counter_left t none = none
counter_left t (some c) = some (record c { left = some t })

abbrev pub count_succ : Count → Count
count_succ (Count.up n) = Count.up (suc n)
count_succ (Count.down ℕ.zero) = Count.up 1
count_succ (Count.down (suc ℕ.zero)) = Count.up 0
count_succ (Count.down (suc (suc n))) = Count.down (suc n)

abbrev pub count_pred : Count → Count
count_pred (Count.up ℕ.zero) = Count.down 1
count_pred (Count.up (suc n)) = Count.up n
count_pred (Count.down n) = Count.down (suc n)

abbrev pub counter_step : (Count → Count) → Option Counter → Option Counter
counter_step f none = some (record { value = f (Count.up 0); left = none })
counter_step f (some c) = some (record c { value = f c.value })

abbrev pub removed : Text → View → View
removed k w = record w {
  strings = update w.strings k none;
  zsets = update w.zsets k empty_zset;
  sets = update w.sets k [];
  counters = update w.counters k none;
}

-- PEXPIRE with a time of 0 deletes the key.
unfoldable pub apply : Cmd → View → View
apply (set k v t) w = record w {
  strings = update w.strings k (some (record { value = v; left = t }));
}
apply (del k) w = removed k w
apply (pexpire k t) w =
    if ltb 0 t
    then record w {
      strings = update w.strings k (with_left t (w.strings k));
      zsets = update w.zsets k (trim (w.zsets k).items (some t));
      counters = update w.counters k (counter_left t (w.counters k));
    }
    else removed k w
apply (zadd k sc m) w = record w {
  zsets = update w.zsets k (record (w.zsets k) { items = z_put m sc (w.zsets k).items });
}
apply (zrem k m) w = record w {
  zsets = update w.zsets k (trim (z_without m (w.zsets k).items) (w.zsets k).left);
}
apply (zrem_range k hi) w = record w {
  zsets = update w.zsets k (trim (above hi (w.zsets k).items) (w.zsets k).left);
}
apply (sadd k m) w = record w { sets = update w.sets k (m ∷ without m (w.sets k)) }
apply (srem k m) w = record w { sets = update w.sets k (without m (w.sets k)) }
apply (incr k) w = record w {
  counters = update w.counters k (counter_step count_succ (w.counters k));
}
apply (decr k) w = record w {
  counters = update w.counters k (counter_step count_pred (w.counters k));
}

unfoldable pub apply_all : List Cmd → View → View
apply_all [] w = w
apply_all (c ∷ cs) w = apply_all cs (apply c w)

abbrev pub present : Option Entry → ℕ
present none = 0
present (some e) = 1

-- The integer reply, where the backend reads it: DEL and PEXPIRE say whether the key was there.
unfoldable pub affected : Cmd → View → ℕ
affected (del k) w = present (w.strings k)
affected (pexpire k t) w = present (w.strings k)
affected c w = 1

abbrev pub age_entry : ℕ → Option Entry → Option Entry
age_entry d none = none
age_entry d (some e) = if ltb d e.left then some (record e { left = e.left - d }) else none

abbrev pub age_zset_left : ℕ → ZSet → Option ℕ → ZSet
age_zset_left d z none = z
age_zset_left d z (some t) = if ltb d t then record z { left = some (t - d) } else empty_zset

abbrev pub age_counter_left : ℕ → Counter → Option ℕ → Option Counter
age_counter_left d c none = some c
age_counter_left d c (some t) = if ltb d t then some (record c { left = some (t - d) }) else none

abbrev pub age_counter : ℕ → Option Counter → Option Counter
age_counter d none = none
age_counter d (some c) = age_counter_left d c c.left

unfoldable pub age : ℕ → View → View
age d w = record w {
  strings = λ k. age_entry d (w.strings k);
  zsets = λ k. age_zset_left d (w.zsets k) (w.zsets k).left;
  counters = λ k. age_counter d (w.counters k);
}

abbrev pub entry_value : Option Entry → Option Text
entry_value none = none
entry_value (some e) = some e.value

-- TTL replies in whole seconds, rounded; this is the reply as a time, in milliseconds.
abbrev pub ttl_of : Option Entry → Option ℕ
ttl_of none = none
ttl_of (some e) = some ((e.left + 500) / 1000 * 1000)

abbrev pub count_of : Option Counter → Option Count
count_of none = none
count_of (some c) = some c.value
