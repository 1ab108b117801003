-- ===== src/Redis.antt =====
-- The Redis server behind the backend (github.com/go-redis/redis/v8), which the source only calls:
-- its commands are the fields of `Redis`, and what the backend relies on of them is `Lawful`, the
-- documented effect of each command on the keys that it names.
pub mod Keyspace
pub mod SortedSets
use web3airdrop_os.Base.{
  ℕ, ◌<◌, ◌≡◌, Bool, true, false, Option, none, some, List, Outcome, ok, is_none, is_some,
}
use web3airdrop_os.Base.{if◌then◌else◌, length, head?, last?, map}
use web3airdrop_os.Base.Text.{Text}
use Keyspace.{
  View, Entry, Item, Cmd, Count, apply, apply_all, affected, age, entry_value, up_to, between,
  members, ttl_of, count_of,
}

-- The command failed: the connection broke, or the server refused it.
pub data Fault : Type 0 where
  io_error : Fault

pub record Redis : Type 1 where
  pub Store : Type 0
  pub view : Store → View
  pub elapse : ℕ → Store → Store
  pub write : Cmd → Store → Store × Outcome Fault ℕ
  pub pipeline : List Cmd → Store → Store × Outcome Fault (Unit {0})
  pub set_nx : Text → Text → ℕ → Store → Store × Outcome Fault Bool
  pub get : Text → Store → Outcome Fault (Option Text)
  pub exists : Text → Store → Outcome Fault Bool
  pub ttl : Text → Store → Outcome Fault (Option ℕ)
  pub zcard : Text → Store → Outcome Fault ℕ
  pub scard : Text → Store → Outcome Fault ℕ
  pub zcount : Text → ℕ → ℕ → Store → Outcome Fault ℕ
  pub zrange_by_score : Text → ℕ → Store → Outcome Fault (List Text)
  pub zrange_first : Text → Store → Outcome Fault (Option Item)
  pub zrev_range_first : Text → Store → Outcome Fault (Option Item)
  pub get_count : Text → Store → Outcome Fault (Option Count)

-- A server that answers every command, as documented. `elapse d` is the passing of `d` milliseconds.
-- With a time to live of 0 go-redis asks for a key without expiry: the time it then
-- has left is left open.
module _ (r : Redis) where
  open r use {
    Store, view, elapse, write, pipeline, set_nx, get, exists, ttl, zcard, scard, zcount,
    zrange_by_score, zrange_first, zrev_range_first, get_count,
  }

  pub record Lawful : Type 0 where
    pub elapse_view : (d : ℕ) (s : Store) → view (elapse d s) ≡ age d (view s)
    pub write_view : (c : Cmd) (s : Store) → view (write c s).0 ≡ apply c (view s)
    pub write_reply : (c : Cmd) (s : Store) → (write c s).1 ≡ ok (affected c (view s))
    pub pipeline_view : (cs : List Cmd) (s : Store) → view (pipeline cs s).0 ≡ apply_all cs (view s)
    pub pipeline_reply : (cs : List Cmd) (s : Store) → (pipeline cs s).1 ≡ ok tt
    pub set_nx_view :
        (k v : Text) (t : ℕ) (s : Store)
        → 0 < t
        → view (set_nx k v t s).0
          ≡ (if is_none ((view s).strings k) then apply (Cmd.set k v t) (view s) else view s)
    pub set_nx_kept :
        (k v : Text) (t : ℕ) (s : Store)
        → is_none ((view s).strings k) ≡ false
        → view (set_nx k v t s).0 ≡ view s
    pub set_nx_free :
        (k v : Text) (t : ℕ) (s : Store)
        → is_none ((view s).strings k) ≡ true
        → (l : ℕ) × (view (set_nx k v t s).0 ≡ apply (Cmd.set k v l) (view s))
    pub set_nx_reply :
        (k v : Text) (t : ℕ) (s : Store) → (set_nx k v t s).1 ≡ ok (is_none ((view s).strings k))
    pub get_reply : (k : Text) (s : Store) → get k s ≡ ok (entry_value ((view s).strings k))
    pub exists_reply : (k : Text) (s : Store) → exists k s ≡ ok (is_some ((view s).strings k))
    pub ttl_reply : (k : Text) (s : Store) → ttl k s ≡ ok (ttl_of ((view s).strings k))
    pub zcard_reply : (k : Text) (s : Store) → zcard k s ≡ ok (length ((view s).zsets k).items)
    pub scard_reply : (k : Text) (s : Store) → scard k s ≡ ok (length ((view s).sets k))
    pub zcount_reply :
        (k : Text) (lo hi : ℕ) (s : Store)
        → zcount k lo hi s ≡ ok (length (between lo hi ((view s).zsets k).items))
    pub zrange_by_score_reply :
        (k : Text) (hi : ℕ) (s : Store)
        → zrange_by_score k hi s ≡ ok (members (up_to hi ((view s).zsets k).items))
    pub zrange_first_reply :
        (k : Text) (s : Store) → zrange_first k s ≡ ok (head? ((view s).zsets k).items)
    pub zrev_range_first_reply :
        (k : Text) (s : Store) → zrev_range_first k s ≡ ok (last? ((view s).zsets k).items)
    pub get_count_reply :
        (k : Text) (s : Store) → get_count k s ≡ ok (count_of ((view s).counters k))
