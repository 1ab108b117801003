-- ===== src/Memory.antt =====
-- A server whose store is its keyspace: the laws can be met, and tests run on it. A key
-- that is set with a time to live of 0 has 0 ms left here.
use web3airdrop_os.Base.{
  ℕ, ◌≡◌, true, refl, ok, is_none, is_some, none, [], if◌then◌else◌, length, head?, last?,
}
use web3airdrop_os.Base.Text.{Text}
use web3airdrop_os.Redis.Keyspace.{
  View, Cmd, apply, apply_all, affected, age, entry_value, up_to, between, members, ttl_of,
  count_of, empty_zset,
}
use web3airdrop_os.Redis.{Redis, Lawful}

abbrev pub memory : Redis
memory = record {
  Store = View;
  view = λ s. s;
  elapse = age;
  write = λ c s. (apply c s, ok (affected c s));
  pipeline = λ cs s. (apply_all cs s, ok tt);
  set_nx = λ k v t s.
      (if is_none (s.strings k) then apply (Cmd.set k v t) s else s, ok (is_none (s.strings k)));
  get = λ k s. ok (entry_value (s.strings k));
  exists = λ k s. ok (is_some (s.strings k));
  ttl = λ k s. ok (ttl_of (s.strings k));
  zcard = λ k s. ok (length (s.zsets k).items);
  scard = λ k s. ok (length (s.sets k));
  zcount = λ k lo hi s. ok (length (between lo hi (s.zsets k).items));
  zrange_by_score = λ k hi s. ok (members (up_to hi (s.zsets k).items));
  zrange_first = λ k s. ok (head? (s.zsets k).items);
  zrev_range_first = λ k s. ok (last? (s.zsets k).items);
  get_count = λ k s. ok (count_of (s.counters k));
}

made :
    (k v : Text) (t : ℕ) (s : View)
    → is_none (s.strings k) ≡ true
    → (l : ℕ) × ((memory.set_nx k v t s).0 ≡ apply (Cmd.set k v l) s)
made k v t s free = (t, rw free refl)

pub memory-Lawful : Lawful memory
memory-Lawful = record {
  elapse_view = λ d s. refl;
  write_view = λ c s. refl;
  write_reply = λ c s. refl;
  pipeline_view = λ cs s. refl;
  pipeline_reply = λ cs s. refl;
  set_nx_view = λ k v t s positive. refl;
  set_nx_kept = λ k v t s taken. rw taken refl;
  set_nx_free = made;
  set_nx_reply = λ k v t s. refl;
  get_reply = λ k s. refl;
  exists_reply = λ k s. refl;
  ttl_reply = λ k s. refl;
  zcard_reply = λ k s. refl;
  scard_reply = λ k s. refl;
  zcount_reply = λ k lo hi s. refl;
  zrange_by_score_reply = λ k hi s. refl;
  zrange_first_reply = λ k s. refl;
  zrev_range_first_reply = λ k s. refl;
  get_count_reply = λ k s. refl;
}

abbrev pub empty_store : View
empty_store = record {
  strings = λ k. none;
  zsets = λ k. empty_zset;
  sets = λ k. [];
  counters = λ k. none;
}
