-- ===== src/Hub/Clients.antt =====
-- The hub's state, and what it does with the messages on its channels. A client is a number, which
-- stands for its pointer; `peers` is the memory that the pointers lead to.
use web3airdrop_os.Base.{
  ℕ, zero, suc, Bool, true, false, not, ◌&&◌, Option, none, some, List, [], ◌∷◌, ◌++◌, Outcome, ok,
  err, length, ltb, ◌==◌, if◌then◌else◌,
}
use web3airdrop_os.Base.Text.{Text, codes, text_eq, take, drop}
use web3airdrop_os.Hub.Maps.{
  Dict, lookup, put, alter, keys, mem, without, without_text, remove_first, insert, insert_text,
}

-- `send` is what is in the channel of the same name.
pub record Client : Type 0 where
  pub user_id : Text
  pub send : List Text
  pub closed : Bool
  pub rooms : List Text

-- The sets of clients of `clients` and of a room are lists, which the loops go through in their
-- order; Go's own order is any.
pub record Hub : Type 0 where
  pub clients : List ℕ
  pub user_map : Dict
  pub rooms : Dict
  pub peers : ℕ → Client

-- A panic ends the process.
pub data Panic : Type 0 where
  send_on_closed_channel close_of_closed_channel : Panic

unfoldable pub capacity : ℕ
capacity = 256

abbrev pub no_client : Client
no_client = record { user_id = []; send = []; closed = false; rooms = [] }

abbrev pub new_hub : Hub
new_hub = record { clients = []; user_map = []; rooms = []; peers = λ c. no_client }

abbrev pub set : ℕ → Client → (ℕ → Client) → ℕ → Client
set c x p d = if c == d then x else p d

abbrev pub is_empty : Text → Bool
is_empty [] = true
is_empty (x ∷ xs) = false

-- A client with a new channel.
abbrev pub new_client : Text → Client
new_client user_id = record { user_id = user_id; send = []; closed = false; rooms = [] }

abbrev pub with_user : ℕ → Text → Dict → Dict
with_user c user_id d = if is_empty user_id then d else put user_id (lookup user_id d ++ (c ∷ [])) d

-- `ServeWs` makes the client, and the loop registers it.
unfoldable pub register : ℕ → Text → Hub → Hub
register c user_id h = record {
  clients = insert c h.clients;
  user_map = with_user c user_id h.user_map;
  rooms = h.rooms;
  peers = set c (new_client user_id) h.peers;
}

abbrev pub close : Client → Outcome Panic Client
close x = if x.closed then err close_of_closed_channel else ok (record x { closed = true })

abbrev pub leave_all : ℕ → List Text → Dict → Dict
leave_all c [] d = d
leave_all c (r ∷ rs) d = leave_all c rs (alter r (without c) d)

abbrev pub unregistered : ℕ → Hub → Outcome Panic Client → Outcome Panic Hub
unregistered c h (err e) = err e
unregistered c h (ok x) = ok record {
  clients = without c h.clients;
  user_map = alter x.user_id (remove_first c) h.user_map;
  rooms = leave_all c x.rooms h.rooms;
  peers = set c x h.peers;
}

unfoldable pub unregister : ℕ → Hub → Outcome Panic Hub
unregister c h = if mem c h.clients then unregistered c h (close (h.peers c)) else ok h

-- A message that finds the channel full closes it.
abbrev pub is_full : Client → Bool
is_full x = not (ltb (length x.send) capacity)

unfoldable pub offer : Text → Client → Outcome Panic Client
offer message x =
    if x.closed
    then err send_on_closed_channel
    else if is_full x
    then ok (record x { closed = true })
    else ok (record x { send = x.send ++ (message ∷ []) })

abbrev pub after : {A B : Type 0} → Outcome Panic A → (A → Outcome Panic B) → Outcome Panic B
after (err e) f = err e
after (ok a) f = f a

-- The loop over the clients of a user or of a room.
unfoldable pub send_each : Text → List ℕ → (ℕ → Client) → Outcome Panic (ℕ → Client)
send_each message [] p = ok p
send_each message (c ∷ cs) p = after (offer message (p c)) (λ x. send_each message cs (set c x p))

-- The loop over all clients, which also deletes the client of a full channel.
abbrev pub kept : Bool → ℕ → List ℕ × (ℕ → Client) → List ℕ × (ℕ → Client)
kept true c (cs, p) = (cs, p)
kept false c (cs, p) = (c ∷ cs, p)

unfoldable pub send_all : Text → List ℕ → (ℕ → Client) → Outcome Panic (List ℕ × (ℕ → Client))
send_all message [] p = ok ([], p)
send_all message (c ∷ cs) p =
    after (offer message (p c))
      (λ x. after (send_all message cs (set c x p)) (λ r. ok (kept (is_full (p c)) c r)))

pub data Target : Type 0 where
  everyone nobody : Target
  user room : Text → Target

unfoldable pub target_of : Text → Target
target_of text =
    if text_eq text (codes "all")
    then everyone
    else if ltb 5 (length text) && text_eq (take 5 text) (codes "user:")
    then user (drop 5 text)
    else if ltb 5 (length text) && text_eq (take 5 text) (codes "room:")
    then room (drop 5 text)
    else nobody

abbrev pub with_peers : Hub → (ℕ → Client) → Hub
with_peers h p = record h { peers = p }

abbrev pub deliver : Text → Hub → Target → Outcome Panic Hub
deliver message h everyone =
    after (send_all message h.clients h.peers) (λ r. ok (record h { clients = r.0; peers = r.1 }))
deliver message h (user id) =
    after (send_each message (lookup id h.user_map) h.peers) (λ p. ok (with_peers h p))
deliver message h (room name) =
    after (send_each message (lookup name h.rooms) h.peers) (λ p. ok (with_peers h p))
deliver message h nobody = ok h

-- The JSON of the message, unless it cannot be made.
unfoldable pub handle_broadcast : Option Text → Text → Hub → Outcome Panic Hub
handle_broadcast none target h = ok h
handle_broadcast (some message) target h = deliver message h (target_of target)

unfoldable pub user_target : Text → Text
user_target user_id = codes "user:" ++ user_id

unfoldable pub room_target : Text → Text
room_target name = codes "room:" ++ name

unfoldable pub join_room : ℕ → Text → Hub → Hub
join_room c name h = record h {
  rooms = put name (insert c (lookup name h.rooms)) h.rooms;
  peers = set c (record (h.peers c) { rooms = insert_text name (h.peers c).rooms }) h.peers;
}

unfoldable pub leave_room : ℕ → Text → Hub → Hub
leave_room c name h = record h {
  rooms = alter name (without c) h.rooms;
  peers = set c (record (h.peers c) { rooms = without_text name (h.peers c).rooms }) h.peers;
}

unfoldable pub get_online_users : Hub → List Text
get_online_users h = keys h.user_map

unfoldable pub drop_messages : ℕ → List Text → List Text
drop_messages zero xs = xs
drop_messages (suc n) [] = []
drop_messages (suc n) (x ∷ xs) = drop_messages n xs

-- The client's writer takes messages from the channel.
unfoldable pub written : ℕ → ℕ → Hub → Hub
written c n h =
    with_peers h (set c (record (h.peers c) { send = drop_messages n (h.peers c).send }) h.peers)
