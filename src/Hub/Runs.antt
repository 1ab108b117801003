-- ===== src/Hub/Runs.antt =====
-- Runs of the hub: what clients and broadcasts do to it, one event at a time.
use web3airdrop_os.Base.{
  ℕ, ◌≡◌, refl, sym, ap, ◌∙◌, subst, Bool, true, false, not, ◌&&◌, Option, none, some, arith,
  Outcome, ok, if◌then◌else◌,
}
use web3airdrop_os.Base.Text.{Text, text_eq, codes}
use web3airdrop_os.Hub.Maps.{mem, mem_text}
use web3airdrop_os.Hub.Clients.{
  Client, Hub, new_hub, Panic, is_empty, register, unregister, handle_broadcast, join_room,
  leave_room, written, everyone, user, room, target_of, user_target, room_target, with_peers,
}
use web3airdrop_os.Hub.Agreement.{IsSound, once, register-IsSound, unregister-IsSound}
use web3airdrop_os.Hub.Rooms.{join_room-IsSound, leave_room-IsSound, written-IsSound}
use web3airdrop_os.Hub.Incoming.{Message, handle_message, said, handle_message-IsSound}
use web3airdrop_os.Hub.Audience.{IsQuick, receives, got, deliver_quick}
use web3airdrop_os.Hub.Targets.{
  IsDelivered, user_broadcast, target_broadcast, target_of-room_target, target_of-all,
}

pub data Event : Type 0 where
  connects : (c : ℕ) (user_id : Text) → Event
  disconnects : (c : ℕ) → Event
  broadcasts : (message : Option Text) (target : Text) → Event
  joins leaves : (c : ℕ) (name : Text) → Event
  writes : (c n : ℕ) → Event
  says : (c : ℕ) (message : Option Message) → Event

unfoldable pub step : Event → Hub → Outcome Panic Hub
step (connects c user_id) h = ok (register c user_id h)
step (disconnects c) h = unregister c h
step (broadcasts message target) h = handle_broadcast message target h
step (joins c name) h = ok (join_room c name h)
step (leaves c name) h = ok (leave_room c name h)
step (writes c n) h = ok (written c n h)
step (says c message) h = said h (handle_message c message h)

-- A new client has a new pointer, and a client joins rooms and sends messages while it is registered.
abbrev pub IsAllowed : Event → Hub → Type 0
IsAllowed (connects c user_id) h = mem c h.clients ≡ false
IsAllowed (broadcasts message target) h = IsQuick h
IsAllowed (joins c name) h = mem c h.clients ≡ true
IsAllowed (says c message) h = mem c h.clients ≡ true
IsAllowed _ h = Unit {0}

pub data Reaches : Hub → Type 0 where
  starts : Reaches new_hub
  goes_on : (e : Event) (h h' : Hub) → Reaches h → IsAllowed e h → step e h ≡ ok h' → Reaches h'

peers-IsSound :
    (h : Hub) (q : ℕ → Client)
    → IsSound h
    → ((d : ℕ)
        → ((q d).user_id ≡ (h.peers d).user_id)
          × ((q d).closed ≡ (h.peers d).closed)
          × ((q d).rooms ≡ (h.peers d).rooms))
    → IsSound (with_peers h q)
peers-IsSound h q sound same = record {
  open_channel = λ c there. (same c).1 ∙ sound.open_channel c there;
  apart = sound.apart;
  apart_in = sound.apart_in;
  by_user = λ u c.
      sound.by_user u c
      ∙ ap (λ i. once (mem c h.clients && (text_eq i u && not (is_empty u)))) (sym (same c).0);
  by_room = λ r c. sound.by_room r c ∙ ap (λ rs. mem c h.clients && mem_text r rs) (sym (same c).2);
}

got_same :
    (m : Text) (b : Bool) (x y : Client)
    → y ≡ (if b then got m x else x)
    → (y.user_id ≡ x.user_id) × (y.closed ≡ x.closed) × (y.rooms ≡ x.rooms)
got_same m true x y h = (ap (λ z. z.user_id) h, ap (λ z. z.closed) h, ap (λ z. z.rooms) h)
got_same m false x y h = (ap (λ z. z.user_id) h, ap (λ z. z.closed) h, ap (λ z. z.rooms) h)

step-IsSound :
    (e : Event) (h : Hub) → IsSound h → IsAllowed e h → (h' : Hub) × (step e h ≡ ok h') × IsSound h'
unfolding step handle_broadcast
step-IsSound (connects c user_id) h sound new =
    (register c user_id h, refl, register-IsSound c user_id h sound new)
step-IsSound (disconnects c) h sound allowed = unregister-IsSound c h sound
step-IsSound (broadcasts none target) h sound quick = (h, refl, sound)
step-IsSound (broadcasts (some m) target) h sound quick =
    let t = target_of target in
    let (q, done, sent) = deliver_quick m t h sound quick in
    (
      with_peers h q,
      done,
      peers-IsSound h q sound (λ d. got_same m (receives t h d) (h.peers d) (q d) (sent d)),
    )
step-IsSound (joins c name) h sound there =
    (join_room c name h, refl, join_room-IsSound c name h sound there)
step-IsSound (leaves c name) h sound allowed =
    (leave_room c name h, refl, leave_room-IsSound c name h sound)
step-IsSound (writes c n) h sound allowed = (written c n h, refl, written-IsSound c n h sound)
step-IsSound (says c message) h sound there = handle_message-IsSound c message h sound there

new_hub-IsSound : IsSound new_hub
new_hub-IsSound = record {
  open_channel = λ c there. cc;
  apart = λ c. omega arith;
  apart_in = λ r c. omega arith;
  by_user = λ u c. refl;
  by_room = λ r c. refl;
}

pub Reaches-IsSound : (h : Hub) → Reaches h → IsSound h
Reaches-IsSound _ starts = new_hub-IsSound
Reaches-IsSound _ (goes_on e h h' run allowed done) =
    let (h2, done2, sound) = step-IsSound e h (Reaches-IsSound h run) allowed in
    let same : ok h2 ≡ ok h' = sym done2 ∙ done in let is : h2 ≡ h' = cc in subst IsSound is sound

-- From the empty hub, as long as no registered client has a full channel when a message is
-- broadcast, clients are new when they connect and registered when they join a room or send a
-- message, no event makes the process panic; and at every time the channels of the registered
-- clients are open, each of them is listed once for its user, if it has one, and is in just the
-- rooms that it has joined, and nobody else is listed.
pub runs_agree :
    (e : Event) (h : Hub)
    → Reaches h
    → IsAllowed e h
    → IsSound h × ((h' : Hub) × (step e h ≡ ok h') × IsSound h')
runs_agree e h run allowed =
    let sound = Reaches-IsSound h run in (sound, step-IsSound e h sound allowed)

-- After any such run, if no registered client has a full channel, a broadcast to a user, to a room
-- with a name, or to all returns, and adds the message to the channels of just the registered clients
-- of that user, of those that have joined the room, or of all, and changes no client otherwise.
pub broadcasts_reach :
    (m id name : Text) (h : Hub)
    → Reaches h
    → IsQuick h
    → is_empty name ≡ false
    → ((h' : Hub) × (handle_broadcast (some m) (user_target id) h ≡ ok h')
        × IsDelivered m (user id) h h')
      × ((h' : Hub) × (handle_broadcast (some m) (room_target name) h ≡ ok h')
          × IsDelivered m (room name) h h')
      × ((h' : Hub) × (handle_broadcast (some m) (codes "all") h ≡ ok h')
          × IsDelivered m everyone h h')
broadcasts_reach m id name h run quick named =
    let sound = Reaches-IsSound h run in
    (
      user_broadcast m id h sound quick,
      target_broadcast m (room_target name) (room name) h sound quick
          (target_of-room_target name named),
      target_broadcast m (codes "all") everyone h sound quick target_of-all,
    )
