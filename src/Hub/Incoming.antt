-- ===== src/Hub/Incoming.antt =====
-- What the hub does with a client's own messages.
use web3airdrop_os.Base.{
  ℕ, ◌≡◌, refl, sym, subst, Bool, true, false, Option, none, some, List, [], ◌∷◌, ◌++◌, Outcome, ok,
  err, if◌then◌else◌,
}
use web3airdrop_os.Base.Text.{Text, codes, text_eq}
use web3airdrop_os.Hub.Maps.{mem}
use web3airdrop_os.Hub.Clients.{
  Client, Hub, Panic, send_on_closed_channel, set, is_full, with_peers, join_room, leave_room,
}
use web3airdrop_os.Hub.Agreement.{IsSound}
use web3airdrop_os.Hub.Rooms.{join_room-IsSound, leave_room-IsSound, sent-IsSound}

-- What JSON has as a payload: a text, a list with the texts in it, or anything else.
pub data Payload : Type 0 where
  text : Text → Payload
  list : List (Option Text) → Payload
  other : Payload

pub record Message : Type 0 where
  pub type_name : Text
  pub payload : Payload

-- None while the channel is full: the send waits, and the client's loop with it.
abbrev pub ponged : ℕ → Hub → Client → Option (Outcome Panic Hub)
ponged c h x =
    if x.closed
    then some (err send_on_closed_channel)
    else if is_full x
    then none
    else some (
        ok (
          with_peers h
            (set c (record x { send = x.send ++ (codes "{\"type\":\"pong\"}" ∷ []) }) h.peers)))

-- While the send waits the hub stays as it is.
abbrev pub said : Hub → Option (Outcome Panic Hub) → Outcome Panic Hub
said h none = ok h
said h (some o) = o

abbrev pub join_text : ℕ → Payload → Hub → Hub
join_text c (text r) h = join_room c r h
join_text c _ h = h

abbrev pub leave_text : ℕ → Payload → Hub → Hub
leave_text c (text r) h = leave_room c r h
leave_text c _ h = h

unfoldable pub subscribe_each : ℕ → List (Option Text) → Hub → Hub
subscribe_each c [] h = h
subscribe_each c (none ∷ es) h = subscribe_each c es h
subscribe_each c (some e ∷ es) h = subscribe_each c es (join_room c (codes "event:" ++ e) h)

abbrev pub subscribe : ℕ → Payload → Hub → Hub
subscribe c (list es) h = subscribe_each c es h
subscribe c _ h = h

-- A message that is no JSON is passed over.
unfoldable pub handle_message : ℕ → Option Message → Hub → Option (Outcome Panic Hub)
handle_message c none h = some (ok h)
handle_message c (some m) h =
    if text_eq m.type_name (codes "ping")
    then ponged c h (h.peers c)
    else if text_eq m.type_name (codes "join_room")
    then some (ok (join_text c m.payload h))
    else if text_eq m.type_name (codes "leave_room")
    then some (ok (leave_text c m.payload h))
    else if text_eq m.type_name (codes "subscribe")
    then some (ok (subscribe c m.payload h))
    else some (ok h)

join_text-IsSound :
    (c : ℕ) (p : Payload) (h : Hub) → IsSound h → mem c h.clients ≡ true → IsSound (join_text c p h)
join_text-IsSound c (text r) h sound there = join_room-IsSound c r h sound there
join_text-IsSound c (list es) h sound there = sound
join_text-IsSound c other h sound there = sound

leave_text-IsSound : (c : ℕ) (p : Payload) (h : Hub) → IsSound h → IsSound (leave_text c p h)
leave_text-IsSound c (text r) h sound = leave_room-IsSound c r h sound
leave_text-IsSound c (list es) h sound = sound
leave_text-IsSound c other h sound = sound

subscribe_each-IsSound :
    (c : ℕ) (es : List (Option Text)) (h : Hub)
    → IsSound h
    → mem c h.clients ≡ true
    → IsSound (subscribe_each c es h)
unfolding subscribe_each join_room
subscribe_each-IsSound c [] h sound there = sound
subscribe_each-IsSound c (none ∷ es) h sound there = subscribe_each-IsSound c es h sound there
subscribe_each-IsSound c (some e ∷ es) h sound there =
    subscribe_each-IsSound c es (join_room c (codes "event:" ++ e) h)
      (join_room-IsSound c (codes "event:" ++ e) h sound there) there

subscribe-IsSound :
    (c : ℕ) (p : Payload) (h : Hub) → IsSound h → mem c h.clients ≡ true → IsSound (subscribe c p h)
subscribe-IsSound c (text r) h sound there = sound
subscribe-IsSound c (list es) h sound there = subscribe_each-IsSound c es h sound there
subscribe-IsSound c other h sound there = sound

abbrev Keeps : Outcome Panic Hub → Type 0
Keeps o = (h' : Hub) × (o ≡ ok h') × IsSound h'

either :
    (h : Hub) (b : Bool) (o o' : Option (Outcome Panic Hub))
    → Keeps (said h o)
    → Keeps (said h o')
    → Keeps (said h (if b then o else o'))
either h true o o' k k' = k
either h false o o' k k' = k'

ponged-IsSound :
    (c : ℕ) (h : Hub) → IsSound h → mem c h.clients ≡ true → Keeps (said h (ponged c h (h.peers c)))
ponged-IsSound c h sound there =
    let usable = sound.open_channel c there in
    let more = (h.peers c).send ++ (codes "{\"type\":\"pong\"}" ∷ []) in
    let sent = with_peers h (set c (record (h.peers c) { send = more }) h.peers) in
    let rest : Option (Outcome Panic Hub) = if is_full (h.peers c) then none else some (ok sent) in
    subst (λ b. Keeps (said h (if b then some (err send_on_closed_channel) else rest))) (sym usable)
      (either h (is_full (h.peers c)) none (some (ok sent)) (h, refl, sound)
        (sent, refl, sent-IsSound c more h sound))

-- A registered client's message does not make the process panic, and keeps the maps in agreement.
pub handle_message-IsSound :
    (c : ℕ) (m : Option Message) (h : Hub)
    → IsSound h
    → mem c h.clients ≡ true
    → (h' : Hub) × (said h (handle_message c m h) ≡ ok h') × IsSound h'
unfolding handle_message
handle_message-IsSound c none h sound there = (h, refl, sound)
handle_message-IsSound c (some m) h sound there =
    let p = m.payload in
    let is = λ (name : Text). text_eq m.type_name name in
    let joins : Option (Outcome Panic Hub) = some (ok (join_text c p h)) in
    let leaves : Option (Outcome Panic Hub) = some (ok (leave_text c p h)) in
    let subscribes : Option (Outcome Panic Hub) = some (ok (subscribe c p h)) in
    let if_subscribe = if is (codes "subscribe") then subscribes else some (ok h) in
    let if_leave = if is (codes "leave_room") then leaves else if_subscribe in
    let if_join = if is (codes "join_room") then joins else if_leave in
    either h (is (codes "ping")) (ponged c h (h.peers c)) if_join (ponged-IsSound c h sound there) (
      either h (is (codes "join_room")) joins if_leave
        (join_text c p h, refl, join_text-IsSound c p h sound there)
        (either h (is (codes "leave_room")) leaves if_subscribe
          (leave_text c p h, refl, leave_text-IsSound c p h sound)
          (either h (is (codes "subscribe")) subscribes (some (ok h))
            (subscribe c p h, refl, subscribe-IsSound c p h sound there) (h, refl, sound))))
