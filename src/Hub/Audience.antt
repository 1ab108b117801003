-- ===== src/Hub/Audience.antt =====
-- Who receives a broadcast, and that it reaches them.
use web3airdrop_os.Base.{
  ℕ, ◌≤◌, ◌≡◌, refl, sym, ap, ◌∙◌, Bool, true, false, ◌&&◌, List, [], ◌∷◌, ◌++◌, arith, ok,
  if◌then◌else◌, Bool-cases, inl, inr,
}
use web3airdrop_os.Base.Text.{Text}
use web3airdrop_os.Hub.Maps.{lookup, mem, count, mem_text, mem_count, absent_count}
use web3airdrop_os.Hub.Clients.{
  Client, Hub, is_full, deliver, Target, everyone, nobody, user, room, after, with_peers,
}
use web3airdrop_os.Hub.Agreement.{IsSound, of_user, once}
use web3airdrop_os.Hub.Delivery.{offered, keeping, send_each-IsOffered, send_all-IsOffered}

-- No registered client has a full channel.
abbrev pub IsQuick : Hub → Type 0
IsQuick h = (c : ℕ) → mem c h.clients ≡ true → is_full (h.peers c) ≡ false

-- The receivers of a target.
abbrev pub receives : Target → Hub → ℕ → Bool
receives everyone h c = mem c h.clients
receives (user id) h c = mem c h.clients && of_user id (h.peers c)
receives (room name) h c = mem c h.clients && mem_text name (h.peers c).rooms
receives nobody h c = false

abbrev pub got : Text → Client → Client
got m x = record x { send = x.send ++ (m ∷ []) }

counted_mem : (x : ℕ) (ys : List ℕ) (b : Bool) → count x ys ≡ once b → mem x ys ≡ b
counted_mem x ys b h = elim (Bool-cases (mem x ys)) [
  | inl there ↦ ground (arith, there, h, mem_count x ys)
  | inr gone ↦ ground (arith, gone, h, absent_count x ys)
]

abbrev pub audience : Target → Hub → List ℕ
audience everyone h = h.clients
audience (user id) h = lookup id h.user_map
audience (room name) h = lookup name h.rooms
audience nobody h = []

pub audience-receives :
    (t : Target) (h : Hub) (d : ℕ) → IsSound h → mem d (audience t h) ≡ receives t h d
audience-receives everyone h d sound = refl
audience-receives (user id) h d sound = counted_mem d (lookup id h.user_map) _ (sound.by_user id d)
audience-receives (room name) h d sound = sound.by_room name d
audience-receives nobody h d sound = refl

once_le : (b : Bool) → once b ≤ 1
once_le true = omega arith
once_le false = omega arith

count-audience : (t : Target) (h : Hub) (d : ℕ) → IsSound h → count d (audience t h) ≤ 1
count-audience everyone h d sound = sound.apart d
count-audience (user id) h d sound =
    ground (arith, sound.by_user id d, once_le (mem d h.clients && of_user id (h.peers d)))
count-audience (room name) h d sound = sound.apart_in name d
count-audience nobody h d sound = omega arith

receives-mem : (t : Target) (h : Hub) (d : ℕ) → receives t h d ≡ true → mem d h.clients ≡ true
receives-mem everyone h d e = e
receives-mem (user id) h d e = ground (arith, e)
receives-mem (room name) h d e = ground (arith, e)
receives-mem nobody h d e = cc

audience-opened :
    (t : Target) (h : Hub) (d : ℕ)
    → IsSound h
    → mem d (audience t h) ≡ true
    → (h.peers d).closed ≡ false
audience-opened t h d sound there =
    sound.open_channel d (receives-mem t h d (sym (audience-receives t h d sound) ∙ there))

-- The clients that stay registered.
abbrev pub remaining : Target → Hub → List ℕ
remaining everyone h = keeping h.peers h.clients
remaining _ h = h.clients

abbrev pub IsSent : Text → Target → Hub → (ℕ → Client) → Type 0
IsSent m t h q = (d : ℕ) → q d ≡ (if receives t h d then offered m (h.peers d) else h.peers d)

-- A broadcast from a sound hub returns, and each receiver is offered the message.
pub deliver-IsSent :
    (m : Text) (t : Target) (h : Hub)
    → IsSound h
    → (q : ℕ → Client) × (deliver m h t ≡ ok (record h { clients = remaining t h; peers = q }))
      × IsSent m t h q
deliver-IsSent m everyone h sound =
    let (q, done, sent) = send_all-IsOffered m h.clients h.peers sound.open_channel sound.apart in
    (q, ap (λ o. after o (λ r. ok (record h { clients = r.0; peers = r.1 }))) done, sent)
deliver-IsSent m (user id) h sound =
    let t = user id in
    let (q, done, sent) =
      send_each-IsOffered m (lookup id h.user_map) h.peers (λ d. audience-opened t h d sound)
        (λ d. count-audience t h d sound) in
    (
      q,
      ap (λ o. after o (λ p. ok (with_peers h p))) done,
      λ d.
          sent d
          ∙ ap (λ b. if b then offered m (h.peers d) else h.peers d)
              (audience-receives t h d sound),
    )
deliver-IsSent m (room name) h sound =
    let t = room name in
    let (q, done, sent) =
      send_each-IsOffered m (lookup name h.rooms) h.peers (λ d. audience-opened t h d sound)
        (λ d. count-audience t h d sound) in
    (
      q,
      ap (λ o. after o (λ p. ok (with_peers h p))) done,
      λ d.
          sent d
          ∙ ap (λ b. if b then offered m (h.peers d) else h.peers d)
              (audience-receives t h d sound),
    )
deliver-IsSent m nobody h sound = (h.peers, refl, λ d. refl)

keeping_quick :
    (p : ℕ → Client) (cs : List ℕ)
    → ((d : ℕ) → mem d cs ≡ true → is_full (p d) ≡ false)
    → keeping p cs ≡ cs
keeping_quick p [] h = refl
keeping_quick p (c ∷ cs) h =
    ground (arith, h c (ground arith), keeping_quick p cs (λ d there. h d (ground (arith, there))))

remaining_quick : (t : Target) (h : Hub) → IsQuick h → remaining t h ≡ h.clients
remaining_quick everyone h quick = keeping_quick h.peers h.clients quick
remaining_quick (user id) h quick = refl
remaining_quick (room name) h quick = refl
remaining_quick nobody h quick = refl

-- As long as channels have room, each receiver gets the message, and nobody else changes.
pub deliver_quick :
    (m : Text) (t : Target) (h : Hub)
    → IsSound h
    → IsQuick h
    → (q : ℕ → Client) × (deliver m h t ≡ ok (with_peers h q))
      × ((d : ℕ) → q d ≡ (if receives t h d then got m (h.peers d) else h.peers d))
deliver_quick m t h sound quick =
    let (q, done, sent) = deliver-IsSent m t h sound in
    (
      q,
      done ∙ ap (λ cs. ok (record h { clients = cs; peers = q })) (remaining_quick t h quick),
      λ d. sent d ∙ elim (Bool-cases (receives t h d)) [
        | inl hit ↦ let room_left = quick d (receives-mem t h d hit) in rw (hit, room_left) refl
        | inr other ↦ rw other refl
      ],
    )
