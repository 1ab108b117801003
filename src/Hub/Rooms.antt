-- ===== src/Hub/Rooms.antt =====
-- Joining and leaving a room, and the client's writer, keep the hub's maps in agreement.
use web3airdrop_os.Base.{
  List, ℕ, ◌≡◌, refl, sym, ap, ◌∙◌, true, false, not, ◌&&◌, arith, ◌==◌, if◌then◌else◌, Bool-cases,
  inl, inr,
}
use web3airdrop_os.Base.Text.{Text, text_eq, text_eq_iff}
use web3airdrop_os.Hub.Maps.{
  Dict, count-insert, lookup, put, alter, mem, mem_text, without, insert, lookup-put, lookup-alter,
  mem-without, mem-insert, mem_text-without, mem_text-insert, insert_text, without_text,
}
use web3airdrop_os.Hub.Clients.{
  with_peers, Client, Hub, set, join_room, leave_room, written, drop_messages, is_empty,
}
use web3airdrop_os.Hub.Agreement.{IsSound, same_number, once, AllSets, alter-AllSets}

pub set_keeps :
    {A : Type 0} (k : Client → A) (c d : ℕ) (x : Client) (p : ℕ → Client)
    → k x ≡ k (p c)
    → k (set c x p d) ≡ k (p d)
set_keeps k c d x p h = elim (Bool-cases (c == d)) [
  | inl same ↦ rw same (h ∙ ap (λ e. k (p e)) (same_number c d same))
  | inr other ↦ rw other refl
]

as_before :
    (c d : ℕ) (r : Text) (h : Hub)
    → IsSound h
    → mem d (lookup r h.rooms) ≡ (
        if c == d
        then mem c h.clients && mem_text r (h.peers c).rooms
        else mem d (lookup r h.rooms))
as_before c d r h sound = elim (Bool-cases (c == d)) [
  | inl same ↦
      rw same (ap (λ e. mem e (lookup r h.rooms)) (sym (same_number c d same)) ∙ sound.by_room r c)
  | inr other ↦ rw other refl
]

-- A change of a client and of one room that agree.
room_changed :
    (c : ℕ) (h : Hub) (x : Client)
    → IsSound h
    → x.user_id ≡ (h.peers c).user_id
    → x.closed ≡ (h.peers c).closed
    → (rooms : Dict) → AllSets rooms
    → ((r : Text) (d : ℕ)
        → mem d (lookup r rooms)
          ≡ (if c == d then mem c h.clients && mem_text r x.rooms else mem d (lookup r h.rooms)))
    → IsSound (record h { rooms = rooms; peers = set c x h.peers })
room_changed c h x sound is_user is_closed rooms sets agree = record {
  open_channel =
      λ d there. set_keeps (λ z. z.closed) c d x h.peers is_closed ∙ sound.open_channel d there;
  apart = sound.apart;
  apart_in = sets;
  by_user = λ u d.
      sound.by_user u d
      ∙ ap (λ i. once (mem d h.clients && (text_eq i u && not (is_empty u))))
          (sym (set_keeps (λ z. z.user_id) c d x h.peers is_user));
  by_room = λ r d. agree r d ∙ elim (Bool-cases (c == d)) [
    | inl same ↦ rw same (ap (λ e. mem e h.clients && mem_text r x.rooms) (same_number c d same))
    | inr other ↦ rw other (sound.by_room r d)
  ];
}

put-AllSets : (c : ℕ) (x : Text) (m : Dict) → AllSets m → AllSets (put x (insert c (lookup x m)) m)
put-AllSets c x m h r d =
    ground (
      arith,
      lookup-put r x (insert c (lookup x m)) m,
      count-insert d c (lookup x m) (h x d),
      h r d,
    )

pub join_room-IsSound :
    (c : ℕ) (name : Text) (h : Hub)
    → IsSound h
    → mem c h.clients ≡ true
    → IsSound (join_room c name h)
unfolding join_room
join_room-IsSound c name h sound there =
    room_changed c h (record (h.peers c) { rooms = insert_text name (h.peers c).rooms }) sound refl
      refl (put name (insert c (lookup name h.rooms)) h.rooms)
      (put-AllSets c name h.rooms sound.apart_in)
      (λ r d.
        ap (mem d) (lookup-put r name (insert c (lookup name h.rooms)) h.rooms)
        ∙ elim (Bool-cases (text_eq name r)) [
          | inl same_room ↦
              let is = (text_eq_iff name r).0 same_room in
              let entered : mem_text r (insert_text name (h.peers c).rooms) ≡ true =
                mem_text-insert r name (h.peers c).rooms ∙ (rw same_room refl) in
              rw (same_room, entered, there)
                (mem-insert d c (lookup name h.rooms)
                  ∙ ap (λ k. if c == d then true else mem d (lookup k h.rooms)) is)
          | inr other_room ↦
              let unchanged : mem_text r (insert_text name (h.peers c).rooms)
                  ≡ mem_text r (h.peers c).rooms =
                mem_text-insert r name (h.peers c).rooms ∙ (rw other_room refl) in
              rw (other_room, unchanged) (as_before c d r h sound)
        ])

pub leave_room-IsSound : (c : ℕ) (name : Text) (h : Hub) → IsSound h → IsSound (leave_room c name h)
unfolding leave_room
leave_room-IsSound c name h sound =
    room_changed c h (record (h.peers c) { rooms = without_text name (h.peers c).rooms }) sound refl
      refl (alter name (without c) h.rooms) (alter-AllSets c name h.rooms sound.apart_in)
      (λ r d.
        ap (mem d) (lookup-alter r name (without c) h.rooms refl)
        ∙ elim (Bool-cases (text_eq name r)) [
          | inl same_room ↦
              let left : mem_text r (without_text name (h.peers c).rooms) ≡ false =
                mem_text-without r name (h.peers c).rooms ∙ (rw same_room refl) in
              rw (same_room, left) (mem-without d c (lookup r h.rooms) ∙ ground arith)
          | inr other_room ↦
              let unchanged : mem_text r (without_text name (h.peers c).rooms)
                  ≡ mem_text r (h.peers c).rooms =
                mem_text-without r name (h.peers c).rooms ∙ (rw other_room refl) in
              rw (other_room, unchanged) (as_before c d r h sound)
        ])

pub sent-IsSound :
    (c : ℕ) (messages : List Text) (h : Hub)
    → IsSound h
    → IsSound (with_peers h (set c (record (h.peers c) { send = messages }) h.peers))
sent-IsSound c messages h sound =
    room_changed c h (record (h.peers c) { send = messages }) sound refl refl h.rooms sound.apart_in
      (λ r d. as_before c d r h sound)

pub written-IsSound : (c n : ℕ) (h : Hub) → IsSound h → IsSound (written c n h)
unfolding written
written-IsSound c n h sound = sent-IsSound c (drop_messages n (h.peers c).send) h sound
