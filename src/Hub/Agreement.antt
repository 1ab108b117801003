-- ===== src/Hub/Agreement.antt =====
-- The hub's maps agree with its clients, as long as no channel is full when a message is sent.
use web3airdrop_os.Base.{
  ℕ, ◌≤◌, ◌+◌, ◌≡◌, refl, sym, ap, ◌∙◌, subst, Bool, true, false, not, ◌&&◌, List, [], ◌∷◌, ◌++◌,
  arith, ok, ◌==◌, if◌then◌else◌, Bool-cases, inl, inr,
}
use web3airdrop_os.Base.Text.{Text, text_eq, text_eq_iff}
use web3airdrop_os.Hub.Maps.{
  Dict, lookup, put, alter, mem, count, mem_text, without, remove_first, insert, lookup-put,
  lookup-alter, count-append, count-remove_first, mem-without, mem-insert, count-insert,
  count-without,
}
use web3airdrop_os.Hub.Clients.{
  Client, Hub, set, is_empty, with_user, register, leave_all, unregister,
}

abbrev pub of_user : Text → Client → Bool
of_user u x = text_eq x.user_id u && not (is_empty u)

abbrev pub once : Bool → ℕ
once true = 1
once false = 0

-- A set of clients in every room.
abbrev pub AllSets : Dict → Type 0
AllSets m = (r : Text) (d : ℕ) → count d (lookup r m) ≤ 1

-- The channels of registered clients are open; the users' lists and the rooms hold the registered
-- clients that they should, and no others.
pub record IsSound (h : Hub) : Type 0 where
  pub open_channel : (c : ℕ) → mem c h.clients ≡ true → (h.peers c).closed ≡ false
  pub apart : (c : ℕ) → count c h.clients ≤ 1
  pub apart_in : AllSets h.rooms
  pub by_user :
      (u : Text) (c : ℕ)
      → count c (lookup u h.user_map) ≡ once (mem c h.clients && of_user u (h.peers c))
  pub by_room :
      (r : Text) (c : ℕ)
      → mem c (lookup r h.rooms) ≡ mem c h.clients && mem_text r (h.peers c).rooms

pub same_number : (c d : ℕ) → (c == d) ≡ true → c ≡ d
same_number c d h = ground (arith, h)

empty_apart : (x : ℕ) (u : Text) → text_eq [] (x ∷ u) ≡ false
unfolding text_eq
empty_apart x u = refl

with_user_count :
    (c d : ℕ) (id u : Text) (m : Dict)
    → count d (lookup u (with_user c id m))
      ≡ count d (lookup u m) + once ((c == d) && (text_eq id u && not (is_empty u)))
with_user_count c d [] [] m = ground arith
with_user_count c d [] (x ∷ u) m = ground (arith, empty_apart x u)
with_user_count c d (x ∷ id) u m = elim (Bool-cases (text_eq (x ∷ id) u)) [
  | inl same ↦
      let is : x ∷ id ≡ u = (text_eq_iff (x ∷ id) u).0 same in
      let nonempty : is_empty u ≡ false = ap is_empty (sym is) in
      let put_lem : lookup u (put (x ∷ id) (lookup (x ∷ id) m ++ (c ∷ [])) m)
          ≡ lookup u m ++ (c ∷ []) =
        lookup-put u (x ∷ id) (lookup (x ∷ id) m ++ (c ∷ [])) m
        ∙ (rw same (ap (λ k. lookup k m ++ (c ∷ [])) is)) in
      ap (count d) put_lem
      ∙ count-append d (lookup u m) (c ∷ [])
      ∙ (rw (same, nonempty) (ground arith))
  | inr other ↦
      let put_lem : lookup u (put (x ∷ id) (lookup (x ∷ id) m ++ (c ∷ [])) m) ≡ lookup u m =
        lookup-put u (x ∷ id) (lookup (x ∷ id) m ++ (c ∷ [])) m ∙ (rw other refl) in
      ap (count d) put_lem ∙ (rw other (ground arith))
]

pub register-IsSound :
    (c : ℕ) (id : Text) (h : Hub) → IsSound h → mem c h.clients ≡ false → IsSound (register c id h)
unfolding register
register-IsSound c id h sound new = record {
  open_channel = λ d there. elim (Bool-cases (c == d)) [
    | inl same ↦ rw same refl
    | inr other ↦
        let kept : mem d (insert c h.clients) ≡ mem d h.clients =
          mem-insert d c h.clients ∙ (rw other refl) in
        rw other (sound.open_channel d (sym kept ∙ there))
  ];
  apart = λ d. count-insert d c h.clients (sound.apart d);
  apart_in = sound.apart_in;
  by_user = λ u d. with_user_count c d id u h.user_map ∙ elim (Bool-cases (c == d)) [
    | inl same ↦
        let gone : mem d h.clients ≡ false =
          subst (λ e. mem e h.clients ≡ false) (same_number c d same) new in
        let added : mem d (insert c h.clients) ≡ true = mem-insert d c h.clients ∙ (rw same refl) in
        let unlisted : count d (lookup u h.user_map) ≡ 0 = sound.by_user u d ∙ (rw gone refl) in
        rw (unlisted, added, same) (ground arith)
    | inr other ↦
        let kept : mem d (insert c h.clients) ≡ mem d h.clients =
          mem-insert d c h.clients ∙ (rw other refl) in
        rw (kept, other) (ground (arith, sound.by_user u d))
  ];
  by_room = λ r d. elim (Bool-cases (c == d)) [
    | inl same ↦
        let gone : mem d h.clients ≡ false =
          subst (λ e. mem e h.clients ≡ false) (same_number c d same) new in
        let added : mem d (insert c h.clients) ≡ true = mem-insert d c h.clients ∙ (rw same refl) in
        rw (added, same) (sound.by_room r d ∙ (rw gone refl))
    | inr other ↦
        let kept : mem d (insert c h.clients) ≡ mem d h.clients =
          mem-insert d c h.clients ∙ (rw other refl) in
        rw (kept, other) (sound.by_room r d)
  ];
}

mem-leave_all :
    (c d : ℕ) (rs : List Text) (m : Dict) (r : Text)
    → mem d (lookup r (leave_all c rs m)) ≡ mem d (lookup r m) && not ((c == d) && mem_text r rs)
mem-leave_all c d [] m r = ground arith
mem-leave_all c d (x ∷ rs) m r =
    mem-leave_all c d rs (alter x (without c) m) r
    ∙ ground (arith, lookup-alter r x (without c) m refl, mem-without d c (lookup r m))

pub alter-AllSets : (c : ℕ) (x : Text) (m : Dict) → AllSets m → AllSets (alter x (without c) m)
alter-AllSets c x m h r d =
    ground
      (arith, lookup-alter r x (without c) m refl, count-without d c (lookup r m) (h r d), h r d)

count-leave_all : (c : ℕ) (rs : List Text) (m : Dict) → AllSets m → AllSets (leave_all c rs m)
count-leave_all c [] m h = h
count-leave_all c (x ∷ rs) m h =
    count-leave_all c rs (alter x (without c) m) (alter-AllSets c x m h)

abbrev closing : Client → Client
closing x = record x { closed = true }

abbrev gone_from : ℕ → Hub → Hub
gone_from c h =
    let x = closing (h.peers c) in
    record {
      clients = without c h.clients;
      user_map = alter x.user_id (remove_first c) h.user_map;
      rooms = leave_all c x.rooms h.rooms;
      peers = set c x h.peers;
    }

unlisted_count :
    (c d : ℕ) (h : Hub) (u : Text)
    → IsSound h
    → mem c h.clients ≡ true
    → count d (lookup u (alter (h.peers c).user_id (remove_first c) h.user_map))
      ≡ (if c == d then 0 else count d (lookup u h.user_map))
unlisted_count c d h u sound there =
    let id = (h.peers c).user_id in
    let listed : count c (lookup u h.user_map) ≡ once (text_eq id u && not (is_empty u)) =
      sound.by_user u c ∙ (rw there refl) in
    ap (count d) (lookup-alter u id (remove_first c) h.user_map refl) ∙ elim (Bool-cases (c == d)) [
      | inl same ↦
          let is = same_number c d same in
          let listed' : count d (lookup u h.user_map) ≡ once (text_eq id u && not (is_empty u)) =
            ap (λ e. count e (lookup u h.user_map)) (sym is) ∙ listed in
          ground (arith, listed', same, count-remove_first d c (lookup u h.user_map))
      | inr other ↦ ground (arith, other, count-remove_first d c (lookup u h.user_map))
    ]

gone_from-IsSound : (c : ℕ) (h : Hub) → IsSound h → mem c h.clients ≡ true → IsSound (gone_from c h)
gone_from-IsSound c h sound there = record {
  open_channel = λ d still. elim (Bool-cases (c == d)) [
    | inl same ↦
        let clash : false ≡ true = sym (mem-without d c h.clients ∙ (rw same refl)) ∙ still in cc
    | inr other ↦
        let kept : mem d (without c h.clients) ≡ mem d h.clients =
          mem-without d c h.clients ∙ (rw other refl) in
        rw other (sound.open_channel d (sym kept ∙ still))
  ];
  apart = λ d. count-without d c h.clients (sound.apart d);
  apart_in = count-leave_all c (h.peers c).rooms h.rooms sound.apart_in;
  by_user = λ u d. unlisted_count c d h u sound there ∙ elim (Bool-cases (c == d)) [
    | inl same ↦
        let out : mem d (without c h.clients) ≡ false =
          mem-without d c h.clients ∙ (rw same refl) in
        rw (out, same) refl
    | inr other ↦
        let kept : mem d (without c h.clients) ≡ mem d h.clients =
          mem-without d c h.clients ∙ (rw other refl) in
        rw (kept, other) (sound.by_user u d)
  ];
  by_room = λ r d. mem-leave_all c d (h.peers c).rooms h.rooms r ∙ elim (Bool-cases (c == d)) [
    | inl same ↦
        let out : mem d (without c h.clients) ≡ false =
          mem-without d c h.clients ∙ (rw same refl) in
        let is = same_number c d same in
        let listed : mem d (lookup r h.rooms) ≡ mem_text r (h.peers c).rooms =
          ap (λ e. mem e (lookup r h.rooms)) (sym is) ∙ sound.by_room r c ∙ (rw there refl) in
        rw (out, listed, same) (ground arith)
    | inr other ↦
        let kept : mem d (without c h.clients) ≡ mem d h.clients =
          mem-without d c h.clients ∙ (rw other refl) in
        rw (kept, other) (ground (arith, sound.by_room r d))
  ];
}

pub unregister-IsSound :
    (c : ℕ) (h : Hub) → IsSound h → (h' : Hub) × (unregister c h ≡ ok h') × IsSound h'
unfolding unregister
unregister-IsSound c h sound = elim (Bool-cases (mem c h.clients)) [
  | inl there ↦
      let usable = sound.open_channel c there in
      (gone_from c h, rw (there, usable) refl, gone_from-IsSound c h sound there)
  | inr gone ↦ (h, rw gone refl, sound)
]
