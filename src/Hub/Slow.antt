-- ===== src/Hub/Slow.antt =====
-- A client whose channel is full when a message is broadcast.
use web3airdrop_os.Base.{
  ℕ, ◌==◌, ◌≡◌, refl, sym, ap, ◌∙◌, Bool, true, false, ◌&&◌, some, List, [], ◌∷◌, ok, err,
  if◌then◌else◌, Bool-cases, inl, inr,
}
use web3airdrop_os.Base.Text.{Text, codes, text_eq_self}
use web3airdrop_os.Hub.Maps.{mem, lookup}
use web3airdrop_os.Hub.Clients.{
  Client, Hub, send_on_closed_channel, close_of_closed_channel, is_full, is_empty, unregister,
  handle_broadcast, user_target, deliver, everyone, user, after, with_peers,
}
use web3airdrop_os.Hub.Agreement.{same_number}
use web3airdrop_os.Hub.Delivery.{keeping, offered, send_each_closed}
use web3airdrop_os.Hub.Audience.{receives, deliver-IsSent, audience-receives}
use web3airdrop_os.Hub.Targets.{target_of-user_target, target_of-all}
use web3airdrop_os.Hub.Runs.{Reaches, Reaches-IsSound}

keeping_out :
    (p : ℕ → Client) (cs : List ℕ) (c : ℕ) → is_full (p c) ≡ true → mem c (keeping p cs) ≡ false
keeping_out p [] c h = refl
keeping_out p (d ∷ cs) c h = elim (Bool-cases (is_full (p d))) [
  | inl full ↦ rw full (keeping_out p cs c h)
  | inr room ↦ elim (Bool-cases (d == c)) [
    | inl same ↦
        let clash : true ≡ false =
          sym h ∙ ap (λ e. is_full (p e)) (sym (same_number d c same)) ∙ room in
        cc
    | inr other ↦ rw (room, other) (keeping_out p cs c h)
  ]
]

receives_self :
    (h : Hub) (c : ℕ)
    → mem c h.clients ≡ true
    → is_empty (h.peers c).user_id ≡ false
    → receives (user (h.peers c).user_id) h c ≡ true
receives_self h c there named =
    rw (there, named) (ap (λ b. b && true) (text_eq_self (h.peers c).user_id))

shut :
    (m : Text) (x y : Client) (b : Bool)
    → b ≡ true
    → is_full x ≡ true
    → y ≡ (if b then offered m x else x)
    → y.closed ≡ true
shut m x y b hit full h = ap (λ z. z.closed) h ∙ (rw (hit, full) refl)

-- A registered client with a user, whose channel is full, makes the process panic. After a broadcast
-- to its user, its end closes the closed channel. After a broadcast to all, its end changes nothing,
-- and the next broadcast to its user sends on the closed channel.
pub slow_client_panics :
    (m m' : Text) (c : ℕ) (h : Hub)
    → Reaches h
    → mem c h.clients ≡ true
    → is_empty (h.peers c).user_id ≡ false
    → is_full (h.peers c) ≡ true
    → let target = user_target (h.peers c).user_id in
      ((h' : Hub) × (handle_broadcast (some m) target h ≡ ok h')
        × (unregister c h' ≡ err close_of_closed_channel))
      × ((h' : Hub) × (handle_broadcast (some m) (codes "all") h ≡ ok h')
          × (unregister c h' ≡ ok h')
          × (handle_broadcast (some m') target h' ≡ err send_on_closed_channel))
unfolding handle_broadcast unregister
slow_client_panics m m' c h run there named full =
    let sound = Reaches-IsSound h run in
    let id = (h.peers c).user_id in
    let to_user = target_of-user_target id named in
    let self = receives_self h c there named in
    let (q, done, sent) = deliver-IsSent m (user id) h sound in
    let (q', done', sent') = deliver-IsSent m everyone h sound in
    let closed : (q c).closed ≡ true = shut m (h.peers c) (q c) _ self full (sent c) in
    let closed' : (q' c).closed ≡ true = shut m (h.peers c) (q' c) _ there full (sent' c) in
    let h' = record h { clients = keeping h.peers h.clients; peers = q' } in
    let out : mem c h'.clients ≡ false = keeping_out h.peers h.clients c full in
    let listed : mem c (lookup id h.user_map) ≡ true =
      audience-receives (user id) h c sound ∙ self in
    (
      (with_peers h q, ap (deliver m h) to_user ∙ done, rw (there, closed) refl),
      (
        h',
        ap (deliver m h) target_of-all ∙ done',
        rw out refl,
        ap (deliver m' h') to_user
            ∙ ap (λ o. after o (λ p. ok (with_peers h' p)))
                (send_each_closed m' c (lookup id h.user_map) q' listed closed'),
      ),
    )
