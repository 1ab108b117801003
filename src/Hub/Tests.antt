-- ===== src/Hub/Tests.antt =====
-- A client of one user connects, and falls behind.
use web3airdrop_os.Base.{
  ℕ, zero, suc, ◌≤◌, ◌<◌, ◌≡◌, refl, sym, ap, ◌∙◌, subst, true, false, not, some, List, [], ◌∷◌,
  arith, ok, err, length, ltb, ◌==◌, Bool-cases, inl, inr, length-append,
}
use web3airdrop_os.Base.Text.{Text, codes}
use web3airdrop_os.Hub.Maps.{mem}
use web3airdrop_os.Hub.Clients.{
  Hub, new_hub, capacity, is_full, is_empty, register, unregister, handle_broadcast, join_room,
  user_target, room_target, everyone, user, room, deliver, send_on_closed_channel,
  close_of_closed_channel, with_peers,
}
use web3airdrop_os.Hub.Agreement.{IsSound}
use web3airdrop_os.Hub.Audience.{IsQuick, got, deliver_quick}
use web3airdrop_os.Hub.Targets.{IsDelivered, target_of-all}
use web3airdrop_os.Hub.Runs.{
  connects, joins, broadcasts, disconnects, step, Reaches, starts, goes_on, Reaches-IsSound,
  runs_agree, broadcasts_reach,
}
use web3airdrop_os.Hub.Slow.{slow_client_panics}

abbrev ann : Text
ann = codes "a"

abbrev opened : Hub
opened = register 1 ann new_hub

opened-Reaches : Reaches opened
unfolding step register
opened-Reaches = goes_on (connects 1 ann) new_hub opened starts refl refl

abbrev joined : Hub
joined = join_room 1 ann opened

joined-Reaches : Reaches joined
unfolding step register
joined-Reaches = goes_on (joins 1 ann) opened joined opened-Reaches refl refl

runs_agree_example :
    IsSound joined × ((h' : Hub) × (step (disconnects 1) joined ≡ ok h') × IsSound h')
runs_agree_example = runs_agree (disconnects 1) joined joined-Reaches tt

joined-IsQuick : IsQuick joined
unfolding join_room register capacity
joined-IsQuick c there = elim (Bool-cases (1 == c)) [
  | inl same ↦ rw same refl
  | inr other ↦ rw other refl
]

broadcasts_reach_example :
    ((h' : Hub) × (handle_broadcast (some (codes "m")) (user_target ann) joined ≡ ok h')
      × IsDelivered (codes "m") (user ann) joined h')
    × ((h' : Hub) × (handle_broadcast (some (codes "m")) (room_target ann) joined ≡ ok h')
        × IsDelivered (codes "m") (room ann) joined h')
    × ((h' : Hub) × (handle_broadcast (some (codes "m")) (codes "all") joined ≡ ok h')
        × IsDelivered (codes "m") everyone joined h')
broadcasts_reach_example =
    broadcasts_reach (codes "m") ann ann joined joined-Reaches joined-IsQuick refl

-- The hub after `n` messages that the client has not taken.
abbrev Lags : ℕ → Type 0
Lags n =
    (h : Hub) × Reaches h
    × (h.clients ≡ 1 ∷ [])
    × ((h.peers 1).user_id ≡ ann)
    × (length (h.peers 1).send ≡ n)

only_client : (c : ℕ) (cs : List ℕ) → cs ≡ 1 ∷ [] → mem c cs ≡ true → 1 ≡ c
only_client c cs one there =
    let found : mem c (1 ∷ []) ≡ true = ap (mem c) (sym one) ∙ there in ground (arith, found)

lags_more : (n : ℕ) → n < 256 → Lags n → Lags (suc n)
unfolding step handle_broadcast capacity
lags_more n small (h, run, one, is_user, long) =
    let m = codes "m" in
    let room_left : is_full (h.peers 1) ≡ false =
      ap (λ k. not (ltb k 256)) long ∙ ground (arith, small) in
    let quick : IsQuick h = λ c there.
      subst (λ d. is_full (h.peers d) ≡ false) (only_client c h.clients one there) room_left in
    let (q, done, sent) = deliver_quick m everyone h (Reaches-IsSound h run) quick in
    let there : mem 1 h.clients ≡ true = ap (mem 1) one in
    let got_it : q 1 ≡ got m (h.peers 1) = sent 1 ∙ (rw there refl) in
    (
      with_peers h q,
      goes_on (broadcasts (some m) (codes "all")) h (with_peers h q) run quick
          (ap (deliver m h) target_of-all ∙ done),
      one,
      ap (λ x. x.user_id) got_it ∙ is_user,
      ap (λ x. length x.send) got_it
          ∙ length-append (h.peers 1).send (m ∷ [])
          ∙ omega (arith, long),
    )

lags : (n : ℕ) → n ≤ 256 → Lags n
unfolding register
lags zero h = (opened, opened-Reaches, refl, refl, refl)
lags (suc n) h = lags_more n (omega (arith, h)) (lags n (omega (arith, h)))

slow : Lags 256
slow = lags 256 (omega arith)

slow_client_panics_example :
    let target = user_target (slow.0.peers 1).user_id in
    ((h' : Hub) × (handle_broadcast (some (codes "m")) target slow.0 ≡ ok h')
      × (unregister 1 h' ≡ err close_of_closed_channel))
    × ((h' : Hub) × (handle_broadcast (some (codes "m")) (codes "all") slow.0 ≡ ok h')
        × (unregister 1 h' ≡ ok h')
        × (handle_broadcast (some (codes "n")) target h' ≡ err send_on_closed_channel))
unfolding capacity
slow_client_panics_example =
    slow_client_panics (codes "m") (codes "n") 1 slow.0 slow.1 (ap (mem 1) slow.2)
      (ap is_empty slow.3) (ap (λ n. not (ltb n 256)) slow.4)
