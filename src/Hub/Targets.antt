-- ===== src/Hub/Targets.antt =====
-- The texts that name a target, and broadcasts to them.
use web3airdrop_os.Base.{
  length, ltb, suc, some, ℕ, ◌≡◌, refl, ap, ◌∙◌, true, false, ◌&&◌, [], ◌∷◌, arith, ok,
  if◌then◌else◌,
}
use web3airdrop_os.Base.Text.{codes, take, drop, text_eq, Text}
use web3airdrop_os.Hub.Clients.{
  is_empty, target_of, user_target, room_target, handle_broadcast, Hub, deliver, Target, everyone,
  nobody, user, room, with_peers,
}
use web3airdrop_os.Hub.Agreement.{IsSound}
use web3airdrop_os.Hub.Audience.{IsQuick, receives, got, deliver_quick}

long_enough : (n : ℕ) → ltb 5 (suc (suc (suc (suc (suc (suc n)))))) ≡ true
long_enough n = ground arith

pub target_of-user_target : (id : Text) → is_empty id ≡ false → target_of (user_target id) ≡ user id
unfolding target_of user_target text_eq take drop
target_of-user_target [] h = cc
target_of-user_target (x ∷ id) h =
    ap (λ b. if b && true then user (x ∷ id) else if b && false then room (x ∷ id) else nobody)
      (long_enough (length id))

pub target_of-room_target :
    (name : Text) → is_empty name ≡ false → target_of (room_target name) ≡ room name
unfolding target_of room_target text_eq take drop
target_of-room_target [] h = cc
target_of-room_target (x ∷ name) h =
    ap (λ b. if b && false then user (x ∷ name) else if b && true then room (x ∷ name) else nobody)
      (long_enough (length name))

pub target_of-all : target_of (codes "all") ≡ everyone
unfolding target_of text_eq
target_of-all = refl

no_user_receives : (h : Hub) (d : ℕ) → false ≡ receives (user []) h d
no_user_receives h d = ground arith

no_user : target_of (user_target []) ≡ nobody
unfolding target_of user_target text_eq take drop
no_user = refl

-- What the target's receivers get, and nobody else.
abbrev pub IsDelivered : Text → Target → Hub → Hub → Type 0
IsDelivered m t h h' =
    (d : ℕ) → h'.peers d ≡ (if receives t h d then got m (h.peers d) else h.peers d)

pub target_broadcast :
    (m text : Text) (t : Target) (h : Hub)
    → IsSound h
    → IsQuick h
    → target_of text ≡ t
    → (h' : Hub) × (handle_broadcast (some m) text h ≡ ok h') × IsDelivered m t h h'
unfolding handle_broadcast
target_broadcast m text t h sound quick is =
    let (q, done, sent) = deliver_quick m t h sound quick in
    (with_peers h q, ap (deliver m h) is ∙ done, sent)

-- BroadcastToUser without an identifier reaches nobody, and no client is listed under it.
pub user_broadcast :
    (m id : Text) (h : Hub)
    → IsSound h
    → IsQuick h
    → (h' : Hub) × (handle_broadcast (some m) (user_target id) h ≡ ok h')
      × IsDelivered m (user id) h h'
user_broadcast m [] h sound quick =
    let (h', done, sent) = target_broadcast m (user_target []) nobody h sound quick no_user in
    (
      h',
      done,
      λ d. sent d ∙ ap (λ b. if b then got m (h.peers d) else h.peers d) (no_user_receives h d),
    )
user_broadcast m (x ∷ id) h sound quick =
    target_broadcast m (user_target (x ∷ id)) (user (x ∷ id)) h sound quick
      (target_of-user_target (x ∷ id) refl)
