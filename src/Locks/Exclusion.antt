-- ===== src/Locks/Exclusion.antt =====
-- Mutual exclusion among the holders of lock handles, over any sequence of calls and of time passing.
use web3airdrop_os.Base.{
  ℕ, ◌+◌, ◌-◌, ◌<◌, ◌≡◌, ◌≢◌, some, List, [], ◌∷◌, arith, All, subst, ap, ◌∙◌, is_none, Bool-cases,
  inl, inr,
}
use web3airdrop_os.Base.Text.{Text, text_eq_iff}
use web3airdrop_os.Redis.Keyspace.{View, Cmd, apply, age}
use web3airdrop_os.Redis.{Redis, Lawful}
use web3airdrop_os.Locks.{ResourceType, DistributedLock, lock_key, acquire, release, extend}

-- What any client may do, and time.
pub data Event : Type 0 where
  acquires : ResourceType → Text → ℕ → Text → ℕ → Event
  releases : DistributedLock → Event
  extends : DistributedLock → ℕ → ℕ → Event
  elapses : ℕ → Event

-- The event is none of the holder's own: the tokens that clients draw are distinct.
abbrev pub IsForeign : Text → Event → Type 0
IsForeign token (acquires type id t other now) = Unit {0}
IsForeign token (releases l) = l.token ≢ token
IsForeign token (extends l t now) = l.token ≢ token
IsForeign token (elapses d) = Unit {0}

abbrev pub duration : Event → ℕ
duration (elapses d) = d
duration _ = 0

abbrev pub total_duration : List Event → ℕ
total_duration [] = 0
total_duration (e ∷ es) = duration e + total_duration es

-- The key holds this token, for so many milliseconds more.
abbrev pub Holds : View → Text → Text → ℕ → Type 0
Holds w k token t = w.strings k ≡ some (record { value = token; left = t })

module _ (r : Redis) where
  open r use {Store, view, elapse}

  pub step : Event → Store → Store
  step (acquires type id t token now) s = (acquire r type id t token now s).0
  step (releases l) s = (release r l s).0
  step (extends l t now) s = (extend r l t now s).0
  step (elapses d) s = elapse d s

  pub run : List Event → Store → Store
  run [] s = s
  run (e ∷ es) s = run es (step e s)

module _ (r : Redis) (law : Lawful r) where
  open r use {Store, view, elapse, set_nx, get, write}

  acquire-Holds :
      (type : ResourceType) (id k mine token : Text) (t now left : ℕ) (s : Store)
      → Holds (view s) k mine left
      → Holds (view (acquire r type id t token now s).0) k mine left
  unfolding acquire apply
  acquire-Holds type id k mine token t now left s h =
      let key = lock_key type id in
      elim (Bool-cases (is_none ((view s).strings key))) [
        | inr taken ↦ ap (λ w. w.strings k) (law.set_nx_kept key token t s taken) ∙ h
        | inl free ↦
            let (e, made) = law.set_nx_free key token t s free in
            ap (λ w. w.strings k) made ∙ ground (arith, text_eq_iff key k)
      ]

  release-Holds :
      (l : DistributedLock) (k mine : Text) (left : ℕ) (s : Store)
      → l.token ≢ mine
      → Holds (view s) k mine left
      → Holds (view (release r l s).0) k mine left
  unfolding release apply
  release-Holds l k mine left s ne h = ground (
    arith,
    law.get_reply l.key s,
    law.write_view (Cmd.del l.key) s,
    text_eq_iff l.key k,
    text_eq_iff mine l.token,
  )

  extend-Holds :
      (l : DistributedLock) (k mine : Text) (t now left : ℕ) (s : Store)
      → l.token ≢ mine
      → Holds (view s) k mine left
      → Holds (view (extend r l t now s).0) k mine left
  unfolding extend apply
  extend-Holds l k mine t now left s ne h = ground (
    arith,
    law.get_reply l.key s,
    law.write_view (Cmd.pexpire l.key t) s,
    text_eq_iff l.key k,
    text_eq_iff mine l.token,
  )

  elapse-Holds :
      (d : ℕ) (k mine : Text) (left : ℕ) (s : Store)
      → d < left
      → Holds (view s) k mine left
      → Holds (view (elapse d s)) k mine (left - d)
  unfolding age
  elapse-Holds d k mine left s lt h = ground (arith, law.elapse_view d s)

  Holds-eq :
      (s : Store) (k mine : Text) (left left' : ℕ)
      → left ≡ left'
      → Holds (view s) k mine left
      → Holds (view s) k mine left'
  Holds-eq s k mine left left' e h = subst (Holds (view s) k mine) e h

  step-Holds :
      (e : Event) (k mine : Text) (left : ℕ) (s : Store)
      → IsForeign mine e
      → duration e < left
      → Holds (view s) k mine left
      → Holds (view (step r e s)) k mine (left - duration e)
  unfolding step
  step-Holds (acquires type id t token now) k mine left s f lt h =
      Holds-eq (step r (acquires type id t token now) s) k mine left (left - 0) (omega arith)
        (acquire-Holds type id k mine token t now left s h)
  step-Holds (releases l) k mine left s f lt h =
      Holds-eq (step r (releases l) s) k mine left (left - 0) (omega arith)
        (release-Holds l k mine left s f h)
  step-Holds (extends l t now) k mine left s f lt h =
      Holds-eq (step r (extends l t now) s) k mine left (left - 0) (omega arith)
        (extend-Holds l k mine t now left s f h)
  step-Holds (elapses d) k mine left s f lt h = elapse-Holds d k mine left s lt h

  pub run-Holds :
      (es : List Event) (k mine : Text) (left : ℕ) (s : Store)
      → All (IsForeign mine) es
      → total_duration es < left
      → Holds (view s) k mine left
      → Holds (view (run r es s)) k mine (left - total_duration es)
  unfolding run
  run-Holds [] k mine left s f lt h = Holds-eq s k mine left (left - 0) (omega arith) h
  run-Holds (e ∷ es) k mine left s f lt h =
      Holds-eq (run r es (step r e s)) k mine (left - duration e - total_duration es)
        (left - total_duration (e ∷ es)) (omega arith)
        (run-Holds es k mine (left - duration e) (step r e s) f.1 (omega arith)
          (step-Holds e k mine left s f.0 (omega arith) h))
