-- ===== src/Locks/Guarantees.antt =====
-- What the locks promise to the code that uses them.
use web3airdrop_os.Base.{
  ℕ, ◌+◌, ◌-◌, ◌≤◌, ◌<◌, ◌≡◌, refl, false, Option, none, some, List, arith, Bool-cases, ap, subst,
  inl, inr, ◌⊎◌, ok, err, All, Call,
}
use web3airdrop_os.Base.Text.{Text, text_eq, text_eq_iff, text_eq_self}
use web3airdrop_os.Redis.Keyspace.{Entry, Cmd, apply, age, affected, entry_value}
use web3airdrop_os.Redis.{Redis, Lawful}
use web3airdrop_os.Locks.{
  ResourceType, DistributedLock, lock_not_acquired, lock_not_owned, lock_expired, lock_key, acquire,
  release, extend, owns, with_lock, Error,
}
use web3airdrop_os.Locks.Exclusion.{Event, IsForeign, total_duration, Holds, run, run-Holds}

-- The script finds another value, or none, under the key.
no_owner :
    (o : Option Entry) (token : Text)
    → ((left : ℕ) → ¬ (o ≡ some (record { value = token; left = left })))
    → owns token (entry_value o) ≡ false
no_owner none token h = refl
no_owner (some e) token h = ground (arith, text_eq_iff e.value token, h e.left)

-- The key holds the token, or it does not.
owned_cases :
    (o : Option Entry) (token : Text)
    → ((left : ℕ) × (o ≡ some (record { value = token; left = left })))
      ⊎ ((left : ℕ) → ¬ (o ≡ some (record { value = token; left = left })))
owned_cases none token = inr (λ left h. cc)
owned_cases (some e) token = elim (Bool-cases (text_eq e.value token)) [
  | inl same ↦
      inl (e.left, ap (λ v. some (record { value = v; left = e.left })) ((text_eq_iff _ _).0 same))
  | inr other ↦ inr (λ left h. ground (arith, h, other, text_eq_self token))
]

module _ (r : Redis) (law : Lawful r) where
  open r use {Store, view, elapse, set_nx, get, write}

  -- The handle of a successful `acquire` carries the resource's key and the token.
  pub acquire_handle :
      (type : ResourceType) (id token : Text) (t now : ℕ) (s s' : Store) (l : DistributedLock)
      → acquire r type id t token now s ≡ (s', ok l)
      → (l.key ≡ lock_key type id) × (l.token ≡ token)
  unfolding acquire
  acquire_handle type id token t now s s' l h =
      ground (arith, law.set_nx_reply (lock_key type id) token t s)

  -- A successful `acquire` leaves its token under its key, with the whole time to live.
  pub acquire_ok :
      (type : ResourceType) (id token : Text) (t now : ℕ) (s s' : Store) (l : DistributedLock)
      → 0 < t
      → acquire r type id t token now s ≡ (s', ok l)
      → Holds (view s') (lock_key type id) token t
  unfolding acquire apply
  acquire_ok type id token t now s s' l positive h =
      let k = lock_key type id in
      ground
        (arith, law.set_nx_view k token t s positive, law.set_nx_reply k token t s, text_eq_iff k k)

  pub acquire_held :
      (type : ResourceType) (id token mine : Text) (t now left : ℕ) (s : Store)
      → Holds (view s) (lock_key type id) mine left
      → (acquire r type id t token now s).1 ≡ err lock_not_acquired
  unfolding acquire
  acquire_held type id token mine t now left s h =
      ground (arith, law.set_nx_reply (lock_key type id) token t s)

  pub acquire_free :
      (type : ResourceType) (id token : Text) (t now : ℕ) (s : Store)
      → (view s).strings (lock_key type id) ≡ none
      → (acquire r type id t token now s).1
        ≡ ok (record { key = lock_key type id; token = token; expires_at = now + t })
  unfolding acquire
  acquire_free type id token t now s h =
      ground (arith, law.set_nx_reply (lock_key type id) token t s)

  pub release_held :
      (l : DistributedLock) (left : ℕ) (s : Store)
      → Holds (view s) l.key l.token left
      → ((release r l s).1 ≡ ok tt) × ((view (release r l s).0).strings l.key ≡ none)
  unfolding release apply affected
  release_held l left s h = ground (
    arith,
    law.get_reply l.key s,
    law.write_view (Cmd.del l.key) s,
    law.write_reply (Cmd.del l.key) s,
    text_eq_self l.key,
    text_eq_self l.token,
  )

  -- The holder extends its lock by a time above 0: the key keeps the token for the new time to live, and the local
  -- deadline moves with it.
  pub holder_extends :
      (l : DistributedLock) (t now left : ℕ) (s : Store)
      → 0 < t
      → Holds (view s) l.key l.token left
      → ((extend r l t now s).1 ≡ ok (record l { expires_at = now + t }))
        × Holds (view (extend r l t now s).0) l.key l.token t
  unfolding extend apply affected
  holder_extends l t now left s positive h = ground (
    arith,
    law.get_reply l.key s,
    law.write_view (Cmd.pexpire l.key t) s,
    law.write_reply (Cmd.pexpire l.key t) s,
    text_eq_self l.key,
    text_eq_self l.token,
  )

  -- While a lock is held, whatever the other clients do and as long as less time passes than its
  -- time to live, nobody acquires the same resource, and the holder's own release still succeeds.
  pub held_lock_excludes :
      (type : ResourceType) (id token other : Text) (t now t' now' : ℕ) (s s' : Store)
      (l : DistributedLock) (es : List Event)
      → acquire r type id t token now s ≡ (s', ok l)
      → All (IsForeign token) es
      → total_duration es < t
      → ((acquire r type id t' other now' (run r es s')).1 ≡ err lock_not_acquired)
        × ((release r l (run r es s')).1 ≡ ok tt)
  held_lock_excludes type id token other t now t' now' s s' l es h f lt =
      let (same_key, same_token) = acquire_handle type id token t now s s' l h in
      let held = acquire_ok type id token t now s s' l (omega arith) h in
      let still = run-Holds r law es (lock_key type id) token t s' f lt held in
      (
        acquire_held type id other token t' now' (t - total_duration es) (run r es s') still,
        (release_held l (t - total_duration es) (run r es s') (rw (same_key, same_token) still)).0,
      )

  -- A handle whose token is not the one stored under its key changes nothing: its release and its
  -- extension are refused, and every key stays as it was.
  pub stale_handle_refused :
      (l : DistributedLock) (t now : ℕ) (s : Store)
      → ((left : ℕ) → ¬ Holds (view s) l.key l.token left)
      → ((release r l s).1 ≡ err lock_not_owned)
        × ((extend r l t now s).1 ≡ err lock_expired)
        × (view (release r l s).0 ≡ view s)
        × (view (extend r l t now s).0 ≡ view s)
  unfolding release extend
  stale_handle_refused l t now s h =
      let other = no_owner ((view s).strings l.key) l.token h in
      ground (arith, law.get_reply l.key s, other)

  -- A lock with a time to live above 0 whose holder never releases it is free once that time has
  -- passed.
  pub expired_lock_free :
      (type : ResourceType) (id token other : Text) (t now t' now' d : ℕ) (s s' : Store)
      (l : DistributedLock)
      → 0 < t
      → acquire r type id t token now s ≡ (s', ok l)
      → t ≤ d
      → (acquire r type id t' other now' (elapse d s')).1
        ≡ ok (record { key = lock_key type id; token = other; expires_at = now' + t' })
  unfolding age
  expired_lock_free type id token other t now t' now' d s s' l positive h le =
      let held = acquire_ok type id token t now s s' l positive h in
      acquire_free type id other t' now' (elapse d s') (ground (arith, law.elapse_view d s'))

  -- After a successful acquisition `WithLock` gives back what `fn` gives, on success and on error,
  -- whatever has become of the lock meanwhile; and either the resource is free afterwards, or the
  -- lock was not held any more when `fn` returned, and the server is as `fn` left it.
  pub with_lock_releases :
      (type : ResourceType) (id token : Text) (t now : ℕ) (fn : Call Store Error (Unit {0}))
      (s s' : Store) (l : DistributedLock)
      → acquire r type id t token now s ≡ (s', ok l)
      → let k = lock_key type id in
        let after = with_lock r type id t token now fn s in
        (after.1 ≡ (fn s').1)
        × (((view after.0).strings k ≡ none)
            ⊎ (((left : ℕ) → ¬ Holds (view (fn s').0) k token left)
                × (view after.0 ≡ view (fn s').0)))
  unfolding with_lock
  with_lock_releases type id token t now fn s s' l h =
      let k = lock_key type id in
      let (same_key, same_token) = acquire_handle type id token t now s s' l h in
      let (s2, result) = fn s' in
      let ends : with_lock r type id t token now fn s ≡ ((release r l s2).0, result) =
        ground (arith, h) in
      rw ends (
        refl,
        elim (owned_cases ((view s2).strings k) token) [
          | inl (left, held) ↦ inl (
              subst (λ j. (view (release r l s2).0).strings j ≡ none) same_key
                (release_held l left s2 (rw (same_key, same_token) held)).1)
          | inr other ↦
              inr (other, (stale_handle_refused l 0 0 s2 (rw (same_key, same_token) other)).2)
        ],
      )
