-- ===== src/Queue/Invariant.antt =====
-- A job stands in one place at a time, after any sequence of the calls of producers and workers, each
-- of them taken as one step.
use web3airdrop_os.Base.{
  ℕ, ◌+◌, ◌≤◌, ◌≡◌, Bool, true, false, ◌||◌, some, List, [], ◌∷◌, arith, ok, leb, Bool-cases, inl,
  inr, Option-cases, Outcome-cases, All, keep, last?,
}
use web3airdrop_os.Base.Text.{Text, text_eq_iff, text_eq_self}
use web3airdrop_os.Redis.Keyspace.{Item, members, up_to}
use web3airdrop_os.Redis.{Redis, Lawful}
use web3airdrop_os.Queue.Jobs.{Job, Codec}
use web3airdrop_os.Queue.Records.{get_job, pending_key, scheduled_key, unix}
use web3airdrop_os.Queue.Consumer.{moved, promote, take_job, take_first, dequeue}
use web3airdrop_os.Queue.Settler.{fail}
use web3airdrop_os.Queue.Places.{Places, places, lists}
use web3airdrop_os.Queue.Moves.{at, fail-places, moved-places, take_job-places}

abbrev pub one : Bool → ℕ
one true = 1
one false = 0

-- In how many collections a job is listed.
abbrev pub total : Places → ℕ
total p = one p.pending + one p.scheduled + one p.processing + one p.completed + one p.failed

abbrev waits : Places → Bool
waits p = p.pending || p.scheduled

last?-lists : (xs : List Item) (i : Item) → last? xs ≡ some i → lists i.member xs ≡ true
unfolding lists
last?-lists [] i h = cc
last?-lists (x ∷ []) i h = ground (arith, text_eq_self i.member)
last?-lists (x ∷ y ∷ xs) i h = ground (arith, last?-lists (y ∷ xs) i h)

lists-weaken : (xs : List Item) (m : Text) (x : Item) → lists m xs ≡ true → lists m (x ∷ xs) ≡ true
unfolding lists
lists-weaken xs m x h = ground arith

All-lists-weaken :
    (xs : List Item) (x : Item) (ms : List Text)
    → All (λ m. lists m xs ≡ true) ms
    → All (λ m. lists m (x ∷ xs) ≡ true) ms
All-lists-weaken xs x [] h = tt
All-lists-weaken xs x (m ∷ ms) h = (lists-weaken xs m x h.0, All-lists-weaken xs x ms h.1)

lists-members :
    (p : Item → Bool) (xs : List Item) → All (λ m. lists m xs ≡ true) (members (keep p xs))
lists-members p [] = tt
lists-members p (x ∷ xs) =
    let rest = All-lists-weaken xs x (members (keep p xs)) (lists-members p xs) in
    elim (Bool-cases (p x)) [
      | inl kept ↦ rw kept (unfold lists in ground (arith, text_eq_self x.member), rest)
      | inr dropped ↦ rw dropped rest
    ]

module _ (r : Redis) (law : Lawful r) (codec : Codec) (prefix : Text) where
  open r use {Store, view}

  abbrev spot : Store → Text → Places
  spot s m = at r law codec prefix s m

  -- Every job is listed at most once.
  abbrev pub IsOnce : Store → Type 0
  IsOnce s = (m : Text) → total (spot s m) ≤ 1

  abbrev AllWait : Store → List Text → Type 0
  AllWait s = All λ id. waits (spot s id) ≡ true

  moved-IsOnce :
      (id : Text) (s : Store)
      → waits (spot s id) ≡ true
      → IsOnce s
      → IsOnce (moved r codec prefix (get_job r codec prefix id s) id s)
  moved-IsOnce id s w once m = elim (Outcome-cases (get_job r codec prefix id s)) [
    | inl (j, e) ↦
        rw (e, moved-places r law codec prefix id m j s) (ground (arith, once m, text_eq_iff id m))
    | inr (f, e) ↦ rw e (once m)
  ]

  moved-waits :
      (id m : Text) (s : Store)
      → waits (spot s m) ≡ true
      → waits (spot (moved r codec prefix (get_job r codec prefix id s) id s) m) ≡ true
  moved-waits id m s w = elim (Outcome-cases (get_job r codec prefix id s)) [
    | inl (j, e) ↦
        rw (e, moved-places r law codec prefix id m j s) (ground (arith, text_eq_iff id m))
    | inr (f, e) ↦ rw e w
  ]

  moved-AllWait :
      (id : Text) (ids : List Text) (s : Store)
      → AllWait s ids
      → AllWait (moved r codec prefix (get_job r codec prefix id s) id s) ids
  moved-AllWait id [] s h = tt
  moved-AllWait id (m ∷ ids) s h = (moved-waits id m s h.0, moved-AllWait id ids s h.1)

  promote-IsOnce :
      (ids : List Text) (s : Store)
      → AllWait s ids
      → IsOnce s
      → IsOnce (promote r codec prefix ids s)
  unfolding promote
  promote-IsOnce [] s h once = once
  promote-IsOnce (id ∷ ids) s h once =
      promote-IsOnce ids _ (moved-AllWait id ids s h.1) (moved-IsOnce id s h.0 once)

  take_job-IsOnce :
      (worker id : Text) (now d : ℕ) (s : Store)
      → (spot s id).pending ≡ true
      → IsOnce s
      → IsOnce (take_job r codec prefix worker now d id s).0
  take_job-IsOnce worker id now d s p once m =
      rw (take_job-places r law codec prefix worker id m now d s)
        (ground (arith, once m, text_eq_iff id m))

  pub fail-IsOnce :
      (id message : Text) (now : ℕ) (j : Job) (s : Store)
      → get_job r codec prefix id s ≡ ok j
      → (spot s id).processing ≡ true
      → IsOnce s
      → IsOnce (fail r codec prefix id message now s).0
  fail-IsOnce id message now j s e p once m =
      rw (fail-places r law codec prefix id message m now j s e)
        (ground (arith, once m, text_eq_iff id m))

  scheduled_wait :
      (s : Store) (ids : List Text)
      → All (λ m. lists m ((view s).zsets (scheduled_key prefix)).items ≡ true) ids
      → AllWait s ids
  unfolding places
  scheduled_wait s [] h = tt
  scheduled_wait s (m ∷ ids) h = (ground arith, scheduled_wait s ids h.1)

  take_first-IsOnce :
      (worker : Text) (now d : ℕ) (s : Store)
      → IsOnce s
      → IsOnce
          (take_first r codec prefix worker now d
            (last? ((view s).zsets (pending_key prefix)).items)
            s).0
  unfolding places
  take_first-IsOnce worker now d s once =
      elim (Option-cases (last? ((view s).zsets (pending_key prefix)).items)) [
        | inl none_left ↦ rw none_left once
        | inr (i, e) ↦ rw e (take_job-IsOnce worker i.member now d s (last?-lists _ i e) once)
      ]

  -- Taking a job, promotion of the scheduled ones included, lists no job twice.
  pub dequeue-IsOnce :
      (worker : Text) (d now started : ℕ) (s : Store)
      → IsOnce s
      → IsOnce (dequeue r codec prefix worker d now started s).0
  unfolding dequeue
  dequeue-IsOnce worker d now started s once =
      let due = members (up_to (unix now) ((view s).zsets (scheduled_key prefix)).items) in
      let s' = promote r codec prefix due s in
      rw
        (
          law.zrange_by_score_reply (scheduled_key prefix) (unix now) s,
          law.zrev_range_first_reply (pending_key prefix) s',
        )
        (take_first-IsOnce worker started d s' (
          promote-IsOnce due s
            (scheduled_wait s due (
              lists-members (λ i. leb i.score (unix now))
                ((view s).zsets (scheduled_key prefix)).items))
            once))
