-- ===== src/Queue/Places.antt =====
-- Where a queue lists a job, and how its operations move jobs.
use web3airdrop_os.Base.{ℕ, ◌≡◌, refl, Bool, true, false, List, [], ◌∷◌, arith, if◌then◌else◌}
use web3airdrop_os.Base.Text.{Text, text_eq, text_eq_iff, text_eq_self}
use web3airdrop_os.Redis.Keyspace.{
  View, Cmd, Item, z_insert, z_put, z_without, without, apply, apply_all,
}
use web3airdrop_os.Redis.{Redis}
use web3airdrop_os.Queue.Jobs.{Job, Codec}
use web3airdrop_os.Queue.Records.{
  pending_key, processing_key, completed_key, failed_key, scheduled_key,
}
use web3airdrop_os.Queue.Distinct.{
  completed≢pending, completed≢failed, completed≢scheduled, failed≢pending, failed≢completed,
  failed≢scheduled, scheduled≢pending, scheduled≢completed, scheduled≢failed, lock≢pending,
  lock≢scheduled, lock≢completed, lock≢failed, lock≢processing,
}
use web3airdrop_os.Queue.Settler.{settling}

unfoldable pub lists : Text → List Item → Bool
lists m [] = false
lists m (i ∷ is) = if text_eq i.member m then true else lists m is

unfoldable pub holds : Text → List Text → Bool
holds m [] = false
holds m (x ∷ xs) = if text_eq x m then true else holds m xs

pub lists-z_insert :
    (m : Text) (i : Item) (xs : List Item)
    → lists m (z_insert i xs) ≡ (if text_eq i.member m then true else lists m xs)
unfolding lists z_insert
lists-z_insert m i [] = refl
lists-z_insert m i (x ∷ xs) = ground (arith, lists-z_insert m i xs)

pub lists-z_without :
    (m m' : Text) (xs : List Item)
    → lists m (z_without m' xs) ≡ (if text_eq m' m then false else lists m xs)
unfolding lists
lists-z_without m m' [] = ground arith
lists-z_without m m' (x ∷ xs) = ground (
  arith,
  lists-z_without m m' xs,
  text_eq_iff x.member m',
  text_eq_iff x.member m,
  text_eq_iff m' m,
)

pub lists-z_put :
    (m m' : Text) (sc : ℕ) (xs : List Item)
    → lists m (z_put m' sc xs) ≡ (if text_eq m' m then true else lists m xs)
lists-z_put m m' sc xs = ground (
  arith,
  lists-z_insert m (record { member = m'; score = sc }) (z_without m' xs),
  lists-z_without m m' xs,
)

pub holds-without :
    (m m' : Text) (xs : List Text)
    → holds m (without m' xs) ≡ (if text_eq m' m then false else holds m xs)
unfolding holds
holds-without m m' [] = ground arith
holds-without m m' (x ∷ xs) =
    ground (arith, holds-without m m' xs, text_eq_iff x m', text_eq_iff x m, text_eq_iff m' m)

pub holds-add :
    (m m' : Text) (xs : List Text)
    → holds m (m' ∷ without m' xs) ≡ (if text_eq m' m then true else holds m xs)
unfolding holds
holds-add m m' xs = ground (arith, holds-without m m' xs)

-- The collections that list a job.
pub record Places : Type 0 where
  pub pending : Bool
  pub scheduled : Bool
  pub processing : Bool
  pub completed : Bool
  pub failed : Bool

module _ (prefix : Text) where
  unfoldable pub places : View → Text → Places
  places w m = record {
    pending = lists m (w.zsets (pending_key prefix)).items;
    scheduled = lists m (w.zsets (scheduled_key prefix)).items;
    processing = holds m (w.sets (processing_key prefix));
    completed = lists m (w.zsets (completed_key prefix)).items;
    failed = lists m (w.zsets (failed_key prefix)).items;
  }

-- The lists to which a settled job may go.
pub data Site : Type 0 where
  scheduled completed failed : Site

abbrev pub site_key : Text → Site → Text
site_key p scheduled = scheduled_key p
site_key p completed = completed_key p
site_key p failed = failed_key p

abbrev pub settled : Site → Places → Places
settled scheduled b = record b { processing = false; scheduled = true }
settled completed b = record b { processing = false; completed = true }
settled failed b = record b { processing = false; failed = true }

module _ (r : Redis) (codec : Codec) (prefix : Text) where
  pub settling-places :
      (site : Site) (id m : Text) (sc : ℕ) (j : Job) (w : View)
      → let w' =
          apply_all (settling r codec prefix id (Cmd.zadd (site_key prefix site) sc id) j) w in
        places prefix w' m
        ≡ (if text_eq id m then settled site (places prefix w m) else places prefix w m)
  unfolding places apply_all apply
  settling-places scheduled id m sc j w = ground (
    arith,
    text_eq_self (processing_key prefix),
    text_eq_self (scheduled_key prefix),
    lock≢pending prefix id,
    lock≢scheduled prefix id,
    lock≢completed prefix id,
    lock≢failed prefix id,
    lock≢processing prefix id,
    scheduled≢pending prefix,
    scheduled≢completed prefix,
    scheduled≢failed prefix,
    holds-without m id (w.sets (processing_key prefix)),
    lists-z_put m id sc (w.zsets (scheduled_key prefix)).items,
  )
  settling-places completed id m sc j w = ground (
    arith,
    text_eq_self (processing_key prefix),
    text_eq_self (completed_key prefix),
    lock≢pending prefix id,
    lock≢scheduled prefix id,
    lock≢completed prefix id,
    lock≢failed prefix id,
    lock≢processing prefix id,
    completed≢pending prefix,
    completed≢scheduled prefix,
    completed≢failed prefix,
    holds-without m id (w.sets (processing_key prefix)),
    lists-z_put m id sc (w.zsets (completed_key prefix)).items,
  )
  settling-places failed id m sc j w = ground (
    arith,
    text_eq_self (processing_key prefix),
    text_eq_self (failed_key prefix),
    lock≢pending prefix id,
    lock≢scheduled prefix id,
    lock≢completed prefix id,
    lock≢failed prefix id,
    lock≢processing prefix id,
    failed≢pending prefix,
    failed≢scheduled prefix,
    failed≢completed prefix,
    holds-without m id (w.sets (processing_key prefix)),
    lists-z_put m id sc (w.zsets (failed_key prefix)).items,
  )
