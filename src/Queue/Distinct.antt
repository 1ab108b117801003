-- ===== src/Queue/Distinct.antt =====
-- The keys of one queue are distinct.
use web3airdrop_os.Base.{◌≡◌, false, ◌++◌}
use web3airdrop_os.Base.Text.{Text, text_eq, text_eq-append, codes}
use web3airdrop_os.Queue.Records.{
  pending_key, completed_key, failed_key, scheduled_key, job_key, dedupe_key, lock_key,
  processing_key,
}

module _ (p : Text) where
  pub pending≢completed : text_eq (pending_key p) (completed_key p) ≡ false
  unfolding pending_key completed_key text_eq
  pending≢completed = text_eq-append p (codes "pending") (codes "completed")

  pub pending≢failed : text_eq (pending_key p) (failed_key p) ≡ false
  unfolding pending_key failed_key text_eq
  pending≢failed = text_eq-append p (codes "pending") (codes "failed")

  pub pending≢scheduled : text_eq (pending_key p) (scheduled_key p) ≡ false
  unfolding pending_key scheduled_key text_eq
  pending≢scheduled = text_eq-append p (codes "pending") (codes "scheduled")

  pub completed≢pending : text_eq (completed_key p) (pending_key p) ≡ false
  unfolding completed_key pending_key text_eq
  completed≢pending = text_eq-append p (codes "completed") (codes "pending")

  pub completed≢failed : text_eq (completed_key p) (failed_key p) ≡ false
  unfolding completed_key failed_key text_eq
  completed≢failed = text_eq-append p (codes "completed") (codes "failed")

  pub completed≢scheduled : text_eq (completed_key p) (scheduled_key p) ≡ false
  unfolding completed_key scheduled_key text_eq
  completed≢scheduled = text_eq-append p (codes "completed") (codes "scheduled")

  pub failed≢pending : text_eq (failed_key p) (pending_key p) ≡ false
  unfolding failed_key pending_key text_eq
  failed≢pending = text_eq-append p (codes "failed") (codes "pending")

  pub failed≢completed : text_eq (failed_key p) (completed_key p) ≡ false
  unfolding failed_key completed_key text_eq
  failed≢completed = text_eq-append p (codes "failed") (codes "completed")

  pub failed≢scheduled : text_eq (failed_key p) (scheduled_key p) ≡ false
  unfolding failed_key scheduled_key text_eq
  failed≢scheduled = text_eq-append p (codes "failed") (codes "scheduled")

  pub scheduled≢pending : text_eq (scheduled_key p) (pending_key p) ≡ false
  unfolding scheduled_key pending_key text_eq
  scheduled≢pending = text_eq-append p (codes "scheduled") (codes "pending")

  pub scheduled≢completed : text_eq (scheduled_key p) (completed_key p) ≡ false
  unfolding scheduled_key completed_key text_eq
  scheduled≢completed = text_eq-append p (codes "scheduled") (codes "completed")

  pub scheduled≢failed : text_eq (scheduled_key p) (failed_key p) ≡ false
  unfolding scheduled_key failed_key text_eq
  scheduled≢failed = text_eq-append p (codes "scheduled") (codes "failed")

  pub job≢lock : (x y : Text) → text_eq (job_key p x) (lock_key p y) ≡ false
  unfolding job_key lock_key text_eq
  job≢lock x y = text_eq-append p (codes "job:" ++ x) (codes "lock:" ++ y)

  pub job≢dedupe : (x y : Text) → text_eq (job_key p x) (dedupe_key p y) ≡ false
  unfolding job_key dedupe_key text_eq
  job≢dedupe x y = text_eq-append p (codes "job:" ++ x) (codes "dedupe:" ++ y)

  pub lock≢job : (x y : Text) → text_eq (lock_key p x) (job_key p y) ≡ false
  unfolding lock_key job_key text_eq
  lock≢job x y = text_eq-append p (codes "lock:" ++ x) (codes "job:" ++ y)

  pub lock≢dedupe : (x y : Text) → text_eq (lock_key p x) (dedupe_key p y) ≡ false
  unfolding lock_key dedupe_key text_eq
  lock≢dedupe x y = text_eq-append p (codes "lock:" ++ x) (codes "dedupe:" ++ y)

  pub dedupe≢job : (x y : Text) → text_eq (dedupe_key p x) (job_key p y) ≡ false
  unfolding dedupe_key job_key text_eq
  dedupe≢job x y = text_eq-append p (codes "dedupe:" ++ x) (codes "job:" ++ y)

  pub dedupe≢lock : (x y : Text) → text_eq (dedupe_key p x) (lock_key p y) ≡ false
  unfolding dedupe_key lock_key text_eq
  dedupe≢lock x y = text_eq-append p (codes "dedupe:" ++ x) (codes "lock:" ++ y)

  pub lock≢pending : (x : Text) → text_eq (lock_key p x) (pending_key p) ≡ false
  unfolding lock_key pending_key text_eq
  lock≢pending x = text_eq-append p (codes "lock:" ++ x) (codes "pending")

  pub lock≢scheduled : (x : Text) → text_eq (lock_key p x) (scheduled_key p) ≡ false
  unfolding lock_key scheduled_key text_eq
  lock≢scheduled x = text_eq-append p (codes "lock:" ++ x) (codes "scheduled")

  pub lock≢completed : (x : Text) → text_eq (lock_key p x) (completed_key p) ≡ false
  unfolding lock_key completed_key text_eq
  lock≢completed x = text_eq-append p (codes "lock:" ++ x) (codes "completed")

  pub lock≢failed : (x : Text) → text_eq (lock_key p x) (failed_key p) ≡ false
  unfolding lock_key failed_key text_eq
  lock≢failed x = text_eq-append p (codes "lock:" ++ x) (codes "failed")

  pub lock≢processing : (x : Text) → text_eq (lock_key p x) (processing_key p) ≡ false
  unfolding lock_key processing_key text_eq
  lock≢processing x = text_eq-append p (codes "lock:" ++ x) (codes "processing")

  pub dedupe≢pending : (x : Text) → text_eq (dedupe_key p x) (pending_key p) ≡ false
  unfolding dedupe_key pending_key text_eq
  dedupe≢pending x = text_eq-append p (codes "dedupe:" ++ x) (codes "pending")

  pub dedupe≢scheduled : (x : Text) → text_eq (dedupe_key p x) (scheduled_key p) ≡ false
  unfolding dedupe_key scheduled_key text_eq
  dedupe≢scheduled x = text_eq-append p (codes "dedupe:" ++ x) (codes "scheduled")

  pub dedupe≢completed : (x : Text) → text_eq (dedupe_key p x) (completed_key p) ≡ false
  unfolding dedupe_key completed_key text_eq
  dedupe≢completed x = text_eq-append p (codes "dedupe:" ++ x) (codes "completed")

  pub dedupe≢failed : (x : Text) → text_eq (dedupe_key p x) (failed_key p) ≡ false
  unfolding dedupe_key failed_key text_eq
  dedupe≢failed x = text_eq-append p (codes "dedupe:" ++ x) (codes "failed")

  pub dedupe≢processing : (x : Text) → text_eq (dedupe_key p x) (processing_key p) ≡ false
  unfolding dedupe_key processing_key text_eq
  dedupe≢processing x = text_eq-append p (codes "dedupe:" ++ x) (codes "processing")
