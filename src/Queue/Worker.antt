-- ===== src/Queue/Worker.antt =====
-- backend/internal/queue/worker.go: what a worker does with a job that it has dequeued. A handler is
-- a parameter that may change the store and returns the message of its error, if it has one.
use web3airdrop_os.Base.{ℕ, suc, ◌≡◌, Option, none, some, ◌++◌, ok, ltb, if◌then◌else◌}
use web3airdrop_os.Base.Text.{Text, codes, text_eq}
use web3airdrop_os.Redis.{Redis, Lawful}
use web3airdrop_os.Queue.Jobs.{Job, Codec}
use web3airdrop_os.Queue.Records.{get_job}
use web3airdrop_os.Queue.Settler.{complete, fail}
use web3airdrop_os.Queue.Places.{Places, places, Site, settled}
use web3airdrop_os.Queue.Moves.{fail-places}
use web3airdrop_os.Queue.Lifecycle.{completed-places}

module _ (r : Redis) (codec : Codec) (prefix : Text) where
  open r use {Store, view}

  abbrev pub Handler : Type 0
  Handler = Job → Store → Store × Option Text

  -- Errors of `Fail` and `Complete` are logged and dropped.
  abbrev pub after_handler : Text → ℕ → Store × Option Text → Store
  after_handler id now (s, some message) = (fail r codec prefix id message now s).0
  after_handler id now (s, none) = (complete r codec prefix id none now s).0

  abbrev pub handle : Option Handler → ℕ → Job → Store → Store
  handle none now j s =
      (fail r codec prefix j.id (codes "no handler for job type: " ++ j.type) now s).0
  handle (some handler) now j s = after_handler j.id now (handler j s)

  -- `now` is the clock's reading when the job is settled.
  pub process_job : (Text → Option Handler) → ℕ → Job → Store → Store
  process_job handlers now j s = handle (handlers j.type) now j s

  -- What comes of a job's handler; without one nothing is done, and that is an error.
  abbrev pub outcome_of : Option Handler → Job → Store → Store × Option Text
  outcome_of none j s = (s, some (codes "no handler for job type: " ++ j.type))
  outcome_of (some handler) j s = handler j s

  -- Where a job belongs: an error leads back to the schedule until the retries are used up.
  abbrev pub destination : Option Text → Job → Site
  destination none j = Site.completed
  destination (some message) j =
      if ltb (suc j.retry_count) j.max_retries then Site.scheduled else Site.failed

  module _ (law : Lawful r) where
    abbrev pub spot : Store → Text → Places
    spot s m = places prefix (view s) m

    settled_at :
        (id m message : Text) (now : ℕ) (j : Job) (s : Store)
        → get_job r codec prefix id s ≡ ok j
        → spot (fail r codec prefix id message now s).0 m
          ≡ (if text_eq id m then settled (destination (some message) j) (spot s m) else spot s m)
    settled_at id m message now j s e = fail-places r law codec prefix id message m now j s e

    after_handler-places :
        (id m : Text) (result : Option Text) (now : ℕ) (j : Job) (s : Store)
        → get_job r codec prefix id s ≡ ok j
        → spot (after_handler id now (s, result)) m
          ≡ (if text_eq id m then settled (destination result j) (spot s m) else spot s m)
    after_handler-places id m none now j s e = completed-places r law codec prefix id m now j s e
    after_handler-places id m (some message) now j s e = settled_at id m message now j s e

    handle-places :
        (handler : Option Handler) (now : ℕ) (j j' : Job) (s : Store) (m : Text)
        → let (s1, result) = outcome_of handler j s in
          get_job r codec prefix j.id s1 ≡ ok j'
          → spot (handle handler now j s) m
            ≡ (if text_eq j.id m then settled (destination result j') (spot s1 m) else spot s1 m)
    handle-places none now j j' s m e = settled_at j.id m _ now j' s e
    handle-places (some h) now j j' s m e = after_handler-places j.id m (h j s).1 now j' (h j s).0 e

    -- When a worker has dealt with a job whose record can be read after its handler has run, the job
    -- is not being processed any more and is listed among the completed jobs if the handler
    -- succeeded; if it failed, or there is no handler, the job is scheduled again while its retries
    -- are not used up, and listed among the failed jobs when they are. No other job is moved.
    pub process_job_settles :
        (handlers : Text → Option Handler) (now : ℕ) (j j' : Job) (s : Store) (m : Text)
        → let (s1, result) = outcome_of (handlers j.type) j s in
          get_job r codec prefix j.id s1 ≡ ok j'
          → spot (process_job handlers now j s) m
            ≡ (if text_eq j.id m then settled (destination result j') (spot s1 m) else spot s1 m)
    unfolding process_job
    process_job_settles handlers now j j' s m e = handle-places (handlers j.type) now j j' s m e
