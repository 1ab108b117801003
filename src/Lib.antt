-- ===== src/Lib.antt =====
-- Web3AirdropOS: the coordination core of the Go backend. The backend runs jobs for many users
-- against rate-limited platforms. Its processes share a Redis server and a database: locks keep
-- two processes from acting on one account or wallet at a time, a limiter counts the requests of
-- an address, user or platform account, and a queue hands jobs to workers and retries the ones
-- that fail.
--
-- The modules and the code that they model:
--
-- - Redis, Redis/Keyspace: the server as an interface. `Redis` has a field for each command that
--   the backend sends (go-redis v8), `Lawful` the documented effect and reply of each, on a
--   server that answers. Keyspace says what keys hold; Redis/SortedSets has facts on sorted sets.
--   Memory is a server whose store is its keyspace: it meets the laws, and the tests run on it.
-- - Locks: backend/internal/locks/locks.go. `acquire`, `release`, `extend`, `is_locked`,
--   `get_lock_ttl` and `with_lock` are the methods of the same names; the two Lua scripts are
--   `if_owned`. Locks/Retry has `AcquireWithRetry` as `attempts` and `acquire_with_retry`, and
--   `store_at`, an independent account of its rounds. Locks/Exclusion runs any events of any
--   clients, with time passing, between two calls.
-- - RateLimit: backend/internal/auth/ratelimit.go. `script` is the Lua script, command by
--   command, and `check` the method around it. RateLimit/Client has the headers, the middleware
--   and getClientIP. RateLimit/Bound gives the sorted set after a check, RateLimit/Window the
--   agreement of the set with a log of the requests let through, RateLimit/Limit the
--   specification of a sliding window and runs of requests.
-- - Queue: backend/internal/queue/queue.go. Queue/Jobs has the job record and the options,
--   Queue/Records the keys and GetJob, Queue/Producer Enqueue, Queue/Consumer Dequeue,
--   Queue/Settler Complete and Fail, Queue/Stats Stats, Queue/Worker processJob of
--   backend/internal/queue/worker.go, Queue/Backoff the delay of a retry in 64-bit arithmetic.
--   Queue/Places and Queue/Moves say which collection lists a job before and after each call.
-- - Tasks: backend/internal/tasks/manager.go. Tasks/Records has the records and the table
--   interface `Database`, with the documented promises of GORM, of the unique keys and of the
--   status trigger in `Lawful`; `permits` is that trigger, of
--   backend/migrations/002_indexes_and_constraints.sql. Tasks/Execute has the parts of Execute
--   that touch no store, Tasks/Manager `execute` on the database and Redis, as a client of Locks
--   and Queue, Tasks/Status ContinueManualTask, CancelExecution and RetryExecution. Tasks/Cancel
--   and Tasks/Lost are about calls of which the trigger refuses a statement. Tasks/OneRow is a
--   table with room for one row that meets the laws.
-- - Gorm: the database as an interface. `Table` has the statements that the backend sends through
--   gorm.io/gorm, `Lawful` their documented effect on the rows; Gorm/Rows has facts on rows,
--   Gorm/Memory a table in memory that meets the laws, on which the tests run.
-- - Throttle: backend/internal/services/ratelimit.go, the locks and limits of the services.
--   Throttle/Locking has AcquireLock, TryAcquireLock, Release, Extend and the locks of accounts
--   and wallets, Throttle/Quota the limits of the platforms with CheckRateLimit, RecordAction,
--   GetRemainingQuota and WaitForQuota, Throttle/Concurrency the counter of running operations,
--   Throttle/Running its runs with time passing. Throttle/Exclusion relates its locks to those of
--   Locks.
-- - Vault: backend/internal/vault/vault.go, the secrets of the users. Vault/Records has the
--   records and the encryption, Vault/Secrets the operations on the table of secrets,
--   Vault/Rotation RotateKey. Ciphers and key derivation are arguments with their round trips.
--   Vault/Map reads the table as a map from users and names to values.
-- - Auth: backend/internal/auth/auth.go. Auth/Records has the records and the token and hash
--   libraries as arguments, Auth/Tokens the making and checking of tokens, Auth/Accounts Register
--   and Login, Auth/Sessions RefreshToken, the logouts and the removal of expired tokens.
--   Auth/Validity says what tokens read back as, Auth/Replay what the use of a spent token does.
-- - Hub: backend/internal/websocket/hub.go. Hub/Clients has the state and the operations:
--   `register` and `unregister` are the cases of Run, `handle_broadcast`, `join_room` and
--   `leave_room` the methods of the same names. A client is a number for its pointer; a panic is
--   an error. Hub/Incoming has `handle_message`, which gives none while its send waits on a full
--   channel, Hub/Maps the maps, Hub/Agreement and Hub/Rooms the invariant, Hub/Delivery the loops
--   of a broadcast, Hub/Audience and Hub/Targets who receives it, Hub/Runs the runs of events.
-- - Base: numbers, lists, texts as byte codes, and calls that return a value or an error with the
--   changed store.
--
-- Every call takes the store and returns it changed, with an outcome; clock readings and random
-- identifiers are arguments. A command that fails gives the error `Fault`, and the methods pass
-- it on or drop it as the source does. Lock and limiter times are milliseconds, those of the
-- queue and of the tokens nanoseconds. The loop of AcquireWithRetry takes fuel; `max_wait / 50 +
-- 2` rounds are enough if each wait takes its time by the clock. `Execute` passes its fuel on to
-- that loop: more than 600 rounds cover its 30 seconds. The two waiting loops of Throttle take
-- fuel, and nothing is claimed of them. All other loops are recursions on lists.
--
-- Not modelled: the start and stop of the workers' loops, the services on the database, the
-- scheduler, the sockets of the hub, the checks of requests, the HTTP API and the processes, and
-- the code in other languages. Connections that break between commands are covered by the error
-- branches of the definitions; the theorems that assume `Lawful` speak of a server that answers.
-- A key without a time to live, which go-redis makes for a lock with the time 0, is not
-- represented: what such a key does is left out.
pub mod Auth
pub mod Base
pub mod Gorm
pub mod Hub
pub mod Redis
pub mod Memory
pub mod Locks
pub mod RateLimit
pub mod Queue
pub mod Tasks
pub mod Throttle
pub mod Vault
