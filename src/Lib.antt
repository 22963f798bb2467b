-- ===== src/Lib.antt =====
-- A model of the routing core of relay-gateway, a gateway that forwards requests for AI models to one of
-- several upstream channels.
--
-- A request enters through a handler (router/), which lets the dispatcher choose the channels that can
-- serve it. The dispatcher keeps a circuit breaker for each channel, orders the healthy ones by weight,
-- and calls one after the other until one answers or the failure may not be replayed. A task that a
-- provider runs asynchronously is polled until its status is final, and its run is stored in a table that
-- workers share by leases. A submission with an idempotency key reserves its run first, under a lock of
-- the key, so that it reaches the provider once. The media of a task are fetched by jobs under leases, and
-- are served by links until their deletion is requested. Logins of the administrator go through an
-- admission control that bounds failures and concurrent password checks, and open sessions that end when
-- the credentials change.
--
-- The files:
--   Common         the native numbers, lists, integers and texts that every part shares
--   Dispatch       service/dispatcher.go
--     Breaker      `breakerState` and `channelAttempt`: `tryAcquireChannel`, `candidateAvailable`,
--                  `finish`, `recordFailureLocked`, `ResetBreaker`; System runs any history of them
--     Channel      config/config.go, `UpstreamChannel`, with `AllowsModel` and `GetEffectiveKeys`
--     Candidates   `matchPattern`, `orderCandidatePool`, `ResolveCandidatesForProtocol` and
--                  `ResolveProfileCandidatesContext`
--     Pools        `nextSchedulingIndex`, which counts the index that `scheduleHealthyChannels` takes
--     Schedule     `scheduleHealthyChannels`
--     Profile      service/profile_executor.go: `beginProfileAttempt` and its clients
--     Failover     `ExecuteWithPolicy`, `legacyFailureCounts`, `isFailoverEligibleForPolicy`
--   Media          db/media.go and db/media_materialization_lease.go
--     Assets       creation, links, availability, and the end of a task whose media is stored
--     Objects      stored files and their references
--     Deletion     revocation, physical removal and retries
--     Jobs         fetching under a lease; Materialize ends it, and DeletionJobs is the same for deletions
--     System       any sequence of these calls; Numbering mixes them with those of Tasks/Records
--   Metrics        metrics/
--     Collector    collector.go: the counters and the window of latencies
--   Polling        protocol/async.go
--     Backoff      `nextDelayAt`, `parseRetryAfter` and the saturating arithmetic
--     Wait         `wait`, the loop of gateway_wait
--   Router         router/profile_idempotency.go
--     Locks        `profileIdempotencyLocks`, as a system of goroutines
--     Reservation  `reserveProfileTaskRun` and the rules for idempotency keys
--   Security       security/
--     Admission    admission.go; Gate runs any history of beginning and finishing attempts
--     Passwords    auth.go: `hashPassword`, `verifyPassword` and the rules for names and passwords
--     AuthStore    auth.go: the tables of the account, its sessions and the gateway token
--     Sessions     auth.go: setup, login, sessions, CSRF tokens
--     Credentials  auth.go: new credentials, reset, and the gateway token
--   Tasks          db/
--     Runs         task.go and task_lease.go: status changes, poll counters, claims and leases; System
--                  runs any sequence of them, and Batch is `PersistTaskPollBatchContext`
--     RunStore     task.go: the tables, creation and look-up of runs
--     Records      the rest of task.go: projection, aliases, attempts, events, groups under a lease;
--                  System runs any sequence of these and of the calls of Runs
--     MappingCache task_mapping_cache.go
--
-- How the code corresponds to the model:
--   * A method that changes an object takes the state and gives the new one, named after the method. A
--     mutex makes each method one step, so an interleaving of goroutines is a list of such steps; what a
--     goroutine does between two of them is a step of its own.
--   * `time.Now()` is an argument. A time is a number of nanoseconds since the zero `time.Time`, so that
--     `IsZero` is the test for 0. A signed 64-bit duration is an integer, and where the code saturates the
--     model does. `uint64` counters wrap at 2 ^ 64, but not the versions and the event numbers of rows, which
--     grow by one or two for each transaction. A Go `int` that only counts is a number without bound.
--   * A string is the list of its character codes, and trimming and folding know ASCII only.
--   * A map is an association list in some order of iteration. The locks of keys are a map from keys to
--     addresses and a heap, both functions, since a goroutine keeps its pointer when the map changes.
--   * Loops are recursion on the list or number they run over, so no fuel can run out: `wait_loop` runs on
--     the number of attempts left, the table of the schedule on its total weight.
--   * A database transaction is one step on a list of rows, and an error leaves the rows. The errors of
--     the database itself are left out, since such a transaction is rolled back.
--   * Code outside the repository is a parameter: `http.ParseTime`, `path.Match`, the random jitter and
--     tokens, the context, the provider behind an adapter, and the callback that sends a request. So are
--     the registry of adapters, the bindings of profiles and the index of the schedule.
--
-- Not modelled: logging and auditing; the HTTP handlers, adapters and the profile compiler; the SQL stores
-- of channels, profiles and task mappings; the files of media; the web console. They are input and output
-- around the parts above, or further state that these parts do not read.
pub mod Common
pub mod Dispatch
pub mod Media
pub mod Metrics
pub mod Polling
pub mod Router
pub mod Security
pub mod Tasks
