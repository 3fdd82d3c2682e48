-- ===== src/Lib.antt =====
-- A model of Freebuff2API, a proxy that offers an OpenAI-compatible interface over the free sessions
-- of several upstream accounts, and proofs of what its parts promise.
--
-- The parts and how they interact. The server (server.go) takes a chat request, asks the run manager
-- (run_manager.go) for a lease on a run, sends the request upstream, and releases the lease, or
-- invalidates the run, or cools the account down. The run manager keeps a pool for each account; a
-- pool keeps a run for each agent, replaces runs that are due (the old one drains until its last
-- lease ends and is then finished upstream), and keeps one free session with the upstream
-- (free_session.go). A background loop maintains the pools every minute. The accounts come from a
-- store (account_store.go, accounts.go) whose changes `SyncAccounts` turns into pools. The web
-- console has login sessions (sessions.go).
--
-- The files. Base and its children hold the shared helpers: Boolean tests on numbers, lists, Go's
-- integers, strings as lists of bytes, maps as association lists, multisets. Errors has the errors of
-- the sources by what they say, and `Outcome` for calls that may fail.
--   Sessions        sessions.go: `SessionManager` and its operations of the same names.
--   Pool            run_manager.go, `tokenPool` and `managedRun`: the parts under the pool's lock.
--                   `rotateAgent`, `acquire`, `finishIfReady` let the lock go while they ask the
--                   upstream, and so are in parts: `rotate_commit`, `acquire_commit`,
--                   `finish_begin`, `finish_end`. Pool.System puts the parts of all users of a pool
--                   in any order, those of `shutdown` too: a step is one locked part.
--   FreeSession     free_session.go, `refreshSession`, `readySessionLocked`, `queuedPollDelay`;
--                   FreeSession.Requests: `doSessionRequest`, `EndSession`.
--   SessionCycle    free_session.go, `ensureSession`, `ensureSessionAsync`, `invalidateSession`,
--                   `watchSessionExpiry`, `endSession`, in locked parts, and any interleaving of them;
--                   SessionCycle.Background: `prewarmSession`.
--   Lease           run_manager.go, `acquire`, `maintain`, `shutdown`, `snapshot` of `tokenPool`.
--   Order           run_manager.go, `groupPoolsByPriority`, `weightedPoolOrder`.
--   Manager         run_manager.go, `RunManager`: `SyncAccounts`, `maintainAll`; Manager.Lifecycle:
--                   `Start`, `prewarmPools`, `Close`, `Snapshots`.
--   Dispatch        run_manager.go, `RunManager`: `Acquire`, `Release`, `Invalidate`, `Cooldown`.
--   Config          config.go: `loadConfig` and its lists, and `compactAgentIDs` of run_manager.go.
--                   Config.ClientId: `generateClientSessionId`.
--   Registry        models.go: `buildModelMapping`, the fallback and the lookups; Registry.Refresh the
--                   reading of the remote source.
--   TextSearch      prefixes, searches and lower case, as server.go and accounts.go use them.
--   Server          server.go: `requireAPIKey`, `authorized`, and `proxyChatCompletions` as a list of
--                   events, from whose loop of two attempts the statistics, the leases and the
--                   accounts are told what to do. Server.Answers: what is written to the client.
--   Json            the values that `encoding/json` decodes into `any`.
--   Schema          server.go, `normalizeToolSchemas` and all that it calls: `schema_map` is
--                   `normalizeSchemaMap`, with `maxDepth` as its fuel, which the code itself counts
--                   down from 12; where it runs out the rest is copied, as in the code.
--   Metadata        server.go, `injectUpstreamMetadata`.
--   Upstream        upstream.go: the requests, and what is read out of the answers.
--   Store           account_store.go: the table of accounts; Store.Rows has the operations,
--                   Store.Stats the request counters, Store.Cipher `TokenCipher`.
--   Accounts        accounts.go: `AccountManager`, which keeps the store and the run manager in step.
--                   Accounts.Manage has all its methods, for a manager with or without a store.
--   Web             server.go: the handlers of the web console over `SessionManager` and
--                   `AccountManager`, with their routes.
--   Entry           main.go: the start, from the registry to the start of the run manager.
--
-- State and pointers. A `*managedRun` is an address into the pool's `cell`, a `*tokenPool` an address
-- into the manager's `pools`: the maps, the lists and the leases share what they point to. A clock
-- reading, a random value and an answer of the upstream is an argument of the function that meets it;
-- where a function reads the clock several times without an effect between, it has one argument.
-- Times are in nanoseconds since Go's zero time. Go leaves open in which order a map is iterated: the
-- order of an association list stands for it, and theorems hold for each.
--
-- Loops. Those over lists are by recursion on the list. The loops of `refreshSession` and
-- `ensureSession`, which end by what the upstream and other goroutines do, recurse on the list of
-- what comes back, and give no result if it is too short. `weightedPoolOrder` runs over the length of
-- the expanded list.
--
-- Not modelled: what libraries do, namely HTTP transport, the text of JSON, SQL, AES-GCM and base64,
-- regular expressions; the serving of embedded files, flags, signals and log lines; `healthPayload`,
-- which collects `Snapshots` and `Stats`; the tickers that repeat `maintainAll` and `refresh`; and
-- `retryAfterDuration`, which nothing calls.
pub mod Base
pub mod Errors
pub mod Sessions
pub mod Pool
pub mod FreeSession
pub mod SessionCycle
pub mod Json
pub mod Lease
pub mod Order
pub mod Manager
pub mod Dispatch
pub mod Config
pub mod Registry
pub mod TextSearch
pub mod Schema
pub mod Metadata
pub mod Upstream
pub mod Server
pub mod Store
pub mod Accounts
pub mod Web
pub mod Entry
