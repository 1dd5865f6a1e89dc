-- ===== src/Lib.antt =====
-- A verification library of 44billion, a launcher that runs nostr apps in the browser.
--
-- The launcher keeps each app in a frame of its own and serves it through a service worker. These
-- services of it are the parts modelled here:
--   * the event store of an app (src/services/idb/nostrdb), in which replaceable events merge instead
--     of overwriting each other, whose accesses a scheduler serialises, and whose recovery scans an
--     index in chunks;
--   * the queue of requests to the vault (src/services/vault-request-queue.js), the frame that holds
--     the user's keys and signs for the apps, and the queue of what was accepted before the vault is
--     ready (src/helpers/window-message/browser/vault-accepted-message-queue.js);
--   * the coordinator that runs tasks again when the network is back
--     (src/services/connectivity-retry.js);
--   * the history of an account: which seconds of which relay are known
--     (src/services/account-event-coverage.js), and the pages that fetch what is missing
--     (src/services/account-event-pages.js);
--   * of the relay pool (src/services/relay-pool), the recovery of connections after a failure, and
--     the queue between a relay's socket and its consumer.
-- The event store calls the merge inside an access that the scheduler started. The pages ask for the
-- intervals that the coverage lacks. The sockets that the recovery admits feed the receive queue.
--
-- Common: names shared by all modules. Common.Tests has the Boolean tests on the native numbers,
-- Common.Lists and Common.Sorting the array methods (find, filter, sort) with their laws, Common.Text
-- strings as lists of code units, Common.Decimal `String(n)`, Common.Json `JSON.stringify` of an array
-- of strings.
--
-- NostrDb.Crdt: src/services/idb/nostrdb/crdt.js, all its functions under their names.
--   * Tombstones: encodeTombstoneValues, decodeTombstoneValues.
--   * Metadata: parseMetadataFields and the parsers under it, tagMetadata, stripReservedMetadataValues
--     and the serializers.
--   * Ranks: formatRank, rankValue, isValidRank, rebalanceRanks, hasStrictlyIncreasingRanks. A rank has
--     eight digits of base 36, that of a number below 36^8: `formatRank` keeps the last eight digits
--     of a larger one.
--   * Actions: normalTagAction, winningAction, setWinningAction, capActionTimestamp. A JavaScript `Map`
--     of actions is a list in insertion order.
--   * Options: normalizeCrdtOptions; States: eventState and the tombstone readers; Ordering:
--     orderNormalTags and assignRanks; Merge: buildCrdtMergeTemplate.
--   Elements of tags are strings, and timestamps natural numbers: the store validates both before.
--
-- NostrDb.Scheduler: src/services/idb/nostrdb/access-scheduler.js. The state is what createScheduler
-- closes over, and each method of what it returns is a function on it (run, remove, addForegroundIntent,
-- releaseForegroundIntent, cancelWaiting with clearForegroundIntents); Scheduler.Stores has
-- normalizeStores; `complete` is the callback at
-- the end of a job's operation. The queues of one class are a Lane (Scheduler.Lanes), with
-- takeFromClass, removeJob and removeEmptyConsumer. A job's id stands for the identity of its object,
-- `ended` records each settled promise. An operation's result, the time stamps, the performance
-- records, and the registry of schedulers by owner are left out; the loop of `pump` gets as much fuel
-- as jobs wait, enough since each round takes one.
--
-- NostrDb.Cursor: src/services/idb/nostrdb/recovery-cursor.js. An index is the list of its rows in the
-- order of the cursor; the comparison of keys and what onStored answers are parameters. scan_resumed
-- and scan_rows are the callback of scanChunk before and behind the checkpoint, scan_loop is the loop
-- of scanRecoveryCursorChunks; it gets one round more than the index has rows, enough since each chunk
-- but the last examines a row. The store does not change between two chunks.
--
-- Accounts.Coverage: src/services/account-event-coverage.js. mergeCoverage and missingCoverage stand in
-- Accounts.Coverage, the store of records with its transactions (markBatch, read, reconcile) in
-- Accounts.Coverage.Records, with invalidAccountCoverageKeys of src/services/storage-audit/audit.js. A
-- record that is stored is read back as it was.
--
-- Accounts.Pages: src/services/account-event-pages.js. What a relay answers to a filter is a parameter.
-- The loop gets twice the volume of the filter (seconds, times authors, times kinds) and one more
-- round, enough since a division shares the volume between two filters.
--
-- Vault.Accepted: src/helpers/window-message/browser/vault-accepted-message-queue.js, each function
-- under its name. The text in storage is the list of its items; what another context writes during a
-- request to the vault is a parameter.
--
-- Relay.Recovery: src/services/relay-pool/connection-recovery.js, ConnectionRecovery. States has what
-- is kept of each relay, Network the probe and the monitor, Sockets the calls of the sockets; the
-- timers, the probe's answer, `navigator.onLine` and the time are arguments of events, and `spread`
-- stands for the random factor of a delay. snapshot is left out.
--
-- Relay.Receive: src/services/relay-pool/bridge-receive-queue.js with receiveCandidates of
-- receive-priority.js and the retries of retry-delivery.js. Queue has the state and the candidates,
-- Receive the rounds of flush, push and grant. A frame is known by its sizes, its priority and its
-- stream, which createControlPriority supplies (Relay.Control, on frames that are parsed); the shared
-- budgets of all receivers (enforceBudget, Relay.Budget) say to push whether they close this one. flush
-- gets as many rounds as items wait, enforceBudget as many as there are receivers. Latencies are left
-- out.
--
-- Vault.Requests: src/services/vault-request-queue.js, createVaultRequestQueue: ask, finish, setPort,
-- cancel, close and drain. What the caller supplies, `beforeSend` and `send`, is a record of
-- functions (Caller) that may return or throw. The loop of `drain` gets as much fuel as requests wait.
-- The field `started` records each start and whether a normal request was eligible then; the code keeps
-- no such list.
-- The classification of a message (classifyVaultRequest) is an argument of `ask`; instant requests
-- bypass the queue and are left out with the diagnostics.
--
-- Network.Retry: src/services/connectivity-retry.js, ConnectivityRetryCoordinator. The bound
-- `concurrency` is a parameter. The callbacks of timers, signals, finished tasks and of the network are
-- events; a task's promise settles and frees its slot in one step. The check of the network
-- (`_isOnline`) is known by its answer only.
--
-- Not modelled: rendering (src/components), IndexedDB transactions and query plans, the sockets of
-- relays and the parsing of their frames, the downloads of apps, the service worker, and the build and
-- server scripts: input and output. The quota state, the budget of an app's assets and the mapping of
-- subdomains are left for later.
pub mod Common
pub mod Vault
pub mod NostrDb
pub mod Network
pub mod Accounts
pub mod Relay
