-- ===== src/Lib.antt =====
-- Memphis v5, the parts that decide what an agent may do and what survives a restart.
--
-- The program is a local agent runtime in TypeScript. An operator and a second person approve a
-- freeze of the system; single tool calls of an agent are approved before they run; a task is
-- executed under a loop with limits and logged on a chain, from which a repeated run is answered;
-- tasks that wait are kept in a queue on top of a write-ahead log. The providers of a task are
-- tried with retries and a fallback; requests are limited by key; commands are checked against an
-- allowlist; decisions move through their statuses; an ask session gives its last turns to the
-- prompt. The chain itself is a directory of linked blocks that processes append to under a lock;
-- agents compare and merge their chains; blocks, queries and files are cached. This library models
-- these parts, one module for each: Mcp uses Approval, the executor of Loop is given the result of
-- Orchestration, the queue stands on its log, and Sync takes JSON values from Chain. Encrypted items
-- are decrypted when they are asked for, and a task is routed to a model by what it needs.
--
-- Approval models src/infra/auth/identity.ts and src/infra/storage/sqlite/repositories.
--   Approval.Identity: normalizeIdentity. Lower-casing and SHA-256 are the fields of Platform.
--   Approval.Tables, Writes and Dual: SqliteDualApprovalRepository (dual-approval-repository.ts).
--     Tables holds the rows and the selects; Writes the private methods, the statements and the
--     part that the three transitions share (commit); Dual the public methods createRequest,
--     approve, cancel, expirePending, get and countByState. A method is a function on the three
--     tables that returns a result or an error; db.transaction is transaction, which gives back
--     the old tables on an error. Dual.Runs has the sequences of calls, Dual.Invariant what they
--     keep, Dual.Outcomes the branches, Dual.Expiry the sweep, Dual.Trail and Dual.History the
--     event log.
--   Approval.ToolCall: SqliteToolCallApprovalRepository (tool-call-approval-repository.ts).
--   Approval.Permission: SqliteToolPermissionRepository (tool-permission-repository.ts).
-- Mcp.Gate models withApprovalGate of src/mcp/server.ts on top of Approval.ToolCall.
-- Loop models a step of the agent loop three times: applyFallbackLoopStep of
--   src/modules/orchestration/task-executor.ts, applyLoopStepTs of src/mcp/tools/loop-step.ts and
--   LoopState::apply of crates/memphis-core/src/loop_engine.rs. A halt reason is a text: TypeScript
--   tests its truth value (halted), Rust whether it is there (should_halt).
--   Loop.Executor: TaskExecutor.execute of task-executor.ts. The chain, the native engine, the ids
--     and the clock are the fields of Deps; Loop.Executor.Cached states what it asks of them.
-- Queue models src/infra/storage/task-queue-wal.ts (Queue.Crc and Queue.Wal) and
--   task-queue-service.ts (Queue.Service with Json, Restart, Resume and Capacity; in Sessions
--   services follow each other on one log, which Resume.Logged is about as well).
-- Orchestration models src/modules/orchestration: ProviderPolicy (provider-policy.ts) in Policy and
--   OrchestrationService (service.ts) in the module itself, with the two latency counters that it
--   reads of src/infra/logging/metrics.ts. The answers of the providers to their calls, in order,
--   the clock, which does not go back, and the random part of a wait are the fields of Env. A
--   readiness check of all providers (providersHealth) is not modelled.
-- RateLimit models RateLimiter of src/infra/http/rate-limit.ts.
-- Decision models src/core/decision-lifecycle.ts; the confidence is the text of its number.
-- ExecPolicy models src/gateway/exec-policy.ts: enforceGatewayExecPolicy in the module itself, the
--   policy from the environment and the bearer token in ExecPolicy.Config, what passes in Verdict and
--   Loaded. Each regular expression of the rules is a fixed prefix and a class of characters that
--   repeats to the end. An allowlist names no property that every JavaScript object has.
-- AskSession models estimateTokens, selectContextTurns and askSessionStats of
--   src/core/ask-session-store.ts; the two limits that the last reads of the environment are
--   arguments, and 80 percent of a limit is taken exactly.
-- Chain models src/infra/storage/chain-adapter.ts.
--   Chain.Json: the values of JSON, sortValue and stableStringify. Chain.Block: a block, its hash and
--     the checks of readAndValidateChainBlocks. Chain.Linked and Tamper: what the checks mean.
--   Chain.Names: the names of block files and of chains, resolveChainDir.
--   Chain.Directory: a chain's files by name, reading, the recovery of JSON from damaged files,
--     and pruneTrailingEmptyBlockFiles. Chain.Append: appendBlock inside the lock. A call has for
--     argument how much of its temporary file was written and whether the write and the rename
--     succeed.
--   Chain.Lock: withAppendLock. An attempt is a step of one process in a system of many; a process
--     may fail, time out or crash at any step. Lock.Abandoned is about a crash inside the lock.
--   Chain.Verify: verifyChainIntegrity and getChainAdapterStatus.
-- Sync models src/sync: chain-diff.ts (Sync.Diff), conflict-resolver.ts (Sync.Resolve), and
--   agent-registry.ts with sync-manager.ts (Sync.Manager). The answers of the agents are arguments.
-- Cache models src/infra/cache/chain-cache.ts (Cache.Chain), src/cache/query-cache.ts (Cache.Query),
--   src/cache/file-cache.ts (Cache.FileCache; a read is a start, which asks for the file's time, and an
--   end, which other reads may come between; Runs has the calls one after another), and
--   src/infra/memory/buffer-pool.ts (Cache.Buffers).
-- ContextWindow models src/providers/context-window.ts. Its reset has no body to model.
-- Router models src/providers/dynamic-router.ts, on the providers that capability-matrix.ts lists
--   (Router.Matrix, with findBestProvider). Prices are whole thousandths of a dollar, the uptime and
--   the scores whole tenths, which the listed ones are; their sums are exact. A requirement that is
--   missing is 0 or false, and the tracker is the list of its routings.
-- LazyVault models VaultLazyLoader of src/infra/storage/vault-lazy-loader.ts; a get is a start and an
--   end, with the decryption between them.
--
-- Conventions. A text is its list of UTF-16 code units, a file its list of bytes, a table its list
-- of rows in the order of insertion. Times are numbers of milliseconds; an ISO timestamp in a row
-- stands as the instant that it prints, or in the queue as a text. What Date.now() and randomUUID()
-- give is an argument of each call. A primary key that is violated is the error constraint; the
-- CHECK clauses of the schema hold of every value of the row types. The id of a request is an
-- argument of createRequest, so no property rests on ids being unique unless it says so. Counters
-- of a loop are natural numbers, its wait an integer: TypeScript adds a duration as it is, the
-- fallback of the executor the part that is not negative. A duration with a fraction is not
-- modelled, and a JavaScript number counts one by one up to 2 ^ 53 only (Loop.Agreement). The engine's
-- u32 and u64 saturate, as the source says. CRC-32C is computed on 32-bit patterns by their unsigned
-- value.
--
-- Fuel. parse_from has fuel, one more than the number of bytes: a round takes 8 bytes at least
-- (Queue.Wal.Fuel). try_generate goes down on the retries that are left, acquire_from on the 200
-- attempts that the source allows. make_room of the file cache has one more than the entries, since
-- every round evicts one; the binary search of the buffer pool has one more than the sizes, since
-- every round leaves less of them. extract_from goes down on the text. All other loops are structural.
--
-- The log. Whether a call gets the lock file before its timeout is an argument. A rotation puts
-- the active file behind the archives; the code names an archive by the millisecond, so two
-- rotations in one millisecond would leave one archive, which nothing here looks at. JSON and
-- localeCompare are parameters of the queue; the law of JSON is a hypothesis on the envelopes that
-- a run prints. A redispatch handler is a function of the task: it does not call the queue itself.
--
-- The chain. JSON.parse, JSON.stringify, SHA-256, localeCompare, path.resolve and Date.parse are
-- parameters; that JSON is read back as it was printed and that no two contents have one digest are
-- hypotheses of the theorems that need them. The index of a block is a natural number or another
-- number that no check accepts. A block file that holds null makes the source throw a TypeError,
-- which counts as the error of an invalid shape. A Map keeps its entries in the order of insertion.
-- The clock of the caches does not go back; the free buffers of a size are a list.
--
-- Not modelled: the read-only listEvents, listPending of the tool-call repository, list, snapshot
-- and getStats; the handlers of the MCP tools; the Rust bridge that appendBlock asks first, which is
-- native code; the WebSocket protocol of the synchronisation, IPFS, trades and the network chain;
-- the HTTP and gateway servers, the command line, the providers, the other parts of the vault and
-- the cognitive models; and the Rust crates but for the loop engine.
pub mod Base
pub mod Approval
pub mod Mcp
pub mod Loop
pub mod Queue
pub mod Orchestration
pub mod RateLimit
pub mod Decision
pub mod ExecPolicy
pub mod AskSession
pub mod Chain
pub mod Sync
pub mod Cache
pub mod ContextWindow
pub mod Router
pub mod LazyVault
