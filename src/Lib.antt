-- ===== src/Lib.antt =====
-- A model of the decision and authorization core of mihver, tools under scripts/dev and
-- tools/orchestrator-firewall.
--
-- A task is first decided by a council of three model seats (scripts/dev/decision-council-kernel.mjs):
-- one seat commits to a proposal and reveals it, the candidate is frozen, the seats vote, and the
-- session is finalized into a decision record. A quorum proof
-- (scripts/dev/council-quorum-proof.mjs) lets others verify that record against the votes and a trusted
-- council configuration. From a valid decision record and task record the binder
-- (scripts/dev/authorization-binder.mjs) derives an authorization envelope, and the ledger simulator
-- (scripts/dev/authorization-ledger-simulator.mjs) re-derives it, holds the grants of humans, and allows
-- each authorization once. The loop (scripts/dev/authorization-loop.mjs) puts the two gates and a stop
-- check before a fake executor (scripts/dev/fake-executor.mjs, scripts/dev/authorization-verifier.mjs).
-- All artifacts are hashed over canonical JSON (scripts/dev/canonical-json.mjs). Beside these stands the
-- night runner (scripts/dev/night-runner.mjs), which plans a queue of tasks, and the orchestrator
-- firewall (tools/orchestrator-firewall/src and bin), whose hooks deny tools to the main thread, check
-- its delegations, write their receipts and hold back the end of a turn.
-- The executor of the night runner (scripts/dev/night-runner-executor.mjs) checks one task, starts a
-- process for it in a workspace of its own and ends it when its time is over or a STOP file appears.
-- What a task has changed is published by the publication builder
-- (scripts/dev/publication-builder.mjs), which checks a repository against an envelope, stages the
-- allowed files, seals them and commits.
--
-- Files:
--   Prelude: names of the library, Boolean tests, lists, texts, the splitting of texts and the formats
--     of hashes.
--   Json: canonicalizeJson, on the values that it accepts, as UTF-16 code units; Json/KeyOrder: its
--     key order.
--   Council/Types, Council/Hashes, Council/Validity: the artifacts, their digests and their tests.
--   Council/Quorum, Council/Sessions, Council/Kernel: quorum, createSession, applyEvent. The state of
--     a session is the record Session; a handler gives accepted, rejected or throws.
--   Council/Invariant, Council/Machine, Council/Decision: what holds of sessions.
--   Council/Proof, Council/Proof/Recount, Council/Proof/Verify: building and verifying quorum proofs;
--     Council/Proof/Agreement and Council/Proof/Soundness: what a verification says;
--     Council/Proof/Complete, with Complete/Ready, Complete/Parts and Complete/Accepted: the proofs of
--     finalized sessions.
--   Authorization/Records, Authorization/Rederive, Authorization/Binder: records and envelopes,
--     rederiveEnvelope, evaluateAuthorization; Binder/Scope and Binder/Gate: what they establish.
--   Authorization/Ledger: the state of LedgerSimulation as the record Simulation; Ledger/Construct is the
--     constructor (Construct/Kept: what it keeps), Ledger/Consume
--     checkAndConsume, Ledger/Grants the other methods; Ledger/Decide, Ledger/Once, Ledger/Sound and
--     Ledger/Fencing: what they establish.
--   Authorization/Lock: AsyncReaderWriterLock, with the tasks that hold it; Lock/Exclusion.
--   Authorization/Executor, Authorization/Loop: executeFakeAction, verifyFakeExecutionReceipt and
--     runAuthorizationLoop, with Executor/Verified, Loop/Within, Loop/Bounds and Loop/Backing.
--   NightRunner, NightRunner/Report, NightRunner/Seconds, NightRunner/Plan: validateQueueStructure and
--     planQueue, with the sums of doubles;
--     NightRunner/Known, NightRunner/Validated, NightRunner/Justified, NightRunner/Charged and
--     NightRunner/Limited: what they establish.
--   Firewall/Chain, Firewall/Receipts, Firewall/Threads, Firewall/StopGate: verifyChain and
--     appendRecord, the receipts of tool uses, thread bindings, decideStop; Chain/Evidence,
--     Receipts/Once, Receipts/Backed, Threads/Sole and StopGate/Released: what they establish.
--   Firewall/Policy, Firewall/Machine, Firewall/Protection, Firewall/Delegation, Firewall/Settings:
--     mainToolVerdict and classify, inScope, the protected paths, parseDelegation and
--     validateDelegationParams, configChange; Machine/Outside, Delegation/Header,
--     Delegation/Confined and Settings/Kept.
--   Firewall/Hooks, Firewall/Dispatch: the files of the hooks as the record Files, their handlers and
--     the dispatcher; Dispatch/Permitted, Dispatch/Stopping and Dispatch/Traced.
--   Publication/Envelope, Publication/Remote: validateEnvelopeShape, parseGitHubRemote, with
--     Remote/RoundTrip; Publication/Host: git and the file system, and the runs of git as actions that
--     end with a value, with a BLOCKED result or with an exception.
--   Publication/Files, Publication/Fingerprint, Publication/Preflight, Publication/Build:
--     classifyAllowedFiles, the two fingerprints, preflightCore and buildLocalCommit; Files/Accepted,
--     Preflight/Reads, Preflight/Guards, Build/Sealed, Build/Later, Build/Committed and Build/Restored:
--     what they establish, on the list of commands that were run.
--   TaskExecutor/Launch, TaskExecutor/Process: executeTask, up to the start of a process as the function
--     decide_launch, and from there on as the machine react on the events that reach the record
--     Execution; Launch/Cleared, Process/Settled, Process/Ends and Process/Truthful.
--   Tests: runs on concrete inputs.
--
-- Bounds. Every function recurs on its data: the loop over iterations on the effective maximum, that
-- over attempts on the retries that are left, the decimal text of n on n + 1 rounds, of which each
-- divides by ten, and the spacing of the doubles around n on n rounds, of which each halves
-- (NightRunner/Seconds). The seconds of the night runner are whole in a unit that is a power of two of
-- a second, and their sums are rounded as doubles are; the timeout of the task executor is any number,
-- or none.
--
-- Concurrency. A locked section of the ledger is one step. checkAndConsume awaits a test hook in the
-- middle of its section: what other tasks do there is an arbitrary function on the state. The
-- interleavings of all methods are lists of steps (Ledger/Once). bumpStopEpoch is a test and a write,
-- since the lock is asked for between them.
--
-- The timers of a task executor are events that may come in any order while they are armed; a timer
-- that is not armed does nothing.
--
-- Parameters. SHA-256, the two ajv validators and Date.parse are fields of External; no property of
-- them is assumed, except the form of a digest where a theorem says so. The callbacks of the loop
-- are arbitrary functions on an arbitrary world: they settle, and do not change the objects they are
-- given. The order of localeCompare is an arbitrary test. The hooks of the firewall run on a
-- Machine, which holds paths, the file system, JSON.parse, the clock and the fingerprint of the
-- workspace, and may be another one for each hook. The task executor looks at a Site (paths, the
-- file system and the probes of a command), and its Environment says what spawn does. Git is an
-- arbitrary function of the host: every command may fail and may change the world in any way, so
-- other processes may run between two commands.
--
-- Not modelled: own-property and prototype tests, and values of the wrong JavaScript type beyond one
-- constructor for them; texts with lone surrogates but in the request and the seat ids of a council
-- session; the details of errors and their messages, but for messages that cannot be written
-- (NightRunner); hooks of the firewall whose session, prompt or tool use is not named by a text, and
-- hooks that write to the same files at the same time; PromiseMutex; the command lines; a write of
-- the firewall that fails; the numbers and times of processes; the shadow council, run bundles,
-- project context, the publication broker and the installer.
pub mod Prelude
pub mod Json
pub mod Council
pub mod Authorization
pub mod NightRunner
pub mod Firewall
pub mod Publication
pub mod Tests
pub mod TaskExecutor
