-- ===== src/Lib.antt =====
-- The deterministic kernel of APEX (packages/kernel/src), modelled and verified.
--
-- The kernel keeps the state of one run of a workflow. The run file and an append-only journal of
-- events change together in a transaction (run-repository.ts, event-journal.ts); digests are taken
-- of canonical JSON (canonical.ts); the run file records the four approval gates (gates.ts,
-- run-config.ts); a lease with an owner epoch tells who may write (lease-store.ts); the engine reads
-- a workflow manifest, proposes the next task and computes what a change invalidates
-- (workflow-engine.ts, with the validators of workflow-validator-ownership.ts), the answers to the
-- questions of a task are validated (tasks.ts), values are validated by registered handlers
-- (validator-registry.ts), and evidence is redacted before it is stored (evidence-store.ts).
-- Processes take turns by a lock that is a directory (directory-lock.ts), and a call that is
-- repeated while nothing has changed is answered from its first result (repeat-guard.ts). Objects
-- lie under their digests, and a cache names them by what they depend on (object-store.ts,
-- content-cache.ts). Files are read and renamed with retries, and a fence keeps an operation's
-- writes out of the sections in which others read (files.ts). Observations of what went wrong lead
-- to proposals, on which people decide (improvement-store.ts).
--
-- File by file, with the paths of the code below packages/kernel/src:
--   Common (Lists, Results, Assoc, Tests): what the components share; a call that throws is a
--     Result.
--   Kernel/Gates: gates.ts, and the gate record of packages/contracts/src/runtime.ts. The functions
--     keep their names (openGate is open_gate). Lifecycle has the operations as a step relation.
--   Kernel/Lease: lease-store.ts. The state Disk is the lease file and the lock file.
--   Kernel/Canonical: canonical.ts, on JSON values; texts are lists of UTF-16 code units.
--   Kernel/Journal: event-journal.ts. The state Directory is the listing of the journal's files;
--     replay, append and head take it, and append returns the next one.
--   Kernel/RunConfig: run-config.ts.
--   Kernel/Run: run-repository.ts. The state RunDisk is the run file, the intent file and the
--     journal; recover and mutate return the next one, and mutate may be stopped after each of its
--     stages. WriterLease has the lease of the worktree that writes.
--   Kernel/ValidatorOwnership: workflow-validator-ownership.ts.
--   Kernel/Workflow: workflow-engine.ts. Parse and Validation read a manifest, Route is the method
--     route, Invalidation the method invalidationPlan, Ambiguity the check of outgoing edges, and
--     Sample a manifest for the tests.
--   Kernel/Tasks: tasks.ts, with the types of packages/contracts/src/runtime.ts in Types, and
--     trimming and regular expressions in Texts. Answers, Declared and Currency have what the
--     validation of answers and the check of a task establish.
--   Kernel/Evidence: evidence-store.ts. The state EvidenceDisk is the texts in the object store and
--     in quarantine.
--   Kernel/Registry: validator-registry.ts. The state Registry is its two maps; a handler gets the
--     moment of its call, on which the results of freshness and authorization validators may depend.
--   Kernel/Lock: directory-lock.ts. The state LockDisk is the lock path and the tombstones;
--     Contender has acquire and release as the phases between two calls of the file system, and Step
--     lets any number of acquisitions run in any order while processes end. Invariant and Moves keep
--     the facts that the phases rest on. Share has the windows in which a holder lets others read
--     without the lock.
--   Kernel/Files: files.ts. What the calls of the file system return is an argument; the state
--     WriteFence has the counters of the fence and the calls of changed that wait, and FenceStep is any
--     order of the parts of writes and quiet sections between their waits.
--   Kernel/Repeat: repeat-guard.ts. The state RepeatDisk is the records files and the audit events;
--     Observed holds what the hooks and the clock return to a call.
--   Kernel/Objects: object-store.ts, and content-cache.ts in Cache. The states ObjectDisk and
--     CacheDisk are what lies below the two roots.
--   Kernel/Improvement: improvement-store.ts, with the records of
--     packages/contracts/src/improvement.ts. The state ImprovementDisk is the files of its three
--     directories; a step of ImprovementStep is an operation, and for a scan any change of the
--     proposals. Scan has the groups of observations and the proposals for them.
-- The Tests modules run the definitions on concrete values.
--
-- Parameters: sha256_text is the digest of a text, which Node computes; no property of it is
-- assumed, but where a theorem says so: that no two different conditions of a manifest share a
-- digest (NoCollision), or that the keys of a cache tell its values apart (Apart). canonical is the
-- path of a worktree as the file system knows it. check decides the shape of a run configuration,
-- and errors gives what a schema refuses, as TypeBox does. matches decides whether a regular
-- expression of HIGH_RISK in evidence-store.ts matches a text. In Kernel/Lock digest is the digest
-- of a JSON value and iso a date as text; IsFresh says that no two acquisitions share a token, as
-- random identifiers do not, or a recovery id. In Kernel/Repeat the parameters are the fields of
-- RepeatHost, and in Kernel/Objects those of CacheHost, and in Kernel/Improvement those of
-- ImprovementHost. A reading of the clock is an argument, in milliseconds, so the conversions of
-- dates to text and back are left out, except where ImprovementHost has them.
--
-- Bounds: the loop of invalidationPlan takes as fuel the length of all invalidates lists that it may
-- queue, since a round takes one entry off the queue and a node queues its list once. The loop of
-- assertAcyclic takes one round for each node. Integers that the code reads from JSON are natural
-- numbers: a negative one is read as 0, which the callers refuse alike.
--
-- Not modelled: input and output, with the checks of files against links and races; the use of the
-- directory lock around the calls of a run repository and of the repeat guard; texts of error
-- messages beyond the values in them; events in the journal with other members than those of the
-- schema; properties that a run inherits from the prototype of objects; and the packages around the
-- kernel.
pub mod Common
pub mod Kernel
