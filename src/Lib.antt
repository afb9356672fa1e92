-- ===== src/Lib.antt =====
-- Belief Ledger: a ledger of an agent's beliefs, each with its pramāṇa (how it is known), its source
-- and its support, which decides what the agent may rely on and which tool calls it may make.
--
-- The parts and how they interact (paths are under packages/core/src/belief_ledger_core where nothing
-- else is said):
-- * models.py is the data model: Models/Enums.antt and Models/Records.antt.
-- * engine/trust.py admits a belief by a matrix of trust profiles and stakes: Engine/Trust.antt, with
--   its theorems in Engine/Admission.antt.
-- * engine/priority.py compares two contradicting beliefs: Engine/Priority.antt (`priority_trace`,
--   `compare_priority`), with the order laws in Engine/Order.antt.
-- * engine/defeat.py relabels a graph of beliefs with the comparisons of priority.py:
--   Engine/Defeat/Support.antt (`_is_supported`, `_candidate_status`, `_is_stale`),
--   Engine/Defeat/Round.antt (the loops over the rebuts of one iteration) and
--   Engine/Defeat/Relabel.antt (`relabel` with its three exits); the lemmas are in
--   Engine/Defeat/Demotion.antt and FixedPoint.antt, the theorems in Labels.antt, Unbeaten.antt
--   and Returns.antt.
-- * engine/graph.py guards the graph of justifications against cycles: Engine/Acyclic/Search.antt
--   (`adjacency`, `_find_path`, `cycle_path`), with the theorems in Ends.antt, Unreachable.antt and
--   Reached.antt of that folder; Descendants.antt there is `descendants`, which engine/retractions.py
--   calls, with its theorems also in Closure.antt.
-- * enforcement.py (`EnforcementStore`) keeps approvals and single-use permits for tool calls, with
--   an append-only, hash-chained event log: Enforcement/Tables.antt (the rows and the SQL
--   statements), Store.antt (the events, the ports and the transactions), Replay.antt (the rebuild
--   of the tables and the check of the chain), Approvals.antt, Premises.antt and Actions.antt (the
--   methods), Operations.antt (sequences of calls). Rules.antt, ApprovalsKeep.antt,
--   ActionsKeep.antt, Invariants.antt, Refusals.antt and Bindings.antt hold the lemmas, and
--   Audit.antt, Consumption.antt and SingleUse.antt the theorems.
-- * buffering.py (`ResponseGate`) holds back a response until it is linted: Delivery/Gate.antt, with
--   the lemmas and theorems in Delivery/Chunks.antt (`append`), Accepted.antt (`finalize`) and
--   Calls.antt (sequences of calls).
-- * gate/preconditions.py and gate/decision.py (`ActionGate.evaluate`) decide on a tool call from the
--   beliefs, the sources, the open conflicts and the trust matrix: Gate/Preconditions.antt and
--   Gate/Decision.antt, with the lemmas in Checks.antt and Met.antt and the theorems in Allow.antt.
-- * store.py (`LedgerStore`), events.py and projections.py are the event store of the ledger and its
--   projection tables: Ledger/Results.antt (errors), Events.antt (drafts, events, payloads, the
--   ports), Tables.antt (the rows of migrations.py), Inserts.antt, Updates.antt and Projections.antt
--   (the handlers, `apply_event`), Chunks.antt (`_chunks`), Chain.antt (`_verified_heads`,
--   `chain_state`), Store.antt (`append_events`, `verify_hash_chain`), Budget.antt
--   (`reserve_llm_budget`) and Replay.antt (`replay`, `purge_episode`). Valid.antt states the
--   invariant of the database; Scan.antt, Stored.antt, Batches.antt, Appends.antt, Keys.antt and
--   Keyed.antt hold the lemmas, and Runs.antt, Retry.antt, Heights.antt, Replayed.antt,
--   Reserved.antt, Completion.antt and Purge.antt the theorems. Headed.antt and Kept.antt say what
--   calls leave of the chain.
-- * lint/enforce.py (`enforce_report`) decides what becomes of a response that is not grounded:
--   Lint/Enforce.antt, with the theorem in Delivered.antt.
-- * context/select.py and context/budget.py choose the beliefs that are shown and count the
--   characters: Context/Select.antt and Budget.antt, with the lemmas in Bounded.antt and the theorem
--   on the choice in Chosen.antt.
-- * verification/scheduler.py requests and completes verification tasks on the ledger store, and
--   verification/apta.py counts the outcomes of a source: Verification/Scheduler.antt, with the
--   theorem in Completed.antt. verification/anchors.py with two commands of
--   belief_ledger_pramana/hermes/cli.py publishes anchors of the chain and compares them with it:
--   Verification/Anchors.antt, with the theorems in Anchored.antt and, on sequences of calls,
--   Published.antt.
-- * Prelude.antt passes on the library names and holds the Boolean tests, lists and integers that
--   the parts share. Each part has a module of tests with a concrete run; Engine/Samples.antt holds
--   the inputs that those of the engine share.
--
-- How the state corresponds to the code:
-- * Identifiers, digests and the names that are only compared are natural numbers; texts that are
--   looked up (domains, qualifiers, keys) are strings. Instants are microseconds since the first
--   instant of `datetime`, in UTC. A float is its bit pattern, and the operations on floats are the
--   record `Floats`, an argument, of which the theorems assume at most that `<` is irreflexive and
--   asymmetric.
-- * The store is the four tables of the schema, the newest row first, the events, the newest first,
--   and the numbers of calls of the clock, the identity port and the token port, whose answers are
--   functions of that number in `Dependencies`. The SHA-256 digests of canonical JSON are functions
--   of what they digest, also in `Dependencies`; nothing is assumed of them.
-- * A method is a function from the store to an outcome and a store. `atomically` is
--   `BEGIN IMMEDIATE` to `commit`, with the rollback of tables and events when an exception leaves
--   the block; the ports' counters are not rolled back. A JSON column holds the decoded value.
-- * The ledger's database is a record of its tables. Projection tables list their newest row first,
--   the events the oldest. A kind of event and its payload are one constructor, so that a payload of
--   another shape is not modelled. A handler is a function from the tables to the tables or an
--   error, and every error undoes the transaction. A call of `append_events` is given the identifier
--   and the time of each of its drafts. The hash of the projections is a function of the idempotency
--   rows as a multiset, since the code sorts the rows that it hashes. Foreign keys hold by the
--   checks that the handlers make, and are not tested again.
-- * Calls run one after another, as `BEGIN IMMEDIATE` makes them; a sequence of calls is a list.
-- * `relabel` runs on a graph whose lists are sorted by identifier, as it sorts them first. Its loop
--   has `max_relabel_iterations` as fuel, as in the code, with the ceiling as the exit when it is
--   used up, so no further bound is chosen.
-- * `_add_with_premises` recurs on `max_depth - depth`, at which the code follows no premise.
-- * `_find_path` is a loop on a stack and `descendants` one on a queue; the fuel is one for what they
--   start with and one for every edge, since a node pushes its children once.
-- * `_chunks` has the number of values as fuel, since each chunk takes one at least.
-- * A payload is a list of bytes. The sink, the UTF-8 decoder and the linter of a response are
--   functions in `Ports`, which say of each call whether it returns.
-- * The gate is given the classification of the call, and the answers of its reader as one record;
--   the text functions that it calls (`normalize_content`, `str.split`, `str`, `PurePath.parent`)
--   are functions in `Texts`. Of the record that `_record` appends, it is modelled only whether
--   there is one.
--
-- What is not modelled, and why:
-- * of enforcement.py: connections and PRAGMAs, the retry on a busy database, callbacks that raise,
--   the migration of the decision indexes, and the compaction of an episode's events;
-- * of defeat.py: `_defeat_cycle_nodes`, whose result is an argument of `relabel`;
-- * of the gate: the classification of a tool by the registry (regular expressions on its name), and
--   the digest of the arguments in the audit record;
-- * of store.py: the retry on a busy database, snapshots, the projection seal, the files of a purge,
--   the rebuild of the authorization tables inside a replay, and most of the read methods;
-- * of the linter: the extraction and the matching of claims (regular expressions, similarity), and a
--   linter callback that raises;
-- * of the context compiler: the ranking of the candidates and the texts of a rendering;
-- * of the verification: the count of independent sources, the audit of a chain, and of the anchors
--   the JSON text of a line (a line is the record it encodes), the paths and permissions of the
--   sink;
-- * the ingestion, the model client, and the adapters in other packages.
pub mod Prelude
pub mod Models
pub mod Enforcement
pub mod Engine
pub mod Delivery
pub mod Gate
pub mod Ledger
pub mod Lint
pub mod Context
pub mod Verification
