-- ===== src/Lib.antt =====
-- Models of the coordination core of blackbase, and their theorems.
--
-- Prelude: Boolean tests, lists, results, Python dicts as association lists in insertion order, text
-- operations and signed integers, and the library names that the other files share.
--
-- Evidence (src/blackbase/evaluation/event.py and journal.py): the durable record of one evaluation. Wire has
-- the freezing and thawing of src/blackbase/wire.py; Event
-- has the disposition and the verification receipt with their `__post_init__`; Record has
-- `EvaluationEvidenceRecord`, its validation, `_expected` and `_next`; Journal has the calls `reserve`,
-- `mark_event_durable`, `prepare_disposition`, `settle` and `abandon` over the in-memory backend, each an
-- updater that `_atomic_update` applies. Validity, Steps, Invariant, History and Verified are proofs.
-- `evaluation_disposition_digest` is a parameter: it is SHA-256 over canonical JSON.
--
-- Lease (src/blackbase/resources/lease_store.py): `SQLiteLeaseStore`, the table of leases with its counter
-- of fencing tokens, for one namespace, and `RedisLeaseStore.release_lease` over the same table. Its
-- histories leave out `update`, which may write any token. Fencing, History and Backends are proofs.
--
-- Budget (src/blackbase/resources/budget.py): `SQLiteBudgetAuthority` for one namespace and scope, in the
-- database of the lease authority, which it reads for the fence. Operations has the writing transactions;
-- Ledger, Transactions, History, Charged and Retry are proofs.
--
-- Tasks (src/blackbase/resources/transport.py and model.py): Worker has what placement reads of workers and
-- tasks, with `can_run`; Records, Transport and Leases have `InMemoryTaskTransport`. Progress, History and
-- Claims are proofs.
--
-- Dag (src/blackbase/project/dag.py): `DagStagePlan.from_stage`, which checks the declared dependencies of
-- the Cases of a Stage, infers others from Artifact inputs, and sorts the Cases. The proofs stand in
-- Remaining, Order, Rounds, Repeats and Plan.
--
-- Batch (src/blackbase/contracts/batch.py): `BatchDisposition`, which says which items of a proposal survive a
-- decision, with `prefix`, `for_range` and `compose`. Gather, Validity, Compose and Ranges are proofs.
--
-- Settlement (src/blackbase/resources/budget_settlement.py): Wire has the values that are written as JSON, with
-- `_plain_wire`; Record has `BudgetSettlementRecord` and its payload; Journal has
-- `SQLiteBudgetSettlementJournal` on the rows of one namespace. Book is its specification, a map from
-- settlements to records. Roundtrip, Refinement, History and Listing are proofs. Python's conversions of values that
-- are not already of the wanted type are parameters, with no hypothesis on them.
--
-- Control (src/blackbase/resources/control.py): `TerminationPolicy`, `CancellationRef`, the part of one namespace
-- of `InMemoryCancellationStore`, and `CancellationToken.checkpoint`. Reads and Lineage are proofs.
--
-- Grants (src/blackbase/resources/grant_pool.py): `ResourceGrantPool`, from which concurrent children slice one parent
-- grant. `acquire` is one round of its waiting loop, and `release` the exit of the `with` block of a grant; the
-- totals and tokens, which the constructor reads from the parent's context, are given. Counts, Invariant and
-- History are proofs.
--
-- Account (src/blackbase/resources/budget_account.py): `BudgetAccount` and its claims, which are objects at
-- addresses of a heap that the caller shares. The authority is an interface with a state of its own; Shared fills
-- it from Budget, with a moment for each call of the authority: what other processes have called since the one
-- before, the reading of the clock and the id drawn. Kept and Attached are what an account needs of its authority;
-- Ledger, History and Limit are proofs.
--
-- Context (src/blackbase/context/context_store.py): `InMemoryContextStore` with its TTLs. Refinement has its
-- specification, cells that each hold a value and its expiry; Visible and Refinement are proofs.
--
-- Calls run under a lock or in an immediate transaction, so a call is one step on the state of its
-- component and an interleaving is a sequence of calls; `claim` of the transport takes the lock twice and is
-- two steps, to register the worker and for the claim. A step reads the clock once, and the reading is an
-- argument; identifiers that the code draws at random are arguments too. Times, amounts and memory sizes are
-- whole numbers; arguments that may be negative are signed. Errors are constructors of one type per
-- component, and a transaction that raises leaves the state alone. Loops are recursions on lists, but for the
-- `while` loop of the topological sort: it gets one round more than there are Cases, which is enough
-- since every round places one at least; `out_of_rounds` stands for the lack of a round. The loop over the parents of a control gets 258 rounds: each
-- but the last visits one more id, and the code raises at the 258th. JSON values that no operation reads or compares are texts.
--
-- Not modelled: connections, serialisation and locking of the SQLite and Redis backends, which are I/O;
-- the cancellation stores on SQLite and Redis, and the heartbeat thread; the handles of delegated budgets; the
-- listings of the evidence journal and of the transport; the pool of one machine, the kernel, the snapshot stores, the
-- plugins and the project runner.
pub mod Prelude
pub mod Evidence
pub mod Lease
pub mod Budget
pub mod Tasks
pub mod Dag
pub mod Account
pub mod Batch
pub mod Context
pub mod Control
pub mod Grants
pub mod Settlement
