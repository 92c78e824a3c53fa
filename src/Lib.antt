-- ===== src/Lib.antt =====
-- CasperProver: a verification library of the engine's decision layer, its Merkle commitments, its
-- signer quorum, the human review and the audit trail of decisions, the circuit breaker around the
-- node's queries, the judge over several language models, the model registry and the worker pool.
--
-- Facet verdicts on a decision are aggregated (engine/internal/decision/attest), with a reduction
-- for several voters of a kind, some of them faulty; the commit passes a human-in-the-loop policy
-- (engine/internal/hitl) and then a gate with a challenge window. Audit records of decisions are
-- kept in a sink (engine/internal/decision/audit.go). Evidence is committed in Merkle trees
-- (engine/internal/prover, engine/internal/aggregator), and a root is signed by a quorum of
-- registered signers (engine/internal/quorum). Queries of the chain go through a circuit breaker
-- (engine/internal/submitter/resilience.go). A judge (engine/internal/judge) polls every provider of
-- a runner (engine/internal/llm) on the facets of a task and counts their votes; a task on which it
-- abstains is escalated to human review (engine/internal/judge/hitl). Models and their attestations
-- are registered (engine/internal/model), and proof tasks are queued for workers
-- (engine/internal/worker). A middleware of the API answers repeated requests from a cache
-- (engine/internal/api/idempotency.go).
--
--   Prelude, Prelude/*   tests on numbers, lists, maps, sorting, float64 and int as they are used
--   Attest               engine/internal/decision/attest/decision.go: `aggregate` is Aggregate
--   Attest/Gate          gate.go: `evaluate` is GateEvaluator.Evaluate at a given clock
--   Attest/Byzantine     byzantine.go: `reduce_per_kind`, `aggregate_byzantine_robust`
--   Attest/Outcome, Order, Window, Faults, Grouping, Unanimity   what is proved of them
--   Hex, Merkle/Digest   encoding/hex, and crypto/sha256 as a parameter
--   Merkle/Tree          engine/internal/prover/merkle.go: BuildTree, Root, GetPath, VerifyPath
--   Merkle/Incremental   engine/internal/prover/incremental.go: Append, Root, AppendBatch and
--                        VerifyReceiptTransition; `fold_slots` is the loop of foldIn
--   Merkle/Recursion     engine/internal/aggregator/merkle_recursion.go
--   Merkle/Levels, Padding, Climb   levels of a tree, and the node above all of them
--   Merkle/TreeRoot, Complete, Binding, Frontier, Collect, Accumulate, Receipts, Inclusion, Limits
--                        what is proved of the trees
--   Hitl                 engine/internal/hitl/hitl.go: the ticket store's methods and Decide
--   Hitl/Gate, Veto, Lifecycle   what is proved of them
--   Quorum               engine/internal/quorum/registry.go, and the calls of bls.go
--   Quorum/Verifier      verifier.go: `verify_quorum` is VerifyQuorum
--   Quorum/Threshold, Witness, Intersection, Lifecycle   what is proved of them
--   Breaker              engine/internal/submitter/resilience.go: allow, onSuccess, onFailure
--   Breaker/Query        QueryGlobalState and its attempts
--   Breaker/Slot, States   concurrent queries, and when the breaker trips
--   Audit                engine/internal/decision/audit.go: records, and the sink that retains the
--                        last of them; `walk` is the loop of Lineage
--   Audit/Ring, Lineage, Redaction   what is proved of them
--   Llm                  engine/internal/llm/types.go, config.go, fixture.go: requests, answers,
--                        settings, the fixture
--   Llm/Runner           runner.go: `complete` is Complete, `poll` is Poll, `call_one` is callOne
--   Llm/Keys             keys.go and errors.go: the key ring; `walk` is the loop of Next
--   Llm/Budget, Fallback, Rotation   what is proved of them
--   Judge                engine/internal/judge/facet_judge.go and types.go: `decide` is Decide,
--                        `decide_votes` is decideFacet after the poll, with the order of the loop
--                        over the tally as its argument `range`
--   Judge/Escalation     engine/internal/judge/hitl/hitl.go: BuildEvent, Verify, MultiSink
--   Judge/Tally, Menu, Winner, Overall, Fixtures, Review   what is proved of them
--   Registry             engine/internal/model/registry.go
--   Registry/Consistent, History, Frozen   what is proved of it under any calls
--   Worker               engine/internal/worker/distributed.go: workers, and SelectWorker
--   Worker/Tasks         SubmitTask, AssignTask, CompleteTask, FailTask and the queue
--   Worker/Upkeep        RebalanceTasks, GetStats, PruneStaleTasks, PruneOfflineWorkers
--   Worker/Queue, Invariant, Steps, Passes, History, Selection, Accounting   what is proved of them
--   Idempotency          engine/internal/api/idempotency.go: `enter` is the middleware before the
--                        handler runs, `leave` after it
--   Idempotency/Bounded, System, Replay   the cap under interleaved requests, and what is replayed
--   Receipts             engine/internal/receipts/types.go and canonical.go: a receipt, the bytes that
--                        CanonicalHash writes, and the hash; a field's bytes go before what is
--                        written after it
--   Receipts/Reading, Canonical   what can be read back from the bytes, and what the hash determines
--   Hybrid               engine/internal/crypto/pq.go: the hybrid signature and its binary form
--   Hybrid/Wire, Both    what is read of the bytes, and when HybridVerify accepts
--   Lamport              engine/internal/crypto/pq.go: the Lamport signature; a key is a list of pairs
--   Lamport/OneTime, Binding, Keys   SignSPHINCS with VerifySPHINCS, what one signature fits, and keys
--                        as bytes
--   Examples, Examples/* runs on small inputs, with concrete parameters
--
-- State is passed explicitly: an operation takes the map or record and returns the result and the
-- state after it. A section under a mutex is one step; Breaker/Slot interleaves such steps. A method of
-- the worker pool is one step too, also CompleteTask, FailTask, Heartbeat and DrainWorker, which
-- release the pool's mutex early: what is proved of the pool is about calls that do not overlap. A clock,
-- a generated id, the context's cancellation and the answers of the node or of a language model, which
-- depend on the deadline and the timeouts of the call, are arguments, and so is the order in which parallel calls return. A `float64` is
-- an abstract type with the operations used and no law. A Go map is an association list whose order
-- stands for Go's unspecified one. A text that is only formatted is the data it is formatted from.
--
-- An `int` that is a count, a length, a duration or an index into a proof is a natural number; a
-- threshold, a fault bound or a position that the code tests for a negative value is an integer.
-- Sizes do not reach the bounds of a machine integer. The loops over tree levels run on fuel, one
-- more than the number of leaves: each level halves the nodes, and the theorems on the roots and the
-- paths show that this fuel is enough, since they give a result and not only its properties.
--
-- Not modelled: JSON digests of decisions, BLS curve arithmetic, random key generation, the key ring,
-- zero-knowledge circuits, the other HTTP handlers, the language models' wire formats, the sinks that
-- post to Slack and Telegram, equivocation proofs, storage in PostgreSQL, the emission and storage of
-- receipts, the contracts, the SDKs and the site.
pub mod Prelude
pub mod Attest
pub mod Hex
pub mod Merkle
pub mod Hitl
pub mod Quorum
pub mod Breaker
pub mod Audit
pub mod Worker
pub mod Llm
pub mod Judge
pub mod Registry
pub mod Idempotency
pub mod Receipts
pub mod Hybrid
pub mod Lamport
pub mod Examples
