-- ===== src/Lib.antt =====
-- A model of the runtime of platform/services/platform-api, the Go service beside OpenIM that turns a
-- message to an Agent into a Run and delivers the Run's reply to the message's channel. All Go paths
-- are under platform/services/platform-api/internal.
--
-- The program's parts and how they interact. A message that mentions an Agent is enqueued as a Run
-- (agent/event.go and agent/store.go). A Run is a row of agent.runs; it waits in the lane of
-- its conversation until the lane's dispatch position reaches it. The Agent worker
-- (agent/worker.go) claims it under a lease, works on the phase that its row is in (routing, planning
-- a tool, executing it, generating an answer, handing the reply over), and stores the phase's result
-- through agent/store.go, route_store.go and tool_plan_store.go, which gives the lease back. The last
-- phase puts the reply into agent.deliveries (delivery/store.go, Prepare). The delivery worker
-- (delivery/worker.go) claims deliveries under leases of their own, sends them by delivery/senders.go,
-- and settles the delivery, the Run and the lane in one transaction. Tool calls go through
-- toolruntime/policy.go and service.go, and are kept in the ledger of toolruntime/store.go.
--
-- The files.
-- Prelude: names of the libraries, lists over native numbers with the laws of SQL's UPDATE and WHERE
-- (Prelude.Lists, Prelude.Rows), Go's strings (Prelude.Text) and strconv on int64 (Prelude.Decimal).
-- Database: one record per table's row, and `Db` with all tables; Database.Tx is the monad of a pgx
-- transaction, with the statements as operations and a rollback on the first error; Database.Tx.Frame
-- and Results are the rules for what a transaction keeps and for one that succeeds.
-- Delivery: delivery/store.go (Statements, Prepare, Exhausted, Claim, Marks), worker.go (Worker)
-- and senders.go (Sender); Outcomes says what a settlement changes; Row, Unique, Invariant, Steps,
-- Finality, Settling, Settlement, Frame, Once and Channels hold proofs. Delivery.Steps is the step
-- relation of all transactions on the delivery table, by any number of workers in any order.
-- Agent: agent/event.go (Mentions) and agent/store.go (Resolve, Enqueue, Run, Lane, Approvals,
-- Claim, Failure), with route_store.go and tool_plan_store.go in Saves; Catalog, Grounding and
-- Target are the checks of worker.go, route.go, execution.go and capability/descriptor.go; Worker,
-- Worker.Phases and Worker.Round are worker.go; Failed says what a failed attempt changes; Intake,
-- Turn, Exhaustion, Lease, Grounded, Worker.Counts and Worker.Once hold proofs.
-- Tools: toolruntime/policy.go (Policy), service.go (Service) and store.go (Lifecycle, Ledger,
-- Outcomes, Verdict); Authority and Replay hold proofs.
-- Telegram: the conversation id that telegram/poller.go gives to a chat; Text, Codes (link.go),
-- Tables, Store and Consumption (store.go), Bindings (store.go and LinkService of link.go), Poller
-- (process) and Polling (Run); Proven, Proven.Bound, Proven.Steps, Once and Covered hold proofs.
-- Action: action/store.go, service.go and executor.go: Tables (of migration 0007), Store, Executor
-- and Round; `Faults` says what the database does to the commits and reads of one round. Sound is
-- the invariant of the tables, and Sound.World the step relation, in which each transaction is a
-- step; Sound.Statements, Requests, Asked, Calls, Executions and Steps hold its proof, and
-- Sound.Rounds that of the executor's rounds. Outcomes says what a completion changes, and
-- Completion is the liveness of a round.
-- Ingress: internal/ingress: Message (event.go), Tables and Store (store.go), Publisher and
-- Consumer; Steps is the step relation of the store and Log the abstract log that it refines
-- (Log.Updates, Log.Steps); Outbox, Sent, Again, Committed and Groups hold proofs.
-- Tests: concrete states, and each theorem with hypotheses applied at one of them.
--
-- State and operations. A transaction is a function `Db → Result (A × Db)` (`TxOn S` over the
-- tables `S` of another subsystem); an operation of a store is the function from a `Db` to the
-- result and the `Db` that the Go method leaves, named as the method in snake case. `now()`,
-- random ids and tokens, SHA-256, JSON encodings, and the rows that FOR UPDATE SKIP LOCKED passes
-- over are arguments. ORDER BY created_at of the outbox is the table's own order, and
-- `run_action_round` runs the transactions of one round with nothing between them. Times are
-- microseconds, durations nanoseconds. An UPDATE changes every row that its WHERE clause selects,
-- and its count is what RowsAffected gives; a CHECK or a key that an INSERT or an UPDATE can run
-- into is an error. A worker is a function on the state `S` behind the interfaces that it was
-- built with, which are a record of functions. There is no fuel: each loop follows a list.
--
-- Not modelled: the driver's and the server's failures, the tickers of the workers' loops, HTTP and
-- Kafka, the decoding of JSON and protobuf, and the clients of the Bot API, of OpenIM and of the
-- models. Nor are these other parts of the service: retrieval, memory, the proactive runtime,
-- delegation to other Agents, identity and administration, and the HTTP server.
-- Attempts, sequences and the ids of Telegram's updates are natural numbers, without the overflow of
-- their 32 or 64 bits; a lease and a delay are not negative. OpenIM's session type is a natural number.
pub mod Action
pub mod Agent
pub mod Database
pub mod Delivery
pub mod Ingress
pub mod Prelude
pub mod Telegram
pub mod Tests
pub mod Tools
