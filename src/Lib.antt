-- ===== src/Lib.antt =====
-- Verification of the effect gateway of kapsel: owner-signed authorization grants, the journal of
-- Kubernetes image operations, their reconciliation, and the receipts that freeze what was observed.
--
-- Parts and files:
-- * Base (and Base/): results, equality tests, octets, signed integers and lists over the native numbers.
-- * Authority/Grammar (crates/kapsel-authority/src/lib.rs): identity_is_valid, dns_label_is_valid,
--   dns_subdomain_is_valid and immutable_image_is_valid. Authority/Frame (crates/kapsel-authority/src/record.rs):
--   push, new, take and finish of the tagged record framing. Authority/Grant (crates/kapsel-authority/src/lib.rs):
--   the grant statement, sign_authorization_grant and verify_authorization_grant. Ed25519 and SHA-256 are the
--   record Crypto, an argument of everything that uses them.
-- * Gateway/Types (src/gateway/mod.rs): requests, states, results and errors, with their SQL spelling.
--   Gateway/Facts (src/gateway/kubernetes/facts.rs): receiver facts and classify. Gateway/Receipt
--   (src/gateway/receipt/mod.rs): statement validation, encoding, parsing, signing and authentication.
--   Gateway/Custody (src/gateway/authorization.rs): grants under the configured authorities.
-- * Gateway/Journal (src/gateway/journal): Record is a raw row over the columns, Phases the validated phases,
--   Decoder and Rows the decoder of a hostile row, Store the tables with reads and the conditional write
--   replace, Writes the reads of one operation, Steps the writes from phase to phase,
--   Capacity the count of retained identities.
-- * Gateway/Reconcile and Gateway/Admission (src/gateway/mod.rs): submit_authorized,
--   run_locked_operation_once, receipt completion, the reconciliation loop, the worker lease and
--   admit_and_reconcile, the entry of the service.
-- * Gateway/Passing has the interface of a relation between worlds that the journal's steps keep to (Writing, Pass,
--   Service), and in Entry the entries of the gateway and any history of them, which keeps to every such
--   relation. Its instances: Gateway/Dispatch, about what was sent (Rows and Replace are about the store, Decoded
--   about the decoder, Written about the rows that are written, Moves the relations between worlds,
--   Lifecycle and Transitions about the journal's reads and writes, Permission about what begin_attempt
--   permits, Passes and History about the gateway); Gateway/Course, the abstract course of one operation (States
--   about the rows, Writes and Rows about the store); Passing/Capacity.
-- * Gateway/Rounds holds the proof that the loop ends: Columns and Marks are about the state that a row spells after
--   a write, Found, Advance, Passes and Submission about the rank that each step leaves, Enough about the loop.
-- * Service/Disposition (src/application/service.rs and service/disposition.rs): statuses, guidance and the
--   classes of errors that a caller sees.
-- * Daemon/Runtime (crates/kapsel-daemon/src/server/runtime.rs and runtime/jobs.rs): the selection with the one
--   permit, the job registry, contention probes, executions and stop reasons. Leases, Steps, Invariant and
--   Histories hold its invariant, Refusal, Stops and Observation what it gives.
-- * Authority/Tests, Gateway/Tests and Daemon/Tests: concrete inputs; Gateway/Tests/Loop: a run to a
--   finalized operation; Gateway/Tests/Histories.
--
-- State: a World holds the rows, the identities of the Git table, a clock, the requests sent, the admissions
-- acknowledged and the worker lease. An action maps a World to a result and a World. Everything outside
-- the program (SQLite reads and commits, the lock file, the Kubernetes adapter) answers by the clock in a
-- parameter Env: a read may fail, a commit may be lost, and its acknowledgement may be lost after it
-- was done. A crash is an error there followed by a restart.
--
-- The server of the daemon is a state over a list of events: one for each step of a blocking closure and for each
-- part of a handler that the reactor runs at once, so every list is an interleaving. A weak reference is a
-- generation number, and a selection is dropped with the last lease of it.
--
-- Bounds: 64-bit lengths and 32-bit frame lengths are written out. The reconciliation loop runs on four rounds
-- of fuel: a round that goes on leaves the operation in a later phase, and there are three phases to leave.
--
-- Granularity of the server: the publication of a selection and the registration of its job, or its refusal,
-- are one step, so that no read stands between them; the stop reason of an execution, its answer and
-- the drop of its leases are one step; and the jobs that are live stand for the registry, from which
-- the code removes the ended ones only when it spawns.
--
-- Not modelled: opening, migration and schema recognition of the journal, the Git effect, the HTTP adapter, the
-- sockets and startup of the daemon, command line, client and bridge, panics under a lock, and the test
-- faults, which are absent in production.
pub mod Base
pub mod Authority
pub mod Gateway
pub mod Service
pub mod Daemon
