-- ===== src/Lib.antt =====
-- The Responsibility Pathway Runtime (RPR): a model of the Python package `src/rpr`, and what is
-- proved of it.
--
-- A pathway definition names who decides, executes, stops, repairs and answers for what is left of an
-- action. The runtime registers definitions, moves pathways through a state machine under the
-- authority that the definition names, runs executors on behalf of a pathway, keeps a hash-chained log
-- of evidence, and keeps a ledger of execution attempts so that an action is not sent twice.
--
-- The parts, each with the file of `src/rpr` that it is about:
-- - Models (models.py): the enumerations, `PathwayDefinition` and `ResponsibilityRoute`, `to_dict` and
--   `from_dict`; JSON values are `Value` (Value.antt).
-- - StateMachine (_generated_transitions.py, state_machine.py): the table, `ensure_transition`; Edge
--   has the transitions as a relation, Formal `allowed` and `terminal` of formal/rprFormal/State.lean.
-- - Authority (authority.py): who may execute, reconcile and move.
-- - Inspection (inspection.py): the findings on a definition and the decision of `inspect_pathway`.
-- - Rpe (rpe.py): the adapters of the evaluators, with `_normalize_result`.
-- - Routing (routing.py, route_visibility.py): the implied route and the read-only view.
-- - Redaction (redaction.py): `RedactionPolicy.redact`.
-- - Evidence (evidence.py): `build_event`, `verify_event`, `verify_chain`.
-- - World (storage.py, attempts.py): the rows of both databases and the transaction.
-- - Store (storage.py): `SQLiteStore`.
-- - JsonIdentity (attempts.py): `_strict_json_identity`; Attempts: `SQLiteExecutionAttemptLedger`.
-- - Execution (executor.py, reconciliation.py): requests, results, observations and their JSON forms.
-- - Principal (principal.py): principals and `StaticActorBinding`.
-- - Runtime (runtime.py): `register`, `transition`, `transition_as_principal`, `_record`,
--   `verify_evidence`; Runtime/Finish: `_finish_execution_pathway` and what `execute` does with a result;
--   Runtime/Execute: `execute`; Runtime/Reconcile: `reconcile` and `reconcile_started_attempt`.
-- - Repair (repair.py): `RepairCoordinator`; Compensation (compensation.py): the planner.
-- - Tenant (tenant.py): the ownership registry and `TenantScopedRuntime`.
-- - Framing (mcp_stdio_framing.py): `McpStdioLineCodec`.
-- - Rpc (mcp_jsonrpc_session.py): `McpJsonRpcSession`: `request` with its validation of
--   responses, and `notify`.
-- - Schema (storage.py, attempts.py, message_executor.py, tenant.py): `_migrate` and `schema_version` of
--   the four databases, and `_backfill_fingerprints`; Schema/Open: the opening of a store, which runs both.
-- - Message (message_executor.py): `SQLiteOutbox` and `OutboundMessageExecutor`.
-- - Mcp/Json and Mcp/Admission (mcp_admission.py): strict JSON, `McpServerToolSnapshot` and
--   `McpStableAdmissionAdapter`; Mcp/Snapshot (mcp_stable_snapshot.py): the validation of what a server
--   answers; Mcp/Prepare (mcp_stable_transport.py): `McpStableOrchestrator.prepare`, which uses both;
--   Mcp/Tool (mcp_tool_executor.py): `McpStableToolExecutor`, which dispatches what was prepared.
-- - Mcp/Channel (mcp_stdio_channel.py): `McpStdioChannel` over the codec and over Mcp/Diagnostics
--   (mcp_stdio_framing.py: `McpStdioDiagnostics`); Mcp/Lifecycle (mcp_subprocess_lifecycle.py): the shutdown
--   of a process.
-- - Mcp/Server (mcp_server.py): `ReadOnlyRprMcpServer`, over a read model that is an argument.
-- - Mcp/SafeJson and Mcp/Retained (mcp_retained_evidence.py): the evidence of a call that is kept.
-- - Audit: the state of a pathway and the evidence log under any sequence of calls.
-- - Examples: concrete inputs on which the theorems are applied.
--
-- How the code is modelled. A method is a function of the state that returns a result and the new
-- state (Exec.antt): an exception is a value with the class of the exception, and its message only
-- where the code reads it (RpeContractError); what was written before a raise stays written. A
-- transaction undoes its body when that raises, and any write transaction may raise
-- sqlite3.OperationalError of its own, as `write_fails` of the environment says. The environment
-- (Env.antt) also gives str(), casefold, json.dumps, sha256 and the clock, of which nothing is assumed
-- but what a theorem names. Executors, reconciliation strategies, evaluators and resolvers are
-- arguments; an executor may change the databases. A column that holds JSON holds the value that the
-- text decodes to. Values are trees, so the test for cyclic containers never fails; texts are valid
-- Unicode. A `SELECT` that may match several rows gives the first.
--
-- Bounds. The JSON check has the bounds of the source: 64 levels, 10000 nodes, 1000000 bytes of text and
-- 1100000 bytes of canonical text; redaction has those of its policy. Recursion is structural, on
-- values and lists, but for the loop of `_write_message`, which has one unit of fuel for each byte of the
-- payload, which is enough since each pass takes at least one byte.
--
-- Not modelled: the file and HTTP executors; the checks of token claims (identity.py), whose times are
-- floating-point numbers; the loop of the MCP server over stdin, its read model and the local
-- subprocess; the command line, backup and diagnostics; the tools for release, assurance and delivery.
-- They are I/O, or tools over the repository's files.
pub mod Prelude
pub mod Errors
pub mod Exec
pub mod Value
pub mod Models
pub mod StateMachine
pub mod Authority
pub mod Inspection
pub mod Rpe
pub mod Routing
pub mod Env
pub mod Redaction
pub mod Execution
pub mod JsonIdentity
pub mod World
pub mod Evidence
pub mod Store
pub mod Attempts
pub mod Principal
pub mod Runtime
pub mod Repair
pub mod Compensation
pub mod Audit
pub mod Tenant
pub mod Framing
pub mod Rpc
pub mod Message
pub mod Mcp
pub mod Schema
pub mod Examples
