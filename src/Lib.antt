-- ===== src/Lib.antt =====
-- A verification of the control plane in beta/src/eda, the beta of the enterprise data access and
-- relationship graph architecture: who may do what to which asset, proved by a path in a graph,
-- judged by a versioned policy, approved by a second person, granted for minutes, and recorded in a
-- hash chain.
--
-- The parts and how they interact. A request carries a token; an identity provider turns it into a
-- session and `map_principal` into a node of the access graph. `resolve_path` proves that the
-- principal holds the authority of the action on the asset. The policy engine decides, on the
-- path's existence, the session, the resource and an approval. An approval is decided by another
-- principal with its own path and spent once. The broker issues a grant and vaults credentials;
-- under the grant the object graph shows the resource's context, object by object and field by
-- field as the subject's capabilities allow; an operation that writes is checked again once its row
-- is committed; the action layer checks the grant and runs the handler, writes and high risk in a
-- separate process. Every step writes the audit log. The access graph comes from collectors, which
-- ingest batches of relationships, and from connectors, which synchronise numbered messages of
-- facts; both write only the rows of their own source.
--
--   Base, Base/*        JSON values as Python reads them, exceptions, `fnmatch`, lists
--   Models, Models/*    the rows of beta/src/eda/models.py and the database, a record of tables
--   Effects             a function of the database that may raise
--   Config              beta/src/eda/config.py: settings, `validate`
--   Identity            beta/src/eda/identity.py, identity_providers.py: `verify_session`,
--                       `verify` (verify_claims), `map_principal`
--   Graph, Graph/*      beta/src/eda/access_graph.py: `resolve_path`, `capability_path`
--   Policy              beta/src/eda/policy.py, the evaluator; Policy/Document the default policy,
--                       Policy/Proposal `validate_document` and the simulation, Policy/Lifecycle
--                       `active_policy`, `propose_policy`, `activate_policy`, `rollback_policy`
--   Broker, Broker/*    beta/src/eda/broker.py: the vault, the providers, grants
--   Approvals           the approvals of beta/src/eda/gateway.py: `decide_approval`, and the
--                       request, the validity test and the spending in `handle_request`
--   Gateway, Gateway/*  `handle_request` of beta/src/eda/gateway.py: Gateway/Flow up to the row of
--                       the operation and its commit, as `authorize`; Gateway/Handle the steps
--                       behind it, from the grant to the end, and the whole
--   Execution           beta/src/eda/execution.py: operations, `replay`, `mark_interrupted`
--   Actions             beta/src/eda/actions.py: the registry, `execute`; Actions/Runner what
--                       runner.py and runner_output.py accept; Actions/Native native_actions.py
--   Audit, Audit/*      beta/src/eda/audit.py: `append`, `verify_chain`
--   Objects, Objects/*  beta/src/eda/objects.py: the object inventory; Objects/Traversal
--                       `scoped_context`, Objects/Reach what a context may reach
--   Ingestion           beta/src/eda/ingestion.py: sources, `authenticate_collector`, `_validate`,
--                       `_upsert_node`; Ingestion/Endpoint `ingest`, receipts and the route
--   Connectors          beta/src/eda/connectors/contracts.py and the checks of sync.py;
--                       Connectors/Facts `_upsert_fact`, Connectors/Project `_project`,
--                       Connectors/Sync `apply_message` and its route, Connectors/Protocol what
--                       they promise
--   Examples            the theorems at concrete inputs
--
-- How the code is modelled. A table is the list of its rows in the order of insertion, and a query
-- for one row returns the first. Instants are microseconds. JSON numbers are integers; floats are
-- not modelled. An exception carries the literal part of its message. The clock, random identifiers
-- and rows' new identifiers are arguments of what reads them. What belongs to libraries is an
-- argument too: the digest (SHA-256 over canonical JSON), `urlsplit`, `strip`, the HMAC,
-- `jwt.decode`, pydantic, STS, the EC2 client and the runner's process. Actions that an edge lists
-- and that are no texts confer nothing, where the code would fail; the descriptions of several
-- rules that require approval stand as a list, where the code joins them. Settings that are whole
-- numbers are natural numbers.
--
-- Bounds. The graph search runs on the code's own budget of 10000 expansions and its depth of 8; it
-- is structural on the budget, so no other fuel is needed. All other loops are structural.
--
-- The answer keeps the grant, the context and the result of the trace's stages; what the trace
-- shows of the other stages is left out. `redacted` cuts a reference by bytes, since references are
-- ASCII. The clock of a request is read by number, a reading for each place where the code reads
-- it. A request is run in one database session; other writers stand in Approvals/Spent and
-- Audit/Concurrent.
--
-- Not modelled: the HTTP routes, database sessions and migrations, the adapters of providers,
-- feedback, signed anchors, process and container management. What the database refuses by a unique
-- constraint raises an exception that no route catches, and nothing is committed; the model leaves
-- it out.
mod Base
pub mod Models
pub mod Audit
pub mod Effects
pub mod Config
pub mod Graph
pub mod Broker
pub mod Policy
pub mod Identity
pub mod Approvals
pub mod Execution
pub mod Actions
pub mod Gateway
pub mod Objects
pub mod Ingestion
pub mod Connectors
mod Examples
