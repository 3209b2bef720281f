-- ===== src/Lib.antt =====
-- ShipZen (DeployHub), a platform that builds and runs user projects on Kubernetes. The API (api/)
-- writes projects and deployments to PostgreSQL and puts deployments on a Redis stream. The worker
-- (worker/) takes messages from the stream, starts a build job for each and follows it in a thread.
-- The controller (controller/) compares the rows with what Kubernetes shows, again and again. The
-- three share only the database, the stream and published status messages.
--
-- Schema: the rows of api/schema.sql and the SQL statements of the code on them; Schema/Rows has
-- the lemmas on select after update. Action: a statement of the code, a function from a state to a
-- result or an exception, and a state; what was written before a raise stays written. Action/Counts
-- and Action/Keeps carry an invariant, or the count of a call, through its combinators.
--
-- Worker/StateMachine: worker/state_machine.py (`update_state`, `get_deployment`, `_get_conn`).
-- Worker/Queue: worker/queue_client.py (`ack_message`, `add_to_dlq`, `recover_pending_messages`).
-- Worker/Builder: worker/builder.py, `detect` and `generate_job_manifest` of the builders;
-- Builder/Scripts has the shell scripts and `get_ecr_credentials`, Builder/Parts the containers.
-- Json: the values of JSON, which manifests are. Worker/Process: `process_message` of
-- worker/main.py; its stages are `read_config`, `read_package`, `ensure_repository` and
-- `launch_job`, its clauses `build`, `build_failed` and `start_build`. Process/Fates: what becomes of a
-- message; Process/Redelivered: of one that is delivered again. Worker/Loop: a turn of
-- `main` of worker/main.py. Worker/Monitor: `monitor_job` and `record_build` of worker/main.py.
-- Controller/Manifests, Controller/Reconcile, Controller/Deployments: `apply_manifests`,
-- `reconcile` and `reconcile_deployments` of controller/main.py; Controller/Reconcile/SchemaWait:
-- `_wait_for_schema`. Controller/World has the database twice, as this connection sees it and as
-- it is committed.
--
-- Api/Auth: `get_current_user` of api/auth.py. Api/Access: `get_or_create_user` and
-- `verify_project_access` of api/database.py, `User` of api/auth.py. Api/Admin: `update_user_role`
-- and `list_users`. Api/RepoUrl: `_REPO_URL_RE` of api/main.py; Api/Branches:
-- `get_github_branches`. Api/Projects: `create_project` and `list_projects`, with
-- `validate_namespace` (Projects/Namespace). Api/Streams: the two WebSockets, for the status and the
-- logs of a deployment, and `stream_logs` (Streams/Http). Api/Members: `add_project_member`,
-- `remove_project_member`, `list_project_members` and `delete_project` of api/main.py. Api/Deploy:
-- `create_deployment` and `rollback_deployment` of api/main.py, once the access is checked.
-- Api/Webhook: `github_webhook`, and Api/Webhook/App: `github_app_webhook`, of api/main.py, over
-- any MAC. Api/World: the tables, the stream, the block of a connection and `log_audit_event` of
-- api/audit.py.
--
-- Api/Listing: `list_deployments` of api/main.py; Listing/Pages has a client that asks for page
-- after page, Listing/Paginated `get_deployments_paginated` of api/database.py. Api/Env: the variables of a project in AWS Secrets Manager, `get_env_vars`,
-- `put_env_var` and `delete_env_var`, over an interface of its client and of json; Dict is
-- Python's dict. Api/Builds: `list_builds`, `get_build_logs` and `_get_deployment_or_404`.
-- Api/Audit: the four queries of the audit log. Api/Retention: `enforce_retention_policy` of
-- api/database.py. Api/Analyzer: api/analyzer.py (`RepoAnalyzer.analyze`, `ShipzenConfig`) over a
-- tree of directories, and `analyze_repo`. Ordered: what the code uses of `sort`, ORDER BY and
-- LIMIT, and what follows from an order; Text: the operations of `str`.
--
-- Handoff: the entries that the API adds to the stream, as the messages that the worker reads, and
-- the logs that the worker uploads, as the API finds them (Handoff/Logs), and the jobs that come of a
-- request (Handoff/Jobs).
--
-- System: the deployments table under the steps of all three services, in any order, and what is
-- reachable from an empty table; a handler, a job's thread and a pass of the controller are each
-- one step. The modules named Rows show what each leaves in the table.
--
-- Rename: rename.py, over a tree of folders.
--
-- What the outside answers (PostgreSQL, Redis, Kubernetes, S3, ECR, git, crane) is an argument of
-- the operation that asks: an `Outcome` is the exception that a call raises, or none. The calls
-- that went through are listed in the state. A statement that raises is taken to have had no
-- effect. Functions outside the code are parameters: the MAC of a webhook, the hash of a token,
-- the collation of ids, the texts of times, `str.lower`, the Secrets Manager, json, base64, and
-- what S3 holds under a bucket and a key; what is assumed of one is a hypothesis.
--
-- Bounds: the scan gate asks twelve times, a method of the state machine tries twice, and the wait
-- for the schema has the number of attempts that it is given, as in the code. The recovery loop has
-- no bound in the code; it runs on fuel, and as much fuel as the scan has calls is enough. The
-- client of list_deployments runs on fuel too, one more than there are deployments. The poll of a
-- job runs over the list of answers until the job ends, which Kubernetes enforces after 30 minutes.
--
-- Not modelled: logging, timing metrics and gauges but the ones named, the templates, the
-- controller's main loop, and the rest of the API. The texts of exceptions are the code's where
-- they are stored in a row or sent, and shortened where they are only logged.
mod Prelude
mod Text
mod Dict
pub mod Action
pub mod Schema
pub mod Worker
pub mod Controller
pub mod Api
mod Ordered
pub mod Handoff
pub mod Json
pub mod System
pub mod Rename
