-- ===== src/Lib.antt =====
-- KOSMO: the core of the backend (backend/src/kosmo), which takes a product from a discovery document
-- over features, requirements and models to generated code, and keeps these artifacts consistent.
--
-- The parts, with paths below backend/src/kosmo, and how they interact:
-- - Codegen: the rules of domain/codegen that a plan of file operations has to obey before an agent
--   touches the workspace. Codegen/Path is path_safety.py (validate_safe_path, ensure_safe_path,
--   sanitize_relative_path), Codegen/Plan is plan_rules.py (validate_plan, ensure_valid_plan);
--   Codegen/Integration is integration_rules.py (determine_feature_disposition, build_product_map).
-- - Trace: the phases of a specification, their order (contracts/sdd/document.py,
--   contracts/ai/consistency.py, domain/sdd/traceability_tracer.py), and
--   application/traceability/manage_traceability_navigation.py.
-- - Auth: the sessions. Auth/Keys is a Redis key space with expiry; Auth/TokenStore is
--   infrastructure/persistence/redis/token_store.py; Auth/Sessions is application/auth/use_cases.py
--   (issue_token_pair, verify_access_token, refresh_token_pair, revoke_session) with `issue` of
--   infrastructure/security/jwt_codec.py; Auth/Login is application/auth/authorize.py, exchange.py and
--   register.py (Login/Register; Login/Authorized and Login/Accepted are about
--   these use cases one after the other), with login_attempt_store.py and authorization_code_store.py;
--   Auth/Types is contracts/auth.
-- - Consistency: how a change of one artifact reaches the others. Consistency/Artifacts is what the
--   repositories hold; Consistency/Handlers and Consistency/Impacts are
--   application/consistency/apply_consistency_impacts.py; Consistency/Evaluations is the table of
--   suggestions, infrastructure/persistence/postgres/repositories/consistency_repo.py;
--   Consistency/Snapshot is the hash that keeps a suggestion fresh,
--   application/consistency/consistency_snapshot.py; Consistency/Resolve is
--   application/consistency/manage_consistency.py, which applies or discards suggestions and calls
--   Consistency/Impacts (Resolve/Outcomes about one call, Resolve/Kept and Later about sequences of them); Consistency/Review is its review, its status counts and the activity list.
--   Consistency/Running is application/consistency/run_consistency_evaluation.py, which writes the
--   suggestions (evaluate_target, supersede_pair), with the evaluator and the enrichment as the record
--   Collaborators; Consistency/Enrich is enrich_impact.py, which makes suggestions of an answer of the
--   evaluator; Consistency/Output is such an answer.
-- - Pipeline: the generation of an artifact. Pipeline/Generation is `run` of
--   application/pipeline/generation_loop.py, with the phase mode and its collaborators as parameters.
-- - Deployment: the monitoring of deployments of application/integrations. Deployment/Monitor is
--   monitor_deployment_status.py (has_changed, timed_out), with one attempt in Monitor/Ask and the loop,
--   the use case and the task of infrastructure/integrations/deployment_worker.py in Monitor/Loop;
--   Deployment/Active is the worker's table of active tasks (start_monitoring, cancel_monitoring);
--   Deployment/Failure is handle_deployment_failure.py and recover_pending_deployments.py.
-- - Validators: Validators/ActivityDiagram is validate_activity_diagram_syntax of
--   domain/sdd/validators/activity_diagram_validator.py.
-- - Outbox: the jobs that are run after a transaction, of
--   infrastructure/persistence/postgres/outbox.py. Outbox is OutboxStore over its table (dequeue,
--   mark_done, mark_failed); Outbox/Worker is run_outbox_worker as a relation of steps between two
--   `await`s (Step, Reach); Outbox/Serial is the worker with one task at a time. Outbox/Invariant,
--   Keeps and Steps are about the first, Closed about the rows that stay, Serial/Measure and
--   Serial/Drained about the last, and Serial/Runs about it and the worker.
-- - Streaming: the events of a run of the code generation, of
--   infrastructure/api/implementation_broker.py, for one implementation. Streaming has, without Redis,
--   its operations (start_implementation, publish, finish_run for the end of _run_implementation,
--   subscribe, aclose) and sequences of them (run_ops); Streaming/Readers is about one subscriber,
--   Streaming/Heard about what reaches it, and Streaming/Ends about whole runs. Streaming/Redis has the
--   entries of a Redis stream and _subscribe_redis over a list of its reads.
-- - RateLimit: infrastructure/api/dependencies/rate_limit.py. RateLimit has the address of a request
--   (resolve_client_ip), the counting (limited) and the two limiters; RateLimit/Windows is about the
--   counting, RateLimit/Clients about the address.
-- Base has the shared helpers: texts as lists of code points, lists, tables, tests, results.
--
-- State is passed explicitly: a use case takes the state and returns it with its result, which is an
-- `err` where the source raises. Times are numbers of seconds and `now` is one instant for a call.
-- Code that is not in the repository is a parameter: the file system and pathlib (FileSystem), JWT
-- signing and verifying (Jwt), the password hasher (Hasher), the PKCE challenge, SHA-256,
-- `str.lower`, ipaddress (IpLibrary), and json and datetime (Codec). Random draws, the exceptions that
-- a database call may raise, the answers of a Redis stream and the states that other
-- requests leave between two reads are arguments. Some code of the repository is a parameter as
-- well: the text edits of domain/sdd that the handlers call (Editing), the phase modes and the
-- collaborators of the generation loop (Mode, Services), the evaluator of consistency, which asks a
-- language model (Collaborators), and what regular expressions find in a markdown (Patterns).
--
-- Loops over lists are recursions on them. Four loops have a bound: the polling of a grace period,
-- which has the 30 attempts of the source as its fuel and returns nothing after them, as there. The
-- generation loop recurs on the iterations that are left, of the `max_iterations` of the source. The
-- monitoring of a deployment recurs on the attempts that are left, of its `max_attempts`. `work`
-- of Outbox/Serial takes the number of its passes, and `max_attempts` for each job are enough.
--
-- Exceptions of the table of suggestions are modelled for the apply of a suggestion only; during a
-- run of an evaluation, a review or a discard its calls answer. The exception of deleting edges with
-- a feature, which the source swallows, is left out.
--
-- Not modelled: the rest of the HTTP interface, the frontend, SQLAlchemy mappings and migrations,
-- clients of language models, sandboxes, Railway and GitHub, which are input and output or glue;
-- several workers of the outbox over one table; telemetry, which
-- only observes; and, of the application, code generation runs, the calls of Railway
-- and GitHub, chat and the thin use cases around the repositories.
pub mod Base
pub mod Codegen
pub mod Trace
pub mod Auth
pub mod Consistency
pub mod Pipeline
pub mod Deployment
pub mod Validators
pub mod Outbox
pub mod Streaming
pub mod RateLimit
