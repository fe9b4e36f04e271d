-- ===== src/Lib.antt =====
-- The trading core of DSE-auto, a paper-trading system for the Dhaka stock exchange
-- (backend/app). A proposal is checked by the risk engine and stored (orders); an operator's
-- approval checks it again; the paper broker fills it against a market price and keeps the cash of
-- the account and the history of transactions; every step stages an event in the outbox and appends
-- a record to the hash chain of the audit log, in the same session; a task queue with workers runs
-- the periodic jobs.
--
-- Files, each a module with its children:
--   Common     lists, options, results, integers, composed texts, sorting
--   Store      rows of backend/app/models/entities.py, and a session: the tables as it sees them and as last
--              committed; `commit` and `rollback` are db.commit and db.rollback
--   Schemas    backend/app/schemas/trading.py and backend/app/schemas/market.py: proposals, decisions, provenance
--   Env        parameters: SHA-256 over JSON (sha256), Pydantic's model_dump, Python's int of a text
--   Audit      backend/app/services/audit.py: append_audit, _verify_events, audit_status, verify_audit_chain,
--              initialize_canonical_chain
--   Events     backend/app/services/events.py: emit_event (stage_event behind its guards), claim_event,
--              deliver_event, dispatch_once, replay_event
--   Money      decimal quantize, to even and half up
--   Broker     backend/app/brokers/paper.py (submit_order, cancel_order, replace_order, reconcile,
--              reset_account), backend/app/brokers/dse_execution.py (Broker/Rules), backend/app/brokers/base.py
--              (Broker/Official)
--   Risk       backend/app/risk/engine.py (evaluate) and backend/app/risk/kill_switch.py (get_state, set_state)
--   Orders     backend/app/services/orders.py: propose_order, approve_order
--   Sessions   backend/app/services/paper_sessions.py: create_session, transition_session, heartbeat,
--              recover_stale_sessions
--   Incidents  backend/app/services/incidents.py: open_incident, transition_incident
--   Governance backend/app/services/governance.py: create_rule_set, create_fee_profile, trade_cost_breakdown,
--              fee_sensitivity, register_strategy, promote_strategy, evaluate_strategy_suspension,
--              strategy_by_reference
--   Campaigns  backend/app/services/campaigns.py: create_campaign, transition_campaign, change_campaign_rule_set,
--              recover_campaigns_after_restart
--   Providers  backend/app/data/providers/reliable.py (CircuitBreaker, ReliableDataProvider) and
--              backend/app/services/data_validation.py (compare_quotes)
--   Backtest   backend/app/backtesting/engine.py: walk_forward_splits
--   Recovery   backend/app/services/recovery.py: run_startup_recovery
--   Evidence   backend/app/services/evidence_review.py: queue_campaign_day_review, submit_review
--   Qualification
--              backend/app/services/qualification.py: calculate_qualification
--   RateLimit  backend/app/core/rate_limit.py: RateLimitMiddleware.dispatch
--   Security   backend/app/core/security.py: _principal, require_operator, require_reviewer,
--              authenticate_and_create_session
--   TaskQueue  backend/app/services/task_queue.py: enqueue_task, claim_task, recover_stale_workers,
--              requeue_ready_tasks, TaskWorker, the default handlers
--   Examples   runs at concrete inputs
--
-- Conventions. Columns Numeric(18, 4) are numbers of ten-thousandths, so that prices, percentages
-- and rates are natural numbers and cash is an integer; products are exact, as they are in the source
-- below the 28 digits of its context, and a product of two amounts is in hundred-millionths. Quotients
-- that the source only compares are multiplied out. Times are microseconds, and a call reads the clock
-- once (a worker's run twice: at the claim and at the failure). An identifier of uuid4 is a number
-- drawn from `next_id`. A composed text is the list of its parts. An error keeps the fixed words of its
-- message. Code that raises returns a `Result` with the session as it stands at that point. Recursion is
-- structural, but for the loop of walk_forward_splits: it runs on fuel, one unit more than the length
-- of the data, which is enough as each round moves the start by a test part of at least one.
--
-- Parameters: consumers of events, handlers of tasks and the scheduler's jobs are functions on the
-- session that may write, commit and raise; a market-data provider is its capability and the
-- provenance of its quotes, and to the reliable provider it is what it answers and when; SHA-256 is any
-- function of the payload, and the token of a login is an argument.
--
-- Not modelled: row locks and other concurrent sessions, the latency metric beside an audit record,
-- the path of the audit archive, Telegram messages, the texts of the reasons of a risk decision,
-- the Redis client, field validators, the daily workflow of campaigns, and the services around the
-- core (evidence, research reports, backups, the HTTP interface and the front end).
pub mod Common
pub mod Store
pub mod Schemas
pub mod Env
pub mod Audit
pub mod Events
pub mod Money
pub mod Broker
pub mod Risk
pub mod Orders
pub mod Sessions
pub mod Incidents
pub mod Governance
pub mod Campaigns
pub mod Providers
pub mod Backtest
pub mod Recovery
pub mod Evidence
pub mod Qualification
pub mod Security
pub mod RateLimit
pub mod TaskQueue
mod Examples
