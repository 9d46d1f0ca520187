-- ===== src/Lib.antt =====
-- procintel: the services that ingest public procurement data and tell subscribers about it.
--
-- The state of the program is in PostgreSQL. A table is a list of rows, a row is a record with the
-- columns that the code reads or writes, and a statement is an operation on the list: UPDATE with
-- WHERE is `update_where`, SELECT … ORDER BY … LIMIT is `take` of `order_by` of `select_where`
-- (Common/Table.antt). A handler is a function from the table to the table and its answer; what it
-- reads from the clock, a fresh UUID, and the rows that other transactions hold locked (FOR UPDATE
-- SKIP LOCKED) are its arguments. Transactions that run one after another are sequences of calls.
-- A time is the number of microseconds since the epoch, which is PostgreSQL's precision, and a date
-- is the number of its day (Common/Clock.antt). UUIDs are numbers. Statuses that the code writes as
-- text are data types with a constructor for each text it writes.
--
-- Parts, and the code that each models:
--   Enrichment     services/ingestion/enrichment_queue.py, the queue of enrichment jobs that the
--                  connectors fill and the workers empty. Job: the row
--                  (packages/domain/tables.py). Transitions: `enqueue_enrichment`,
--                  `start_enrichment`, `complete_enrichment`, `fail_enrichment`,
--                  `defer_enrichment`. Queue: `claim_enrichment_jobs`,
--                  `recover_stale_enrichment_jobs`. Consistency: a step relation over all of
--                  them. Claiming, Keys, Retries, Stranded: what they do to a job. Worker, Sweep: services/ingestion/enrichment_worker.py, the loop
--                  `run_pending_enrichment_jobs` over the providers, with what `_dispatch` answers
--                  for a job, the clock and the locked rows in the record `Setting`.
--   Entities       services/entity_resolution and apps/api/routers/entity_review.py. Score:
--                  `score_candidate`. Candidates: `candidate_scan_page` and
--                  `generate_match_candidates`, with the SQL for the pairs as an argument. Scan: the
--                  pages one after another. Review: `review_candidate` and `undo_merge` on the
--                  tables of candidates, entities, merges and the audit log. Resolve:
--                  `find_or_create_entity_by_afm`.
--   Alerts         services/alerts/webhook_delivery.py. Delivery: `deliver` records a delivery
--                  under its idempotency key, posts it and records the outcome. Webhook:
--                  `retry_pending_deliveries` leases the due deliveries and posts them again. The
--                  text of the body, the HMAC and the receiver's answer are the record `Outside`.
--                  DigestRuns, Digests: services/alerts/digests.py, the lease of a period in
--                  `_claim_digest_run` and the sweep `process_due_digests`. The time zones and
--                  what the delivery channel raises are its record `Outside`. Matching, Rules:
--                  services/alerts/evaluate.py, `rule_matches` and `_fire_event`, with the commit of
--                  `evaluate_and_fire` and the rollback of packages/tenancy.py when the delivery
--                  channel, an argument, raises; the lexical
--                  matching of services/search_index/lexical.py, Unicode normalization and
--                  SHA-256 are the record `Texts`.
--   Orchestration  services/ingestion/orchestration/scheduler.py. Window: `compute_window`. Rows,
--                  Runner: `run_due_jobs` with the cursors and the connector runs; a connector's
--                  run and the advisory lock are the record `Outside`.
--   Clients        packages/source_clients/retry.py (Circuit, Retry),
--                  packages/source_clients/shared_rate_limit.py (SlidingWindow),
--                  packages/request_rate_limit.py (Quota) and packages/source_clients/rate_limit.py
--                  (TokenBucket).
--   Product        Entitlements: services/product/entitlements.py, `consume_entitlement` on the
--                  plans, the subscriptions and the table of the months' use.
--   Analytics      services/analytics/opportunity_scoring.py. Score: `_score_candidate`. Scoring:
--                  the loops of `score_opportunities_for_tenant` on the rows that its queries
--                  return.
--   Bids           Reminders: services/bids/reminders.py, `deliver_due_reminders` over the tenants.
--                  Workspace: apps/api/routers/bids.py, the handlers for a workspace, its tasks
--                  (Handlers) and its comments (Comments), and who a handler serves (Tenants,
--                  Authors).
--   Common         shared names, tables, JSON objects, clocks and the lemmas about them.
--
-- Loops are over lists or a given number of turns. Fuel is used in two places: the loop of
-- `acquire`, which takes the tokens after as many turns as the rate needs microseconds for them, and
-- one more, if the clock moves in every sleep, and the client's requests for pages in
-- Entities/Scan.antt, for which one request more than there are entities is proved enough. The
-- counters are PostgreSQL integers, which refuse to overflow, and Python integers, which are
-- unbounded: both are ℕ. The token bucket's floats are exact numbers, so the rounding of the floats
-- is not modelled; how long `asyncio.sleep` takes is an argument, and need not be what was asked for.
--
-- Not modelled: what happens when the process dies inside a handler, other than the leases that
-- the sweeps recover; most HTTP routers, the connectors, the documents pipeline and the SQL of the
-- analytics.
pub mod Common
pub mod Enrichment
pub mod Entities
pub mod Alerts
pub mod Orchestration
pub mod Clients
pub mod Product
pub mod Analytics
pub mod Bids
