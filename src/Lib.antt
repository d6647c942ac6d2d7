-- ===== src/Lib.antt =====
-- The write firewall, the scraping runs, the matching and the alerts of the backend.
--
-- Writes of the backend go through the doors of backend/app/modules/data_firewall: a door checks the
-- payload, and signs it (HMAC over canonical bytes) for the persist layer or hands a row to the reject
-- store. The scraping pipeline (backend/app/modules/scraper/pipeline) dispatches child jobs, writes
-- through these doors, and sums up a run from its log.
--
-- Files and code:
-- - Base: tests, lists, dictionaries and results that may be an exception; no code of the repository.
-- - Wire, Payload: UTF-8, decimal numbers, length prefixes and the values of a payload
--   (`canonical_str`, `_lp_string` of data_firewall/signing.py).
-- - Signing: data_firewall/signing.py, and in Signing/Ordered data_firewall/signing_ordered.py.
-- - Contracts: data_firewall/contracts.py.
-- - Rules: data_firewall/rules.py; Rules/Currency is `CurrencyResolver`.
-- - Firewall: data_firewall/firewall.py; Firewall/Validate is `_validate_against_contract`, and Logs,
--   Ecommerce and Market are the three entry points.
-- - Doors: what the other doors share. ScrapeUpdate and ScrapeDelete are
--   data_firewall/update_validator.py; UserKinds and UserDoor are data_firewall/user_door.py with its
--   two predicates; ChatDoor is data_firewall/chat_door.py.
-- - Outcomes, Completion, PipelineJob: outcome_buckets.py, child_aggregation.py and job_completion.py
--   of scraper/pipeline. Tick: its tick_orchestrator.py. Tick/Run is `run_tick`, one step on the row
--   of the parent job (Tick/Row); it calls the dispatch loops of Tick and, at the end of a run,
--   PipelineJob.
-- - AlertDoor: data_firewall/alert_door.py, with its semantic checks in AlertDoor/Rules, and in
--   AlertDoor/Trigger the payload that modules/alerts/engine.py writes after an alert.
-- - Retention: data_firewall/retention_gate.py, and the windows and payloads of
--   modules/persist/retention.py that go through it.
-- - Matching: modules/matching. Signature, Titles and Chars are signature.py; Methods and Merge are
--   the choice of a method, the gated writes (through ScrapeUpdate and GateRpc) and the merge of
--   groups in engine.py. GateRpc: the record writes of modules/persist/gate_rpc.py.
-- - Alerts: modules/alerts/engine.py, the trigger engine. ProxyBudget and HostThrottle: the spend guard
--   of modules/scraper/proxy_provider_limiter.py, and modules/scraper/host_throttle.py.
-- - Examples: tests, and calls to which the theorems apply.
--
-- Correspondence. A payload is a list of columns and values (`Dict Value`); a door is a function
-- from a payload to a decision, which is the `FirewallOutcome` with the rows handed to
-- `write_reject_data_isolated`. A call that may raise returns `Result`. The loops of the source
-- are structural recursions, but for three on fuel: the scrape loop of Tick removes one code per
-- round, so the length of the queue is enough; the loop of `_resolve` goes to a smaller id among
-- the merged groups, so their number is enough; and each round over the chunks of
-- Matching/Methods takes a record at least, so the number of the records is enough. Numbers are
-- natural numbers, or integers where the source has a sign; Python's integers are unbounded.
-- Sets whose order the source leaves open are taken in the order of the dictionary that they are
-- built from.
--
-- Parameters. HMAC-SHA256 and the configured secret (`Signer`), the column contracts that are
-- read off the ORM models (`Gate`), the two lookups of the currency resolver and `str.upper`
-- (`Marketplaces`), the results of the queries of `complete_pipeline_job`, all that the
-- database, the broker and the clock answer to a tick (`Answers`), and `uuid5`, the tokens that
-- a regular expression finds and the score of two titles in the merge of Matching, the two
-- directions of ISO dates in Retention, what `float`, `int` and `isinstance(value, list)` make
-- of a value in AlertDoor, the sends and stored rows of Alerts, the counters of ProxyBudget and
-- the clock of HostThrottle are arguments, since they come from libraries and from the database.
-- A value whose inside the code never opens is kept as the texts that the code reads off it;
-- nan and the infinities are values of their own. The SQL function `gate.exec_write` is an
-- argument of GateRpc.
--
-- Not modelled: log lines, the clock, failures of the reject store itself, SQL, HTTP, and the parts
-- of the backend that are mainly these.
pub mod AlertDoor
pub mod Alerts
pub mod Base
pub mod ChatDoor
pub mod Completion
pub mod Contracts
pub mod Doors
pub mod Examples
pub mod Firewall
pub mod GateRpc
pub mod HostThrottle
pub mod Matching
pub mod Outcomes
pub mod Payload
pub mod PipelineJob
pub mod ProxyBudget
pub mod Retention
pub mod Rules
pub mod ScrapeDelete
pub mod ScrapeUpdate
pub mod Signing
pub mod Tick
pub mod UserDoor
pub mod UserKinds
pub mod Wire
