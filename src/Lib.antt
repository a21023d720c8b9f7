-- ===== src/Lib.antt =====
-- demobot: verification library of the event-sourced core of the repository.
--
-- core/v2 is a runtime for sessions. Events are appended to a store (in memory or SQLite); the
-- orchestrator counts the events of a session that it applies for the first time, builds
-- snapshots from the store as its policy asks, and recovers a session from the latest snapshot and
-- the events behind it.
--
-- The files, and the code they are about:
--   Base, Base/...           shared: Boolean tests, lists, text order, dicts in insertion order.
--   Json                     JSON values, as payloads and requests hold them.
--   V2/Model                 core/v2/models.py, core/v2/errors.py: the records.
--   V2/Ordering              core/v2/event_ordering.py: `stable_sort_events`; Laws and Unique beside it.
--   V2/Fresh                 what the loops over events with a set of seen ids keep: the specification
--                            that the optimised loops are compared with.
--   V2/EventStore            core/v2/event_store.py, event_store_sqlite.py: the interface with its laws,
--                            the loop of `list_after_version` (Tail), both stores.
--   V2/SnapshotPolicy        core/v2/snapshot_policy.py, and its cadence.
--   V2/SnapshotStore         core/v2/snapshot_store.py, snapshot_store_sqlite.py.
--   V2/Replay                core/v2/replay.py.
--   V2/Orchestrator          core/v2/orchestrator.py: Building (`build_snapshot`), Recovery (`recover`),
--                            Runtime (`ingest_event`, `replay`); Delta, Late, Ingestion and
--                            Recovery/Laws prove the properties.
--   V2/Tests                 concrete events, and the theorems at them.
--   Validation               core/validation: Errors (error_envelope.py, error_taxonomy.py), Registry
--                            (command_registry.py), Idempotency (command_classification.py,
--                            operational_outcome.py, seen_command.py), Sequence
--                            (ingest_event_ordering.py), Modes (validation_modes.py), Workflow
--                            (workflow_legality.py), Scaffold (validation_scaffold_v1.py); Tests.
--   Api/GateB                api/v2/gate_b.py: `map_api_to_command`; Laws, Modes and Unhashable
--                            beside it, Api/Tests.
--   Api/Service              api/v2/service_sqlite.py and core/v2/session_store_sqlite.py: the service over
--                            the orchestrator; Laws beside it, Api/Tests.
--   Arbitrage                core/arbitrage: Model (models.py, feed.py, intelligence/limits.py), Fx
--                            (core/fx/converter.py, core/contracts/money.py), Engine (engine.py,
--                            identity.py) with Laws and Best, Lifecycle (intelligence/lifecycle.py), Gate
--                            (execution/gate.py, intelligence/readiness.py), Scoring
--                            (intelligence/signals.py, scoring.py, reasons.py), Orchestrator
--                            (orchestrator.py: the ingestion) with Steps, Bounds, Invariant, Ready and
--                            Stored, and Orchestrator/Sessions (its methods) with Reach, Quiet, Idle and
--                            Ranking; Tests.
--   Strategy                 core/strategy_detector.py over the legs of core/models.py: Legs, Shapes (the
--                            predicates), Detection (`detect_strategy`) with Laws and Butterfly, Builders
--                            (core/strategy_builders/basic_builders.py, volatility_builders.py: the
--                            positions) with Laws; Tests.
--   Treasury                 core/services: Limits (counterparty_limits_v1.py) with Laws, Policy
--                            (hedge_policy_constraints_v1.py) with Laws; Tests.
--   MarketData               core/market_data/df_lookup_v0.py: DfLookup with Laws; Tests.
--   Portfolio                core/portfolio: Model (v2_models.py), Reducer (v2_reducer.py) with Laws,
--                            Positions (the dict) and Upserts (what the last event does); Tests.
--
-- The arbitrage orchestrator keeps sessions of its own: a snapshot of quotes is searched for
-- opportunities, each is given an id, tracked in the state of the session, valued in its base
-- currency, and judged by the soft constraints and the gate. Its floats and SHA-256 are a record of
-- operations (`Host`), each reading of the clock is an argument, and a conversion that fails ends the
-- loop with what was stored before it. What the fields `economics` and `detail` and `to_summary` repeat
-- of other fields is left out. Datetimes are all naive or all aware, and limits are not negative.
--
-- A portfolio is the fold of its events, in the order of core/v2, over payloads of any shape: what
-- Python does with a value of another type is a record of operations (`Python`), or an exception. The
-- limits and the policy on a hedge ratio, and the discount factors, are over numbers of any type: the
-- arithmetic, its rounding and its exceptions are records of operations (`Numbers`, `Floats`,
-- `RateFloats`), and their order is a hypothesis (`IsOrder`) where a theorem needs it.
--
-- The API maps a request to a command (Gate B), core/validation checks commands, and the service hands
-- events to the orchestrator, which owns the stores. The strategy detector stands by itself: it names the
-- strategy of a list of option legs. Its floats are a record of operations (`Floats`), and a theorem that
-- needs their order asks for it by name (`IsOrdered`, `IsNumeric`, which hold of
-- numbers, not of NaN). Leg quantities are natural numbers. Python formatting of a value in a message, and `str.upper`, are arguments.
--
-- How state and operations correspond. A method that changes an object is a function from the
-- object's record to the record after the call, beside its result. A table of SQLite is the list of
-- its rows in the order of insertion, and a statement that violates the primary key takes the branch of
-- `sqlite3.IntegrityError`. JSON columns hold
-- the value and not its text: what is read back has its keys in the order that they had, where the
-- source has them sorted (json.dumps with sort_keys). What a call raises is an `err` of `Result`. A `datetime` is a natural number
-- of microseconds, in the order of its ISO text (all of them naive); ids are native strings, in the
-- order of code points. The clock, `uuid4` and SHA-256 (`hash_snapshot`) are arguments. `datetime`
-- values and versions are never negative. Loops are structural recursion over their list, so no
-- definition takes fuel.
--
-- Not modelled: connections, migrations and transactions of SQLite (one call is one step); logging and
-- time measurement; the local `data` of `recover`, which nothing reads; the Hebrew wording of two fields
-- of a strategy; the market-data check of a COMPUTE_REQUESTED event, which is an argument of the
-- service; HTTP routes, pages and the floating-point pricing and risk code.
pub mod Api
pub mod Arbitrage
pub mod Base
pub mod Json
pub mod MarketData
pub mod Portfolio
pub mod Strategy
pub mod Treasury
pub mod V2
pub mod Validation
