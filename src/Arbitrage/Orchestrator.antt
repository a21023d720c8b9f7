-- ===== src/Arbitrage/Orchestrator.antt =====
-- core/arbitrage/orchestrator.py: the sessions, and the ingestion of a snapshot. Each reading of the
-- clock is an argument, and a session that the code changes in place is passed on.
pub mod Sessions
pub mod Bounds
pub mod Steps
pub mod Invariant
pub mod Ready
pub mod Stored
use demobot.Arbitrage.Engine.{find_cross_venue_opportunities, opportunity_id, edge_bps}
use demobot.Arbitrage.Fx.{Fault, FxConverter, Money, Outcome, base_value, raised, returned}
use demobot.Arbitrage.Gate.{
  ExecutionConstraints, ExecutionDecision, ExecutionReadiness, default_execution_constraints,
  evaluate_execution_decision, evaluate_execution_readiness,
}
use demobot.Arbitrage.Lifecycle.{OpportunityState, expire_stale_states, update_lifecycle}
use demobot.Arbitrage.Model.{
  ArbitrageConfig, ArbitrageOpportunity, Host, QuoteSnapshot, SessionLimits, VenueQuote,
  microseconds, nought,
}
use demobot.Base.{
  Bool, Dict, List, Option, String, [], drop, if◌then◌else◌, insert, leb, length, lookup, ltb, map,
  none, some, suc, zero, ℕ, ◌+◌, ◌++◌, ◌-◌, ◌∷◌,
}
use Prim.Native.String.{◌++◌ as ◌+++◌}

pub data ArbitrageEvent : Type 0 where
  snapshot_ingested : ℕ → ArbitrageEvent
  opportunity_upserted : ℕ → String → ArbitrageEvent

pub record ValidationSummary : Type 0 where
  pub warnings : List String
  pub errors : List String

-- `ValidationSummary.to_dict`
pub record SummaryPayload : Type 0 where
  pub errors : List String
  pub warnings : List String
  pub error_count : ℕ
  pub warning_count : ℕ

pub record OpportunityRecord (F : Type 0) : Type 0 where
  pub as_of : ℕ
  pub opportunity : ArbitrageOpportunity F
  pub edge_per_unit : Money F
  pub edge_total : Money F
  pub execution_readiness : ExecutionReadiness F
  pub execution_decision : ExecutionDecision F

pub record ArbitrageSessionState (F : Type 0) : Type 0 where
  pub session_id : String
  pub base_currency : String
  pub config : ArbitrageConfig F
  pub limits : SessionLimits
  pub snapshots : List (QuoteSnapshot F)
  pub opportunities_history : List (OpportunityRecord F)
  pub opportunity_state : Dict (OpportunityState F)
  pub events : List ArbitrageEvent
  pub last_validation_summary : Option ValidationSummary
  pub validation_summary : Option SummaryPayload
  pub last_accessed : ℕ

-- `xs[-n:]`: all of the list, for 0.
unfoldable pub last_n {ℓ} : {A : Type ℓ} → ℕ → List A → List A
last_n zero xs = xs
last_n (suc n) xs = drop (length xs - suc n) xs

-- `xs[:n]`
unfoldable pub take {ℓ} : {A : Type ℓ} → ℕ → List A → List A
take zero xs = []
take (suc n) [] = []
take (suc n) (x ∷ xs) = x ∷ take n xs

-- `[x for x in xs if now - x.as_of <= ttl]`
unfoldable pub recent {ℓ} : {A : Type ℓ} → (A → ℕ) → ℕ → ℕ → List A → List A
recent time_of ttl_seconds now [] = []
recent time_of ttl_seconds now (x ∷ xs) =
    let rest = recent time_of ttl_seconds now xs in
    if leb now (time_of x + microseconds ttl_seconds) then x ∷ rest else rest

abbrev pub capped {ℓ} : {A : Type ℓ} → ℕ → List A → List A
capped most xs = if ltb most (length xs) then last_n most xs else xs

-- `while len(events) > max_events: events.popleft()`
unfoldable pub pop_excess {ℓ} : {A : Type ℓ} → ℕ → List A → List A
pop_excess most [] = []
pop_excess most (e ∷ es) =
    let popped = pop_excess most es in if ltb most (length (e ∷ es)) then popped else e ∷ es

-- A fault ends what it happens in.
abbrev follow {ℓ κ κ'} :
    {S : Type ℓ} {A : Type κ} {B : Type κ'}
    → S × Outcome A
    → (S → A → S × Outcome B)
    → S × Outcome B
follow (s, raised fault) continue = (s, raised fault)
follow (s, returned a) continue = continue s a

module _ {F : Type 0} where
  unfoldable pub prune_snapshots : ℕ → ArbitrageSessionState F → ArbitrageSessionState F
  prune_snapshots now s = record s {
    snapshots =
        capped s.limits.max_snapshots (recent (λ x. x.as_of) s.limits.ttl_seconds now s.snapshots);
  }

  unfoldable pub prune_history : ℕ → ArbitrageSessionState F → ArbitrageSessionState F
  prune_history now s = record s {
    opportunities_history =
        capped s.limits.max_snapshots
          (recent (λ x. x.as_of) s.limits.ttl_seconds now s.opportunities_history);
  }

  unfoldable pub prune_events : ArbitrageSessionState F → ArbitrageSessionState F
  prune_events s = record s { events = pop_excess s.limits.max_events s.events }

  unfoldable pub expire_states : ℕ → ArbitrageSessionState F → ArbitrageSessionState F
  expire_states now s = record s {
    opportunity_state = expire_stale_states s.opportunity_state now s.limits;
  }

-- `max_items` is 20.
unfoldable pub to_payload : ValidationSummary → SummaryPayload
to_payload summary = record {
  errors = take 20 summary.errors;
  warnings = take 20 summary.warnings;
  error_count = length summary.errors;
  warning_count = length summary.warnings;
}

module _ {F : Type 0} (host : Host F) where
  open host use {at_most, times}

  abbrev missing_side : VenueQuote F → List String
  missing_side q =
      let message = "Missing bid/ask for " +++ q.symbol +++ " on " +++ q.venue in
      elim q.bid [
        | none ↦ message ∷ []
        | some bid ↦ elim q.ask [ none ↦ message ∷ [] | some ask ↦ [] ]
      ]

  abbrev non_positive : String → VenueQuote F → Option F → List String
  non_positive side q none = []
  non_positive side q (some x) =
      if at_most x (nought host)
      then ("Non-positive " +++ side +++ " for " +++ q.symbol +++ " on " +++ q.venue) ∷ []
      else []

  unfoldable pub validate_snapshot : List (VenueQuote F) → ValidationSummary
  validate_snapshot [] = record { warnings = []; errors = [] }
  validate_snapshot (q ∷ qs) =
      let rest = validate_snapshot qs in
      record {
        warnings = missing_side q ++ rest.warnings;
        errors = non_positive "bid" q q.bid ++ non_positive "ask" q q.ask ++ rest.errors;
      }

  -- Before the search: validation, expiry, and the snapshot itself.
  unfoldable pub take_snapshot :
      ℕ → QuoteSnapshot F → ArbitrageSessionState F → ArbitrageSessionState F
  take_snapshot now snapshot s =
      let summary = validate_snapshot snapshot.quotes in
      let validated = record s {
        last_validation_summary = some summary;
        validation_summary = some (to_payload summary);
      } in
      let live = expire_states snapshot.as_of validated in
      let pruned =
        prune_snapshots now (record live { snapshots = live.snapshots ++ (snapshot ∷ []) }) in
      prune_events
        (record pruned { events = pruned.events ++ (snapshot_ingested snapshot.as_of ∷ []) })

  -- The id and the time that a new opportunity is given.
  unfoldable pub identify :
      FxConverter F → String → ℕ → ArbitrageOpportunity F → Outcome (ArbitrageOpportunity F)
  identify converter base as_of opp = elim (base_value host converter opp.buy.price opp.buy.ccy) [
    | raised fault ↦ raised fault
    | returned buy ↦ elim (base_value host converter opp.sell.price opp.sell.ccy) [
      | raised fault ↦ raised fault
      | returned sell ↦ returned (record opp {
        as_of = some as_of;
        opportunity_id =
            opportunity_id host opp.symbol opp.buy.venue opp.sell.venue base buy.amount sell.amount;
      })
    ]
  ]

  unfoldable pub upsert_state :
      ℕ → ArbitrageOpportunity F → ArbitrageSessionState F → ArbitrageSessionState F
  upsert_state as_of opp s =
      let lifecycle =
        update_lifecycle (lookup opp.opportunity_id s.opportunity_state) as_of opp.edge_bps
          opp.net_edge in
      record s {
        opportunity_state =
            insert opp.opportunity_id (record lifecycle { opportunity_id = opp.opportunity_id })
              s.opportunity_state;
      }

  abbrev pub gate_constraints : ArbitrageConfig F → ExecutionConstraints F
  gate_constraints config = record {
    min_edge_bps = config.min_edge_bps;
    max_quote_age_ms = config.max_latency_ms;
    max_spread_bps = none;
    max_notional = none;
  }

  unfoldable pub record_of :
      ArbitrageConfig F
      → QuoteSnapshot F
      → ArbitrageOpportunity F
      → Money F
      → Money F
      → OpportunityRecord F
  record_of config snapshot opp per_unit total = record {
    as_of = snapshot.as_of;
    opportunity = opp;
    edge_per_unit = per_unit;
    edge_total = total;
    execution_readiness =
        evaluate_execution_readiness host opp.edge_bps opp.size
          (default_execution_constraints host config);
    execution_decision =
        evaluate_execution_decision host opp snapshot.quotes (gate_constraints config)
          snapshot.as_of;
  }

  -- The two conversions of the edge, after the state is stored.
  unfoldable pub enrich :
      FxConverter F
      → ArbitrageConfig F
      → QuoteSnapshot F
      → ArbitrageOpportunity F
      → Outcome (OpportunityRecord F)
  enrich converter config snapshot opp = elim (base_value host converter opp.net_edge opp.ccy) [
    | raised fault ↦ raised fault
    | returned per_unit ↦ elim (base_value host converter (times opp.net_edge opp.size) opp.ccy) [
      | raised fault ↦ raised fault
      | returned total ↦ returned (record_of config snapshot opp per_unit total)
    ]
  ]

  unfoldable pub append_record :
      ℕ → OpportunityRecord F → ArbitrageSessionState F → ArbitrageSessionState F
  append_record now r s =
      let kept =
        prune_history now
          (record s { opportunities_history = s.opportunities_history ++ (r ∷ []) }) in
      record kept {
        events = kept.events ++ (opportunity_upserted r.as_of r.opportunity.opportunity_id ∷ []);
      }

  -- One turn of the loop: a conversion that fails leaves what was stored before it.
  unfoldable pub ingest_opportunity :
      FxConverter F
      → QuoteSnapshot F
      → ℕ
      → ArbitrageOpportunity F
      → ArbitrageSessionState F
      → ArbitrageSessionState F × Outcome (OpportunityRecord F)
  ingest_opportunity converter snapshot now opp s =
      elim (identify converter s.base_currency snapshot.as_of opp) [
        | raised fault ↦ (s, raised fault)
        | returned known ↦
            let stored = upsert_state snapshot.as_of known s in
            elim (enrich converter s.config snapshot known) [
              | raised fault ↦ (stored, raised fault)
              | returned r ↦ (append_record now r stored, returned r)
            ]
      ]

  -- The loop over the opportunities, with the reading of the clock at each.
  unfoldable pub ingest_opportunities :
      FxConverter F
      → QuoteSnapshot F
      → (ℕ → ℕ)
      → ℕ
      → List (ArbitrageOpportunity F)
      → List (OpportunityRecord F)
      → ArbitrageSessionState F
      → ArbitrageSessionState F × Outcome (List (OpportunityRecord F))
  ingest_opportunities converter snapshot clock i [] enriched s = (s, returned enriched)
  ingest_opportunities converter snapshot clock i (o ∷ os) enriched s =
      follow (ingest_opportunity converter snapshot (clock i) o s)
        (λ s' r. ingest_opportunities converter snapshot clock (suc i) os (enriched ++ (r ∷ [])) s')

  unfoldable pub finish : ℕ → QuoteSnapshot F → ArbitrageSessionState F → ArbitrageSessionState F
  finish now snapshot s = expire_states snapshot.as_of (prune_snapshots now (prune_events s))

  abbrev pub closed :
      ℕ
      → QuoteSnapshot F
      → ArbitrageSessionState F × Outcome (List (OpportunityRecord F))
      → ArbitrageSessionState F × Outcome (List (OpportunityRecord F))
  closed now snapshot (s, raised fault) = (s, raised fault)
  closed now snapshot (s, returned records) = (finish now snapshot s, returned records)

  -- The readings of the clock: 0 and 1 around the loop, and from 2 in it.
  unfoldable pub ingest :
      FxConverter F
      → QuoteSnapshot F
      → (ℕ → ℕ)
      → ArbitrageSessionState F
      → ArbitrageSessionState F × Outcome (List (OpportunityRecord F))
  ingest converter snapshot clock s =
      let opportunities = find_cross_venue_opportunities host snapshot.quotes s.config in
      closed (clock 1) snapshot (
        ingest_opportunities converter snapshot clock 2 opportunities []
          (take_snapshot (clock 0) snapshot s))
