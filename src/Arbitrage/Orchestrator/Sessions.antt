-- ===== src/Arbitrage/Orchestrator/Sessions.antt =====
-- core/arbitrage/orchestrator.py: the operations of `ArbitrageOrchestrator` on its sessions. A session's
-- id, which `uuid4` makes, and the readings of the clock are arguments.
pub mod Idle
pub mod Reach
pub mod Quiet
pub mod Ranking
use demobot.Arbitrage.Engine.{edge_bps, opportunity_id}
use mathlib.Core.List.{reverse}
use demobot.Arbitrage.Fx.{FxConverter, Outcome}
use demobot.Arbitrage.Gate.{default_execution_constraints, evaluate_execution_readiness}
use demobot.Arbitrage.Lifecycle.{
  LifecycleState, OpportunityState, active, decaying, delete_all, expired, fresh, is_idle,
}
use demobot.Arbitrage.Model.{
  ArbitrageConfig, ArbitrageOpportunity, Host, QuoteSnapshot, SessionLimits,
}
use demobot.Arbitrage.Orchestrator.{
  ArbitrageSessionState, OpportunityRecord, expire_states, ingest, last_n,
}
use demobot.Arbitrage.Scoring.{
  RankedRecommendation, compute_signals, rank_opportunities, to_recommendation,
}
use demobot.Base.{
  Bool, Dict, List, Option, String, [], false, if◌then◌else◌, insert, leb, length, lookup, map,
  none, not, some, str_eq, suc, true, ℕ, ◌&&◌, ◌+◌, ◌++◌, ◌||◌, ◌∷◌,
}

pub record ArbitrageOrchestrator (F : Type 0) : Type 0 where
  pub sessions : Dict (ArbitrageSessionState F)
  pub limits : SessionLimits

abbrev pub is_expired : LifecycleState → Bool
is_expired expired = true
is_expired _ = false

module _ {F : Type 0} where
  unfoldable pub new_session :
      String → String → ArbitrageConfig F → SessionLimits → ℕ → ArbitrageSessionState F
  new_session id base config limits now = record {
    session_id = id;
    base_currency = base;
    config = config;
    limits = limits;
    snapshots = [];
    opportunities_history = [];
    opportunity_state = [];
    events = [];
    last_validation_summary = none;
    validation_summary = none;
    last_accessed = now;
  }

  unfoldable pub list_sessions : ArbitrageOrchestrator F → List (ArbitrageSessionState F)
  list_sessions o = map (λ e. e.1) o.sessions

  -- The orchestrator with the session under its id.
  unfoldable pub with_session :
      String → ArbitrageSessionState F → ArbitrageOrchestrator F → ArbitrageOrchestrator F
  with_session id s o = record o { sessions = insert id s o.sessions }

  unfoldable pub create_session :
      String → String → ArbitrageConfig F → ℕ → ArbitrageOrchestrator F → ArbitrageOrchestrator F
  create_session id base config now o = with_session id (new_session id base config o.limits now) o

  -- `get_session`; `none` is the `KeyError`.
  unfoldable pub get_session :
      String → ℕ → ArbitrageOrchestrator F → Option (ArbitrageSessionState F)
  get_session id now o = elim (lookup id o.sessions) [
    | none ↦ none
    | some s ↦ some (record s { last_accessed = now })
  ]

  -- An operation on the session that `get_session` finds; what it changes stays in the orchestrator.
  unfoldable pub on_session :
      {A : Type 0}
      → String
      → ℕ
      → (ArbitrageSessionState F → ArbitrageSessionState F × A)
      → ArbitrageOrchestrator F
      → Option (ArbitrageOrchestrator F × A)
  on_session id now operation o = elim (get_session id now o) [
    | none ↦ none
    | some s ↦ let result = operation s in some (with_session id result.0 o, result.1)
  ]

  unfoldable pub get_latest_opportunities : ℕ → ArbitrageSessionState F → List (OpportunityRecord F)
  get_latest_opportunities limit s = last_n limit s.opportunities_history

  unfoldable pub with_symbol : String → List (OpportunityRecord F) → List (OpportunityRecord F)
  with_symbol symbol [] = []
  with_symbol symbol (r ∷ rs) =
      let rest = with_symbol symbol rs in
      if str_eq r.opportunity.symbol symbol then r ∷ rest else rest

  unfoldable pub get_opportunity_time_series :
      Option String → ArbitrageSessionState F → List (OpportunityRecord F)
  get_opportunity_time_series none s = s.opportunities_history
  get_opportunity_time_series (some symbol) s = with_symbol symbol s.opportunities_history

  -- `symbol and record.opportunity.symbol != symbol`
  abbrev pub is_other_symbol : Option String → OpportunityRecord F → Bool
  is_other_symbol none r = false
  is_other_symbol (some symbol) r =
      not (str_eq symbol "") && not (str_eq r.opportunity.symbol symbol)

  -- The state of a record that is recommended.
  unfoldable pub live_state :
      Option String → Dict (OpportunityState F) → OpportunityRecord F → Option (OpportunityState F)
  live_state symbol states r =
      if is_other_symbol symbol r then none else elim (lookup r.opportunity.opportunity_id states) [
        | none ↦ none
        | some state ↦ if is_expired state.state then none else some state
      ]

  -- `to_delete` of `prune_idle_sessions`
  unfoldable pub idle_ids : SessionLimits → ℕ → Dict (ArbitrageSessionState F) → List String
  idle_ids limits now [] = []
  idle_ids limits now ((id, s) ∷ sessions) =
      let rest = idle_ids limits now sessions in
      if is_idle limits.session_idle_expiry_seconds now s.last_accessed then id ∷ rest else rest

  unfoldable pub prune_idle_sessions : ℕ → ArbitrageOrchestrator F → ArbitrageOrchestrator F
  prune_idle_sessions now o = record o {
    sessions = delete_all (idle_ids o.limits now o.sessions) o.sessions;
  }

module _ {F : Type 0} (host : Host F) where
  -- The recommendation of one record.
  unfoldable pub recommend :
      ArbitrageConfig F
      → ℕ
      → List (ArbitrageOpportunity F)
      → OpportunityRecord F
      → OpportunityState F
      → RankedRecommendation F
  recommend config now history r state =
      let signals = compute_signals host r.opportunity state now history in
      record (to_recommendation host r.opportunity state.opportunity_id signals 0) {
        execution_readiness = some (
            evaluate_execution_readiness host r.opportunity.edge_bps r.opportunity.size
              (default_execution_constraints host config));
        execution_decision = some r.execution_decision;
      }

  -- The loop over the history from its end, which leaves once `limit` are found: `taken` is
  -- `len(recs)`.
  unfoldable pub collect :
      ℕ
      → Option String
      → ArbitrageConfig F
      → ℕ
      → List (ArbitrageOpportunity F)
      → Dict (OpportunityState F)
      → ℕ
      → List (OpportunityRecord F)
      → List (RankedRecommendation F)
  collect limit symbol config now history states taken [] = []
  collect limit symbol config now history states taken (r ∷ rs) =
      let skipped = collect limit symbol config now history states taken rs in
      let rest = collect limit symbol config now history states (taken + 1) rs in
      elim (live_state symbol states r) [
        | none ↦ skipped
        | some state ↦
            recommend config now history r state ∷ (if leb limit (taken + 1) then [] else rest)
      ]

  abbrev pub past : ArbitrageSessionState F → List (ArbitrageOpportunity F)
  past s = map (λ r. r.opportunity) s.opportunities_history

  -- On the session that `get_session` has found.
  unfoldable pub get_recommendations :
      ℕ
      → Option String
      → ℕ
      → ArbitrageSessionState F
      → ArbitrageSessionState F × List (RankedRecommendation F)
  get_recommendations limit symbol now s =
      let live = expire_states now s in
      (
        live,
        rank_opportunities host (
            collect limit symbol s.config now (past s) live.opportunity_state 0
              (reverse s.opportunities_history)),
      )

  -- `ingest_snapshot`; `none` is the `KeyError`.
  unfoldable pub ingest_snapshot :
      FxConverter F
      → String
      → QuoteSnapshot F
      → ℕ
      → (ℕ → ℕ)
      → ArbitrageOrchestrator F
      → Option (ArbitrageOrchestrator F × Outcome (List (OpportunityRecord F)))
  ingest_snapshot converter id snapshot now clock o =
      on_session id now (ingest host converter snapshot clock) o

  -- `get_recommendations`, after its `get_session`
  unfoldable pub recommend_session :
      String
      → ℕ
      → Option String
      → ℕ
      → ℕ
      → ArbitrageOrchestrator F
      → Option (ArbitrageOrchestrator F × List (RankedRecommendation F))
  recommend_session id limit symbol accessed now o =
      on_session id accessed (get_recommendations limit symbol now) o
