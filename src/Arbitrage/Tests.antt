-- ===== src/Arbitrage/Tests.antt =====
-- Two venues and a session, with whole numbers for prices, and the theorems at them.
use demobot.Arbitrage.Orchestrator.Sessions.Quiet.{elsewhere, idle_session_ends, still}
use demobot.Arbitrage.Gate.Laws.{IsPassing, should_execute, evaluate_execution_decision_passes}
use demobot.Arbitrage.Orchestrator.Stored.{IsStored, ingest_lem}
use demobot.Arbitrage.Orchestrator.Sessions.Idle.{is_idle_session}
use demobot.Arbitrage.Orchestrator.Ready.{IsReady, ingest-All-IsReady, own_age}
use demobot.Arbitrage.Orchestrator.Sessions.Ranking.{IsRanked, get_recommendations-IsRanked}
use demobot.Arbitrage.Engine.{
  find_cross_venue_opportunities, search_groups, group_quotes, search_symbol, pair_venues, admitted,
  best_bid, best_ask, opportunity_of, edge_bps, net_edge_per_unit, size_of, buy_leg_of,
  latency_note, notes_of, opportunity_id, price_bucket, sell_leg_of,
}
use demobot.Arbitrage.Orchestrator.Sessions.{
  ArbitrageOrchestrator, create_session, get_recommendations, get_session, ingest_snapshot,
  new_session, on_session, prune_idle_sessions, with_session,
}
use demobot.Arbitrage.Orchestrator.Sessions.Reach.{
  IsOrchestrator, Reach-IsOrchestrator, here, next, create_step, access_step, ingest_step,
  prune_step,
}
use demobot.Arbitrage.Model.{
  has_liquidity, ArbitrageConfig, Host, QuoteSnapshot, SessionLimits, VenueQuote,
  ArbitrageOpportunity,
}
use demobot.Arbitrage.Fx.{
  raised, returned, Outcome, FxConverter, base_value, convert, money, normalize_currency, to_base,
}
use demobot.Arbitrage.Gate.{
  affordable_qty, age_of, check_notional, compute_worst_spread_bps, decide, decide_execution,
  evaluate_execution_decision, evaluate_execution_readiness, max_from, max_of, readiness_reasons,
  spread_of, spreads, exceeds, ExecutionConstraints,
}
use demobot.Arbitrage.Lifecycle.{
  delete, delete_all, expire_stale_states, stale_ids, touch, update_lifecycle, is_stale,
}
use demobot.Arbitrage.Orchestrator.{
  ingest, append_record, enrich, expire_states, finish, identify, ingest_opportunity,
  ingest_opportunities, last_n, pop_excess, prune_events, prune_history, prune_snapshots, recent,
  record_of, take_snapshot, upsert_state, validate_snapshot, to_payload, take,
  ArbitrageSessionState, OpportunityRecord,
}
use demobot.Base.Order.{IsOrder}
use demobot.Arbitrage.Engine.Best.{IsBest, find_cross_venue_opportunities-All-IsBest, tradable}
use demobot.Arbitrage.Engine.Laws.{IsAdmissible, find_cross_venue_opportunities-All-IsAdmissible}
use demobot.Base.{map, insert}
use demobot.Arbitrage.Orchestrator.Sessions.{list_sessions, with_session}
use demobot.Base.{◌↔◌}
use demobot.Base.{
  [], ◌∷◌, ◌≡◌, ℕ, ltb, leb, ◌==◌, ◌+◌, ◌-◌, ◌*◌, ◌/◌, if◌then◌else◌, some, none, refl, true, false,
  List, String, arith, lookup, All, IsDict, length, insert, contains, ◌≤◌,
}

abbrev whole : Host ℕ
whole = record {
  less = ltb;
  at_most = leb;
  equal = ◌==◌;
  plus = ◌+◌;
  minus = ◌-◌;
  times = ◌*◌;
  divided = λ a b. if b == 0 then 0 else a / b;
  floor = λ a. a;
  abs = λ a. a;
  is_finite = λ a. true;
  int_of = λ a. a;
  decimal = λ m k. if k == 0 then m else 1;
  seconds_between = λ a b. (a - b) / 1_000_000;
  shown = λ a. "n";
  fixed4 = λ a. "n";
  sha256 = λ s. s;
  upper = λ s. s;
}

whole-IsOrder : IsOrder ltb
whole-IsOrder = record {
  less_irrefl = λ a. ground arith;
  less_asym = λ a b h. ground arith;
  not_less_trans = λ a b c h k. ground arith;
}

abbrev quote : String → ℕ → ℕ → VenueQuote ℕ
quote venue bid ask = record {
  venue = venue;
  symbol = "XYZ";
  bid = some bid;
  ask = some ask;
  ccy = "USD";
  size = some 5;
  fees_bps = 0;
  latency_ms = none;
}

abbrev quotes : List (VenueQuote ℕ)
quotes = quote "A" 90 100 ∷ quote "B" 300 310 ∷ quote "C" 250 320 ∷ []

abbrev config : ArbitrageConfig ℕ
config = record {
  min_edge_bps = 10;
  min_size = 2;
  allow_same_venue = false;
  default_size = 1;
  max_latency_ms = some 250;
}

abbrev limits : SessionLimits
limits = record {
  ttl_seconds = 60;
  max_snapshots = 2;
  max_events = 3;
  session_idle_expiry_seconds = 120;
}

abbrev snapshot : QuoteSnapshot ℕ
snapshot = record { as_of = 1_000_000; quotes = quotes }

abbrev converter : FxConverter ℕ
converter = record { rates = []; base_ccy = some "USD" }

abbrev clock : ℕ → ℕ
clock i = 2_000_000

abbrev session : ArbitrageSessionState ℕ
session = record {
  session_id = "s";
  base_currency = "USD";
  config = config;
  limits = limits;
  snapshots = [];
  opportunities_history = [];
  opportunity_state = [];
  events = [];
  last_validation_summary = none;
  validation_summary = none;
  last_accessed = 1_000_000;
}

find_cross_venue_opportunities-All-IsAdmissible_example :
    All (IsAdmissible whole config) (find_cross_venue_opportunities whole quotes config)
find_cross_venue_opportunities-All-IsAdmissible_example =
    find_cross_venue_opportunities-All-IsAdmissible whole quotes config

find_cross_venue_opportunities-All-IsBest_example :
    All
      (λ o. IsBest whole whole-IsOrder (tradable whole o.symbol quotes) o)
      (find_cross_venue_opportunities whole quotes config)
find_cross_venue_opportunities-All-IsBest_example =
    find_cross_venue_opportunities-All-IsBest whole whole-IsOrder quotes config

abbrev after : ArbitrageSessionState ℕ × Outcome (List (OpportunityRecord ℕ))
after = ingest whole converter snapshot clock session

abbrev records_of : Outcome (List (OpportunityRecord ℕ)) → List (OpportunityRecord ℕ)
records_of (raised fault) = []
records_of (returned rs) = rs

ingest_after :
    ingest whole converter snapshot clock session ≡ (after.0, returned (records_of after.1))
unfolding ingest find_cross_venue_opportunities search_groups group_quotes has_liquidity insert
    search_symbol lookup pair_venues admitted best_bid best_ask opportunity_of edge_bps
    net_edge_per_unit size_of buy_leg_of latency_note notes_of opportunity_id price_bucket
    sell_leg_of base_value convert money normalize_currency to_base affordable_qty age_of
    check_notional compute_worst_spread_bps decide decide_execution evaluate_execution_decision
    evaluate_execution_readiness max_from max_of readiness_reasons spread_of spreads delete
    delete_all expire_stale_states stale_ids touch update_lifecycle append_record enrich
    expire_states finish identify ingest_opportunity ingest_opportunities last_n pop_excess
    prune_events prune_history prune_snapshots recent record_of take_snapshot upsert_state
    validate_snapshot to_payload take
ingest_after = refl

after_length : length (records_of after.1) ≡ 1
unfolding ingest find_cross_venue_opportunities search_groups group_quotes has_liquidity insert
    search_symbol lookup pair_venues admitted best_bid best_ask opportunity_of edge_bps
    net_edge_per_unit size_of buy_leg_of latency_note notes_of opportunity_id price_bucket
    sell_leg_of base_value convert money normalize_currency to_base affordable_qty age_of
    check_notional compute_worst_spread_bps decide decide_execution evaluate_execution_decision
    evaluate_execution_readiness max_from max_of readiness_reasons spread_of spreads delete
    delete_all expire_stale_states stale_ids touch update_lifecycle append_record enrich
    expire_states finish identify ingest_opportunity ingest_opportunities last_n pop_excess
    prune_events prune_history prune_snapshots recent record_of take_snapshot upsert_state
    validate_snapshot to_payload take
after_length = refl

timely : exceeds whole config.max_latency_ms (some (own_age whole converter snapshot)) ≡ false
timely = refl

ingest-All-IsReady_example : All (IsReady whole converter snapshot) (records_of after.1)
ingest-All-IsReady_example =
    ingest-All-IsReady whole converter snapshot clock session after.0 (records_of after.1) timely
      ingest_after

no_states : IsDict session.opportunity_state
unfolding IsDict
no_states = tt

ingest_lem_example :
    All (IsStored 1_000_000 after.0.opportunity_state) (records_of after.1)
    × All (λ e. is_stale limits 1_000_000 e.1 ≡ false) after.0.opportunity_state
    × (length after.0.events ≤ 3)
ingest_lem_example =
    ingest_lem whole converter snapshot clock session after.0 (records_of after.1) (ground arith)
      no_states ingest_after

abbrev opp : ArbitrageOpportunity ℕ
opp = opportunity_of whole config "XYZ" (quote "B" 300 310) (quote "A" 90 100) 5

abbrev gate : ExecutionConstraints ℕ
gate = record {
  min_edge_bps = 10;
  max_quote_age_ms = none;
  max_spread_bps = some 4_000;
  max_notional = some 600;
}

evaluate_execution_decision_passes_example :
    (should_execute (evaluate_execution_decision whole opp quotes gate 1_000_000) ≡ true)
    ↔ IsPassing whole opp quotes gate 1_000_000
evaluate_execution_decision_passes_example =
    evaluate_execution_decision_passes whole whole-IsOrder opp quotes gate 1_000_000

abbrev start : ArbitrageOrchestrator ℕ
start = record { sessions = []; limits = limits }

start-IsOrchestrator : IsOrchestrator limits start
unfolding IsDict
start-IsOrchestrator = record { limited = refl; distinct = tt; kept = tt }

abbrev created : ArbitrageOrchestrator ℕ
created = create_session "s" "USD" config 1_000_000 start

abbrev opened : ArbitrageSessionState ℕ
opened = new_session "s" "USD" config limits 1_500_000

abbrev ingested : ArbitrageOrchestrator ℕ
ingested = with_session "s" (ingest whole converter snapshot clock opened).0 created

ingested_eq :
    ingest_snapshot whole converter "s" snapshot 1_500_000 clock created
    ≡ some (ingested, (ingest whole converter snapshot clock opened).1)
unfolding ingest_snapshot on_session get_session create_session new_session with_session insert
    lookup
ingested_eq = refl

Reach-IsOrchestrator_example : IsOrchestrator limits (prune_idle_sessions 5_000_000 ingested)
Reach-IsOrchestrator_example =
    Reach-IsOrchestrator whole limits (ground arith) start-IsOrchestrator (
      next
        (next (next here (create_step "s" "USD" config 1_000_000))
          (ingest_step converter "s" snapshot 1_500_000 clock ingested _ ingested_eq))
        (prune_step 5_000_000))

get_recommendations-IsRanked_example :
    IsRanked whole 1 (get_recommendations whole 5 none 2_000_000 after.0).1
    × (length (get_recommendations whole 5 none 2_000_000 after.0).1 ≤ 5)
get_recommendations-IsRanked_example =
    get_recommendations-IsRanked whole whole-IsOrder 5 none 2_000_000 after.0 (ground arith)

abbrev both : ArbitrageOrchestrator ℕ
both = create_session "t" "USD" config 1_000_000 created

both_listed : map (λ s. s.session_id) (list_sessions both) ≡ "s" ∷ "t" ∷ []
unfolding list_sessions create_session with_session new_session insert
both_listed = refl

both-IsDict : IsDict both.sessions
unfolding IsDict create_session new_session with_session insert contains
both-IsDict = (refl, (refl, tt))

is_idle_s :
    is_idle_session both.limits 130_000_000 (some (new_session "s" "USD" config limits 1_000_000))
    ≡ true
unfolding create_session new_session with_session
is_idle_s = refl

found_s : lookup "s" both.sessions ≡ some (new_session "s" "USD" config limits 1_000_000)
unfolding create_session new_session with_session insert lookup
found_s = refl

abbrev touched : ArbitrageSessionState ℕ
touched = new_session "t" "USD" config limits 90_000_000

touched_eq : get_session "t" 90_000_000 both ≡ some touched
unfolding get_session create_session new_session with_session insert lookup
touched_eq = refl

idle_session_ends_example :
    lookup "s" (prune_idle_sessions 130_000_000 (with_session "t" touched both)).sessions ≡ none
idle_session_ends_example =
    idle_session_ends whole "s" (new_session "s" "USD" config limits 1_000_000) both
      (with_session "t" touched both) 130_000_000 both-IsDict found_s
      (elsewhere still (access_step "t" 90_000_000 touched touched_eq) refl) is_idle_s
