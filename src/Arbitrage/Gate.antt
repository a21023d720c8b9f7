-- ===== src/Arbitrage/Gate.antt =====
-- core/arbitrage/execution/gate.py and intelligence/readiness.py: whether an opportunity may be executed.
pub mod Laws
use demobot.Arbitrage.Model.{ArbitrageConfig, ArbitrageOpportunity, Host, VenueQuote, nought}
use demobot.Base.{
  Bool, List, Option, String, [], false, if◌then◌else◌, none, not, some, true, ℕ, ◌||◌, ◌∷◌, ◌++◌,
}

pub data ExecutionDecisionReason : Type 0 where
  edge_too_small quote_too_old spread_too_wide notional_too_large pass : ExecutionDecisionReason

pub record ExecutionConstraints (F : Type 0) : Type 0 where
  pub min_edge_bps : F
  pub max_quote_age_ms : Option F
  pub max_spread_bps : Option F
  pub max_notional : Option F

pub record ExecutionDecision (F : Type 0) : Type 0 where
  pub reason : ExecutionDecisionReason
  pub edge_bps : F
  pub worst_spread_bps : Option F
  pub age_ms : Option F
  pub notional : F
  pub recommended_qty : F

-- `ExecutionConstraints` of intelligence/readiness.py
pub record SoftConstraints (F : Type 0) : Type 0 where
  pub min_edge_bps : F
  pub min_size : F

pub record ExecutionReadiness (F : Type 0) : Type 0 where
  pub ready : Bool
  pub reasons : List String
  pub constraints : SoftConstraints F

abbrev pub is_empty {ℓ} : {A : Type ℓ} → List A → Bool
is_empty [] = true
is_empty (x ∷ xs) = false

module _ {F : Type 0} (host : Host F) where
  open host use {less, at_most, equal, plus, minus, times, divided, decimal, seconds_between}

  -- The spread of one quote, where both sides are positive.
  unfoldable pub spread_of : VenueQuote F → Option F
  spread_of q = elim q.bid [
    | none ↦ none
    | some bid ↦ elim q.ask [
      | none ↦ none
      | some ask ↦
          let mid = divided (plus bid ask) (decimal 2 0) in
          if at_most bid (nought host) || at_most ask (nought host)
          then none
          else if equal mid (nought host)
          then none
          else some (times (divided (minus ask bid) mid) (decimal 10_000 0))
    ]
  ]

  unfoldable pub spreads : List (VenueQuote F) → List F
  spreads [] = []
  spreads (q ∷ qs) = let rest = spreads qs in elim (spread_of q) [ none ↦ rest | some s ↦ s ∷ rest ]

  -- `max(spreads)`
  unfoldable pub max_from : F → List F → F
  max_from best [] = best
  max_from best (x ∷ xs) = max_from (if less best x then x else best) xs

  unfoldable pub max_of : List F → Option F
  max_of [] = none
  max_of (x ∷ xs) = some (max_from x xs)

  unfoldable pub compute_worst_spread_bps : List (VenueQuote F) → Option F
  compute_worst_spread_bps quotes = max_of (spreads quotes)

  -- The age of the quotes. A `VenueQuote` has no time of its own, so that only the opportunity's counts.
  unfoldable pub age_of : ArbitrageOpportunity F → ℕ → Option F
  age_of opp now = elim opp.as_of [
    | none ↦ none
    | some as_of ↦ some (times (seconds_between now as_of) (decimal 1000 0))
  ]

  -- A limit that is set refuses a value that is unknown or above it.
  abbrev pub exceeds : Option F → Option F → Bool
  exceeds none value = false
  exceeds (some limit) none = true
  exceeds (some limit) (some value) = less limit value

  abbrev pub notional_of : ArbitrageOpportunity F → F
  notional_of opp = times opp.buy.price opp.size

  -- The quantity that the notional leaves: as much as its limit buys at the price.
  unfoldable pub affordable_qty : F → F → F
  affordable_qty max_notional price =
      if less (nought host) price then divided max_notional price else nought host

  unfoldable pub decide :
      ArbitrageOpportunity F
      → Option F
      → Option F
      → ExecutionDecisionReason
      → F
      → ExecutionDecision F
  decide opp spread age reason qty = record {
    reason = reason;
    edge_bps = opp.edge_bps;
    worst_spread_bps = spread;
    age_ms = age;
    notional = notional_of opp;
    recommended_qty = qty;
  }

  unfoldable pub check_notional :
      ArbitrageOpportunity F → Option F → Option F → Option F → ExecutionDecision F
  check_notional opp spread age none = decide opp spread age pass opp.size
  check_notional opp spread age (some limit) =
      if less limit (notional_of opp)
      then decide opp spread age notional_too_large (affordable_qty limit opp.buy.price)
      else decide opp spread age pass opp.size

  unfoldable pub decide_execution :
      ArbitrageOpportunity F → Option F → Option F → ExecutionConstraints F → ExecutionDecision F
  decide_execution opp spread age constraints =
      if less opp.edge_bps constraints.min_edge_bps
      then decide opp spread age edge_too_small opp.size
      else if exceeds constraints.max_quote_age_ms age
      then decide opp spread age quote_too_old opp.size
      else if exceeds constraints.max_spread_bps spread
      then decide opp spread age spread_too_wide opp.size
      else check_notional opp spread age constraints.max_notional

  -- `evaluate_execution_readiness` of execution/gate.py
  unfoldable pub evaluate_execution_decision :
      ArbitrageOpportunity F
      → List (VenueQuote F)
      → ExecutionConstraints F
      → ℕ
      → ExecutionDecision F
  evaluate_execution_decision opp quotes constraints now =
      decide_execution opp (compute_worst_spread_bps quotes) (age_of opp now) constraints

  abbrev pub default_execution_constraints : ArbitrageConfig F → SoftConstraints F
  default_execution_constraints config = record {
    min_edge_bps = config.min_edge_bps;
    min_size = config.min_size;
  }

  unfoldable pub readiness_reasons : F → F → SoftConstraints F → List String
  readiness_reasons edge_bps size constraints =
      (if less edge_bps constraints.min_edge_bps then "edge_below_threshold" ∷ [] else [])
      ++ (if less size constraints.min_size then "size_below_threshold" ∷ [] else [])

  unfoldable pub evaluate_execution_readiness : F → F → SoftConstraints F → ExecutionReadiness F
  evaluate_execution_readiness edge_bps size constraints =
      let reasons = readiness_reasons edge_bps size constraints in
      record { ready = is_empty reasons; reasons = reasons; constraints = constraints }
