-- ===== src/Arbitrage/Engine.antt =====
-- core/arbitrage/engine.py: the best bid and the best ask of each symbol, paired across venues; and
-- core/arbitrage/identity.py, the id of an opportunity.
pub mod Laws
pub mod Best
use Prim.Native.String.{◌++◌ as ◌+++◌}
use demobot.Arbitrage.Model.{
  ArbitrageConfig, ArbitrageLeg, ArbitrageOpportunity, Host, VenueQuote, buying, has_liquidity,
  nought, selling, is_positive,
}
use demobot.Base.{
  Bool, Dict, List, Option, String, [], false, if◌then◌else◌, insert, lookup, none, not, some,
  str_eq, ◌&&◌, ◌++◌, ◌||◌, ◌∷◌,
}

module _ {F : Type 0} (host : Host F) where
  open host use {
    less, at_most, equal, plus, minus, times, divided, floor, decimal, shown, fixed4, sha256,
  }

  unfoldable pub net_edge_per_unit : F → F → F → F → F
  net_edge_per_unit buy_price sell_price buy_fee_bps sell_fee_bps =
      minus (times sell_price (minus (decimal 1 0) (divided sell_fee_bps (decimal 10_000 0))))
        (times buy_price (plus (decimal 1 0) (divided buy_fee_bps (decimal 10_000 0))))

  unfoldable pub edge_bps : F → F → F
  edge_bps net_edge basis_price =
      if equal basis_price (nought host)
      then nought host
      else times (divided net_edge basis_price) (decimal 10_000 0)

  abbrev pub group_of : String → Dict (List (VenueQuote F)) → List (VenueQuote F)
  group_of symbol grouped = elim (lookup symbol grouped) [ none ↦ [] | some qs ↦ qs ]

  -- The first loop: the quotes that can be traded, by symbol.
  unfoldable pub group_quotes :
      List (VenueQuote F) → Dict (List (VenueQuote F)) → Dict (List (VenueQuote F))
  group_quotes [] grouped = grouped
  group_quotes (q ∷ qs) grouped = group_quotes qs (
      if has_liquidity host q
      then insert q.symbol (group_of q.symbol grouped ++ (q ∷ [])) grouped
      else grouped)

  -- `cast(float, ...)` of a side that `has_liquidity` has found present
  abbrev pub cast_float : Option F → F
  cast_float none = nought host
  cast_float (some x) = x

  -- `max(..., key=bid)` and `min(..., key=ask)`: the first of equals.
  unfoldable pub best_bid : VenueQuote F → List (VenueQuote F) → VenueQuote F
  best_bid best [] = best
  best_bid best (q ∷ qs) =
      best_bid (if less (cast_float best.bid) (cast_float q.bid) then q else best) qs

  unfoldable pub best_ask : VenueQuote F → List (VenueQuote F) → VenueQuote F
  best_ask best [] = best
  best_ask best (q ∷ qs) =
      best_ask (if less (cast_float q.ask) (cast_float best.ask) then q else best) qs

  -- `min(size_candidates) if size_candidates else cfg.default_size`
  unfoldable pub size_of : ArbitrageConfig F → Option F → Option F → F
  size_of cfg s t =
      if is_positive host s && is_positive host t
      then (if less (cast_float t) (cast_float s) then cast_float t else cast_float s)
      else if is_positive host s
      then cast_float s
      else if is_positive host t
      then cast_float t
      else cfg.default_size

  unfoldable pub latency_note : F → VenueQuote F → List String
  latency_note most q = elim q.latency_ms [
    | none ↦ []
    | some ms ↦
        if not (equal ms (nought host)) && less most ms
        then ("Latency on " +++ q.venue +++ " exceeds threshold: " +++ shown ms +++ "ms") ∷ []
        else []
  ]

  unfoldable pub notes_of : ArbitrageConfig F → VenueQuote F → VenueQuote F → List String
  notes_of cfg bid ask = elim cfg.max_latency_ms [
    | none ↦ []
    | some most ↦ latency_note most bid ++ latency_note most ask
  ]

  unfoldable pub buy_leg_of : VenueQuote F → F → ArbitrageLeg F
  buy_leg_of ask size = record {
    action = buying;
    venue = ask.venue;
    price = cast_float ask.ask;
    quantity = size;
    ccy = ask.ccy;
    fees_bps = ask.fees_bps;
  }

  unfoldable pub sell_leg_of : VenueQuote F → F → ArbitrageLeg F
  sell_leg_of bid size = record {
    action = selling;
    venue = bid.venue;
    price = cast_float bid.bid;
    quantity = size;
    ccy = bid.ccy;
    fees_bps = bid.fees_bps;
  }

  unfoldable pub opportunity_of :
      ArbitrageConfig F → String → VenueQuote F → VenueQuote F → F → ArbitrageOpportunity F
  opportunity_of cfg symbol bid ask size =
      let net =
        net_edge_per_unit (cast_float ask.ask) (cast_float bid.bid) ask.fees_bps bid.fees_bps in
      record {
        symbol = symbol;
        buy = buy_leg_of ask size;
        sell = sell_leg_of bid size;
        gross_edge = minus (cast_float bid.bid) (cast_float ask.ask);
        net_edge = net;
        edge_bps = edge_bps net (cast_float ask.ask);
        size = size;
        ccy = ask.ccy;
        notes = notes_of cfg bid ask;
        opportunity_id = "";
        as_of = none;
      }

  -- The guard on the edge and the size that are found.
  abbrev pub is_refused : ArbitrageConfig F → ArbitrageOpportunity F → Bool
  is_refused cfg opp = less opp.edge_bps cfg.min_edge_bps || less opp.size cfg.min_size

  -- The guards of the loop: one venue on both sides, no gross edge, and the thresholds.
  unfoldable pub admitted :
      ArbitrageConfig F → Bool → ArbitrageOpportunity F → Option (ArbitrageOpportunity F)
  admitted cfg same_venue opp =
      if not cfg.allow_same_venue && same_venue
      then none
      else if at_most opp.gross_edge (nought host)
      then none
      else if is_refused cfg opp
      then none
      else some opp

  unfoldable pub pair_venues :
      ArbitrageConfig F → String → VenueQuote F → VenueQuote F → Option (ArbitrageOpportunity F)
  pair_venues cfg symbol bid ask =
      admitted cfg (str_eq bid.venue ask.venue)
        (opportunity_of cfg symbol bid ask (size_of cfg bid.size ask.size))

  unfoldable pub search_symbol :
      ArbitrageConfig F → String → List (VenueQuote F) → Option (ArbitrageOpportunity F)
  search_symbol cfg symbol [] = none
  search_symbol cfg symbol (q ∷ []) = none
  search_symbol cfg symbol (q ∷ r ∷ rs) =
      pair_venues cfg symbol (best_bid q (r ∷ rs)) (best_ask q (r ∷ rs))

  -- The second loop, over the groups in the order of their first quotes.
  unfoldable pub search_groups :
      ArbitrageConfig F → Dict (List (VenueQuote F)) → List (ArbitrageOpportunity F)
  search_groups cfg [] = []
  search_groups cfg ((symbol, qs) ∷ groups) =
      let rest = search_groups cfg groups in
      elim (search_symbol cfg symbol qs) [ none ↦ rest | some opp ↦ opp ∷ rest ]

  unfoldable pub find_cross_venue_opportunities :
      List (VenueQuote F) → ArbitrageConfig F → List (ArbitrageOpportunity F)
  find_cross_venue_opportunities quotes cfg = search_groups cfg (group_quotes quotes [])

  -- `_price_bucket` at the default tick
  unfoldable pub price_bucket : F → F
  price_bucket value = times (floor (divided value (decimal 1 2))) (decimal 1 2)

  unfoldable pub opportunity_id : String → String → String → String → F → F → String
  opportunity_id symbol buy_venue sell_venue base_ccy buy_price sell_price = sha256 (
      symbol
      +++ "|"
      +++ buy_venue
      +++ "|"
      +++ sell_venue
      +++ "|"
      +++ base_ccy
      +++ "|"
      +++ fixed4 (price_bucket buy_price)
      +++ "|"
      +++ fixed4 (price_bucket sell_price))
