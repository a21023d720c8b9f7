-- ===== src/Arbitrage/Engine/Laws.antt =====
-- core/arbitrage/engine.py: what each opportunity that is found is known to satisfy.
use demobot.Arbitrage.Engine.{
  find_cross_venue_opportunities, group_quotes, is_refused, opportunity_of, pair_venues,
  search_groups, search_symbol, buy_leg_of, sell_leg_of, admitted,
}
use demobot.Arbitrage.Model.{
  ArbitrageConfig, ArbitrageOpportunity, Host, VenueQuote, has_liquidity, nought,
}
use demobot.Base.{
  All, Bool, Dict, List, Option-cases, String, [], arith, false, inl, inr, not, some, str_eq, true,
  ◌||◌, ◌∷◌, ◌≡◌, refl, All-every,
}

module _ {F : Type 0} (host : Host F) where
  open host use {less, at_most}

  -- A quote that may stand in the group of a symbol.
  abbrev pub IsTradable : String → VenueQuote F → Type 0
  IsTradable symbol q = (q.symbol ≡ symbol) × (has_liquidity host q ≡ true)

  abbrev pub IsAdmissible : ArbitrageConfig F → ArbitrageOpportunity F → Type 0
  IsAdmissible cfg o =
      (is_refused host cfg o ≡ false)
      × (at_most o.gross_edge (nought host) ≡ false)
      × (cfg.allow_same_venue || not (str_eq o.sell.venue o.buy.venue) ≡ true)
      × (o.buy.quantity ≡ o.size)
      × (o.sell.quantity ≡ o.size)

  pub admitted_lem :
      (cfg : ArbitrageConfig F) (same : Bool) (opp o : ArbitrageOpportunity F)
      → admitted host cfg same opp ≡ some o
      → (o ≡ opp)
        × (cfg.allow_same_venue || not same ≡ true)
        × (at_most opp.gross_edge (nought host) ≡ false)
        × (is_refused host cfg opp ≡ false)
  unfolding admitted
  admitted_lem cfg same opp o h = ground arith

  pair_venues-IsAdmissible :
      (cfg : ArbitrageConfig F) (symbol : String) (bid ask : VenueQuote F)
      (o : ArbitrageOpportunity F)
      → pair_venues host cfg symbol bid ask ≡ some o
      → IsAdmissible cfg o
  unfolding pair_venues opportunity_of buy_leg_of sell_leg_of
  pair_venues-IsAdmissible cfg symbol bid ask o h =
      let (same, venues, gross, thresholds) = admitted_lem cfg _ _ o h in
      rw same (thresholds, gross, venues, refl, refl)

  search_symbol-IsAdmissible :
      (cfg : ArbitrageConfig F) (symbol : String) (qs : List (VenueQuote F))
      (o : ArbitrageOpportunity F)
      → search_symbol host cfg symbol qs ≡ some o
      → IsAdmissible cfg o
  unfolding search_symbol
  search_symbol-IsAdmissible cfg symbol [] o h = cc
  search_symbol-IsAdmissible cfg symbol (q ∷ []) o h = cc
  search_symbol-IsAdmissible cfg symbol (q ∷ r ∷ rs) o h =
      pair_venues-IsAdmissible cfg symbol _ _ o h

  -- What holds of each opportunity found in a group holds of all that are found.
  pub All-search_groups :
      (P : ArbitrageOpportunity F → Type 0) (cfg : ArbitrageConfig F)
      (groups : Dict (List (VenueQuote F)))
      → All
          (λ g. (o : ArbitrageOpportunity F) → search_symbol host cfg g.0 g.1 ≡ some o → P o)
          groups
      → All P (search_groups host cfg groups)
  unfolding search_groups
  All-search_groups P cfg [] h = tt
  All-search_groups P cfg ((symbol, qs) ∷ groups) h =
      elim (Option-cases (search_symbol host cfg symbol qs)) [
        | inl e ↦ rw (e, All) (All-search_groups P cfg groups h.1)
        | inr (o, e) ↦ rw (e, All) (h.0 o e, All-search_groups P cfg groups h.1)
      ]

  -- Whatever is found crosses two venues (unless one is allowed), with a gross edge and with an edge and
  -- a size at or above the thresholds of the configuration, of which both legs are.
  pub find_cross_venue_opportunities-All-IsAdmissible :
      (quotes : List (VenueQuote F)) (cfg : ArbitrageConfig F)
      → All (IsAdmissible cfg) (find_cross_venue_opportunities host quotes cfg)
  unfolding find_cross_venue_opportunities
  find_cross_venue_opportunities-All-IsAdmissible quotes cfg =
      All-search_groups (IsAdmissible cfg) cfg (group_quotes host quotes [])
        (All-every _ (λ g o. search_symbol-IsAdmissible cfg g.0 g.1 o) _)
