-- ===== src/Arbitrage/Engine/Best.antt =====
-- core/arbitrage/engine.py: the groups hold all the quotes of their symbols that can be traded, and
-- the sides that are paired are the best of them.
use demobot.Base.Order.{IsOrder}
use mathlib.Core.Path.{subst}
use demobot.Arbitrage.Engine.{
  best_ask, best_bid, cast_float, find_cross_venue_opportunities, group_of, group_quotes,
  pair_venues, search_symbol, opportunity_of, buy_leg_of, sell_leg_of,
}
use demobot.Arbitrage.Engine.Laws.{All-search_groups, admitted_lem}
use demobot.Arbitrage.Model.{ArbitrageConfig, ArbitrageOpportunity, Host, VenueQuote, has_liquidity}
use text.Mathlib.TextPositions.{eq_refl}
use demobot.Base.{
  All, All-map, Bool, Bool-cases, Dict, List, String, [], append-nil, append_assoc, arith, contains,
  eq_iff, false, if◌then◌else◌, inl, inr, insert, lookup, refl, some, str_eq, true, ◌&&◌, ◌++◌, ◌∷◌,
  ◌≡◌, IsDict, All-insert, insert-IsDict, sym, contains-insert, ◌∙◌,
}

module _ {F : Type 0} (host : Host F) where
  -- The quotes of a symbol that have liquidity.
  unfoldable pub tradable : String → List (VenueQuote F) → List (VenueQuote F)
  tradable symbol [] = []
  tradable symbol (q ∷ qs) =
      let rest = tradable symbol qs in
      if has_liquidity host q && str_eq q.symbol symbol then q ∷ rest else rest

  tradable-append :
      (symbol : String) (xs ys : List (VenueQuote F))
      → tradable symbol (xs ++ ys) ≡ tradable symbol xs ++ tradable symbol ys
  unfolding tradable
  tradable-append symbol [] ys = refl
  tradable-append symbol (x ∷ xs) ys = ground (arith, tradable-append symbol xs ys)

  tradable_snoc :
      (symbol : String) (seen : List (VenueQuote F)) (q : VenueQuote F)
      → has_liquidity host q && str_eq q.symbol symbol ≡ true
      → tradable symbol (seen ++ (q ∷ [])) ≡ tradable symbol seen ++ (q ∷ [])
  unfolding tradable
  tradable_snoc symbol seen q h = rw (tradable-append symbol seen (q ∷ []), h) refl

  tradable_snoc_other :
      (symbol : String) (seen : List (VenueQuote F)) (q : VenueQuote F)
      → has_liquidity host q && str_eq q.symbol symbol ≡ false
      → tradable symbol (seen ++ (q ∷ [])) ≡ tradable symbol seen
  unfolding tradable
  tradable_snoc_other symbol seen q h =
      rw (tradable-append symbol seen (q ∷ []), h) (append-nil (tradable symbol seen))

  -- The groups after the quotes `seen`.
  record IsGrouped (seen : List (VenueQuote F)) (grouped : Dict (List (VenueQuote F)))
      : Type 0 where
    distinct : IsDict grouped
    complete : All (λ g. g.1 ≡ tradable g.0 seen) grouped
    others : (k : String) → contains k grouped ≡ false → tradable k seen ≡ []

  -- The group of a symbol, present or not, is that of the quotes seen.
  group_of_lem :
      (symbol : String) (seen : List (VenueQuote F)) (grouped : Dict (List (VenueQuote F)))
      → All (λ g. g.1 ≡ tradable g.0 seen) grouped
      → (contains symbol grouped ≡ false → tradable symbol seen ≡ [])
      → group_of host symbol grouped ≡ tradable symbol seen
  unfolding lookup contains
  group_of_lem symbol seen [] h k = sym (k refl)
  group_of_lem symbol seen ((j, qs) ∷ grouped) h k = elim (Bool-cases (str_eq j symbol)) [
    | inl e ↦ rw (e, group_of) (rw (← (eq_iff j symbol).0 e) h.0)
    | inr e ↦ rw (e, group_of) (group_of_lem symbol seen grouped h.1 (λ c. k (ground arith)))
  ]

  skip-IsGrouped :
      (seen : List (VenueQuote F)) (grouped : Dict (List (VenueQuote F))) (q : VenueQuote F)
      → has_liquidity host q ≡ false
      → IsGrouped seen grouped
      → IsGrouped (seen ++ (q ∷ [])) grouped
  skip-IsGrouped seen grouped q h g = record {
    distinct = g.distinct;
    complete =
        All-map grouped (λ e c. c ∙ sym (tradable_snoc_other e.0 seen q (rw h refl))) g.complete;
    others = λ k absent. tradable_snoc_other k seen q (rw h refl) ∙ g.others k absent;
  }

  absent_lem :
      {V : Type 0} (k j : String) (v : V) (d : Dict V)
      → contains j (insert k v d) ≡ false
      → (str_eq k j ≡ false) × (contains j d ≡ false)
  absent_lem k j v d h = ground (arith, contains-insert k j v d)

  insert-IsGrouped :
      (seen : List (VenueQuote F)) (grouped : Dict (List (VenueQuote F))) (q : VenueQuote F)
      → has_liquidity host q ≡ true
      → IsGrouped seen grouped
      → IsGrouped
          (seen ++ (q ∷ []))
          (insert q.symbol (group_of host q.symbol grouped ++ (q ∷ [])) grouped)
  insert-IsGrouped seen grouped q h g =
      let group = group_of_lem q.symbol seen grouped g.complete (g.others q.symbol) in
      record {
        distinct = insert-IsDict q.symbol _ grouped g.distinct;
        complete =
            All-insert (λ e. e.1 ≡ tradable e.0 seen) (λ e. e.1 ≡ tradable e.0 (seen ++ (q ∷ [])))
              q.symbol _ grouped g.distinct
              (rw (tradable_snoc q.symbol seen q (rw (h, eq_refl q.symbol) refl), group) refl)
              (λ j w other c.
                c
                ∙ sym (
                    tradable_snoc_other j seen q
                      (ground (arith, eq_iff q.symbol j, eq_iff j q.symbol))))
              g.complete;
        others = λ k absent.
            let (other, gone) = absent_lem q.symbol k _ grouped absent in
            tradable_snoc_other k seen q (rw (h, other) refl) ∙ g.others k gone;
      }

  group_quotes-IsGrouped :
      (seen quotes : List (VenueQuote F)) (grouped : Dict (List (VenueQuote F)))
      → IsGrouped seen grouped
      → IsGrouped (seen ++ quotes) (group_quotes host quotes grouped)
  unfolding group_quotes
  group_quotes-IsGrouped seen [] grouped g = rw (append-nil seen) g
  group_quotes-IsGrouped seen (q ∷ qs) grouped g =
      rw (← append_assoc seen (q ∷ []) qs) (elim (Bool-cases (has_liquidity host q)) [
        | inl h ↦
            rw h
              (group_quotes-IsGrouped (seen ++ (q ∷ [])) qs _ (insert-IsGrouped seen grouped q h g))
        | inr h ↦
            rw h
              (group_quotes-IsGrouped (seen ++ (q ∷ [])) qs _ (skip-IsGrouped seen grouped q h g))
      ])

  abbrev IsAbove : VenueQuote F → List (VenueQuote F) → Type 0
  IsAbove w qs = All (λ q. host.less (cast_float host w.bid) (cast_float host q.bid) ≡ false) qs

  abbrev IsBelow : VenueQuote F → List (VenueQuote F) → Type 0
  IsBelow w qs = All (λ q. host.less (cast_float host q.ask) (cast_float host w.ask) ≡ false) qs

  module _ (order : IsOrder host.less) where
    open order use {less_irrefl, less_asym, not_less_trans}

    -- The bid that wins is below none of them.
    best_bid-IsGreatest :
        (best : VenueQuote F) (qs : List (VenueQuote F))
        → IsAbove (best_bid host best qs) (best ∷ qs)
    unfolding best_bid
    best_bid-IsGreatest best [] = (less_irrefl _, tt)
    best_bid-IsGreatest best (q ∷ qs) =
        let test = host.less (cast_float host best.bid) (cast_float host q.bid) in
        let winner : Bool → VenueQuote F = λ b. best_bid host (if b then q else best) qs in
        elim (Bool-cases test) [
          | inl h ↦
              let (top, rest) = best_bid-IsGreatest q qs in
              subst (λ b. IsAbove (winner b) (best ∷ q ∷ qs)) (sym h)
                (not_less_trans _ _ _ top (less_asym _ _ h), (top, rest))
          | inr h ↦
              let (top, rest) = best_bid-IsGreatest best qs in
              subst (λ b. IsAbove (winner b) (best ∷ q ∷ qs)) (sym h)
                (top, (not_less_trans _ _ _ top h, rest))
        ]

    -- None of the asks is below the one that wins.
    best_ask-IsLeast :
        (best : VenueQuote F) (qs : List (VenueQuote F))
        → IsBelow (best_ask host best qs) (best ∷ qs)
    unfolding best_ask
    best_ask-IsLeast best [] = (less_irrefl _, tt)
    best_ask-IsLeast best (q ∷ qs) =
        let test = host.less (cast_float host q.ask) (cast_float host best.ask) in
        let winner : Bool → VenueQuote F = λ b. best_ask host (if b then q else best) qs in
        elim (Bool-cases test) [
          | inl h ↦
              let (top, rest) = best_ask-IsLeast q qs in
              subst (λ b. IsBelow (winner b) (best ∷ q ∷ qs)) (sym h)
                (not_less_trans _ _ _ (less_asym _ _ h) top, (top, rest))
          | inr h ↦
              let (top, rest) = best_ask-IsLeast best qs in
              subst (λ b. IsBelow (winner b) (best ∷ q ∷ qs)) (sym h)
                (top, (not_less_trans _ _ _ h top, rest))
        ]

    -- The prices of an opportunity against the quotes of a group.
    abbrev pub IsBest : List (VenueQuote F) → ArbitrageOpportunity F → Type 0
    IsBest group o =
        All (λ q. host.less o.sell.price (cast_float host q.bid) ≡ false) group
        × All (λ q. host.less (cast_float host q.ask) o.buy.price ≡ false) group

    search_symbol-IsBest :
        (cfg : ArbitrageConfig F) (symbol : String) (group : List (VenueQuote F))
        (o : ArbitrageOpportunity F)
        → search_symbol host cfg symbol group ≡ some o
        → (o.symbol ≡ symbol) × IsBest group o
    unfolding search_symbol pair_venues opportunity_of buy_leg_of sell_leg_of
    search_symbol-IsBest cfg symbol [] o h = cc
    search_symbol-IsBest cfg symbol (q ∷ []) o h = cc
    search_symbol-IsBest cfg symbol (q ∷ r ∷ rs) o h =
        subst (λ x. (x.symbol ≡ symbol) × IsBest (q ∷ r ∷ rs) x)
          (sym (admitted_lem host cfg _ _ o h).0)
          (refl, (best_bid-IsGreatest q (r ∷ rs), best_ask-IsLeast q (r ∷ rs)))

    -- Among the quotes of its symbol that can be traded, an opportunity sells at the highest bid and buys
    -- at the lowest ask, where the prices are ordered.
    pub find_cross_venue_opportunities-All-IsBest :
        (quotes : List (VenueQuote F)) (cfg : ArbitrageConfig F)
        → All
            (λ o. IsBest (tradable o.symbol quotes) o)
            (find_cross_venue_opportunities host quotes cfg)
    unfolding find_cross_venue_opportunities IsDict tradable
    find_cross_venue_opportunities-All-IsBest quotes cfg =
        let start : IsGrouped [] [] = record {
          distinct = tt;
          complete = tt;
          others = λ k absent. refl;
        } in
        let g = group_quotes-IsGrouped [] quotes [] start in
        All-search_groups host (λ o. IsBest (tradable o.symbol quotes) o) cfg _
          (All-map _
            (λ group complete o found.
              let (symbol, best) = search_symbol-IsBest cfg group.0 group.1 o found in
              rw symbol (rw (← complete) best))
            g.complete)
