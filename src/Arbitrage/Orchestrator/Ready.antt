-- ===== src/Arbitrage/Orchestrator/Ready.antt =====
-- core/arbitrage/orchestrator.py: what `ingest_snapshot` makes of an opportunity that it keeps.
use demobot.Arbitrage.Engine.Laws.{find_cross_venue_opportunities-All-IsAdmissible}
use mathlib.Core.Path.{subst}
use demobot.Arbitrage.Orchestrator.Steps.{loop_rule, closed_lem}
use demobot.Arbitrage.Gate.Laws.{should_execute, decide_execution_passes, readiness_lem}
use demobot.Arbitrage.Gate.{age_of, evaluate_execution_decision, exceeds}
use demobot.Arbitrage.Engine.{is_refused}
use demobot.Base.{
  String, inl, inr, some, ℕ, ◌≡◌, refl, sym, All, All-append, List, [], arith, false, true, ◌∷◌,
  All-map,
}
use demobot.Arbitrage.Orchestrator.{
  prune_history, OpportunityRecord, enrich, identify, record_of, ArbitrageSessionState,
  append_record, ingest_opportunities, upsert_state, expire_states, ingest, prune_events,
  prune_snapshots, take_snapshot,
}
use demobot.Arbitrage.Model.{ArbitrageConfig, ArbitrageOpportunity, Host, QuoteSnapshot}
use demobot.Arbitrage.Fx.{
  FxConverter, Money, Outcome-cases, base_value, returned, raised-ne-returned,
}
use demobot.Base.{some, ◌≡◌, inl, inr, ℕ}
use demobot.Arbitrage.Fx.{returned, returned_inj}

module _ {F : Type 0} (host : Host F) (converter : FxConverter F) (snapshot : QuoteSnapshot F) where
  pub enrich_lem :
      (config : ArbitrageConfig F) (opp : ArbitrageOpportunity F) (r : OpportunityRecord F)
      → enrich host converter config snapshot opp ≡ returned r
      → (per_unit : Money F) × (total : Money F) × (r
          ≡ record_of host config snapshot opp per_unit total)
  unfolding enrich
  enrich_lem config opp r h =
      elim (Outcome-cases (base_value host converter opp.net_edge opp.ccy)) [
        | inl (fault, e) ↦ absurd (raised-ne-returned fault r (rw (e, enrich) at h))
        | inr (per_unit, e) ↦
            elim (Outcome-cases
              (base_value host converter (host.times opp.net_edge opp.size) opp.ccy)) [
                | inl (fault, e') ↦ absurd (raised-ne-returned fault r (rw (e, e', enrich) at h))
                | inr (total, e') ↦
                    (per_unit, total, sym (returned_inj _ r (rw (e, e', enrich) at h)))
              ]
      ]

  pub identify_lem :
      (base : String) (as_of : ℕ) (opp known : ArbitrageOpportunity F)
      → identify host converter base as_of opp ≡ returned known
      → known ≡ record opp { as_of = some as_of; opportunity_id = known.opportunity_id }
  unfolding identify
  identify_lem base as_of opp known h =
      elim (Outcome-cases (base_value host converter opp.buy.price opp.buy.ccy)) [
        | inl (fault, e) ↦ absurd (raised-ne-returned fault known (rw (e, identify) at h))
        | inr (buy, e) ↦
            elim (Outcome-cases (base_value host converter opp.sell.price opp.sell.ccy)) [
              | inl (fault, e') ↦
                  absurd (raised-ne-returned fault known (rw (e, e', identify) at h))
              | inr (sell, e') ↦
                  let same = returned_inj _ known (rw (e, e', identify) at h) in rw (← same) refl
            ]
      ]

  -- A record that is ready to execute, by the soft constraints and by the gate.
  abbrev pub IsReady : OpportunityRecord F → Type 0
  IsReady r = (r.execution_readiness.ready ≡ true) × (should_execute r.execution_decision ≡ true)

  -- The age that the gate computes: of the snapshot against itself.
  abbrev pub own_age : F
  own_age = host.times (host.seconds_between snapshot.as_of snapshot.as_of) (host.decimal 1000 0)

  record_of-IsReady :
      (config : ArbitrageConfig F) (opp : ArbitrageOpportunity F) (per_unit total : Money F)
      → is_refused host config opp ≡ false
      → opp.as_of ≡ some snapshot.as_of
      → exceeds host config.max_latency_ms (some own_age) ≡ false
      → IsReady (record_of host config snapshot opp per_unit total)
  unfolding record_of evaluate_execution_decision age_of
  record_of-IsReady config opp per_unit total kept stamped timely = (
    rw (readiness_lem host opp.edge_bps opp.size _) (ground arith),
    rw (decide_execution_passes host opp _ _ _) (ground arith),
  )

  known_refused :
      (config : ArbitrageConfig F) (base : String) (opp known : ArbitrageOpportunity F)
      → identify host converter base snapshot.as_of opp ≡ returned known
      → is_refused host config opp ≡ false
      → (is_refused host config known ≡ false) × (known.as_of ≡ some snapshot.as_of)
  known_refused config base opp known named kept =
      subst (λ k. (is_refused host config k ≡ false) × (k.as_of ≡ some snapshot.as_of))
        (sym (identify_lem base snapshot.as_of opp known named)) (kept, refl)

  -- What is kept along the loop: the configuration, and that each record is ready.
  abbrev KeepsReady :
      ArbitrageConfig F → List (OpportunityRecord F) → ArbitrageSessionState F → Type 0
  KeepsReady config rs s = (s.config ≡ config) × All IsReady rs

  ingest_opportunities-All-IsReady :
      (clock : ℕ → ℕ) (os : List (ArbitrageOpportunity F)) (s t : ArbitrageSessionState F)
      (rs : List (OpportunityRecord F))
      → exceeds host s.config.max_latency_ms (some own_age) ≡ false
      → All (λ o. is_refused host s.config o ≡ false) os
      → ingest_opportunities host converter snapshot clock 2 os [] s ≡ (t, returned rs)
      → All IsReady rs
  unfolding append_record prune_history upsert_state
  ingest_opportunities-All-IsReady clock os s t rs timely kept e =
      (loop_rule host converter snapshot clock (KeepsReady s.config)
        (λ o. is_refused host s.config o ≡ false)
        (λ now enriched s' o known r ok named valued (same, ready). (
          same,
          let (within_limits, stamped) = known_refused s.config s'.base_currency o known named ok in
              let (per_unit, total, built) = enrich_lem s'.config known r valued in
              All-append IsReady enriched (r ∷ []) ready (
                subst IsReady (sym built) (
                    record_of-IsReady s'.config known per_unit total (rw same within_limits) stamped
                      (rw same timely)),
                tt,
              ),
        ))
        os 2 [] s t rs kept (refl, tt) e).1

  take_snapshot_config :
      (now : ℕ) (s : ArbitrageSessionState F)
      → (take_snapshot host now snapshot s).config ≡ s.config
  unfolding take_snapshot expire_states prune_snapshots prune_events
  take_snapshot_config now s = refl

  -- Every record that an ingestion returns is ready, and passes the gate: the search has applied the
  -- same thresholds, and the snapshot is as old as itself, whose age the limit on latency admits.
  pub ingest-All-IsReady :
      (clock : ℕ → ℕ) (s t : ArbitrageSessionState F) (rs : List (OpportunityRecord F))
      → exceeds host s.config.max_latency_ms (some own_age) ≡ false
      → ingest host converter snapshot clock s ≡ (t, returned rs)
      → All IsReady rs
  unfolding ingest
  ingest-All-IsReady clock s t rs timely e =
      let start = take_snapshot host (clock 0) snapshot s in
      let same = take_snapshot_config (clock 0) s in
      let (u, looped, _) = closed_lem host (clock 1) snapshot _ t rs e in
      ingest_opportunities-All-IsReady clock _ start u rs (rw same timely)
        (All-map _ (λ o admissible. rw same (admissible.0))
          (find_cross_venue_opportunities-All-IsAdmissible host snapshot.quotes s.config))
        looped
