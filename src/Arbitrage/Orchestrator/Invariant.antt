-- ===== src/Arbitrage/Orchestrator/Invariant.antt =====
-- core/arbitrage/orchestrator.py: what every operation on a session keeps.
use demobot.Arbitrage.Orchestrator.Steps.{ingest_opportunity-Turn}
use demobot.Arbitrage.Fx.{raised, returned, FxConverter, Outcome, returned}
use demobot.Arbitrage.Lifecycle.Laws.{
  All-expire_stale_states, IsTracked, expire_stale_states-IsDict, update_lifecycle-IsTracked,
}
use demobot.Arbitrage.Model.{ArbitrageOpportunity, Host, QuoteSnapshot, SessionLimits}
use demobot.Arbitrage.Orchestrator.Bounds.{length-capped}
use demobot.Arbitrage.Orchestrator.{
  ArbitrageSessionState, OpportunityRecord, append_record, expire_states, finish, ingest,
  ingest_opportunities, prune_events, prune_history, prune_snapshots, take_snapshot, upsert_state,
  capped, closed,
}
use demobot.Base.{
  [], ◌∷◌, List, ℕ, ◌≡◌, ◌≤◌, ◌<◌, length, IsDict, All, insert-IsDict, All-insert, inl, inr, suc,
}

-- A session whose snapshots and history are within its limits, and which tracks each opportunity
-- under its own id.
pub record IsSession {F : Type 0} (limits : SessionLimits) (s : ArbitrageSessionState F)
    : Type 0 where
  pub limited : s.limits ≡ limits
  pub snapshots_bounded : length s.snapshots ≤ limits.max_snapshots
  pub history_bounded : length s.opportunities_history ≤ limits.max_snapshots
  pub distinct : IsDict s.opportunity_state
  pub tracked : All IsTracked s.opportunity_state

module _ {F : Type 0} (host : Host F) (limits : SessionLimits) where
  pub touched-IsSession :
      (now : ℕ) (s : ArbitrageSessionState F)
      → IsSession limits s
      → IsSession limits (record s { last_accessed = now })
  touched-IsSession now s i = record {
    limited = i.limited;
    snapshots_bounded = i.snapshots_bounded;
    history_bounded = i.history_bounded;
    distinct = i.distinct;
    tracked = i.tracked;
  }

  pub expire_states-IsSession :
      (now : ℕ) (s : ArbitrageSessionState F)
      → IsSession limits s
      → IsSession limits (expire_states now s)
  unfolding expire_states
  expire_states-IsSession now s i = record {
    limited = i.limited;
    snapshots_bounded = i.snapshots_bounded;
    history_bounded = i.history_bounded;
    distinct = expire_stale_states-IsDict s.opportunity_state now s.limits i.distinct;
    tracked = All-expire_stale_states IsTracked s.opportunity_state now s.limits i.tracked;
  }

  upsert_state-IsSession :
      (as_of : ℕ) (opp : ArbitrageOpportunity F) (s : ArbitrageSessionState F)
      → IsSession limits s
      → IsSession limits (upsert_state host as_of opp s)
  unfolding upsert_state
  upsert_state-IsSession as_of opp s i = record {
    limited = i.limited;
    snapshots_bounded = i.snapshots_bounded;
    history_bounded = i.history_bounded;
    distinct = insert-IsDict opp.opportunity_id _ s.opportunity_state i.distinct;
    tracked =
        All-insert IsTracked IsTracked opp.opportunity_id _ s.opportunity_state i.distinct
          (update_lifecycle-IsTracked opp.opportunity_id _ as_of opp.edge_bps opp.net_edge)
          (λ j w other h. h) i.tracked;
  }

  module _ (m : 0 < limits.max_snapshots) where
    -- A list that is cut to the session's limit.
    within {ℓ} :
        {A : Type ℓ} (l : SessionLimits) (xs : List A)
        → l ≡ limits
        → length (capped l.max_snapshots xs) ≤ limits.max_snapshots
    within l xs e = rw e (length-capped limits.max_snapshots xs m)

    take_snapshot-IsSession :
        (now : ℕ) (snapshot : QuoteSnapshot F) (s : ArbitrageSessionState F)
        → IsSession limits s
        → IsSession limits (take_snapshot host now snapshot s)
    unfolding take_snapshot expire_states prune_snapshots prune_events
    take_snapshot-IsSession now snapshot s i = record {
      limited = i.limited;
      snapshots_bounded = within s.limits _ i.limited;
      history_bounded = i.history_bounded;
      distinct = expire_stale_states-IsDict s.opportunity_state snapshot.as_of s.limits i.distinct;
      tracked =
          All-expire_stale_states IsTracked s.opportunity_state snapshot.as_of s.limits i.tracked;
    }

    append_record-IsSession :
        (now : ℕ) (r : OpportunityRecord F) (s : ArbitrageSessionState F)
        → IsSession limits s
        → IsSession limits (append_record host now r s)
    unfolding append_record prune_history
    append_record-IsSession now r s i = record {
      limited = i.limited;
      snapshots_bounded = i.snapshots_bounded;
      history_bounded = within s.limits _ i.limited;
      distinct = i.distinct;
      tracked = i.tracked;
    }

    finish-IsSession :
        (now : ℕ) (snapshot : QuoteSnapshot F) (s : ArbitrageSessionState F)
        → IsSession limits s
        → IsSession limits (finish host now snapshot s)
    unfolding finish expire_states prune_snapshots prune_events
    finish-IsSession now snapshot s i = record {
      limited = i.limited;
      snapshots_bounded = within s.limits _ i.limited;
      history_bounded = i.history_bounded;
      distinct = expire_stale_states-IsDict s.opportunity_state snapshot.as_of s.limits i.distinct;
      tracked =
          All-expire_stale_states IsTracked s.opportunity_state snapshot.as_of s.limits i.tracked;
    }

    ingest_opportunities-IsSession :
        (converter : FxConverter F) (snapshot : QuoteSnapshot F) (clock : ℕ → ℕ)
        (os : List (ArbitrageOpportunity F)) (i : ℕ) (enriched : List (OpportunityRecord F))
        (s : ArbitrageSessionState F)
        → IsSession limits s
        → IsSession limits (ingest_opportunities host converter snapshot clock i os enriched s).0
    unfolding ingest_opportunities
    ingest_opportunities-IsSession converter snapshot clock [] i enriched s h = h
    ingest_opportunities-IsSession converter snapshot clock (o ∷ os) i enriched s h =
        elim (ingest_opportunity-Turn host converter snapshot (clock i) o s) [
          | inl (fault, e) ↦ rw (e, ingest_opportunities) h
          | inr (known, _, inl (fault, e)) ↦
              rw (e, ingest_opportunities) (upsert_state-IsSession snapshot.as_of known s h)
          | inr (known, _, inr (r, _, e)) ↦
              rw (e, ingest_opportunities)
                (ingest_opportunities-IsSession converter snapshot clock os (suc i) _ _ (
                  append_record-IsSession (clock i) r _
                    (upsert_state-IsSession snapshot.as_of known s h)))
        ]

    closed-IsSession :
        (now : ℕ) (snapshot : QuoteSnapshot F)
        (result : ArbitrageSessionState F × Outcome (List (OpportunityRecord F)))
        → IsSession limits result.0
        → IsSession limits (closed host now snapshot result).0
    closed-IsSession now snapshot (s, raised fault) h = h
    closed-IsSession now snapshot (s, returned records) h = finish-IsSession now snapshot s h

    -- Whether it succeeds or a conversion fails half-way, an ingestion keeps the session within its limits
    -- and its states tracked.
    pub ingest-IsSession :
        (converter : FxConverter F) (snapshot : QuoteSnapshot F) (clock : ℕ → ℕ)
        (s : ArbitrageSessionState F)
        → IsSession limits s
        → IsSession limits (ingest host converter snapshot clock s).0
    unfolding ingest
    ingest-IsSession converter snapshot clock s h = closed-IsSession (clock 1) snapshot _ (
        ingest_opportunities-IsSession converter snapshot clock _ 2 [] _
          (take_snapshot-IsSession (clock 0) snapshot s h))
