-- ===== src/Arbitrage/Orchestrator/Stored.antt =====
-- core/arbitrage/orchestrator.py: what the states of a session hold once a snapshot is ingested.
use demobot.Arbitrage.Orchestrator.Steps.{closed_lem, loop_rule}
use demobot.Arbitrage.Orchestrator.Bounds.{length-pop_excess}
use mathlib.Core.Path.{subst}
use demobot.Arbitrage.Orchestrator.Ready.{enrich_lem}
use demobot.Arbitrage.Lifecycle.Laws.{
  update_lifecycle_seen, expire_stale_states-All-IsLive, expire_stale_states-IsDict,
  expire_stale_states_of_All,
}
use demobot.Arbitrage.Fx.{FxConverter, returned}
use demobot.Arbitrage.Model.{ArbitrageOpportunity, Host, QuoteSnapshot, SessionLimits}
use demobot.Arbitrage.Orchestrator.{
  prune_history, ArbitrageSessionState, OpportunityRecord, append_record, enrich, record_of,
  upsert_state, expire_states, finish, ingest, prune_events, prune_snapshots, take_snapshot,
}
use demobot.Arbitrage.Lifecycle.{OpportunityState, touch, update_lifecycle, is_stale}
use demobot.Base.{
  All, All-append, All-map, Dict, List, String, [], inl, inr, insert, lookup, refl, some, false, ℕ,
  ◌++◌, ◌∷◌, ◌≡◌, str_eq, arith, lookup-insert, ◌<◌, All-every, IsDict, All-insert, Bool-cases,
  insert-IsDict, lookup-insert_self, sym, length, ◌≤◌,
}

module _ {F : Type 0} where
  -- The state of a record's opportunity was last seen at the time of the snapshot.
  abbrev pub IsStored : ℕ → Dict (OpportunityState F) → OpportunityRecord F → Type 0
  IsStored as_of states r =
      (state : OpportunityState F) × (lookup r.opportunity.opportunity_id states ≡ some state)
      × (state.last_seen ≡ as_of)

module _ {F : Type 0} (host : Host F) (converter : FxConverter F) (snapshot : QuoteSnapshot F) where
  upsert_state_lem :
      (opp : ArbitrageOpportunity F) (s : ArbitrageSessionState F)
      → (state : OpportunityState F) × ((upsert_state host snapshot.as_of opp s).opportunity_state
          ≡ insert opp.opportunity_id state s.opportunity_state)
        × (state.last_seen ≡ snapshot.as_of)
  unfolding upsert_state update_lifecycle touch
  upsert_state_lem opp s =
      (_, refl, update_lifecycle_seen _ snapshot.as_of opp.edge_bps opp.net_edge)

  append_record_lem :
      (now : ℕ) (r : OpportunityRecord F) (s : ArbitrageSessionState F)
      → (append_record host now r s).opportunity_state ≡ s.opportunity_state
  unfolding append_record prune_history
  append_record_lem now r s = refl

  -- Whatever else is stored at the same time, what is stored stays.
  insert-IsStored :
      (states : Dict (OpportunityState F)) (id : String) (state : OpportunityState F)
      (r : OpportunityRecord F)
      → state.last_seen ≡ snapshot.as_of
      → IsStored snapshot.as_of states r
      → IsStored snapshot.as_of (insert id state states) r
  insert-IsStored states id state r seen (old, found, when) =
      elim (Bool-cases (str_eq id r.opportunity.opportunity_id)) [
        | inl e ↦
            (state, rw (lookup-insert id r.opportunity.opportunity_id state states, e) refl, seen)
        | inr e ↦
            (old, rw (lookup-insert id r.opportunity.opportunity_id state states, e) found, when)
      ]

  abbrev IsLive : SessionLimits → Dict (OpportunityState F) → Type 0
  IsLive limits states = All (λ e. is_stale limits snapshot.as_of e.1 ≡ false) states

  -- What is kept along the loop: every record is stored, and no state is stale.
  record KeepsStored (limits : SessionLimits) (rs : List (OpportunityRecord F))
      (s : ArbitrageSessionState F) : Type 0 where
    limited : s.limits ≡ limits
    distinct : IsDict s.opportunity_state
    live : IsLive limits s.opportunity_state
    stored : All (IsStored snapshot.as_of s.opportunity_state) rs

  turn-KeepsStored :
      (limits : SessionLimits) (now : ℕ) (enriched : List (OpportunityRecord F))
      (s : ArbitrageSessionState F) (o known : ArbitrageOpportunity F) (r : OpportunityRecord F)
      → 0 < limits.ttl_seconds
      → enrich host converter s.config snapshot known ≡ returned r
      → KeepsStored limits enriched s
      → KeepsStored limits
          (enriched ++ (r ∷ []))
          (append_record host now r (upsert_state host snapshot.as_of known s))
  unfolding append_record prune_history upsert_state record_of
  turn-KeepsStored limits now enriched s o known r positive valued k =
      let seen =
        update_lifecycle_seen (lookup known.opportunity_id s.opportunity_state) snapshot.as_of
          known.edge_bps known.net_edge in
      let (per_unit, total, same) = enrich_lem host converter snapshot s.config known r valued in
      record {
        limited = k.limited;
        distinct = insert-IsDict known.opportunity_id _ s.opportunity_state k.distinct;
        live =
            All-insert _ _ known.opportunity_id _ s.opportunity_state k.distinct
              (rw seen (ground arith)) (λ j w other h. h) k.live;
        stored =
            All-append _ enriched (r ∷ [])
              (All-map enriched
                (λ x. insert-IsStored s.opportunity_state known.opportunity_id _ x seen) k.stored)
              (
                subst (IsStored snapshot.as_of _) (sym same)
                    (_, lookup-insert_self known.opportunity_id _ s.opportunity_state, seen),
                tt,
              );
      }

  start-KeepsStored :
      (now : ℕ) (s : ArbitrageSessionState F)
      → IsDict s.opportunity_state
      → KeepsStored s.limits [] (take_snapshot host now snapshot s)
  unfolding take_snapshot expire_states prune_snapshots prune_events
  start-KeepsStored now s distinct = record {
    limited = refl;
    distinct = expire_stale_states-IsDict s.opportunity_state snapshot.as_of s.limits distinct;
    live = expire_stale_states-All-IsLive s.opportunity_state snapshot.as_of s.limits;
    stored = tt;
  }

  -- The last expiry finds nothing to delete.
  finish_lem :
      (limits : SessionLimits) (now : ℕ) (rs : List (OpportunityRecord F))
      (u : ArbitrageSessionState F)
      → KeepsStored limits rs u
      → ((finish host now snapshot u).opportunity_state ≡ u.opportunity_state)
        × (length (finish host now snapshot u).events ≤ limits.max_events)
  unfolding finish expire_states prune_snapshots prune_events
  finish_lem limits now rs u k = (
    expire_stale_states_of_All u.opportunity_state snapshot.as_of u.limits (rw k.limited k.live),
    rw (← k.limited) (length-pop_excess u.limits.max_events u.events),
  )

  -- With a positive time to live, and one state per id before: after an ingestion that returns, each record's opportunity is stored as seen at the time of the
  -- snapshot, no state that is left is stale, and the events are within their limit.
  pub ingest_lem :
      (clock : ℕ → ℕ) (s t : ArbitrageSessionState F) (rs : List (OpportunityRecord F))
      → 0 < s.limits.ttl_seconds
      → IsDict s.opportunity_state
      → ingest host converter snapshot clock s ≡ (t, returned rs)
      → All (IsStored snapshot.as_of t.opportunity_state) rs
        × IsLive s.limits t.opportunity_state
        × (length t.events ≤ s.limits.max_events)
  unfolding ingest
  ingest_lem clock s t rs positive distinct e =
      let (u, looped, finished) = closed_lem host (clock 1) snapshot _ t rs e in
      let k =
        loop_rule host converter snapshot clock (KeepsStored s.limits) (λ o. Unit)
          (λ now enriched s' o known r _ named valued.
            turn-KeepsStored s.limits now enriched s' o known r positive valued)
          _ 2 [] _ u rs (All-every _ (λ o. tt) _) (start-KeepsStored (clock 0) s distinct) looped in
      let (states, events) = finish_lem s.limits (clock 1) rs u k in
      rw (← finished) (rw states (k.stored, k.live, events))
