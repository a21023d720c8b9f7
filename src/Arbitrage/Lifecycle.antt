-- ===== src/Arbitrage/Lifecycle.antt =====
-- core/arbitrage/intelligence/lifecycle.py: the state that a session keeps of each opportunity.
pub mod Laws
use demobot.Arbitrage.Engine.{edge_bps}
use demobot.Arbitrage.Model.{SessionLimits, microseconds}
use demobot.Base.{
  Bool, Dict, List, Option, String, [], if◌then◌else◌, leb, ltb, mem, none, some, str_eq, suc, ℕ,
  ◌+◌, ◌∷◌,
}

pub data LifecycleState : Type 0 where
  fresh active decaying expired : LifecycleState

pub record OpportunityState (F : Type 0) : Type 0 where
  pub opportunity_id : String
  pub first_seen : ℕ
  pub last_seen : ℕ
  pub seen_count : ℕ
  pub last_edge_bps : F
  pub last_net_edge_bps : F
  pub state : LifecycleState

-- `now - last_seen >= ttl`
abbrev pub is_idle : ℕ → ℕ → ℕ → Bool
is_idle ttl_seconds now last_seen = leb (last_seen + microseconds ttl_seconds) now

module _ {F : Type 0} where
  unfoldable pub touch : OpportunityState F → ℕ → F → F → OpportunityState F
  touch s as_of edge_bps net_edge_bps =
      let seen_count = s.seen_count + 1 in
      record {
        opportunity_id = s.opportunity_id;
        first_seen = s.first_seen;
        last_seen = as_of;
        seen_count = seen_count;
        last_edge_bps = edge_bps;
        last_net_edge_bps = net_edge_bps;
        state = if ltb 1 seen_count then active else fresh;
      }

  unfoldable pub decay : OpportunityState F → ℕ → ℕ → OpportunityState F
  decay s as_of ttl_seconds = record s {
    state = if is_idle ttl_seconds as_of s.last_seen then expired else decaying;
  }

  unfoldable pub update_lifecycle : Option (OpportunityState F) → ℕ → F → F → OpportunityState F
  update_lifecycle none as_of edge_bps net_edge_bps = record {
    opportunity_id = "";
    first_seen = as_of;
    last_seen = as_of;
    seen_count = 1;
    last_edge_bps = edge_bps;
    last_net_edge_bps = net_edge_bps;
    state = fresh;
  }
  update_lifecycle (some existing) as_of edge_bps net_edge_bps =
      touch existing as_of edge_bps net_edge_bps

  abbrev pub is_stale : SessionLimits → ℕ → OpportunityState F → Bool
  is_stale limits now s = is_idle limits.ttl_seconds now s.last_seen

  -- `to_delete`
  unfoldable pub stale_ids : SessionLimits → ℕ → Dict (OpportunityState F) → List String
  stale_ids limits now [] = []
  stale_ids limits now ((k, s) ∷ states) =
      let rest = stale_ids limits now states in if is_stale limits now s then k ∷ rest else rest

-- `del d[k]`, of a known key
unfoldable pub delete {ℓ} : {V : Type ℓ} → String → Dict V → Dict V
delete k [] = []
delete k ((j, v) ∷ d) = let rest = delete k d in if str_eq j k then rest else (j, v) ∷ rest

unfoldable pub delete_all {ℓ} : {V : Type ℓ} → List String → Dict V → Dict V
delete_all [] d = d
delete_all (k ∷ ks) d = delete_all ks (delete k d)

module _ {F : Type 0} where
  unfoldable pub expire_stale_states :
      Dict (OpportunityState F) → ℕ → SessionLimits → Dict (OpportunityState F)
  expire_stale_states states now limits = delete_all (stale_ids limits now states) states
