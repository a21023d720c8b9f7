-- ===== src/Arbitrage/Orchestrator/Sessions/Idle.antt =====
-- core/arbitrage/orchestrator.py, `prune_idle_sessions`: which sessions it leaves.
use demobot.Arbitrage.Model.{SessionLimits}
use demobot.Arbitrage.Orchestrator.{ArbitrageSessionState}
use demobot.Arbitrage.Orchestrator.Sessions.{ArbitrageOrchestrator, idle_ids, prune_idle_sessions}
use demobot.Arbitrage.Lifecycle.{delete, delete_all, is_idle}
use demobot.Base.{
  Bool, Bool-cases, Dict, IsDict, List, Option, String, [], arith, contains, eq_iff, false, inl,
  inr, lookup, mem, none, refl, some, str_eq, ℕ, ◌∷◌, ◌≡◌, if◌then◌else◌,
}

module _ {ℓ} {V : Type ℓ} where
  lookup-delete :
      (j k : String) (d : Dict V)
      → lookup j (delete k d) ≡ (if str_eq k j then none else lookup j d)
  unfolding lookup delete
  lookup-delete j k [] = ground arith
  lookup-delete j k ((i, v) ∷ d) =
      ground (arith, lookup-delete j k d, eq_iff i k, eq_iff i j, eq_iff k j)

  lookup-delete_all :
      (j : String) (ks : List String) (d : Dict V)
      → lookup j (delete_all ks d) ≡ (if mem j ks then none else lookup j d)
  unfolding delete_all mem
  lookup-delete_all j [] d = refl
  lookup-delete_all j (k ∷ ks) d =
      ground (arith, lookup-delete_all j ks (delete k d), lookup-delete j k d)

module _ {F : Type 0} where
  -- Whether a session that is or is not there is idle.
  abbrev pub is_idle_session : SessionLimits → ℕ → Option (ArbitrageSessionState F) → Bool
  is_idle_session limits now none = false
  is_idle_session limits now (some s) =
      is_idle limits.session_idle_expiry_seconds now s.last_accessed

  mem-idle_ids_absent :
      (limits : SessionLimits) (now : ℕ) (id : String) (d : Dict (ArbitrageSessionState F))
      → contains id d ≡ false
      → mem id (idle_ids limits now d) ≡ false
  unfolding idle_ids mem contains
  mem-idle_ids_absent limits now id [] h = refl
  mem-idle_ids_absent limits now id ((k, s) ∷ d) h =
      ground (arith, mem-idle_ids_absent limits now id d)

  mem-idle_ids :
      (limits : SessionLimits) (now : ℕ) (id : String) (d : Dict (ArbitrageSessionState F))
      → IsDict d
      → mem id (idle_ids limits now d) ≡ is_idle_session limits now (lookup id d)
  unfolding idle_ids mem lookup IsDict
  mem-idle_ids limits now id [] h = refl
  mem-idle_ids limits now id ((k, s) ∷ d) h = elim (Bool-cases (str_eq k id)) [
    | inl e ↦
        let absent = mem-idle_ids_absent limits now id d (rw (← (eq_iff k id).0 e) h.0) in
        rw e (ground (arith, absent))
    | inr e ↦ rw e (ground (arith, mem-idle_ids limits now id d h.1))
  ]

  -- A session is left, as it was, unless it has been idle for the limit.
  pub prune_idle_sessions_lem :
      (now : ℕ) (id : String) (o : ArbitrageOrchestrator F)
      → IsDict o.sessions
      → lookup id (prune_idle_sessions now o).sessions ≡ (
          if is_idle_session o.limits now (lookup id o.sessions)
          then none
          else lookup id o.sessions)
  unfolding prune_idle_sessions
  prune_idle_sessions_lem now id o h =
      rw
        (
          lookup-delete_all id (idle_ids o.limits now o.sessions) o.sessions,
          mem-idle_ids o.limits now id o.sessions h,
        )
        refl
