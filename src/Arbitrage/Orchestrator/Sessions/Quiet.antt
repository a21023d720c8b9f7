-- ===== src/Arbitrage/Orchestrator/Sessions/Quiet.antt =====
-- core/arbitrage/orchestrator.py: the steps that leave one session alone, and its end.
use demobot.Arbitrage.Lifecycle.Laws.{delete_all-IsDict}
use demobot.Arbitrage.Orchestrator.Sessions.Idle.{is_idle_session, prune_idle_sessions_lem}
use demobot.Arbitrage.Model.{Host, SessionLimits}
use demobot.Arbitrage.Orchestrator.{ArbitrageSessionState}
use demobot.Arbitrage.Orchestrator.Sessions.Reach.{
  Step, create_step, access_step, ingest_step, recommend_step, prune_step, on_session_lem,
  prune_step,
}
use demobot.Arbitrage.Orchestrator.Sessions.{
  ArbitrageOrchestrator, create_session, ingest_snapshot, prune_idle_sessions, recommend_session,
  with_session,
}
use demobot.Base.{
  Bool, Bool-cases, IsDict, Option, String, false, inl, inr, insert, insert-IsDict, lookup,
  lookup-insert, none, refl, some, str_eq, true, ℕ, ◌≡◌, ◌⊎◌, ◌∙◌,
}

-- Whether a step is called for a session.
abbrev pub is_for : String → Option String → Bool
is_for id none = false
is_for id (some k) = str_eq k id

module _ {F : Type 0} (host : Host F) where
  -- A step sets one session, its own, or prunes them.
  abbrev Effect : ArbitrageOrchestrator F → Option String → ArbitrageOrchestrator F → Type 0
  Effect o label o' =
      ((k : String) × (s : ArbitrageSessionState F) × (label ≡ some k) × (o' ≡ with_session k s o))
      ⊎ ((now : ℕ) × (o' ≡ prune_idle_sessions now o))

  Step-Effect :
      {label : Option String} {o o' : ArbitrageOrchestrator F}
      → Step host o label o'
      → Effect o label o'
  unfolding create_session ingest_snapshot recommend_session
  Step-Effect (create_step id base config now) = inl (id, _, refl, refl)
  Step-Effect (access_step id now s e) = inl (id, s, refl, refl)
  Step-Effect (ingest_step converter id snapshot now clock o' result e) =
      let (s, found, same) = on_session_lem host _ id now _ _ o' result e in inl (id, _, refl, same)
  Step-Effect (recommend_step id limit symbol accessed now o' result e) =
      let (s, found, same) = on_session_lem host _ id accessed _ _ o' result e in
      inl (id, _, refl, same)
  Step-Effect (prune_step now) = inr (now, refl)

  -- What a session is after steps for others: as it was, or gone.
  record IsLeft (id : String) (s : ArbitrageSessionState F) (limits : SessionLimits)
      (o : ArbitrageOrchestrator F) : Type 0 where
    limited : o.limits ≡ limits
    distinct : IsDict o.sessions
    left : (lookup id o.sessions ≡ some s) ⊎ (lookup id o.sessions ≡ none)

  pruned_left :
      (now : ℕ) (id : String) (s : ArbitrageSessionState F) (o : ArbitrageOrchestrator F)
      → IsDict o.sessions
      → (lookup id o.sessions ≡ some s) ⊎ (lookup id o.sessions ≡ none)
      → (lookup id (prune_idle_sessions now o).sessions ≡ some s)
        ⊎ (lookup id (prune_idle_sessions now o).sessions ≡ none)
  pruned_left now id s o distinct left =
      let spec = prune_idle_sessions_lem now id o distinct in
      elim (Bool-cases (is_idle_session o.limits now (lookup id o.sessions))) [
        | inl idle ↦ inr (rw idle at spec)
        | inr busy ↦ elim left [
          | inl e ↦ inl ((rw busy at spec) ∙ e)
          | inr e ↦ inr ((rw busy at spec) ∙ e)
        ]
      ]

  Effect-IsLeft :
      (id : String) (s : ArbitrageSessionState F) (limits : SessionLimits) (label : Option String)
      (o o' : ArbitrageOrchestrator F)
      → is_for id label ≡ false
      → Effect o label o'
      → IsLeft id s limits o
      → IsLeft id s limits o'
  unfolding with_session prune_idle_sessions
  Effect-IsLeft id s limits label o o' other (inl (k, t, called, same)) h =
      let elsewhere : str_eq k id ≡ false = rw called at other in
      let unaffected : lookup id (insert k t o.sessions) ≡ lookup id o.sessions =
        rw (lookup-insert k id t o.sessions, elsewhere) refl in
      rw same (record {
        limited = h.limited;
        distinct = insert-IsDict k t o.sessions h.distinct;
        left = elim h.left [ inl e ↦ inl (unaffected ∙ e) | inr e ↦ inr (unaffected ∙ e) ];
      })
  Effect-IsLeft id s limits label o o' other (inr (now, same)) h = rw same (record {
    limited = h.limited;
    distinct = delete_all-IsDict _ o.sessions h.distinct;
    left = pruned_left now id s o h.distinct h.left;
  })

  pub data Quiet (id : String) (o : ArbitrageOrchestrator F)
      : ArbitrageOrchestrator F → Type 0 where
    still : Quiet id o o
    elsewhere :
        {label : Option String} {o' o'' : ArbitrageOrchestrator F}
        → Quiet id o o'
        → Step host o' label o''
        → is_for id label ≡ false
        → Quiet id o o''

  Quiet-IsLeft :
      {id : String} {s : ArbitrageSessionState F} {limits : SessionLimits}
      {o o' : ArbitrageOrchestrator F}
      → Quiet id o o'
      → IsLeft id s limits o
      → IsLeft id s limits o'
  Quiet-IsLeft still h = h
  Quiet-IsLeft (elsewhere q st other) h =
      Effect-IsLeft _ _ _ _ _ _ other (Step-Effect st) (Quiet-IsLeft q h)

  -- A session for which nothing is called, whatever happens to the others, is gone after a pruning at
  -- which it has been idle for the limit.
  pub idle_session_ends :
      (id : String) (s : ArbitrageSessionState F) (o o' : ArbitrageOrchestrator F) (now : ℕ)
      → IsDict o.sessions
      → lookup id o.sessions ≡ some s
      → Quiet id o o'
      → is_idle_session o.limits now (some s) ≡ true
      → lookup id (prune_idle_sessions now o').sessions ≡ none
  idle_session_ends id s o o' now distinct found quiet idle =
      let h : IsLeft id s o.limits o' =
        Quiet-IsLeft quiet (record { limited = refl; distinct = distinct; left = inl found }) in
      let spec = prune_idle_sessions_lem now id o' h.distinct in
      let idle' : is_idle_session o'.limits now (some s) ≡ true = rw h.limited idle in
      elim h.left [ inl e ↦ spec ∙ rw (e, idle') refl | inr e ↦ spec ∙ rw e refl ]
