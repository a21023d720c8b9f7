-- ===== src/Arbitrage/Orchestrator/Sessions/Reach.antt =====
-- core/arbitrage/orchestrator.py: the orchestrator as a step relation, an operation at a time.
use demobot.Arbitrage.Lifecycle.Laws.{All-delete_all, delete_all-IsDict}
use demobot.Arbitrage.Orchestrator.Invariant.{
  IsSession, expire_states-IsSession, ingest-IsSession, touched-IsSession,
}
use demobot.Arbitrage.Scoring.{RankedRecommendation}
use demobot.Arbitrage.Fx.{FxConverter, Outcome}
use demobot.Arbitrage.Orchestrator.{ArbitrageSessionState, OpportunityRecord}
use demobot.Arbitrage.Model.{ArbitrageConfig, Host, QuoteSnapshot, SessionLimits}
use demobot.Arbitrage.Orchestrator.Sessions.{
  ArbitrageOrchestrator, create_session, get_recommendations, get_session, prune_idle_sessions,
  with_session, ingest_snapshot, on_session, recommend_session, new_session,
}
use demobot.Base.{
  All, IsDict, List, Option, Option-cases, String, arith, inl, inr, lookup, none, refl, some, ℕ,
  ◌≡◌, ◌<◌, insert-IsDict, All-insert, sym, All-lookup,
}

some_pair_inj :
    {A B : Type 0} {a a' : A} {b b' : B}
    → ◌≡◌ {A = Option (A × B)} (some (a, b)) (some (a', b'))
    → a ≡ a'
some_pair_inj h = cc

-- Each session under one id, within the limits of the orchestrator, which are those it began with.
pub record IsOrchestrator {F : Type 0} (limits : SessionLimits) (o : ArbitrageOrchestrator F)
    : Type 0 where
  pub limited : o.limits ≡ limits
  pub distinct : IsDict o.sessions
  pub kept : All (λ e. IsSession limits e.1) o.sessions

module _ {F : Type 0} (host : Host F) where
  -- A step, with the session that it is called for, if any.
  pub data Step (o : ArbitrageOrchestrator F)
      : Option String → ArbitrageOrchestrator F → Type 0 where
    create_step :
        (id base : String) (config : ArbitrageConfig F) (now : ℕ)
        → Step o (some id) (create_session id base config now o)
    -- `get_session`, which is all that the queries do to a session
    access_step :
        (id : String) (now : ℕ) (s : ArbitrageSessionState F)
        → get_session id now o ≡ some s
        → Step o (some id) (with_session id s o)
    ingest_step :
        (converter : FxConverter F) (id : String) (snapshot : QuoteSnapshot F) (now : ℕ)
        (clock : ℕ → ℕ) (o' : ArbitrageOrchestrator F)
        (result : Outcome (List (OpportunityRecord F)))
        → ingest_snapshot host converter id snapshot now clock o ≡ some (o', result)
        → Step o (some id) o'
    recommend_step :
        (id : String) (limit : ℕ) (symbol : Option String) (accessed now : ℕ)
        (o' : ArbitrageOrchestrator F) (result : List (RankedRecommendation F))
        → recommend_session host id limit symbol accessed now o ≡ some (o', result)
        → Step o (some id) o'
    prune_step : (now : ℕ) → Step o none (prune_idle_sessions now o)

  pub data Reach (o : ArbitrageOrchestrator F) : ArbitrageOrchestrator F → Type 0 where
    here : Reach o o
    next :
        {label : Option String} {o' o'' : ArbitrageOrchestrator F}
        → Reach o o'
        → Step o' label o''
        → Reach o o''

  pub on_session_lem :
      (A : Type 0) (id : String) (now : ℕ)
      (operation : ArbitrageSessionState F → ArbitrageSessionState F × A)
      (o o' : ArbitrageOrchestrator F) (result : A)
      → on_session id now operation o ≡ some (o', result)
      → (s : ArbitrageSessionState F) × (lookup id o.sessions ≡ some s)
        × (o' ≡ with_session id (operation (record s { last_accessed = now })).0 o)
  unfolding on_session get_session
  on_session_lem A id now operation o o' result h = elim (Option-cases (lookup id o.sessions)) [
    | inl e ↦
        let missing : ◌≡◌ {A = Option (ArbitrageOrchestrator F × A)} none (some (o', result)) =
          rw (e, on_session) at h in
        cc
    | inr (s, e) ↦ (s, e, sym (some_pair_inj (rw (e, on_session) at h)))
  ]

  module _ (limits : SessionLimits) where
    new_session-IsSession :
        (id base : String) (config : ArbitrageConfig F) (now : ℕ)
        → IsSession limits (new_session id base config limits now)
    unfolding new_session IsDict
    new_session-IsSession id base config now = record {
      limited = refl;
      snapshots_bounded = omega arith;
      history_bounded = omega arith;
      distinct = tt;
      tracked = tt;
    }

    with_session-IsOrchestrator :
        (id : String) (s : ArbitrageSessionState F) (o : ArbitrageOrchestrator F)
        → IsSession limits s
        → IsOrchestrator limits o
        → IsOrchestrator limits (with_session id s o)
    unfolding with_session
    with_session-IsOrchestrator id s o i h = record {
      limited = h.limited;
      distinct = insert-IsDict id s o.sessions h.distinct;
      kept = All-insert _ _ id s o.sessions h.distinct i (λ j w other k. k) h.kept;
    }

    prune_idle_sessions-IsOrchestrator :
        (now : ℕ) (o : ArbitrageOrchestrator F)
        → IsOrchestrator limits o
        → IsOrchestrator limits (prune_idle_sessions now o)
    unfolding prune_idle_sessions
    prune_idle_sessions-IsOrchestrator now o h = record {
      limited = h.limited;
      distinct = delete_all-IsDict _ o.sessions h.distinct;
      kept = All-delete_all _ _ o.sessions h.kept;
    }

    -- The session that an operation is given.
    found-IsSession :
        (id : String) (now : ℕ) (s : ArbitrageSessionState F) (o : ArbitrageOrchestrator F)
        → IsOrchestrator limits o
        → lookup id o.sessions ≡ some s
        → IsSession limits (record s { last_accessed = now })
    found-IsSession id now s o h e =
        touched-IsSession host limits now s (All-lookup (IsSession limits) id s o.sessions h.kept e)

    get_recommendations-IsSession :
        (limit : ℕ) (symbol : Option String) (now : ℕ) (s : ArbitrageSessionState F)
        → IsSession limits s
        → IsSession limits (get_recommendations host limit symbol now s).0
    unfolding get_recommendations
    get_recommendations-IsSession limit symbol now s i = expire_states-IsSession host limits now s i

    get_session_lem :
        (id : String) (now : ℕ) (s : ArbitrageSessionState F) (o : ArbitrageOrchestrator F)
        → get_session id now o ≡ some s
        → (t : ArbitrageSessionState F) × (lookup id o.sessions ≡ some t)
          × (record t { last_accessed = now } ≡ s)
    unfolding get_session
    get_session_lem id now s o h = elim (Option-cases (lookup id o.sessions)) [
      | inl e ↦ let missing : none ≡ some s = rw (e, get_session) at h in cc
      | inr (t, e) ↦
          let same : some (record t { last_accessed = now }) ≡ some s = rw (e, get_session) at h in
          (t, e, cc)
    ]

    module _ (m : 0 < limits.max_snapshots) where
      -- Every operation, one that fails half-way included, keeps all the sessions within the limits.
      pub Step-IsOrchestrator :
          {label : Option String} {o o' : ArbitrageOrchestrator F}
          → Step o label o'
          → IsOrchestrator limits o
          → IsOrchestrator limits o'
      unfolding create_session ingest_snapshot recommend_session
      Step-IsOrchestrator (create_step id base config now) h =
          with_session-IsOrchestrator id _ _
            (rw h.limited (new_session-IsSession id base config now)) h
      Step-IsOrchestrator (access_step id now s e) h =
          let (t, found, same) = get_session_lem id now s _ e in
          with_session-IsOrchestrator id s _ (rw (← same) (found-IsSession id now t _ h found)) h
      Step-IsOrchestrator (ingest_step converter id snapshot now clock o' result e) h =
          let (s, found, same) = on_session_lem _ id now _ _ o' result e in
          rw same (
            with_session-IsOrchestrator id _ _
              (ingest-IsSession host limits m converter snapshot clock _
                (found-IsSession id now s _ h found))
              h)
      Step-IsOrchestrator (recommend_step id limit symbol accessed now o' result e) h =
          let (s, found, same) = on_session_lem _ id accessed _ _ o' result e in
          rw same (
            with_session-IsOrchestrator id _ _
              (get_recommendations-IsSession limit symbol now _
                (found-IsSession id accessed s _ h found))
              h)
      Step-IsOrchestrator (prune_step now) h = prune_idle_sessions-IsOrchestrator now _ h

      -- With a positive limit on the snapshots, whatever operations are called, in whatever order: no two
      -- sessions share an id, and each session has the limits of the orchestrator, at most as many
      -- snapshots and records in its history as that limit, and one state per id, under the id that it
      -- has, seen at least once, and active from the second sighting on, fresh before.
      pub Reach-IsOrchestrator :
          {o o' : ArbitrageOrchestrator F}
          → IsOrchestrator limits o
          → Reach o o'
          → IsOrchestrator limits o'
      Reach-IsOrchestrator h here = h
      Reach-IsOrchestrator h (next r st) = Step-IsOrchestrator st (Reach-IsOrchestrator h r)
