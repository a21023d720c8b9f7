-- ===== src/Arbitrage/Orchestrator/Steps.antt =====
-- core/arbitrage/orchestrator.py: the loop of `ingest_snapshot`, by the outcome of each turn.
use mathlib.Core.Path.{subst}
use demobot.Arbitrage.Model.{ArbitrageOpportunity, Host, QuoteSnapshot}
use demobot.Arbitrage.Orchestrator.{
  ArbitrageSessionState, OpportunityRecord, append_record, enrich, identify, ingest_opportunities,
  ingest_opportunity, upsert_state, closed, finish,
}
use demobot.Arbitrage.Fx.{Fault, FxConverter, Outcome, Outcome-cases, raised, returned}
use demobot.Base.{List, [], ◌∷◌, ◌++◌, ℕ, suc, ◌≡◌, inl, inr, refl, ◌⊎◌, All, sym, ◌∙◌}

module _ {ℓ κ} {S : Type ℓ} {A : Type κ} where
  finished_inj :
      (s t : S) (a b : A)
      → ◌≡◌ {A = S × Outcome A} (s, returned a) (t, returned b)
      → (s ≡ t) × (a ≡ b)
  finished_inj s t a b h = (cc, cc)

  not-returned :
      (s t : S) (fault : Fault) (b : A)
      → ¬ (◌≡◌ {A = S × Outcome A} (s, raised fault) (t, returned b))
  not-returned s t fault b h = cc

module _ {F : Type 0} (host : Host F) (converter : FxConverter F) (snapshot : QuoteSnapshot F) where
  -- A turn that fails before anything is stored, one that fails after the state is, and one that appends
  -- a record.
  abbrev pub Turn :
      ℕ
      → ArbitrageOpportunity F
      → ArbitrageSessionState F
      → ArbitrageSessionState F × Outcome (OpportunityRecord F)
      → Type 0
  Turn now opp s result =
      ((fault : Fault) × (result ≡ (s, raised fault)))
      ⊎ ((known : ArbitrageOpportunity F) × (identify host converter s.base_currency snapshot.as_of
              opp
            ≡ returned known)
          × (((fault : Fault) × (result ≡ (upsert_state host snapshot.as_of known s, raised fault)))
              ⊎ ((r : OpportunityRecord F) × (enrich host converter s.config snapshot known
                    ≡ returned r)
                  × (result ≡ (
                    append_record host now r (upsert_state host snapshot.as_of known s),
                    returned r,
                  )))))

  pub ingest_opportunity-Turn :
      (now : ℕ) (opp : ArbitrageOpportunity F) (s : ArbitrageSessionState F)
      → Turn now opp s (ingest_opportunity host converter snapshot now opp s)
  unfolding ingest_opportunity
  ingest_opportunity-Turn now opp s =
      elim (Outcome-cases (identify host converter s.base_currency snapshot.as_of opp)) [
        | inl (fault, e) ↦ inl (fault, rw (e, ingest_opportunity) refl)
        | inr (known, e) ↦ inr (
          known,
          e,
          elim (Outcome-cases (enrich host converter s.config snapshot known)) [
            | inl (fault, e') ↦ inl (fault, rw (e, e', ingest_opportunity) refl)
            | inr (r, e') ↦ inr (r, e', rw (e, e', ingest_opportunity) refl)
          ],
        )
      ]

  module _ (clock : ℕ → ℕ) where
    pub ingest_opportunities_raised :
        (i : ℕ) (o : ArbitrageOpportunity F) (os : List (ArbitrageOpportunity F))
        (enriched : List (OpportunityRecord F)) (s t : ArbitrageSessionState F) (fault : Fault)
        → ingest_opportunity host converter snapshot (clock i) o s ≡ (t, raised fault)
        → ingest_opportunities host converter snapshot clock i (o ∷ os) enriched s
          ≡ (t, raised fault)
    unfolding ingest_opportunities
    ingest_opportunities_raised i o os enriched s t fault e = rw (e, ingest_opportunities) refl

    pub ingest_opportunities_returned :
        (i : ℕ) (o : ArbitrageOpportunity F) (os : List (ArbitrageOpportunity F))
        (enriched : List (OpportunityRecord F)) (s t : ArbitrageSessionState F)
        (r : OpportunityRecord F)
        → ingest_opportunity host converter snapshot (clock i) o s ≡ (t, returned r)
        → ingest_opportunities host converter snapshot clock i (o ∷ os) enriched s
          ≡ ingest_opportunities host converter snapshot clock (suc i) os (enriched ++ (r ∷ [])) t
    unfolding ingest_opportunities
    ingest_opportunities_returned i o os enriched s t r e = rw (e, ingest_opportunities) refl

    -- What each turn keeps holds of the session and the records that the loop returns.
    pub loop_rule {κ} :
        (I : List (OpportunityRecord F) → ArbitrageSessionState F → Type κ)
        (P : ArbitrageOpportunity F → Type 0)
        → ((now : ℕ)
            → (enriched : List (OpportunityRecord F)) → (s : ArbitrageSessionState F)
            → (o known : ArbitrageOpportunity F) → (r : OpportunityRecord F) → P o
            → identify host converter s.base_currency snapshot.as_of o ≡ returned known
            → enrich host converter s.config snapshot known ≡ returned r
            → I enriched s
            → I
                (enriched ++ (r ∷ []))
                (append_record host now r (upsert_state host snapshot.as_of known s)))
        → (os : List (ArbitrageOpportunity F)) (i : ℕ) (enriched : List (OpportunityRecord F))
          (s t : ArbitrageSessionState F) (rs : List (OpportunityRecord F))
        → All P os
        → I enriched s
        → ingest_opportunities host converter snapshot clock i os enriched s ≡ (t, returned rs)
        → I rs t
    unfolding ingest_opportunities
    loop_rule I P step [] i enriched s t rs p h e =
        let (same, value) = finished_inj s t enriched rs e in
        subst (λ x. I x t) value (subst (λ x. I enriched x) same h)
    loop_rule I P step (o ∷ os) i enriched s t rs p h e =
        elim (ingest_opportunity-Turn (clock i) o s) [
          | inl (fault, turn) ↦ absurd (
              not-returned _ _ fault rs
                (sym (ingest_opportunities_raised i o os enriched s _ fault turn) ∙ e))
          | inr (known, _, inl (fault, turn)) ↦ absurd (
              not-returned _ _ fault rs
                (sym (ingest_opportunities_raised i o os enriched s _ fault turn) ∙ e))
          | inr (known, named, inr (r, valued, turn)) ↦
              loop_rule I P step os (suc i) _ _ t rs p.1
                (step (clock i) enriched s o known r p.0 named valued h)
                (sym (ingest_opportunities_returned i o os enriched s _ r turn) ∙ e)
        ]

-- An ingestion that returns has closed what its loop returned.
module _ {F : Type 0} (host : Host F) where
  pub closed_lem :
      (now : ℕ) (snapshot : QuoteSnapshot F)
      (result : ArbitrageSessionState F × Outcome (List (OpportunityRecord F)))
      (t : ArbitrageSessionState F) (rs : List (OpportunityRecord F))
      → closed host now snapshot result ≡ (t, returned rs)
      → (u : ArbitrageSessionState F) × (result ≡ (u, returned rs))
        × (finish host now snapshot u ≡ t)
  closed_lem now snapshot (s, raised fault) t rs e = absurd (not-returned s t fault rs e)
  closed_lem now snapshot (s, returned records) t rs e =
      let (same, value) = finished_inj _ t records rs e in (s, rw value refl, same)
