-- ===== src/Arbitrage/Lifecycle/Laws.antt =====
-- core/arbitrage/intelligence/lifecycle.py: what expiry leaves, and the states that updates make.
use text.Mathlib.TextPositions.{eq_refl}
use demobot.Arbitrage.Lifecycle.{
  OpportunityState, active, delete, delete_all, expire_stale_states, fresh, is_stale, stale_ids,
  touch, update_lifecycle,
}
use demobot.Arbitrage.Model.{SessionLimits}
use demobot.Base.{
  All, All-map, Bool-cases, Dict, IsDict, List, Option, String, [], arith, contains, eq_iff, false,
  if◌then◌else◌, inl, inr, ltb, mem, none, refl, some, str_eq, ℕ, ◌∷◌, ◌≡◌, ◌≤◌, All-both,
  All-every,
}

module _ {ℓ} {V : Type ℓ} where
  All-delete {κ} :
      (P : String × V → Type κ) (k : String) (d : Dict V) → All P d → All P (delete k d)
  unfolding delete
  All-delete P k [] h = tt
  All-delete P k ((j, v) ∷ d) h = elim (Bool-cases (str_eq j k)) [
    | inl e ↦ rw (e, All) (All-delete P k d h.1)
    | inr e ↦ rw (e, All) (h.0, All-delete P k d h.1)
  ]

  pub All-delete_all {κ} :
      (P : String × V → Type κ) (ks : List String) (d : Dict V) → All P d → All P (delete_all ks d)
  unfolding delete_all
  All-delete_all P [] d h = h
  All-delete_all P (k ∷ ks) d h = All-delete_all P ks (delete k d) (All-delete P k d h)

  All-delete_self : (k : String) (d : Dict V) → All (λ e. str_eq e.0 k ≡ false) (delete k d)
  unfolding delete
  All-delete_self k [] = tt
  All-delete_self k ((j, v) ∷ d) = elim (Bool-cases (str_eq j k)) [
    | inl e ↦ rw (e, All) (All-delete_self k d)
    | inr e ↦ rw (e, All) (e, All-delete_self k d)
  ]

  -- No key that is deleted is left.
  pub All-delete_all_self :
      (ks : List String) (d : Dict V) → All (λ e. mem e.0 ks ≡ false) (delete_all ks d)
  unfolding delete_all mem
  All-delete_all_self [] d = All-every _ (λ e. refl) d
  All-delete_all_self (k ∷ ks) d =
      All-both _ (λ e other rest. ground (arith, eq_iff e.0 k, eq_iff k e.0))
        (All-delete_all _ ks (delete k d) (All-delete_self k d))
        (All-delete_all_self ks (delete k d))

  contains-delete :
      (j k : String) (d : Dict V) → contains j d ≡ false → contains j (delete k d) ≡ false
  unfolding delete contains
  contains-delete j k [] h = refl
  contains-delete j k ((i, v) ∷ d) h = ground (arith, contains-delete j k d)

  delete-IsDict : (k : String) (d : Dict V) → IsDict d → IsDict (delete k d)
  unfolding delete IsDict
  delete-IsDict k [] h = tt
  delete-IsDict k ((j, v) ∷ d) h = elim (Bool-cases (str_eq j k)) [
    | inl e ↦ rw (e, IsDict) (delete-IsDict k d h.1)
    | inr e ↦ rw (e, IsDict) (contains-delete j k d h.0, delete-IsDict k d h.1)
  ]

  pub delete_all-IsDict : (ks : List String) (d : Dict V) → IsDict d → IsDict (delete_all ks d)
  unfolding delete_all
  delete_all-IsDict [] d h = h
  delete_all-IsDict (k ∷ ks) d h = delete_all-IsDict ks (delete k d) (delete-IsDict k d h)

module _ {F : Type 0} where
  -- A stale entry has its key among those to delete.
  stale_ids_lem :
      (limits : SessionLimits) (now : ℕ) (states : Dict (OpportunityState F))
      → All
          (λ e. mem e.0 (stale_ids limits now states) ≡ false → is_stale limits now e.1 ≡ false)
          states
  unfolding stale_ids mem
  stale_ids_lem limits now [] = tt
  stale_ids_lem limits now ((k, s) ∷ states) = (
    (λ absent. ground (arith, eq_refl k)),
    All-map states (λ x h absent. h (ground arith)) (stale_ids_lem limits now states),
  )

  -- No state that expiry leaves is stale.
  pub expire_stale_states-All-IsLive :
      (states : Dict (OpportunityState F)) (now : ℕ) (limits : SessionLimits)
      → All (λ e. is_stale limits now e.1 ≡ false) (expire_stale_states states now limits)
  unfolding expire_stale_states
  expire_stale_states-All-IsLive states now limits =
      All-both _ (λ e h absent. h absent)
        (All-delete_all _ (stale_ids limits now states) states (stale_ids_lem limits now states))
        (All-delete_all_self (stale_ids limits now states) states)

  stale_ids_of_All :
      (limits : SessionLimits) (now : ℕ) (states : Dict (OpportunityState F))
      → All (λ e. is_stale limits now e.1 ≡ false) states
      → stale_ids limits now states ≡ []
  unfolding stale_ids
  stale_ids_of_All limits now [] h = refl
  stale_ids_of_All limits now ((k, s) ∷ states) h = rw h.0 (stale_ids_of_All limits now states h.1)

  -- Where no state is stale, expiry changes nothing.
  pub expire_stale_states_of_All :
      (states : Dict (OpportunityState F)) (now : ℕ) (limits : SessionLimits)
      → All (λ e. is_stale limits now e.1 ≡ false) states
      → expire_stale_states states now limits ≡ states
  unfolding expire_stale_states delete_all
  expire_stale_states_of_All states now limits h = rw (stale_ids_of_All limits now states h) refl

  pub All-expire_stale_states {κ} :
      (P : String × OpportunityState F → Type κ) (states : Dict (OpportunityState F)) (now : ℕ)
      (limits : SessionLimits)
      → All P states
      → All P (expire_stale_states states now limits)
  unfolding expire_stale_states
  All-expire_stale_states P states now limits h = All-delete_all P _ states h

  pub expire_stale_states-IsDict :
      (states : Dict (OpportunityState F)) (now : ℕ) (limits : SessionLimits)
      → IsDict states
      → IsDict (expire_stale_states states now limits)
  unfolding expire_stale_states
  expire_stale_states-IsDict states now limits h = delete_all-IsDict _ states h

  -- What a session keeps of an opportunity: its own id, one sighting at least, and NEW at the first.
  pub record IsTracked (e : String × OpportunityState F) : Type 0 where
    pub keyed : e.1.opportunity_id ≡ e.0
    pub sighted : 1 ≤ e.1.seen_count
    pub staged : e.1.state ≡ (if ltb 1 e.1.seen_count then active else fresh)

  -- A first sighting and every later one leave such a state, once the id is set.
  pub update_lifecycle-IsTracked :
      (id : String) (existing : Option (OpportunityState F)) (as_of : ℕ) (edge net : F)
      → IsTracked (id, record (update_lifecycle existing as_of edge net) { opportunity_id = id })
  unfolding update_lifecycle touch
  update_lifecycle-IsTracked id none as_of edge net = record {
    keyed = refl;
    sighted = omega arith;
    staged = refl;
  }
  update_lifecycle-IsTracked id (some s) as_of edge net = record {
    keyed = refl;
    sighted = omega arith;
    staged = refl;
  }

  pub update_lifecycle_seen :
      (existing : Option (OpportunityState F)) (as_of : ℕ) (edge net : F)
      → (update_lifecycle existing as_of edge net).last_seen ≡ as_of
  unfolding update_lifecycle touch
  update_lifecycle_seen none as_of edge net = refl
  update_lifecycle_seen (some s) as_of edge net = refl
