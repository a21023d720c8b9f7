-- ===== src/V2/Orchestrator/Recovery/Laws.antt =====
-- The version that `recover` of core/v2/orchestrator.py arrives at.
use demobot.Json.{Json}
use demobot.V2.Orchestrator.Building.{build_snapshot_full}
use demobot.V2.Orchestrator.Recovery.{recover_from, recover_loop}
use demobot.V2.Fresh.{All-fresh_unseen, fresh, keys-entries, length-fresh-lt}
use demobot.V2.Ordering.Laws.{stable_sort_events_of_IsSorted}
use demobot.V2.EventStore.{EventStore, IsEventStore}
use demobot.V2.Model.{AppliedEvent, Snapshot, V2Event, ids}
use demobot.Base.{
  All, Bool-cases, Dict, List, String, [], ap, arith, contains, contains-insert, false,
  if◌then◌else◌, inl, inr, length, length-append, mem, none, refl, some, sym, true, ℕ, ◌++◌, ◌+◌,
  ◌<◌, ◌||◌, ◌∙◌, ◌∷◌, ◌≡◌,
}
use demobot.V2.Orchestrator.Delta.{
  SameSnapshot, added-IsSorted, build_snapshot_full-eq, counted_grown, tail-eq,
}

-- the events that the loop takes: `seen` stays as it is
unfoldable pub unseen : List String → List V2Event → List V2Event
unseen seen [] = []
unseen seen (e ∷ es) = if mem e.event_id seen then unseen seen es else e ∷ unseen seen es

pub recover_loop-version :
    (seen : List String) (version : ℕ) (applied : Dict ℕ) (log : List AppliedEvent)
    (es : List V2Event)
    → (recover_loop seen version applied log es).0 ≡ version + length (unseen seen es)
unfolding recover_loop unseen
recover_loop-version seen version applied log [] = omega arith
recover_loop-version seen version applied log (e ∷ es) = elim (Bool-cases (mem e.event_id seen)) [
  | inl h ↦ rw h (rw (h, recover_loop) (recover_loop-version seen version applied log es))
  | inr h ↦
      rw h (rw (h, recover_loop) (recover_loop-version seen (version + 1) _ _ es ∙ omega arith))
]

pub recover_loop-applied :
    (seen : List String) (version : ℕ) (applied : Dict ℕ) (log : List AppliedEvent)
    (es : List V2Event) (k : String)
    → contains k (recover_loop seen version applied log es).1
      ≡ (contains k applied || mem k (ids (unseen seen es)))
unfolding recover_loop unseen mem
recover_loop-applied seen version applied log [] k = ground arith
recover_loop-applied seen version applied log (e ∷ es) k = elim (Bool-cases (mem e.event_id seen)) [
  | inl h ↦ rw h (rw (h, recover_loop) (recover_loop-applied seen version applied log es k))
  | inr h ↦ rw h (
      rw (h, recover_loop)
        (recover_loop-applied seen (version + 1) _ _ es k
          ∙ rw (contains-insert e.event_id k (version + 1) applied) (ground arith)))
]

unseen_nil : (es : List V2Event) → unseen [] es ≡ es
unfolding unseen mem
unseen_nil [] = refl
unseen_nil (e ∷ es) = ap (◌∷◌ e) (unseen_nil es)

unseen_known_none :
    (seen : List String) (es : List V2Event)
    → All (λ e. mem e.event_id seen ≡ false) es
    → unseen seen es ≡ es
unfolding unseen
unseen_known_none seen [] h = refl
unseen_known_none seen (e ∷ es) (h, hs) = rw h (ap (◌∷◌ e) (unseen_known_none seen es hs))

module _ {S : Type 0} (store : EventStore S) (hash_snapshot : Dict Json → String)
    (laws : IsEventStore store) where
  open laws use {list-IsSorted}

  -- Without a snapshot `recover` counts every listed event, a repeated id each time.
  pub recover_none-version :
      (sid : String) (s : S)
      → (recover_from store sid none s).0.version ≡ length (store.list_of sid s)
  unfolding recover_from
  recover_none-version sid s =
      rw (stable_sort_events_of_IsSorted (store.list_of sid s) (list-IsSorted sid s)) (
        recover_loop-version [] 0 [] [] (store.list_of sid s)
        ∙ rw (unseen_nil (store.list_of sid s)) (omega arith))

  -- Without a snapshot the recovered state knows just the listed ids.
  pub recover_none-applied :
      (sid : String) (s : S) (k : String)
      → contains k (recover_from store sid none s).0.applied ≡ mem k (ids (store.list_of sid s))
  unfolding recover_from contains
  recover_none-applied sid s k =
      rw (stable_sort_events_of_IsSorted (store.list_of sid s) (list-IsSorted sid s)) (
        recover_loop-applied [] 0 [] [] (store.list_of sid s) k
        ∙ rw (unseen_nil (store.list_of sid s)))

  -- From a snapshot of an earlier state of the store, with all newer events of the session behind
  -- the older ones, `recover` arrives at the version of a snapshot of all events.
  pub recover_some-version :
      (now : ℕ) (sid : String) (s₁ s₂ : S) (later : List V2Event) (base : Snapshot)
      → store.list_of sid s₂ ≡ store.list_of sid s₁ ++ later
      → SameSnapshot base (build_snapshot_full store hash_snapshot now sid s₁)
      → (recover_from store sid (some base) s₂).0.version
        ≡ (build_snapshot_full store hash_snapshot now sid s₂).version
  unfolding recover_from
  recover_some-version now sid s₁ s₂ later base grown same =
      let (_, v, _, d) = rw (build_snapshot_full-eq store hash_snapshot laws now sid s₁) at same in
      let t = fresh (ids (fresh [] (store.list_of sid s₁))) later in
      let whole = counted_grown store hash_snapshot laws sid s₁ s₂ later grown in
      rw
        (
          build_snapshot_full-eq store hash_snapshot laws now sid s₂,
          v,
          d,
          tail-eq store hash_snapshot laws sid s₁ s₂ later grown,
          stable_sort_events_of_IsSorted t
              (added-IsSorted store hash_snapshot laws sid s₁ s₂ later grown),
        )
        (recover_loop-version _ _ _ _ t
          ∙ rw
              (
                keys-entries (fresh [] (store.list_of sid s₁)),
                unseen_known_none _ t (All-fresh_unseen _ later),
                whole,
              )
              (sym (length-append (fresh [] (store.list_of sid s₁)) t)))

  -- In a list with a repeated id, `recover` without a snapshot counts more events than a snapshot
  -- of all events does.
  pub recover_counts_repeats :
      (now : ℕ) (sid : String) (s : S) (xs ys : List V2Event) (e : V2Event)
      → store.list_of sid s ≡ xs ++ (e ∷ ys)
      → mem e.event_id (ids xs) ≡ true
      → (build_snapshot_full store hash_snapshot now sid s).version
        < (recover_from store sid none s).0.version
  recover_counts_repeats now sid s xs ys e listed again =
      rw
        (
          build_snapshot_full-eq store hash_snapshot laws now sid s,
          recover_none-version sid s,
          listed,
        )
        (length-fresh-lt xs ys e again)
