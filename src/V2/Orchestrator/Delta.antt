-- ===== src/V2/Orchestrator/Delta.antt =====
-- Snapshots of core/v2/orchestrator.py that are built from an earlier one agree with those that are
-- built from all events, as long as the newer events belong behind the older ones.
use demobot.V2.Replay.Laws.{replay_into-eq-append}
use demobot.Json.{Json}
use demobot.V2.EventStore.{EventStore, IsEventStore}
use demobot.V2.Orchestrator.Building.{
  build_snapshot_full, build_snapshot_delta, build_snapshot, id_set, ok, Result, err,
  snapshot_ahead,
}
use demobot.V2.Orchestrator.Loops.{
  IsSorted-append_right, full_loop-eq, version_loop-eq, id_set-eq, keys_nil, length-ids,
}
use demobot.V2.Model.{Snapshot, V2Event, ids}
use demobot.V2.Ordering.Laws.{IsSorted, stable_sort_events_of_IsSorted}
use demobot.Base.{
  Dict, List, String, [], arith, drop-append, keys, length, ℕ, ◌++◌, ◌∙◌, ◌≡◌, length-append, ap,
  append-nil, some, if◌then◌else◌, inl, inr, ltb, refl, sym, ◌&&◌, ◌==◌, ◌∷◌, ◌≤◌, ◌⊎◌,
}
use mathlib.Core.Path.{subst}
use demobot.V2.Fresh.{
  entries, fresh, fresh-append, fresh_idem, keys-entries, entries-append, fresh-IsSorted,
}

-- Equal but for the time of creation.
abbrev pub SameSnapshot : Snapshot → Snapshot → Type 0
SameSnapshot a b =
    (a.session_id ≡ b.session_id)
    × (a.version ≡ b.version)
    × (a.state_hash ≡ b.state_hash)
    × (a.data_of ≡ b.data_of)

same_of_eq : (a b : Snapshot) → a ≡ b → SameSnapshot a b
same_of_eq a b e = (cc, cc, cc, cc)

eq_nil_of_length : (xs : List V2Event) → length xs ≡ 0 → xs ≡ []
eq_nil_of_length [] h = refl
eq_nil_of_length (x ∷ xs) h = absurd (omega arith)

-- the tests of `build_snapshot`, over its numbers
branches :
    (n m : ℕ) (delta base : Snapshot)
    → base.version ≤ m
    → let r : Result Snapshot =
        (if ltb 0 n && base.version == m
          then ok base
          else if ltb 0 n && ltb m base.version
          then err (snapshot_ahead base.version m)
          else ok delta) in
      ((r ≡ ok base) × (base.version ≡ m)) ⊎ (r ≡ ok delta)
branches n m delta base h = ground arith

module _ {S : Type 0} (store : EventStore S) (hash_snapshot : Dict Json → String)
    (laws : IsEventStore store) where
  open laws use {list-IsSorted, list_after}

  -- the events of a session that count
  abbrev pub counted : String → S → List V2Event
  counted sid s = fresh [] (store.list_of sid s)

  -- A snapshot of all events has an entry for each event that counts, and their number as version.
  pub build_snapshot_full-eq :
      (now : ℕ) (sid : String) (s : S)
      → build_snapshot_full store hash_snapshot now sid s ≡ record {
        session_id = sid;
        version = length (counted sid s);
        created_at = now;
        state_hash = hash_snapshot (entries (counted sid s));
        data_of = entries (counted sid s);
      }
  unfolding build_snapshot_full
  build_snapshot_full-eq now sid s =
      rw
        (
          stable_sort_events_of_IsSorted (store.list_of sid s) (list-IsSorted sid s),
          full_loop-eq [] [] 0 (store.list_of sid s) keys_nil,
        )
        (ground arith)

  -- With a base that is not ahead of the events, `build_snapshot` returns it or builds on it.
  pub build_snapshot_cases :
      (now : ℕ) (sid : String) (base : Snapshot) (s : S)
      → base.version ≤ length (id_set [] (store.list_of sid s))
      → ((build_snapshot store hash_snapshot now sid (some base) s ≡ ok base)
          × (base.version ≡ length (id_set [] (store.list_of sid s))))
        ⊎ (build_snapshot store hash_snapshot now sid (some base) s
            ≡ ok (build_snapshot_delta store hash_snapshot now sid base s))
  unfolding build_snapshot
  build_snapshot_cases now sid base s h =
      branches (length (store.list_of sid s)) (length (id_set [] (store.list_of sid s)))
        (build_snapshot_delta store hash_snapshot now sid base s) base h

  module _ (sid : String) (s₁ s₂ : S) (later : List V2Event)
      (grown : store.list_of sid s₂ ≡ store.list_of sid s₁ ++ later) where
    -- what the later events add
    abbrev pub added : List V2Event
    added = fresh (ids (counted sid s₁)) later

    pub counted_grown : counted sid s₂ ≡ counted sid s₁ ++ added
    counted_grown = rw grown (fresh-append [] (store.list_of sid s₁) later)

    later-IsSorted : IsSorted later
    later-IsSorted =
        IsSorted-append_right (store.list_of sid s₁) later
          (subst IsSorted grown (list-IsSorted sid s₂))

    pub added-IsSorted : IsSorted added
    added-IsSorted = fresh-IsSorted (ids (counted sid s₁)) later later-IsSorted

    pub tail-eq : store.list_after_version sid (length (counted sid s₁)) s₂ ≡ added
    tail-eq =
        list_after sid (length (counted sid s₁)) s₂
        ∙ rw counted_grown (drop-append (counted sid s₁) added)

    added_again : fresh (keys (entries (counted sid s₁))) added ≡ added
    added_again = rw (keys-entries (counted sid s₁)) (fresh_idem (ids (counted sid s₁)) later)

    delta-eq :
        (now : ℕ) (base : Snapshot)
        → base.version ≡ length (counted sid s₁)
        → base.data_of ≡ entries (counted sid s₁)
        → build_snapshot_delta store hash_snapshot now sid base s₂ ≡ record {
          session_id = sid;
          version = length (counted sid s₂);
          created_at = now;
          state_hash = hash_snapshot (entries (counted sid s₂));
          data_of = entries (counted sid s₂);
        }
    unfolding build_snapshot_delta
    delta-eq now base v d =
        let sorted = fresh-IsSorted (ids (counted sid s₁)) later later-IsSorted in
        rw (v, d, tail-eq, stable_sort_events_of_IsSorted added sorted)
          (rw (
            replay_into-eq-append (entries (counted sid s₁)) added,
            version_loop-eq (keys (entries (counted sid s₁))) (length (counted sid s₁)) added,
            added_again,
            ← entries-append (counted sid s₁) added,
            ← length-append (counted sid s₁) added,
            ← counted_grown,
          ))

    max_seq-eq : length (id_set [] (store.list_of sid s₂)) ≡ length (counted sid s₂)
    max_seq-eq = rw (id_set-eq [] (store.list_of sid s₂)) (length-ids (counted sid s₂))

    -- A base at the version of the newer store leaves nothing to add.
    nothing_added :
        length (counted sid s₁) ≡ length (counted sid s₂)
        → entries (counted sid s₂) ≡ entries (counted sid s₁)
    nothing_added e =
        let total = ap length counted_grown ∙ length-append (counted sid s₁) added in
        let none_left : added ≡ [] = eq_nil_of_length added (omega arith) in
        rw (counted_grown, none_left) (ap entries (append-nil (counted sid s₁)))

    -- If the base is the snapshot of an earlier state of the store and all newer events of the
    -- session belong behind the older ones, `build_snapshot` raises nothing and returns what a
    -- build from all events returns, but for the time of creation.
    pub build_snapshot_correct :
        (now before : ℕ) (base : Snapshot)
        → SameSnapshot base (build_snapshot_full store hash_snapshot before sid s₁)
        → (snap : Snapshot) × (build_snapshot store hash_snapshot now sid (some base) s₂ ≡ ok snap)
          × SameSnapshot snap (build_snapshot_full store hash_snapshot now sid s₂)
    build_snapshot_correct now before base same =
        let (i, v, h, d) = rw (build_snapshot_full-eq before sid s₁) at same in
        let total = ap length counted_grown ∙ length-append (counted sid s₁) added in
        rw (build_snapshot_full-eq now sid s₂)
          (elim (build_snapshot_cases now sid base s₂ (rw (max_seq-eq, v) (omega arith))) [
            | inl (e, m) ↦
                let n = nothing_added (sym v ∙ m ∙ max_seq-eq) in
                (base, e, (i, m ∙ max_seq-eq, h ∙ ap hash_snapshot (sym n), d ∙ sym n))
            | inr e ↦
                let (i', v', h', d') = same_of_eq _ _ (delta-eq now base v d) in
                (build_snapshot_delta store hash_snapshot now sid base s₂, e, (i', v', h', d'))
          ])
