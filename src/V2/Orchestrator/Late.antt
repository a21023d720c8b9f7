-- ===== src/V2/Orchestrator/Late.antt =====
-- core/v2/orchestrator.py: what becomes of an event that arrives after a snapshot was taken and
-- belongs before the events of that snapshot.
use demobot.V2.Replay.Laws.{replay_into-eq-append}
use demobot.V2.Orchestrator.Delta.{build_snapshot_cases, build_snapshot_full-eq}
use demobot.V2.Orchestrator.Loops.{id_set-eq, length-ids, version_loop-eq}
use demobot.V2.EventStore.{EventStore, IsEventStore}
use demobot.V2.Ordering.{stable_sort_events}
use demobot.V2.Fresh.{All-mem-ids, entries, fresh_all, entries_nil, fresh_known, keys-entries}
use demobot.Json.{Json}
use demobot.V2.Ordering.Laws.{All-stable_sort_events}
use demobot.V2.Model.{IsDistinct, Snapshot, V2Event, ids}
use demobot.V2.Orchestrator.Building.{
  build_snapshot, build_snapshot_full, ok, build_snapshot_delta, id_set,
}
use demobot.Base.{
  All, All-drop, Dict, List, String, contains, drop, false, length, mem, some, true, ℕ, ◌+◌, ◌∙◌,
  ◌∷◌, ◌≡◌, [], ap, append-nil, arith, contains-eq-mem-keys, inl, inr, keys, suc,
}

module _ {S : Type 0} (store : EventStore S) (hash_snapshot : Dict Json → String)
    (laws : IsEventStore store) (sid : String) (s : S) (late : V2Event) (x : V2Event)
    (xs : List V2Event) (listed : store.list_of sid s ≡ late ∷ x ∷ xs)
    (distinct : IsDistinct (late ∷ x ∷ xs)) where
  open laws use {list-IsSorted, list_after}

  tail_of_known : store.list_after_version sid (length (x ∷ xs)) s ≡ drop (length xs) (x ∷ xs)
  tail_of_known =
      list_after sid (length (x ∷ xs)) s ∙ rw (listed, fresh_all (late ∷ x ∷ xs) distinct)

  sorted_tail_known :
      All
        (λ e. mem e.event_id (ids (x ∷ xs)) ≡ true)
        (stable_sort_events (drop (length xs) (x ∷ xs)))
  sorted_tail_known =
      All-stable_sort_events (λ e. mem e.event_id (ids (x ∷ xs)) ≡ true) (drop (length xs) (x ∷ xs))
        (All-drop (λ e. mem e.event_id (ids (x ∷ xs)) ≡ true) (length xs) (x ∷ xs)
          (All-mem-ids (x ∷ xs)))

  max_seq : length (id_set [] (store.list_of sid s)) ≡ suc (length (x ∷ xs))
  max_seq =
      rw (id_set-eq [] (store.list_of sid s), listed, fresh_all (late ∷ x ∷ xs) distinct)
        (length-ids (late ∷ x ∷ xs))

  full_version :
      (now : ℕ)
      → (build_snapshot_full store hash_snapshot now sid s).version ≡ suc (length (x ∷ xs))
  full_version now =
      rw (build_snapshot_full-eq store hash_snapshot laws now sid s, listed)
        (ap length (fresh_all (late ∷ x ∷ xs) distinct))

  delta_unchanged :
      (now : ℕ) (base : Snapshot)
      → base.version ≡ length (x ∷ xs)
      → base.data_of ≡ entries (x ∷ xs)
      → ((build_snapshot_delta store hash_snapshot now sid base s).version ≡ base.version)
        × ((build_snapshot_delta store hash_snapshot now sid base s).data_of ≡ base.data_of)
  unfolding build_snapshot_delta
  delta_unchanged now base v d =
      let t = stable_sort_events (drop (length xs) (x ∷ xs)) in
      let k = fresh_known (ids (x ∷ xs)) t sorted_tail_known in
      rw (v, d, tail_of_known)
        (
          rw
              (
                version_loop-eq (keys (entries (x ∷ xs))) (length (x ∷ xs)) t,
                keys-entries (x ∷ xs),
                k,
              )
              (omega arith),
          rw (replay_into-eq-append (entries (x ∷ xs)) t, keys-entries (x ∷ xs), k, entries_nil)
              (append-nil _),
        )

  -- If the base is the snapshot of all events but a late one that is now listed first,
  -- `build_snapshot` returns a snapshot with the base's version and data, which lacks the late
  -- event, although a build from all events counts it.
  pub build_snapshot_loses_late_event :
      (now : ℕ) (base : Snapshot)
      → base.version ≡ length (x ∷ xs)
      → base.data_of ≡ entries (x ∷ xs)
      → (snap : Snapshot) × (build_snapshot store hash_snapshot now sid (some base) s ≡ ok snap)
        × (snap.version ≡ base.version)
        × (snap.data_of ≡ base.data_of)
        × (contains late.event_id snap.data_of ≡ false)
        × ((build_snapshot_full store hash_snapshot now sid s).version ≡ snap.version + 1)
  build_snapshot_loses_late_event now base v d =
      let m = max_seq in
      let (same_version, same_data) = delta_unchanged now base v d in
      let full : (build_snapshot_full store hash_snapshot now sid s).version
          ≡ (build_snapshot_delta store hash_snapshot now sid base s).version + 1 =
        full_version now ∙ omega (arith, same_version) in
      elim (build_snapshot_cases store hash_snapshot laws now sid base s (omega arith)) [
        | inl (e, at_end) ↦ absurd (omega arith)
        | inr e ↦ (
          build_snapshot_delta store hash_snapshot now sid base s,
          e,
          same_version,
          same_data,
          rw (same_data, d, contains-eq-mem-keys late.event_id (entries (x ∷ xs)), keys-entries)
              distinct.0,
          full,
        )
      ]
