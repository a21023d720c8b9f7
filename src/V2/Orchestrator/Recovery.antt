-- ===== src/V2/Orchestrator/Recovery.antt =====
-- core/v2/orchestrator.py, `recover`: the session state from the latest snapshot and the events
-- behind it, or from all events.
pub mod Laws
use demobot.V2.EventStore.{EventStore}
use demobot.V2.Ordering.{stable_sort_events}
use demobot.V2.Model.{AppliedEvent, SessionState, Snapshot, V2Event}
use demobot.Base.{
  Dict, List, Option, String, [], false, if◌then◌else◌, insert, keys, mem, none, some, str_leb,
  true, ℕ, ◌++◌, ◌+◌, ◌∷◌,
}

-- The loop of both branches of `recover`. It tests `seen`, and never adds to it.
unfoldable pub recover_loop :
    List String → ℕ → Dict ℕ → List AppliedEvent → List V2Event → ℕ × Dict ℕ × List AppliedEvent
recover_loop seen version applied log [] = (version, applied, log)
recover_loop seen version applied log (e ∷ es) =
    let skipped = recover_loop seen version applied log es in
    let taken =
      recover_loop seen (version + 1) (insert e.event_id (version + 1) applied)
        (log ++ (record { event = e; state_version = version + 1; applied_at = e.ts } ∷ [])) es in
    elim (mem e.event_id seen) [ true ↦ skipped | false ↦ taken ]

unfoldable pub insert_id : String → List String → List String
insert_id x [] = x ∷ []
insert_id x (y ∷ ys) = if str_leb x y then x ∷ y ∷ ys else y ∷ insert_id x ys

-- `sorted(seen)`
unfoldable pub sort_ids : List String → List String
unfolding insert_id
sort_ids [] = []
sort_ids (x ∷ xs) = insert_id x (sort_ids xs)

-- `dict((eid, i+1) for i, eid in enumerate(ids))`, from the number `i`
unfoldable pub number_from : ℕ → List String → Dict ℕ
number_from i [] = []
number_from i (x ∷ xs) = (x, i + 1) ∷ number_from (i + 1) xs

abbrev pub state_of : String → ℕ × Dict ℕ × List AppliedEvent → SessionState × List AppliedEvent
state_of sid (version, applied, log) =
    (record { session_id = sid; version = version; applied = applied }, log)

-- The state and the log that `recover` stores and returns, given the latest snapshot.
unfoldable pub recover_from :
    {S : Type 0} → EventStore S → String → Option Snapshot → S → SessionState × List AppliedEvent
unfolding sort_ids number_from
recover_from store sid none s =
    state_of sid (recover_loop [] 0 [] [] (stable_sort_events (store.list_of sid s)))
recover_from store sid (some base) s =
    let seen = keys base.data_of in
    let tail_events = store.list_after_version sid base.version s in
    state_of sid (
      recover_loop seen base.version (number_from 0 (sort_ids seen)) []
        (stable_sort_events tail_events))
