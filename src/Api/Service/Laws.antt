-- ===== src/Api/Service/Laws.antt =====
-- api/v2/service_sqlite.py: the service keeps the live states in sync with the events.
use demobot.V2.EventStore.Sqlite.Appending.{append_idempotent}
use demobot.V2.Orchestrator.Runtime.{Runtime, ingest_event}
use demobot.Api.Service.{
  Reply, Service, finish, ingest, ingest_checked, market_data, missing_event_ts, raised,
  session_not_found,
}
use demobot.V2.Model.{SessionState, V2Event}
use demobot.V2.Orchestrator.Building.{Result, err, ok}
use demobot.Base.{
  Bool, Bool-cases, Dict, Option, String, ap, arith, false, inl, inr, refl, true, ℕ, ◌≡◌, ◌⊎◌,
  contains, Option-cases,
}
use demobot.V2.Orchestrator.Ingestion.{
  Append-cases, InSync, ingest_taken, taken_states-Counts, unchanged,
}
use demobot.Json.{Json}
use demobot.V2.EventStore.Sqlite.{append, sqlite_store}
use demobot.V2.EventStore.Sqlite as Events
use demobot.V2.SnapshotStore.Sqlite as Snapshots
use demobot.V2.SnapshotStore.Sqlite.{sqlite_snapshots}
use demobot.V2.EventStore.{duplicate, stored}

finish_runtime :
    (applied : Bool) (r : Result SessionState × Runtime Events.Table Snapshots.Table) (s : Service)
    → (finish applied r s).1.orchestrator ≡ r.1
finish_runtime applied (ok st, rt) s = refl
finish_runtime applied (err f, rt) s = refl

-- The refusals before the append.
abbrev pub is_early : Reply (ℕ × Bool) → Bool
is_early (raised session_not_found) = true
is_early (raised (market_data m)) = true
is_early (raised missing_event_ts) = true
is_early _ = false

finish_late :
    (applied : Bool) (r : Result SessionState × Runtime Events.Table Snapshots.Table) (s : Service)
    → is_early (finish applied r s).0 ≡ false
finish_late applied (ok st, rt) s = refl
finish_late applied (err f, rt) s = refl

module _ (hash_payload : Json → String) (hash_snapshot : Dict Json → String)
    (check_market : String → Json → Option String) where
  -- The event is appended twice; the second append finds it there.
  appended_twice-InSync :
      (now₁ now₂ later : ℕ) (e : V2Event) (rt : Runtime Events.Table Snapshots.Table) (sid : String)
      → InSync sqlite_snapshots hash_snapshot e.session_id rt
      → InSync sqlite_snapshots hash_snapshot sid rt
      → ((append now₁ e rt.store).0 ≡ stored) ⊎ ((append now₁ e rt.store).0 ≡ duplicate)
      → InSync sqlite_snapshots hash_snapshot sid
          (ingest_event sqlite_store sqlite_snapshots hash_snapshot now₂ later e
            (record rt { store = (append now₁ e rt.store).1 })).1
  appended_twice-InSync now₁ now₂ later e rt sid own other h =
      let again = append_idempotent now₁ now₂ e rt.store h in
      let rt' = record rt { store = (append now₁ e rt.store).1 } in
      let (states, store) =
        ingest_taken sqlite_snapshots hash_snapshot now₂ later e rt' (inr (ap (λ r. r.0) again)) in
      rw (states, store, again)
        (taken_states-Counts now₁ e rt.session_states rt.store sid own other h)

  -- Whatever the service answers or raises, sessions that were in sync with the store stay in sync,
  -- provided that the session of the event was.
  pub ingest_checked-InSync :
      (now₁ now₂ later : ℕ) (e : V2Event) (s : Service) (sid : String)
      → InSync sqlite_snapshots hash_snapshot e.session_id s.orchestrator
      → InSync sqlite_snapshots hash_snapshot sid s.orchestrator
      → InSync sqlite_snapshots hash_snapshot sid
          (ingest_checked hash_payload hash_snapshot check_market now₁ now₂ later e
            s).1.orchestrator
  unfolding ingest_checked
  ingest_checked-InSync now₁ now₂ later e s sid own other =
      elim (Append-cases (append now₁ e s.orchestrator.store).0) [
        | inl (inl h) ↦
            rw (h, ingest_checked)
              (rw (finish_runtime true _ _)
                (appended_twice-InSync now₁ now₂ later e s.orchestrator sid own other (inl h)))
        | inl (inr h) ↦
            rw (h, ingest_checked)
              (rw (finish_runtime false _ _)
                (appended_twice-InSync now₁ now₂ later e s.orchestrator sid own other (inr h)))
        | inr (c, h) ↦
            rw (h, ingest_checked) (rw (unchanged now₁ e s.orchestrator.store (ground arith)) other)
      ]

  ingest_checked_late :
      (now₁ now₂ later : ℕ) (e : V2Event) (s : Service)
      → is_early (ingest_checked hash_payload hash_snapshot check_market now₁ now₂ later e s).0
        ≡ false
  unfolding ingest_checked
  ingest_checked_late now₁ now₂ later e s =
      elim (Append-cases (append now₁ e s.orchestrator.store).0) [
        | inl (inl h) ↦ rw (h, ingest_checked) (finish_late true _ _)
        | inl (inr h) ↦ rw (h, ingest_checked) (finish_late false _ _)
        | inr (c, h) ↦ rw (h, ingest_checked) refl
      ]

  -- Whatever `ingest_event` of the service answers or raises, sessions that were in sync with the store stay
  -- in sync, provided that the session of the event was. And a call that is refused before the append, for an unknown session, by the market-data
  -- check, or for a missing ts, leaves the whole service as it was.
  pub ingest-InSync :
      (now₁ now₂ later : ℕ) (uuid sid : String) (event_id : Option String) (ts : Option ℕ)
      (type : String) (payload : Json) (s : Service) (other : String)
      → InSync sqlite_snapshots hash_snapshot sid s.orchestrator
      → InSync sqlite_snapshots hash_snapshot other s.orchestrator
      → let r =
          ingest hash_payload hash_snapshot check_market now₁ now₂ later uuid sid event_id ts type
            payload s in
        InSync sqlite_snapshots hash_snapshot other r.1.orchestrator
        × ((is_early r.0 ≡ false) ⊎ (r.1 ≡ s))
  unfolding ingest
  ingest-InSync now₁ now₂ later uuid sid event_id ts type payload s other own h =
      elim (Bool-cases (contains sid s.session_store)) [
        | inr c ↦ rw (c, ingest) (h, inr refl)
        | inl c ↦ elim (Option-cases (check_market type payload)) [
          | inr (m, r) ↦ rw (c, ingest) (rw r (h, inr refl))
          | inl r ↦ elim (Option-cases ts) [
            | inl t ↦ rw (c, ingest) (rw r (rw t (h, inr refl)))
            | inr (t, e) ↦
                rw (c, ingest)
                  (rw r (
                    rw e (
                      ingest_checked-InSync now₁ now₂ later _ s other own h,
                      inl (ingest_checked_late now₁ now₂ later _ s),
                    )))
          ]
        ]
      ]
