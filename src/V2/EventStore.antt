-- ===== src/V2/EventStore.antt =====
-- core/v2/event_store.py, the protocol `EventStore`: what the orchestrator asks of a store, and the
-- laws that both implementations satisfy.
pub mod Tail
pub mod Memory
pub mod Sqlite
use demobot.Base.{
  ℕ, ◌+◌, ◌≡◌, ◌≢◌, String, Bool, true, false, List, [], ◌∷◌, ◌++◌, All, drop, length,
}
use demobot.V2.Model.{V2Event, EventConflict, ids}
use demobot.V2.Ordering.Laws.{◌≼◌, IsSorted}
use demobot.V2.Fresh.{fresh}

-- What a call of `append` comes to: a new row, the same event again, or `EventConflictError`.
pub data Append : Type 0 where
  stored duplicate : Append
  refused : EventConflict → Append

pub record EventStore (S : Type 0) : Type 0 where
  pub append : ℕ → V2Event → S → Append × S
  pub list_of : String → S → List V2Event
  pub list_after_version : String → ℕ → S → List V2Event

-- What an append does to the events of each session.
pub record IsEventStore {S : Type 0} (store : EventStore S) : Type 0 where
  pub list-IsSorted : (sid : String) (s : S) → IsSorted (store.list_of sid s)
  pub list_after :
      (sid : String) (v : ℕ) (s : S)
      → store.list_after_version sid v s ≡ drop v (fresh [] (store.list_of sid s))
  -- An event that belongs last is listed last.
  pub append_last :
      (now : ℕ) (e : V2Event) (s : S)
      → (store.append now e s).0 ≡ stored
      → All (λ x. x ≼ e) (store.list_of e.session_id s)
      → store.list_of e.session_id (store.append now e s).1
        ≡ store.list_of e.session_id s ++ (e ∷ [])
  pub append_other :
      (now : ℕ) (e : V2Event) (s : S) (sid : String)
      → e.session_id ≢ sid
      → store.list_of sid (store.append now e s).1 ≡ store.list_of sid s
  pub append_unstored :
      (now : ℕ) (e : V2Event) (s : S)
      → (store.append now e s).0 ≢ stored
      → (store.append now e s).1 ≡ s
