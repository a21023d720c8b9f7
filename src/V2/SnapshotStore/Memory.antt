-- ===== src/V2/SnapshotStore/Memory.antt =====
-- core/v2/snapshot_store.py, `InMemorySnapshotStore`: the snapshots by (session_id, version), and
-- the snapshot saved last for each session.
use demobot.V2.Model.{Snapshot}
use demobot.V2.SnapshotStore.{SnapshotStore}
use demobot.Base.{
  Bool, Dict, List, Option, String, [], arith, eq_iff, if◌then◌else◌, insert, lookup, lookup-insert,
  none, refl, some, str_eq, ℕ, ◌&&◌, ◌==◌, ◌∷◌, ◌≡◌,
}

pub record Saved : Type 0 where
  pub session_id : String
  pub version : ℕ
  pub snapshot : Snapshot

pub record Memory : Type 0 where
  pub store : List Saved
  pub latest_of : Dict Snapshot

unfoldable pub is_at : String → ℕ → Saved → Bool
is_at sid v s = str_eq s.session_id sid && s.version == v

-- `self._store[key] = snapshot`
unfoldable pub insert_at : String → ℕ → Snapshot → List Saved → List Saved
unfolding is_at
insert_at sid v snap [] = record { session_id = sid; version = v; snapshot = snap } ∷ []
insert_at sid v snap (s ∷ ss) =
    if is_at sid v s
    then record { session_id = s.session_id; version = s.version; snapshot = snap } ∷ ss
    else s ∷ insert_at sid v snap ss

unfoldable pub lookup_at : String → ℕ → List Saved → Option Snapshot
unfolding is_at
lookup_at sid v [] = none
lookup_at sid v (s ∷ ss) = if is_at sid v s then some s.snapshot else lookup_at sid v ss

unfoldable pub save : Snapshot → Memory → Memory
unfolding insert_at
save snap m = record {
  store = insert_at snap.session_id snap.version snap m.store;
  latest_of = insert snap.session_id snap m.latest_of;
}

unfoldable pub get_at : String → ℕ → Memory → Option Snapshot
unfolding lookup_at
get_at sid v m = lookup_at sid v m.store

unfoldable pub latest : String → Memory → Option Snapshot
latest sid m = lookup sid m.latest_of

abbrev pub memory_snapshots : SnapshotStore Memory
memory_snapshots = record { save = save; latest = latest }

lookup_at-insert_at :
    (sid : String) (v : ℕ) (snap : Snapshot) (ss : List Saved) (sid' : String) (v' : ℕ)
    → lookup_at sid' v' (insert_at sid v snap ss)
      ≡ (if str_eq sid sid' && v == v' then some snap else lookup_at sid' v' ss)
unfolding lookup_at insert_at
lookup_at-insert_at sid v snap [] sid' v' = refl
lookup_at-insert_at sid v snap (s ∷ ss) sid' v' = ground (
  arith,
  lookup_at-insert_at sid v snap ss sid' v',
  eq_iff s.session_id sid,
  eq_iff s.session_id sid',
  eq_iff sid sid',
)

-- A saved snapshot is the one that is found at its version and the latest one of its session; every
-- other version, and every other session, is as before.
pub save_lem :
    (snap : Snapshot) (m : Memory) (sid : String) (v : ℕ)
    → (get_at sid v (save snap m)
        ≡ (if str_eq snap.session_id sid && snap.version == v then some snap else get_at sid v m))
      × (latest sid (save snap m)
          ≡ (if str_eq snap.session_id sid then some snap else latest sid m))
unfolding save get_at latest
save_lem snap m sid v = (
  lookup_at-insert_at snap.session_id snap.version snap m.store sid v,
  lookup-insert snap.session_id sid snap m.latest_of,
)
