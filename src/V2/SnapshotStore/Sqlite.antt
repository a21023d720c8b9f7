-- ===== src/V2/SnapshotStore/Sqlite.antt =====
-- core/v2/snapshot_store_sqlite.py and the `snapshots` table of core/v2/sqlite_schema.py, whose
-- PRIMARY KEY is (session_id, version). A row holds the fields of a `Snapshot`. Its `data_json` is text, by
-- json.dumps with sorted keys; the row here holds the value, so that what is read back has its keys in
-- the order of the snapshot that was stored, where the source has them sorted.
pub mod Laws
use demobot.V2.Model.{Snapshot}
use demobot.V2.SnapshotStore.{SnapshotStore}
use demobot.V2.SnapshotStore.Memory.{latest, save}
use demobot.Base.{
  Bool, List, Option, String, [], if◌then◌else◌, leb, ltb, none, some, str_eq, true, ℕ, ◌&&◌, ◌++◌,
  ◌==◌, ◌∷◌,
}

abbrev pub Table : Type 0
Table = List Snapshot

unfoldable pub is_at : String → ℕ → Snapshot → Bool
is_at sid v s = str_eq s.session_id sid && s.version == v

unfoldable pub find_at : String → ℕ → Table → Option Snapshot
unfolding is_at
find_at sid v [] = none
find_at sid v (s ∷ t) = if is_at sid v s then some s else find_at sid v t

-- `INSERT ... ON CONFLICT(session_id, version) DO NOTHING`
unfoldable pub put : Snapshot → Table → Table
unfolding find_at
put snap t = elim (find_at snap.session_id snap.version t) [ none ↦ t ++ (snap ∷ []) | some _ ↦ t ]

-- `ORDER BY version DESC LIMIT 1` over the rows of a session that `keep` lets through
unfoldable pub greatest : (ℕ → Bool) → String → Table → Option Snapshot
greatest keep sid [] = none
greatest keep sid (s ∷ t) =
    if str_eq s.session_id sid && keep s.version
    then elim (greatest keep sid t) [
      | none ↦ some s
      | some best ↦ if ltb s.version best.version then some best else some s
    ]
    else greatest keep sid t

-- `latest` is an alias
unfoldable pub get_latest : String → Table → Option Snapshot
unfolding greatest
get_latest sid t = greatest (λ _. true) sid t

unfoldable pub get_at_or_before : String → ℕ → Table → Option Snapshot
unfolding greatest
get_at_or_before sid v t = greatest (λ k. leb k v) sid t

abbrev pub sqlite_snapshots : SnapshotStore Table
sqlite_snapshots = record { save = put; latest = get_latest }
