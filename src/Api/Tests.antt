-- ===== src/Api/Tests.antt =====
-- Concrete requests of api/v2/gate_b.py, and the theorems at them.
use demobot.Api.GateB.Unhashable.{is_container, map_api_to_command-type_error}
use demobot.V2.Ordering.{stable_sort_events}
use demobot.V2.Orchestrator.Runtime.{current_state}
use demobot.V2.Orchestrator.Ingestion.{InSync}
use demobot.Api.Service.Laws.{ingest-InSync, is_early}
use demobot.Api.Service.{Service, open_service, ingest}
use demobot.V2.SnapshotStore.Sqlite.{sqlite_snapshots}
use demobot.V2.EventStore.Sqlite.{list_of, select_session}
use demobot.Api.GateB.{Command, mode_of}
use demobot.Api.GateB.{map_api_to_command, type_error}
use demobot.Base.{
  false, Dict, String, [], refl, ◌∷◌, ◌≡◌, ◌⊎◌, lookup, mem, Option, contains, none, some, true,
}
use demobot.Json.{Json, dict, end, field, int, list, nil, pos, str, null}

abbrev shown : Json → String
shown v = "shown"

-- on texts that are in upper case already
abbrev upper_case : String → String
upper_case s = s

abbrev request : Dict Json
request =
    ("schema_version", str "1.0")
    ∷ ("kind", str "INGEST_QUOTE")
    ∷ ("payload", dict (field "symbol" (str "EUR") (field "price" (int (pos 3)) end)))
    ∷ []

abbrev accepted_command : Command
accepted_command = record {
  command_kind = "INGEST_QUOTE";
  schema_version = str "1.0";
  payload = ("symbol", str "EUR") ∷ ("price", int (pos 3)) ∷ [];
  warnings = [];
}

abbrev listed_version : Dict Json
listed_version = ("schema_version", list nil) ∷ []

map_api_to_command-type_error_example :
    (map_api_to_command shown upper_case listed_version ≡ type_error
      → ((v : Json) × (lookup "schema_version" listed_version ≡ some v) × (is_container v ≡ true))
        ⊎ (is_container (mode_of shown listed_version) ≡ true))
    × ((v : Json)
        → lookup "schema_version" listed_version ≡ some v
        → is_container v ≡ true
        → map_api_to_command shown upper_case listed_version ≡ type_error)
map_api_to_command-type_error_example =
    map_api_to_command-type_error shown upper_case listed_version

abbrev service : Service
service = open_service (("s", 0) ∷ []) [] []

abbrev digest : Dict Json → String
digest d = "digest"

abbrev no_market : String → Json → Option String
no_market type payload = none

ingest-InSync_example :
    let r =
      ingest shown digest no_market 1 2 3 "u" "s"
        (some "a")
        (some 1)
        "QUOTE_INGESTED"
        null
        service in
    InSync sqlite_snapshots digest "s" r.1.orchestrator × ((is_early r.0 ≡ false) ⊎ (r.1 ≡ service))
unfolding open_service current_state contains list_of select_session stable_sort_events lookup mem
ingest-InSync_example =
    ingest-InSync shown digest no_market 1 2 3 "u" "s" (some "a") (some 1) "QUOTE_INGESTED" null
      service "s" (refl, λ k. refl) (refl, λ k. refl)
