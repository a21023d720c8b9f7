-- ===== src/Api/GateB/Laws.antt =====
-- api/v2/gate_b.py: what a request that becomes a command is like.
use demobot.Api.GateB.{
  Command, Envelope, apply_workflow_legality, validate_payload, mode_of, dict_of, is_strict,
}
use demobot.Json.{Json, str, Fields, dict}
use demobot.Base.{Dict, String, [], false, lookup, some, ◌∷◌, ◌≡◌, ◌⊎◌, none}

module _ (show : Json → String) (upper : String → String) where
  -- What a command says of its request.
  abbrev pub IsCommandOf : Dict Json → Command → Type 0
  IsCommandOf req c =
      (lookup "schema_version" req ≡ some (str "1.0"))
      × (lookup "kind" req ≡ some (str "INGEST_QUOTE"))
      × (c.command_kind ≡ "INGEST_QUOTE")
      × ((fs : Fields) × (lookup "payload" req ≡ some (dict fs)) × (c.payload ≡ dict_of fs))
      × (apply_workflow_legality show upper c.payload ≡ none)
      × (((validate_payload show "INGEST_QUOTE" c.payload ≡ none) × (c.warnings ≡ []))
          ⊎ ((e : Envelope) × (validate_payload show "INGEST_QUOTE" c.payload ≡ some e)
              × (is_strict show upper (mode_of show req) ≡ false)
              × (c.warnings ≡ e ∷ [])))
