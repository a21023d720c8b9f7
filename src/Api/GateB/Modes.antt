-- ===== src/Api/GateB/Modes.antt =====
-- api/v2/gate_b.py: how the two validation modes compare.
use demobot.Api.GateB.{
  Command, Envelope, Gate, Mapped, bind, check_kind, check_payload, check_schema_version, fail,
  pass,
}
use demobot.Json.{Json, str}
use demobot.Base.{Bool, Dict, String, [], false, insert, lookup, str_eq, ◌∷◌, ◌≡◌, ◌⊎◌}

module _ (show : Json → String) (upper : String → String) where
  -- `req` with the given validation mode
  abbrev pub with_mode : String → Dict Json → Dict Json
  with_mode mode req = insert "validation_mode" (str mode) req

  -- the checks that no mode changes, with what they yield
  abbrev parsed_as : String → Dict Json → Gate Mapped
  parsed_as mode req = bind (check_schema_version show (lookup "schema_version" req)) (λ v.
      bind (check_kind show (lookup "kind" req)) (λ k.
        bind (check_payload show (lookup "payload" req)) (λ p.
          pass (record { kind = k; schema_version = v; payload = p; validation_mode = str mode }))))

  -- What the lenient mode makes of the envelope that the strict mode raises.
  abbrev pub Downgrades : Gate Command → Gate Command → Type 0
  Downgrades s l =
      (e : Envelope) × (s ≡ fail e)
      × (e.category ≡ "validation")
      × (((c : Command) × (l ≡ pass c) × (c.warnings ≡ e ∷ []))
          ⊎ ((e' : Envelope) × (l ≡ fail e') × (e'.category ≡ "legality")))

  -- The envelope of a payload that is not valid.
  abbrev is_validation : {A : Type 0} → Gate A → Bool
  is_validation (fail e) = str_eq e.category "validation"
  is_validation _ = false

  -- Both modes come to the same, which is not such an envelope.
  abbrev pub Agrees : Gate Command → Gate Command → Type 0
  Agrees s l = (s ≡ l) × (is_validation s ≡ false)
