-- ===== src/Api/GateB/Unhashable.antt =====
-- api/v2/gate_b.py: the requests that raise a `TypeError` instead of an envelope.
use demobot.Json.{Json, bool, dict, float, int, list, null, str}
use demobot.Base.{
  Bool, Dict, List, Option, Option-cases, String, [], arith, false, if◌then◌else◌, inl, inr, lookup,
  none, refl, some, true, ◌∷◌, ◌≡◌, ◌≢◌, ◌⊎◌,
}
use demobot.Api.GateB.{
  Envelope, Gate, Mapped, apply_workflow_legality, bind, check_kind, check_mapped, check_payload,
  check_schema_version, check_validation_mode, fail, finish, in_set, map_api_to_command, mode_of,
  parse_request, pass, type_error, validate_payload,
}

bind-type_error :
    {A B : Type 0} (g : Gate A) (f : A → Gate B)
    → bind g f ≡ type_error
    → (g ≡ type_error) ⊎ ((a : A) × (g ≡ pass a) × (f a ≡ type_error))
unfolding bind
bind-type_error (pass a) f h = inr (a, refl, h)
bind-type_error (fail e) f h = absurd (ground arith)
bind-type_error type_error f h = inl refl

-- A JSON array or object, which Python cannot hash.
abbrev pub is_container : Json → Bool
is_container (list l) = true
is_container (dict d) = true
is_container _ = false

in_set-type_error :
    (v : Json) (texts : List String) → in_set v texts ≡ type_error → is_container v ≡ true
unfolding in_set
in_set-type_error null texts h = absurd (ground arith)
in_set-type_error (bool b) texts h = absurd (ground arith)
in_set-type_error (int z) texts h = absurd (ground arith)
in_set-type_error (float f) texts h = absurd (ground arith)
in_set-type_error (str s) texts h = absurd (ground arith)
in_set-type_error (list l) texts h = refl
in_set-type_error (dict d) texts h = refl

in_set_container :
    (v : Json) (texts : List String) → is_container v ≡ true → in_set v texts ≡ type_error
unfolding in_set
in_set_container null texts h = absurd (ground arith)
in_set_container (bool b) texts h = absurd (ground arith)
in_set_container (int z) texts h = absurd (ground arith)
in_set_container (float f) texts h = absurd (ground arith)
in_set_container (str s) texts h = absurd (ground arith)
in_set_container (list l) texts h = refl
in_set_container (dict d) texts h = refl

-- A choice between two outcomes that are no `TypeError` is none.
no_type_error :
    {A : Type 0} (b : Bool) (x : A) (e : Envelope) → (if b then pass x else fail e) ≢ type_error
no_type_error true x e h = ground arith
no_type_error false x e h = ground arith

module _ (show : Json → String) (upper : String → String) where
  version-type_error :
      (found : Option Json)
      → check_schema_version show found ≡ type_error
      → (v : Json) × (found ≡ some v) × (is_container v ≡ true)
  unfolding check_schema_version
  version-type_error none h = absurd (ground arith)
  version-type_error (some v) h = elim (bind-type_error (in_set v ("1.0" ∷ [])) _ h) [
    | inl e ↦ (v, refl, in_set-type_error v ("1.0" ∷ []) e)
    | inr (known, _, e) ↦ absurd (no_type_error known v _ e)
  ]

  kind_never : (found : Option Json) → check_kind show found ≢ type_error
  unfolding check_kind
  kind_never none h = ground arith
  kind_never (some (str s)) h = ground arith
  kind_never (some null) h = ground arith
  kind_never (some (bool b)) h = ground arith
  kind_never (some (int z)) h = ground arith
  kind_never (some (float f)) h = ground arith
  kind_never (some (list l)) h = ground arith
  kind_never (some (dict d)) h = ground arith

  mode-type_error :
      (mode : Json) → check_validation_mode show mode ≡ type_error → is_container mode ≡ true
  unfolding check_validation_mode
  mode-type_error mode h = elim (bind-type_error (in_set mode ("strict" ∷ "lenient" ∷ [])) _ h) [
    | inl e ↦ in_set-type_error mode ("strict" ∷ "lenient" ∷ []) e
    | inr (known, _, e) ↦ absurd (no_type_error known mode _ e)
  ]

  payload_never : (found : Option Json) → check_payload show found ≢ type_error
  unfolding check_payload
  payload_never none h = ground arith
  payload_never (some (str s)) h = ground arith
  payload_never (some null) h = ground arith
  payload_never (some (bool b)) h = ground arith
  payload_never (some (int z)) h = ground arith
  payload_never (some (float f)) h = ground arith
  payload_never (some (list l)) h = ground arith
  payload_never (some (dict d)) h = ground arith

  mapped_never : (m : Mapped) → check_mapped show upper m ≢ type_error
  unfolding check_mapped finish
  mapped_never m h = elim (Option-cases (apply_workflow_legality show upper m.payload)) [
    | inl l ↦ elim (Option-cases (validate_payload show m.kind m.payload)) [
      | inl v ↦ ground arith
      | inr (e, v) ↦ ground arith
    ]
    | inr (e, l) ↦ elim (Option-cases (validate_payload show m.kind m.payload)) [
      | inl v ↦ ground arith
      | inr (e, v) ↦ ground arith
    ]
  ]

  -- A `TypeError` comes only of a schema version or a validation mode that is a JSON array or object,
  -- and such a schema version always raises it.
  pub map_api_to_command-type_error :
      (req : Dict Json)
      → (map_api_to_command show upper req ≡ type_error
          → ((v : Json) × (lookup "schema_version" req ≡ some v) × (is_container v ≡ true))
            ⊎ (is_container (mode_of show req) ≡ true))
        × ((v : Json)
            → lookup "schema_version" req ≡ some v
            → is_container v ≡ true
            → map_api_to_command show upper req ≡ type_error)
  unfolding map_api_to_command parse_request check_schema_version bind
  map_api_to_command-type_error req = (
    λ h. elim (bind-type_error (parse_request show req) (check_mapped show upper) h) [
      | inr (m, _, e) ↦ absurd (mapped_never m e)
      | inl p ↦
          elim (bind-type_error (check_schema_version show (lookup "schema_version" req)) _ p) [
            | inl e ↦ inl (version-type_error (lookup "schema_version" req) e)
            | inr (v, _, p₁) ↦ elim (bind-type_error (check_kind show (lookup "kind" req)) _ p₁) [
              | inl e ↦ absurd (kind_never (lookup "kind" req) e)
              | inr (k, _, p₂) ↦
                  elim (bind-type_error (check_validation_mode show (mode_of show req)) _ p₂) [
                    | inl e ↦ inr (mode-type_error (mode_of show req) e)
                    | inr (m, _, p₃) ↦
                        elim (bind-type_error (check_payload show (lookup "payload" req)) _ p₃) [
                          | inl e ↦ absurd (payload_never (lookup "payload" req) e)
                          | inr (fs, _, p₄) ↦ absurd (ground arith)
                        ]
                  ]
            ]
          ]
    ],
    λ v found c. rw (found, in_set_container v ("1.0" ∷ []) c) refl,
  )
