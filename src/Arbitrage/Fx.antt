-- ===== src/Arbitrage/Fx.antt =====
-- core/contracts/money.py and core/fx/converter.py, `FxConverter.convert` and `to_base`: amounts in a
-- currency, and their conversion to the base currency of the converter.
use Prim.Native.String.{◌++◌ as ◌+++◌}
use demobot.Arbitrage.Model.{Host, nought}
use demobot.Base.{
  Dict, Option, String, if◌then◌else◌, lookup, none, some, str_eq, not, ◌&&◌, inl, inr, refl, ◌≡◌,
  ◌⊎◌, ◌≢◌,
}

-- `ValueError` of `Money`, `MissingFxRateError`, `InvalidFxRateError` and the `ValueError` of `base_ccy`
pub data Fault : Type 0 where
  amount_not_finite invalid_currency missing_fx_rate invalid_fx_rate base_ccy_unset : Fault

pub data Outcome {ℓ} (A : Type ℓ) : Type ℓ where
  raised : Fault → Outcome A
  returned : A → Outcome A

pub Outcome-cases {ℓ} :
    {A : Type ℓ} (o : Outcome A)
    → ((fault : Fault) × (o ≡ raised fault)) ⊎ ((a : A) × (o ≡ returned a))
Outcome-cases (raised fault) = inl (fault, refl)
Outcome-cases (returned a) = inr (a, refl)

pub returned_inj {ℓ} : {A : Type ℓ} (a b : A) → returned a ≡ returned b → a ≡ b
returned_inj a b h = cc

pub raised-ne-returned {ℓ} : {A : Type ℓ} (fault : Fault) (b : A) → raised fault ≢ returned b
raised-ne-returned fault b h = cc

pub record Money (F : Type 0) : Type 0 where
  pub amount : F
  pub ccy : String

pub record FxConverter (F : Type 0) : Type 0 where
  pub rates : Dict F
  pub base_ccy : Option String

module _ {F : Type 0} (host : Host F) where
  open host use {equal, times, divided, is_finite, upper}

  -- `normalize_currency`, of a string
  unfoldable pub normalize_currency : String → Option String
  normalize_currency value =
      let code = upper value in
      if not (str_eq code "ILS") && not (str_eq code "USD") then none else some code

  -- `Money(amount=amount, ccy=ccy)`
  unfoldable pub money : F → String → Outcome (Money F)
  money amount ccy =
      if not (is_finite amount) then raised amount_not_finite else elim (normalize_currency ccy) [
        | none ↦ raised invalid_currency
        | some code ↦ returned (record { amount = amount; ccy = code })
      ]

  -- The strict mode, the only one that the orchestrator uses.
  unfoldable pub convert : FxConverter F → F → String → String → Outcome F
  convert converter amount from_ccy to_ccy =
      if str_eq from_ccy to_ccy
      then returned amount
      else elim (lookup (from_ccy +++ "/" +++ to_ccy) converter.rates) [
        | some rate ↦ returned (times amount rate)
        | none ↦ elim (lookup (to_ccy +++ "/" +++ from_ccy) converter.rates) [
          | some rate ↦
              if equal rate (nought host)
              then raised invalid_fx_rate
              else returned (divided amount rate)
          | none ↦ raised missing_fx_rate
        ]
      ]

  unfoldable pub to_base : FxConverter F → Money F → Outcome (Money F)
  to_base converter m = elim converter.base_ccy [
    | none ↦ raised base_ccy_unset
    | some base ↦ elim (convert converter m.amount m.ccy base) [
      | raised fault ↦ raised fault
      | returned converted ↦ money converted base
    ]
  ]

  -- `fx_converter.to_base(Money(amount=amount, ccy=ccy))`
  unfoldable pub base_value : FxConverter F → F → String → Outcome (Money F)
  base_value converter amount ccy = elim (money amount ccy) [
    | raised fault ↦ raised fault
    | returned m ↦ to_base converter m
  ]
