-- ===== src/Treasury/Limits/Laws.antt =====
-- core/services/counterparty_limits_v1.py: what the caps guarantee.
use demobot.Treasury.Limits.{
  Allowed, CounterpartyLimit, LimitApplicationResult, Numbers, accepted, allow,
  apply_counterparty_limits, capped_at, limit_additional, limit_ratio, limit_total, no_exposure,
  non_negative, requested, result_of, refused, is_bad,
}
use demobot.Base.Order.{IsOrder}
use demobot.Base.{
  Bool-cases, Option, false, if◌then◌else◌, inl, inr, none, refl, some, true, ◌≡◌, ◌⊎◌, arith, Bool,
  String,
}

-- Rounded products with a factor that is not negative, and rounded differences, keep the order.
pub record IsMonotone {F : Type 0} (numbers : Numbers F) : Type 0 where
  pub order : IsOrder numbers.less
  pub times_mono :
      (n a b : F)
      → numbers.less n numbers.nought ≡ false
      → numbers.less a b ≡ false
      → numbers.less (numbers.times n a) (numbers.times n b) ≡ false
  pub minus_mono :
      (a b c : F)
      → numbers.less a b ≡ false
      → numbers.less (numbers.minus a c) (numbers.minus b c) ≡ false

guards :
    {A : Type 0} (b c d e : Bool) (m n o : String) (x y r : A)
    → (if b
        then refused m
        else if c
        then refused n
        else if d
        then refused o
        else if e
        then accepted x
        else accepted y)
      ≡ accepted r
    → ((x ≡ r) × (e ≡ true)) ⊎ ((y ≡ r) × (b ≡ false))
guards b c d e m n o x y r h = ground arith

module _ {F : Type 0} (numbers : Numbers F) (monotone : IsMonotone numbers) where
  open numbers use {less, minus, times, nought}
  open monotone use {order, times_mono, minus_mono}

  -- The value is not above a cap that is set.
  abbrev pub IsWithin : Option F → F → Type 0
  IsWithin none x = Unit
  IsWithin (some cap) x = less cap x ≡ false

  capped_at_below : (x cap : F) → less x (capped_at numbers x cap) ≡ false
  capped_at_below x cap = elim (Bool-cases (less cap x)) [
    | inl e ↦ rw e (order.less_asym cap x e)
    | inr e ↦ rw e (order.less_irrefl x)
  ]

  capped_at-IsWithin : (x cap : F) → less cap (capped_at numbers x cap) ≡ false
  capped_at-IsWithin x cap = elim (Bool-cases (less cap x)) [
    | inl e ↦ rw e (order.less_irrefl cap)
    | inr e ↦ rw e e
  ]

  non_negative_mono :
      (a b : F) → less a b ≡ false → less (non_negative numbers a) (non_negative numbers b) ≡ false
  non_negative_mono a b h =
      ground
        (arith, order.not_less_trans nought a b, order.less_asym nought a, order.less_irrefl nought)

  -- What is allowed at a stage against what was requested.
  record IsBelow (current : F) (r a : Allowed F) : Type 0 where
    asked : r.additional ≡ non_negative numbers (minus r.total current)
    total_below : less r.total a.total ≡ false
    additional_below : less r.additional a.additional ≡ false

  total-IsBelow :
      (current total : F) (r a : Allowed F)
      → r.additional ≡ non_negative numbers (minus r.total current)
      → a.additional ≡ non_negative numbers (minus a.total current)
      → less r.total a.total ≡ false
      → IsBelow current r a
  total-IsBelow current total r a asked given below = record {
    asked = asked;
    total_below = below;
    additional_below =
        rw (asked, given) (non_negative_mono _ _ (minus_mono r.total a.total current below));
  }

  limit_ratio-IsBelow :
      (net current ratio : F) (cap : Option F)
      → less net nought ≡ false
      → IsBelow current
          (requested numbers net current ratio)
          (limit_ratio numbers net current cap (requested numbers net current ratio))
  unfolding limit_ratio requested
  limit_ratio-IsBelow net current ratio none h =
      total-IsBelow current ratio _ _ refl refl (order.less_irrefl _)
  limit_ratio-IsBelow net current ratio (some cap) h =
      total-IsBelow current ratio _ _ refl refl
        (times_mono net ratio _ h (capped_at_below ratio cap))

  limit_total-IsBelow :
      (net current : F) (cap : Option F) (r a : Allowed F)
      → IsBelow current r a
      → IsBelow current r (limit_total numbers net current cap a)
        × IsWithin cap (limit_total numbers net current cap a).total
  unfolding limit_total
  limit_total-IsBelow net current none r a b = (b, tt)
  limit_total-IsBelow net current (some cap) r a b = (
    total-IsBelow current cap r _ b.asked refl
        (order.not_less_trans _ _ _ b.total_below (capped_at_below a.total cap)),
    capped_at-IsWithin a.total cap,
  )

  limit_additional_lem :
      (net current : F) (cap : Option F) (r a : Allowed F)
      → IsBelow current r a
      → (less r.additional (limit_additional numbers net current cap a).additional ≡ false)
        × IsWithin cap (limit_additional numbers net current cap a).additional
  unfolding limit_additional
  limit_additional_lem net current none r a b = (b.additional_below, tt)
  limit_additional_lem net current (some cap) r a b = (
    order.not_less_trans _ _ _ b.additional_below (capped_at_below a.additional cap),
    capped_at-IsWithin a.additional cap,
  )

  abbrev staged : CounterpartyLimit F → F → F → F → Allowed F
  staged limit net current ratio =
      limit_total numbers net current limit.max_total_hedge_notional_foreign (
        limit_ratio numbers net current limit.max_hedge_ratio (requested numbers net current ratio))

  staged-IsBelow :
      (limit : CounterpartyLimit F) (net current ratio : F)
      → less net nought ≡ false
      → IsBelow current (requested numbers net current ratio) (staged limit net current ratio)
        × IsWithin limit.max_total_hedge_notional_foreign (staged limit net current ratio).total
  staged-IsBelow limit net current ratio h =
      limit_total-IsBelow net current limit.max_total_hedge_notional_foreign _ _
        (limit_ratio-IsBelow net current ratio limit.max_hedge_ratio h)

  -- An answer is that of no exposure, or of the caps on an exposure that is not negative.
  apply_cases :
      (limit : CounterpartyLimit F) (net current ratio : F) (result : LimitApplicationResult F)
      → apply_counterparty_limits numbers limit net current ratio ≡ accepted result
      → ((no_exposure numbers ratio ≡ result) × (numbers.equal net nought ≡ true))
        ⊎ ((result_of numbers
                (requested numbers net current ratio)
                (allow numbers limit net current ratio)
              ≡ result)
            × (less net nought ≡ false))
  unfolding apply_counterparty_limits
  apply_cases limit net current ratio result h =
      elim (guards (is_bad numbers net) (is_bad numbers current) (is_bad numbers ratio)
        (numbers.equal net nought) _ _ _ _ _ result h) [
          | inl e ↦ inl e
          | inr (e, good) ↦ inr (e, ground arith)
        ]

  -- Where the arithmetic keeps the order (`IsMonotone`), and a cap on the addition is not negative: whatever
  -- is asked for, what is allowed in addition is not above it, and not above the cap on it.
  pub apply_counterparty_limits_bounds :
      (limit : CounterpartyLimit F) (net current ratio : F) (result : LimitApplicationResult F)
      → IsWithin limit.max_additional_notional_foreign nought
      → apply_counterparty_limits numbers limit net current ratio ≡ accepted result
      → (less result.requested_additional_notional_foreign
            result.allowed_additional_notional_foreign
          ≡ false)
        × IsWithin limit.max_additional_notional_foreign result.allowed_additional_notional_foreign
  unfolding no_exposure result_of allow
  apply_counterparty_limits_bounds limit net current ratio result sane h =
      elim (apply_cases limit net current ratio result h) [
        | inl (e, _) ↦ rw (← e) (order.less_irrefl nought, sane)
        | inr (e, good) ↦ rw (← e) (
            limit_additional_lem net current limit.max_additional_notional_foreign _ _
              (staged-IsBelow limit net current ratio good).0)
      ]

  -- Without a cap on the addition, the total that is allowed is not above the one asked for, nor above the
  -- cap on it.
  apply_counterparty_limits_total :
      (limit : CounterpartyLimit F) (net current ratio : F) (result : LimitApplicationResult F)
      → limit.max_additional_notional_foreign ≡ none
      → IsWithin limit.max_total_hedge_notional_foreign nought
      → apply_counterparty_limits numbers limit net current ratio ≡ accepted result
      → (less result.requested_total_hedge_notional_foreign
            result.allowed_total_hedge_notional_foreign
          ≡ false)
        × IsWithin limit.max_total_hedge_notional_foreign
            result.allowed_total_hedge_notional_foreign
  unfolding no_exposure result_of allow limit_additional
  apply_counterparty_limits_total limit net current ratio result uncapped sane h =
      elim (apply_cases limit net current ratio result h) [
        | inl (e, _) ↦ rw (← e) (order.less_irrefl nought, sane)
        | inr (e, good) ↦
            let (below, within) = staged-IsBelow limit net current ratio good in
            rw (← e) (rw uncapped (below.total_below, within))
      ]
