-- ===== src/MarketData/DfLookup/Laws.antt =====
-- core/market_data/df_lookup_v0.py: the factors that are found.
use demobot.MarketData.DfLookup.{
  Curve, DfFault, RateFloats, Resolved, both_positive, df_from_rate, factors_of, failed, follow_up,
  get_pair_dfs, pair_dfs_at, required, resolved, tenor_from_ttm,
}
use mathlib.Core.Path.{subst}
use demobot.Base.Dicts.{Dict, lookup}
use demobot.Base.{
  Bool, Option, String, false, if◌then◌else◌, none, refl, some, str_eq, true, ◌≡◌, arith, ap, ◌∙◌,
}

-- A chain that ends with a value had a value at each step.
follow_up-resolved {ℓ κ} :
    {A : Type ℓ} {B : Type κ} (r : Resolved A) (continue : A → Resolved B) (b : B)
    → follow_up r continue ≡ resolved b
    → (a : A) × ((r ≡ resolved a) × (continue a ≡ resolved b))
unfolding follow_up
follow_up-resolved (failed fault) continue b h = absurd (cc)
follow_up-resolved (resolved a) continue b h = (a, (refl, h))

resolved-injective {ℓ} : {A : Type ℓ} {a b : A} → resolved a ≡ resolved b → a ≡ b
resolved-injective h = cc

required-resolved {ℓ} :
    {A : Type ℓ} (fault : DfFault) (o : Option A) (a : A)
    → required fault o ≡ resolved a
    → o ≡ some a
unfolding required
required-resolved fault none a h = absurd (cc)
required-resolved fault (some b) a h = cc

module _ {F : Type 0} (floats : RateFloats F) where
  open floats use {less, nought, one}

  both_positive_lem :
      (a b : F) (r : F × F)
      → both_positive floats a b ≡ resolved r
      → ((a, b) ≡ r) × ((less nought a ≡ true) × (less nought b ≡ true))
  unfolding both_positive
  both_positive_lem a b r h = ground arith

  both_positive_swap :
      (a b : F)
      → less nought a ≡ true
      → less nought b ≡ true
      → both_positive floats b a ≡ resolved (b, a)
  unfolding both_positive
  both_positive_swap a b h k = rw (h, k) refl

  -- What stands behind the factors of two currencies.
  record Found (curves : Dict (Curve F)) (ttm : F) (tenor d f : String) (r : F × F) : Type 0 where
    dom : Curve F
    frn : Curve F
    r_dom : F
    r_for : F
    df_dom : F
    df_for : F
    dom_curve : lookup d curves ≡ some dom
    for_curve : lookup f curves ≡ some frn
    dom_rate : lookup tenor dom.zero_rates ≡ some r_dom
    for_rate : lookup tenor frn.zero_rates ≡ some r_for
    dom_factor : df_from_rate floats r_dom ttm dom.compounding ≡ resolved df_dom
    for_factor : df_from_rate floats r_for ttm frn.compounding ≡ resolved df_for
    checked : both_positive floats df_dom df_for ≡ resolved r

  found :
      (curves : Dict (Curve F)) (ttm : F) (tenor d f : String) (r : F × F)
      → pair_dfs_at floats ttm tenor curves d f ≡ resolved r
      → Found curves ttm tenor d f r
  unfolding pair_dfs_at factors_of
  found curves ttm tenor d f r h =
      let (dom, (e1, h1)) = follow_up-resolved _ _ _ h in
      let (frn, (e2, h2)) = follow_up-resolved _ _ _ h1 in
      let (r_dom, (e3, h3)) = follow_up-resolved _ _ _ h2 in
      let (r_for, (e4, h4)) = follow_up-resolved _ _ _ h3 in
      let (df_dom, (e5, h5)) = follow_up-resolved _ _ _ h4 in
      let (df_for, (e6, h6)) = follow_up-resolved _ _ _ h5 in
      record {
        dom = dom;
        frn = frn;
        r_dom = r_dom;
        r_for = r_for;
        df_dom = df_dom;
        df_for = df_for;
        dom_curve = required-resolved _ _ _ e1;
        for_curve = required-resolved _ _ _ e2;
        dom_rate = required-resolved _ _ _ e3;
        for_rate = required-resolved _ _ _ e4;
        dom_factor = e5;
        for_factor = e6;
        checked = h6;
      }

  found_swap :
      (curves : Dict (Curve F)) (ttm : F) (tenor d f : String) (a b : F)
      → Found curves ttm tenor d f (a, b)
      → pair_dfs_at floats ttm tenor curves f d ≡ resolved (b, a)
  unfolding pair_dfs_at factors_of follow_up required
  found_swap curves ttm tenor d f a b x =
      let (same, (h, k)) = both_positive_lem x.df_dom x.df_for (a, b) x.checked in
      rw (x.for_curve, x.dom_curve, x.for_rate, x.dom_rate, x.for_factor, x.dom_factor)
        (both_positive_swap x.df_dom x.df_for h k ∙ ap (λ p. resolved (p.1, p.0)) same)

  abbrev at_tenor : Dict (Curve F) → F → String → String → String → Bool → Resolved (F × F)
  at_tenor curves ttm tenor d f today =
      if today then resolved (one, one) else pair_dfs_at floats ttm tenor curves d f

  at_tenor_swap :
      (curves : Dict (Curve F)) (ttm : F) (tenor d f : String) (a b : F) (today : Bool)
      → less nought one ≡ true
      → at_tenor curves ttm tenor d f today ≡ resolved (a, b)
      → (at_tenor curves ttm tenor f d today ≡ resolved (b, a))
        × ((less nought a ≡ true) × (less nought b ≡ true))
  at_tenor_swap curves ttm tenor d f a b true positive h =
      let same : (one, one) ≡ (a, b) = resolved-injective h in
      (
        ap (λ p. resolved (p.1, p.0)) same,
        (
          subst (λ x. less nought x ≡ true) (ap (λ p. p.0) same) positive,
          subst (λ x. less nought x ≡ true) (ap (λ p. p.1) same) positive,
        ),
      )
  at_tenor_swap curves ttm tenor d f a b false positive h =
      let x = found curves ttm tenor d f (a, b) h in
      let (same, (u, v)) = both_positive_lem x.df_dom x.df_for (a, b) x.checked in
      (
        found_swap curves ttm tenor d f a b x,
        (
          subst (λ y. less nought y ≡ true) (ap (λ p. p.0) same) u,
          subst (λ y. less nought y ≡ true) (ap (λ p. p.1) same) v,
        ),
      )

  -- Where 1.0 is positive: factors that are found are positive, and those of the currencies in the other order are the same two,
  -- swapped.
  pub get_pair_dfs_swap :
      (curves : Dict (Curve F)) (d f : String) (ttm a b : F)
      → less nought one ≡ true
      → get_pair_dfs floats curves d f ttm ≡ resolved (a, b)
      → (get_pair_dfs floats curves f d ttm ≡ resolved (b, a))
        × ((less nought a ≡ true) × (less nought b ≡ true))
  unfolding get_pair_dfs follow_up
  get_pair_dfs_swap curves d f ttm a b positive h =
      let (tenor, (e, rest)) =
        follow_up-resolved (tenor_from_ttm floats ttm)
          (λ t. at_tenor curves ttm t d f (str_eq t "0D")) (a, b) h in
      let (swapped, both) =
        at_tenor_swap curves ttm tenor d f a b (str_eq tenor "0D") positive rest in
      (rw (e, follow_up) swapped, both)
