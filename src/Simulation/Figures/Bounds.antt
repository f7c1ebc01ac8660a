-- ===== src/Simulation/Figures/Bounds.antt =====
-- Where the Gini figures lie.
use relaymeshnet.Base.{◌≡◌, false, List, inl, inr, ltb, length, Bool-cases}
use relaymeshnet.Base.Float.{Float}
use relaymeshnet.Simulation.Figures.{clamp_unit, gini, is_zero_float}
use relaymeshnet.Simulation.Figures.{sum_from, sort}

module _ (float : Float) where
  -- What the figures need of `<`: nothing is below itself, and 1 is not below 0.
  pub record IsUnit : Type 0 where
    pub irreflexive : (x : float.F) → float.less x x ≡ false
    pub apart : float.less (float.ratio 1 1) (float.ratio 0 1) ≡ false

  abbrev pub InUnit : float.F → Type 0
  InUnit r = (float.less r (float.ratio 0 1) ≡ false) × (float.less (float.ratio 1 1) r ≡ false)

  module _ (unit : IsUnit) where
    clamp_unit-InUnit : (r : float.F) → InUnit (clamp_unit float r)
    unfolding clamp_unit
    clamp_unit-InUnit r = elim (Bool-cases (float.less r (float.ratio 0 1))) [
      | inl low ↦ rw (low, unit.apart) (unit.irreflexive (float.ratio 0 1), unit.apart)
      | inr high ↦ elim (Bool-cases (float.less (float.ratio 1 1) r)) [
        | inl above ↦ rw (high, above) (unit.apart, unit.irreflexive (float.ratio 1 1))
        | inr within ↦ rw (high, within) (high, within)
      ]
    ]

    zero-InUnit : InUnit (float.ratio 0 1)
    zero-InUnit = (unit.irreflexive (float.ratio 0 1), unit.apart)

    -- Whatever the values are, the Gini figure is not below 0 and not above 1.
    pub gini-InUnit : (values : List float.F) → InUnit (gini float values)
    unfolding gini
    gini-InUnit values = elim (Bool-cases (ltb (length values) 2)) [
      | inl few ↦ rw few zero-InUnit
      | inr many ↦
          elim (Bool-cases
            (is_zero_float float (sum_from float (float.ratio 0 1) (sort float values)))) [
              | inl empty ↦ rw (many, empty) zero-InUnit
              | inr some_sum ↦ rw (many, some_sum) (clamp_unit-InUnit _)
            ]
    ]
