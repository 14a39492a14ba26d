-- ===== src/Equalizer/Spacing.antt =====
-- The layout that the bands of the equalizer keep: their ranges, and the space between neighbours.
use sonotide.Prelude.{◌≤◌, ◌⊎◌, inl, inr, List, [], ◌∷◌, length, Bool-cases}
use sonotide.Equalizer.{
  Floats, IsIeee, Below, EqualizerBand, equalizer_max_band_count, min_frequency_hz,
  max_frequency_hz, min_band_spacing_hz, min_q_value, max_q_value, maximum, minimum, clamp,
}

module _ {F : Type 0} (float : Floats F) where
  open float use {add, subtract}

  -- A band whose frequency and quality are in range.
  pub record IsInRange (band : EqualizerBand F) : Type 0 where
    pub above_min : Below float (min_frequency_hz float) band.center_frequency_hz
    pub below_max : Below float band.center_frequency_hz (max_frequency_hz float)
    pub above_min_q : Below float (min_q_value float) band.q_value
    pub below_max_q : Below float band.q_value (max_q_value float)

  -- Frequencies at least the spacing apart, where the sum or the difference is rounded.
  abbrev pub Spaced : F → F → Type 0
  Spaced x y =
      Below float (add x (min_band_spacing_hz float)) y
      ⊎ Below float x (subtract y (min_band_spacing_hz float))

  -- The bands `bands` follow a band of frequency `x`.
  abbrev pub Follows : F → List (EqualizerBand F) → Type 0
  Follows x [] = Unit
  Follows x (band ∷ bands) = Spaced x band.center_frequency_hz

  abbrev pub AllSpaced : List (EqualizerBand F) → Type 0
  AllSpaced [] = Unit
  AllSpaced (band ∷ bands) =
      IsInRange band × Follows band.center_frequency_hz bands × AllSpaced bands

  -- At most 10 bands, in range and spaced.
  pub record IsLaidOut (bands : List (EqualizerBand F)) : Type 0 where
    pub few : length bands ≤ equalizer_max_band_count
    pub spaced : AllSpaced bands

  module _ (ieee : IsIeee float) where
    pub maximum-left :
        (x y : F) → Below float x x → Below float y y → Below float x (maximum float x y)
    maximum-left x y hx hy = elim (Bool-cases (float.less x y)) [
      | inl e ↦ rw e (ieee.below-less x y e)
      | inr e ↦ rw e hx
    ]

    pub maximum-right :
        (x y : F) → Below float x x → Below float y y → Below float y (maximum float x y)
    maximum-right x y hx hy = elim (Bool-cases (float.less x y)) [
      | inl e ↦ rw e hy
      | inr e ↦ rw e (ieee.below-not_less x y hx hy e)
    ]

    pub maximum-least :
        (x y z : F) → Below float x z → Below float y z → Below float (maximum float x y) z
    maximum-least x y z hx hy = elim (Bool-cases (float.less x y)) [
      | inl e ↦ rw e hy
      | inr e ↦ rw e hx
    ]

    pub minimum-left :
        (x y : F) → Below float x x → Below float y y → Below float (minimum float x y) x
    minimum-left x y hx hy = elim (Bool-cases (float.less y x)) [
      | inl e ↦ rw e (ieee.below-less y x e)
      | inr e ↦ rw e hx
    ]

    pub minimum-right :
        (x y : F) → Below float x x → Below float y y → Below float (minimum float x y) y
    minimum-right x y hx hy = elim (Bool-cases (float.less y x)) [
      | inl e ↦ rw e hy
      | inr e ↦ rw e (ieee.below-not_less y x hy hx e)
    ]

    pub minimum-greatest :
        (x y z : F) → Below float z x → Below float z y → Below float z (minimum float x y)
    minimum-greatest x y z hx hy = elim (Bool-cases (float.less y x)) [
      | inl e ↦ rw e hy
      | inr e ↦ rw e hx
    ]

    -- A clamped number is between its bounds.
    pub clamp-between :
        (x low high : F)
        → Below float x x
        → Below float low high
        → Below float low (clamp float x low high) × Below float (clamp float x low high) high
    clamp-between x low high hx h =
        let hl = ieee.below-left low high h in
        let hh = ieee.below-right low high h in
        elim (Bool-cases (float.less x low)) [
          | inl e ↦ rw e (hl, h)
          | inr e ↦ elim (Bool-cases (float.less high x)) [
            | inl o ↦ rw (e, o) (h, hh)
            | inr o ↦
                rw (e, o) (ieee.below-not_less x low hx hl e, ieee.below-not_less high x hh hx o)
          ]
        ]

    -- Spaced frequencies are in order.
    pub Spaced-Below : (x y : F) → Spaced x y → Below float x x → Below float y y → Below float x y
    Spaced-Below x y (inl h) hx hy = ieee.below_trans x _ y (ieee.below-add x hx) h
    Spaced-Below x y (inr h) hx hy = ieee.below_trans x _ y h (ieee.below-subtract y hy)

    pub Spaced-widen_right : (x y z : F) → Spaced x y → Below float y z → Spaced x z
    Spaced-widen_right x y z (inl h) b = inl (ieee.below_trans _ y z h b)
    Spaced-widen_right x y z (inr h) b = inr (ieee.below_trans x _ _ h (ieee.subtract_mono y z b))

    in_range-number :
        (band : EqualizerBand F)
        → IsInRange band
        → Below float band.center_frequency_hz band.center_frequency_hz
    in_range-number band r = ieee.below-left _ _ r.below_max
