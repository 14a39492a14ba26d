-- ===== src/Equalizer/Layout.antt =====
-- internal/equalizer_layout_utils.h, and the layout of the bands in equalizer.cpp.
use sonotide.Prelude.{
  ℕ, zero, suc, Bool, true, Option, none, some, List, [], ◌∷◌, length, get_elem?, take, map, leb,
  ◌&&◌, if◌then◌else◌,
}
use sonotide.Equalizer.{
  Floats, EqualizerBand, equalizer_max_band_count, min_frequency_hz, max_frequency_hz,
  min_band_spacing_hz, min_q_value, max_q_value, default_equalizer_q_value, maximum, minimum, clamp,
}

-- `equalizer_frequency_range`.
pub record EqualizerFrequencyRange (F : Type 0) : Type 0 where
  pub min_frequency_hz : F
  pub max_frequency_hz : F

module _ {F : Type 0} (float : Floats F) where
  open float use {
    less, is_finite, add, subtract, multiply, divide, log, exp, truncate, decimal, negate,
  }

  abbrev pub or_default : F → F → F
  or_default x default_value = if is_finite x then x else default_value

  -- A band with its values finite and in range.
  abbrev pub sanitize : EqualizerBand F → EqualizerBand F
  sanitize band = record {
    center_frequency_hz =
        clamp float (or_default band.center_frequency_hz (min_frequency_hz float))
          (min_frequency_hz float) (max_frequency_hz float);
    gain_db =
        clamp float (or_default band.gain_db (decimal 0 0)) (negate (decimal 12 0)) (decimal 12 0);
    q_value =
        clamp float (or_default band.q_value (default_equalizer_q_value float)) (min_q_value float)
          (max_q_value float);
  }

  -- `std::sort` by frequency. It leaves the order of equal frequencies open; here it is stable.
  unfoldable pub insert_sorted : EqualizerBand F → List (EqualizerBand F) → List (EqualizerBand F)
  insert_sorted band [] = band ∷ []
  insert_sorted band (b ∷ bands) =
      let rest = insert_sorted band bands in
      if less b.center_frequency_hz band.center_frequency_hz then b ∷ rest else band ∷ b ∷ bands

  unfoldable pub sort : List (EqualizerBand F) → List (EqualizerBand F)
  sort [] = []
  sort (band ∷ bands) = insert_sorted band (sort bands)

  abbrev pub moved : EqualizerBand F → F → EqualizerBand F
  moved band frequency = record band { center_frequency_hz = frequency }

  -- The first loop pushes each band above the one before it.
  unfoldable pub push_up_from : F → List (EqualizerBand F) → List (EqualizerBand F)
  push_up_from previous [] = []
  push_up_from previous (band ∷ bands) =
      let frequency =
        maximum float band.center_frequency_hz (add previous (min_band_spacing_hz float)) in
      moved band frequency ∷ push_up_from frequency bands

  abbrev pub push_up : List (EqualizerBand F) → List (EqualizerBand F)
  push_up [] = []
  push_up (band ∷ bands) = band ∷ push_up_from band.center_frequency_hz bands

  -- A band below the next one.
  abbrev pub under : EqualizerBand F → List (EqualizerBand F) → EqualizerBand F
  under band [] = moved band (minimum float band.center_frequency_hz (max_frequency_hz float))
  under band (next ∷ bands) = moved band (
      maximum float
        (minimum float band.center_frequency_hz
          (subtract next.center_frequency_hz (min_band_spacing_hz float)))
        (min_frequency_hz float))

  -- The second loop, from the last band to the first.
  unfoldable pub pull_down : List (EqualizerBand F) → List (EqualizerBand F)
  pull_down [] = []
  pull_down (band ∷ bands) = let rest = pull_down bands in under band rest ∷ rest

  unfoldable pub normalize_equalizer_bands : List (EqualizerBand F) → List (EqualizerBand F)
  normalize_equalizer_bands bands =
      pull_down (push_up (sort (map sanitize (take equalizer_max_band_count bands))))

  abbrev pub is_finite_band : EqualizerBand F → Bool
  is_finite_band band =
      is_finite band.center_frequency_hz && is_finite band.gain_db && is_finite band.q_value

  abbrev pub all_finite : List (EqualizerBand F) → Bool
  all_finite [] = true
  all_finite (band ∷ bands) = is_finite_band band && all_finite bands

  -- The bounds that the neighbours of a band leave to it.
  abbrev pub above_previous : Option (EqualizerBand F) → F
  above_previous none = min_frequency_hz float
  above_previous (some band) =
      maximum float (min_frequency_hz float)
        (add band.center_frequency_hz (min_band_spacing_hz float))

  abbrev pub below_next : Option (EqualizerBand F) → F
  below_next none = max_frequency_hz float
  below_next (some band) =
      minimum float (max_frequency_hz float)
        (subtract band.center_frequency_hz (min_band_spacing_hz float))

  -- The band before an index, and none before the first.
  abbrev pub previous_band : List (EqualizerBand F) → ℕ → Option (EqualizerBand F)
  previous_band bands zero = none
  previous_band bands (suc index) = get_elem? bands index

  unfoldable pub equalizer_band_editable_frequency_range :
      List (EqualizerBand F) → ℕ → Option (EqualizerFrequencyRange F)
  equalizer_band_editable_frequency_range bands index =
      let low = above_previous (previous_band bands index) in
      let high = below_next (get_elem? bands (suc index)) in
      if leb (length bands) index
      then none
      else if all_finite bands
      then (if less high low
          then none
          else some (record { min_frequency_hz = low; max_frequency_hz = high }))
      else none
