-- ===== src/Equalizer/Presets.antt =====
-- include/sonotide/equalizer.h: the tokens of presets and of the status; equalizer.cpp and
-- playback_session.cpp: the default bands, and the gains of a preset at other frequencies.
use sonotide.Prelude.{
  ℕ, zero, suc, ◌+◌, ◌-◌, ◌≡◌, refl, String, Option, none, some, List, [], ◌∷◌, length, get_or, map,
  min, ◌==◌, if◌then◌else◌,
}
use text.Mathlib.Text
use sonotide.Session.{
  EqualizerStatus, eq_loading, eq_ready, eq_unsupported_audio_path, eq_audio_engine_unavailable,
  eq_error,
}
use sonotide.Equalizer.{
  Floats, EqualizerBand, EqualizerPreset, EqualizerPresetId, flat, bass_boost, treble_boost, vocal,
  pop, rock, electronic, hip_hop, jazz, classical, acoustic, dance, piano, spoken_podcast, loudness,
  custom, equalizer_max_band_count, default_equalizer_q_value,
}

-- `to_string` of a preset.
unfoldable pub to_string : EqualizerPresetId → String
to_string flat = "flat"
to_string bass_boost = "bass_boost"
to_string treble_boost = "treble_boost"
to_string vocal = "vocal"
to_string pop = "pop"
to_string rock = "rock"
to_string electronic = "electronic"
to_string hip_hop = "hip_hop"
to_string jazz = "jazz"
to_string classical = "classical"
to_string acoustic = "acoustic"
to_string dance = "dance"
to_string piano = "piano"
to_string spoken_podcast = "spoken_podcast"
to_string loudness = "loudness"
to_string custom = "custom"

unfoldable pub status_to_string : EqualizerStatus → String
status_to_string eq_loading = "loading"
status_to_string eq_ready = "ready"
status_to_string eq_unsupported_audio_path = "unsupported_audio_path"
status_to_string eq_audio_engine_unavailable = "audio_engine_unavailable"
status_to_string eq_error = "error"

-- The chain of comparisons.
unfoldable pub equalizer_preset_id_from_string : String → Option EqualizerPresetId
equalizer_preset_id_from_string value =
    if Text.◌==◌ value "flat"
    then some flat
    else if Text.◌==◌ value "bass_boost"
    then some bass_boost
    else if Text.◌==◌ value "treble_boost"
    then some treble_boost
    else if Text.◌==◌ value "vocal"
    then some vocal
    else if Text.◌==◌ value "pop"
    then some pop
    else if Text.◌==◌ value "rock"
    then some rock
    else if Text.◌==◌ value "electronic"
    then some electronic
    else if Text.◌==◌ value "hip_hop"
    then some hip_hop
    else if Text.◌==◌ value "jazz"
    then some jazz
    else if Text.◌==◌ value "classical"
    then some classical
    else if Text.◌==◌ value "acoustic"
    then some acoustic
    else if Text.◌==◌ value "dance"
    then some dance
    else if Text.◌==◌ value "piano"
    then some piano
    else if Text.◌==◌ value "spoken_podcast"
    then some spoken_podcast
    else if Text.◌==◌ value "loudness"
    then some loudness
    else if Text.◌==◌ value "custom"
    then some custom
    else none

-- Every preset is read back from its token.
pub equalizer_preset_id_from_string-to_string :
    (id : EqualizerPresetId) → equalizer_preset_id_from_string (to_string id) ≡ some id
unfolding to_string equalizer_preset_id_from_string
equalizer_preset_id_from_string-to_string flat = refl
equalizer_preset_id_from_string-to_string bass_boost = refl
equalizer_preset_id_from_string-to_string treble_boost = refl
equalizer_preset_id_from_string-to_string vocal = refl
equalizer_preset_id_from_string-to_string pop = refl
equalizer_preset_id_from_string-to_string rock = refl
equalizer_preset_id_from_string-to_string electronic = refl
equalizer_preset_id_from_string-to_string hip_hop = refl
equalizer_preset_id_from_string-to_string jazz = refl
equalizer_preset_id_from_string-to_string classical = refl
equalizer_preset_id_from_string-to_string acoustic = refl
equalizer_preset_id_from_string-to_string dance = refl
equalizer_preset_id_from_string-to_string piano = refl
equalizer_preset_id_from_string-to_string spoken_podcast = refl
equalizer_preset_id_from_string-to_string loudness = refl
equalizer_preset_id_from_string-to_string custom = refl

module _ {F : Type 0} (float : Floats F) where
  open float use {
    less, at_most, add, subtract, multiply, divide, log, exp, truncate, decimal, absolute,
  }

  abbrev reference_band_frequencies_hz : List F
  reference_band_frequencies_hz =
      decimal 60 0
      ∷ decimal 170 0
      ∷ decimal 310 0
      ∷ decimal 600 0
      ∷ decimal 1_000 0
      ∷ decimal 3_000 0
      ∷ decimal 6_000 0
      ∷ decimal 12_000 0
      ∷ decimal 14_000 0
      ∷ decimal 16_000 0
      ∷ []

  abbrev reference : ℕ → F
  reference index = get_or reference_band_frequencies_hz index (decimal 0 0)

  -- Between two reference frequencies, on the logarithmic scale.
  abbrev log_between : F → F → F → F
  log_between low high interpolation =
      exp (add (log low) (multiply (subtract (log high) (log low)) interpolation))

  abbrev at_position : F → F
  at_position position =
      let lower_index = truncate position in
      let upper_index = min (lower_index + 1) 9 in
      if lower_index == upper_index
      then reference lower_index
      else log_between (reference lower_index) (reference upper_index)
          (subtract position (decimal lower_index 0))

  unfoldable pub interpolate_default_band_frequency : ℕ → ℕ → F
  interpolate_default_band_frequency band_count band_index =
      if band_count == 1
      then reference 5
      else at_position
          (divide (multiply (decimal band_index 0) (decimal 9 0)) (decimal (band_count - 1) 0))

  -- The bands from `band_index` on, `count` of them.
  abbrev default_bands_from : ℕ → ℕ → ℕ → List (EqualizerBand F)
  default_bands_from band_count band_index zero = []
  default_bands_from band_count band_index (suc count) =
      record {
        center_frequency_hz = interpolate_default_band_frequency band_count band_index;
        gain_db = decimal 0 0;
        q_value = default_equalizer_q_value float;
      }
      ∷ default_bands_from band_count (suc band_index) count

  unfoldable pub make_default_equalizer_bands : ℕ → List (EqualizerBand F)
  make_default_equalizer_bands band_count =
      let count = min band_count equalizer_max_band_count in default_bands_from count 0 count

  -- The gain of a preset at a frequency between its bands. A preset has at most 10 gains, so that
  -- its bands are as many as they.
  abbrev interpolated : F → F → F → F → F → F
  interpolated low_frequency high_frequency low_gain high_gain frequency = add low_gain (
      multiply (subtract high_gain low_gain) (
        divide (subtract (log frequency) (log low_frequency))
          (subtract (log high_frequency) (log low_frequency))))

  -- `std::upper_bound` over the bands from the second on, and the gain between its band and the
  -- one before it.
  abbrev gain_after : F → F → F → List (EqualizerBand F) → List F → F
  gain_after frequency low_frequency low_gain [] gains = low_gain
  gain_after frequency low_frequency low_gain (b ∷ bands) [] = low_gain
  gain_after frequency low_frequency low_gain (b ∷ bands) (gain ∷ gains) =
      let rest = gain_after frequency b.center_frequency_hz gain bands gains in
      if less frequency b.center_frequency_hz
      then interpolated low_frequency b.center_frequency_hz low_gain gain frequency
      else rest

  abbrev last_or : {A : Type 0} → A → List A → A
  last_or a [] = a
  last_or a (b ∷ bs) = last_or b bs

  abbrev gain_at : List (EqualizerBand F) → List F → F → F
  gain_at [] gains frequency = decimal 0 0
  gain_at bands [] frequency = decimal 0 0
  gain_at (b ∷ bands) (gain ∷ gains) frequency =
      let between = gain_after frequency b.center_frequency_hz gain bands gains in
      if at_most frequency b.center_frequency_hz
      then gain
      else if at_most (last_or b bands).center_frequency_hz frequency
      then last_or gain gains
      else between

  unfoldable pub project_preset_gains_to_bands : EqualizerPreset F → List (EqualizerBand F) → List F
  project_preset_gains_to_bands preset target_bands =
      let reference_bands = make_default_equalizer_bands (length preset.gains_db) in
      map (λ band. gain_at reference_bands preset.gains_db band.center_frequency_hz) target_bands
