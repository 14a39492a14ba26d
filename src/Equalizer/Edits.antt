-- ===== src/Equalizer/Edits.antt =====
-- playback_session.cpp: the session's equalizer, and the helpers of the calls that edit it.
use sonotide.Prelude.{
  ℕ, zero, suc, Bool, true, false, Option, none, some, List, [], ◌∷◌, length, map, replicate, ◌==◌,
  if◌then◌else◌, refl,
}
use sonotide.Session.{EqualizerPort}
use sonotide.Equalizer.{
  Floats, EqualizerBand, EqualizerPreset, EqualizerPresetId, flat, bass_boost, treble_boost, vocal,
  pop, rock, electronic, hip_hop, jazz, classical, acoustic, dance, piano, spoken_podcast, loudness,
  custom, EqualizerState, min_q_value, max_q_value, clamp,
}
use sonotide.Equalizer.Presets.{project_preset_gains_to_bands}

-- The position of a preset in the enumeration, and its test for equality.
abbrev preset_number : EqualizerPresetId → ℕ
preset_number flat = 0
preset_number bass_boost = 1
preset_number treble_boost = 2
preset_number vocal = 3
preset_number pop = 4
preset_number rock = 5
preset_number electronic = 6
preset_number hip_hop = 7
preset_number jazz = 8
preset_number classical = 9
preset_number acoustic = 10
preset_number dance = 11
preset_number piano = 12
preset_number spoken_podcast = 13
preset_number loudness = 14
preset_number custom = 15

abbrev pub same_preset : EqualizerPresetId → EqualizerPresetId → Bool
same_preset x y = preset_number x == preset_number y

-- The session's equalizer, with the preamp that the headroom controller computes for some bands at
-- a sample rate.
abbrev pub equalizer_port :
    {F : Type 0} → Floats F → (List (EqualizerBand F) → ℕ → F) → EqualizerPort
equalizer_port {F} float compute_target_preamp_db = record {
  Sample = F;
  silence = float.decimal 0 0;
  Equalizer = EqualizerState F;
  Headroom = F;
  status = λ e. e.status;
  headroom = λ e. e.headroom_compensation_db;
  set_status = λ x e. record e { status = x };
  set_error_message = λ m e. record e { error_message = m };
  set_headroom = λ h e. record e { headroom_compensation_db = h };
  target_preamp = λ rate e. compute_target_preamp_db e.bands rate;
  status-set_status = λ x e. refl;
  status-set_error_message = λ m e. refl;
  status-set_headroom = λ h e. refl;
}

module _ {A : Type 0} where
  -- `bands[index].field = value`, inside the range.
  abbrev pub modify : ℕ → (A → A) → List A → List A
  modify index f [] = []
  modify zero f (x ∷ xs) = f x ∷ xs
  modify (suc index) f (x ∷ xs) = x ∷ modify index f xs

  -- `std::vector::insert` and `std::vector::erase`.
  abbrev pub insert_at : ℕ → A → List A → List A
  insert_at zero a xs = a ∷ xs
  insert_at (suc index) a [] = a ∷ []
  insert_at (suc index) a (x ∷ xs) = x ∷ insert_at index a xs

  abbrev pub erase : ℕ → List A → List A
  erase index [] = []
  erase zero (x ∷ xs) = xs
  erase (suc index) (x ∷ xs) = x ∷ erase index xs

  abbrev pub find_if : (A → Bool) → List A → Option A
  find_if test [] = none
  find_if test (x ∷ xs) = let rest = find_if test xs in if test x then some x else rest

module _ {F : Type 0} (float : Floats F) where
  open float use {less, is_finite, subtract, decimal, negate, absolute}

  abbrev pub clamp_equalizer_gain_db : F → F
  clamp_equalizer_gain_db gain = clamp float gain (negate (decimal 12 0)) (decimal 12 0)

  abbrev pub clamp_equalizer_q_value : F → F
  clamp_equalizer_q_value q = clamp float q (min_q_value float) (max_q_value float)

  abbrev pub with_gain : EqualizerBand F → F → EqualizerBand F
  with_gain band gain = record band { gain_db = gain }

  abbrev pub with_q : EqualizerBand F → F → EqualizerBand F
  with_q band q = record band { q_value = q }

  -- The gains of a preset, one for each band.
  abbrev pub assign_gains : List (EqualizerBand F) → List F → List (EqualizerBand F)
  assign_gains [] gains = []
  assign_gains (band ∷ bands) [] = band ∷ bands
  assign_gains (band ∷ bands) (gain ∷ gains) = with_gain band gain ∷ assign_gains bands gains

  -- `band_gains_match`, on lists of one length.
  unfoldable pub band_gains_match : List (EqualizerBand F) → List F → Bool
  band_gains_match [] [] = true
  band_gains_match [] (gain ∷ gains) = false
  band_gains_match (band ∷ bands) [] = false
  band_gains_match (band ∷ bands) (gain ∷ gains) =
      let rest = band_gains_match bands gains in
      if less (decimal 1 2) (absolute (subtract band.gain_db gain)) then false else rest

  abbrev pub is_flat : List (EqualizerBand F) → Bool
  is_flat [] = true
  is_flat (band ∷ bands) =
      let rest = is_flat bands in if less (decimal 1 2) (absolute band.gain_db) then false else rest

  abbrev gain_of : EqualizerBand F → F
  gain_of band = band.gain_db

  unfoldable pub update_last_nonflat_state : EqualizerState F → EqualizerState F
  update_last_nonflat_state e =
      if is_flat e.bands
      then record e {
        last_nonflat_band_gains_db =
            if length e.last_nonflat_band_gains_db == length e.bands
            then e.last_nonflat_band_gains_db
            else replicate (length e.bands) (decimal 0 0);
      }
      else record e { last_nonflat_band_gains_db = map gain_of e.bands }

  -- The first preset but `custom` whose gains are those of the bands.
  abbrev matching_preset : List (EqualizerPreset F) → List (EqualizerBand F) → EqualizerPresetId
  matching_preset [] bands = custom
  matching_preset (preset ∷ presets) bands =
      let rest = matching_preset presets bands in
      if same_preset preset.id custom
      then rest
      else if band_gains_match bands (project_preset_gains_to_bands float preset bands)
      then preset.id
      else rest

  unfoldable pub recalculate_active_preset :
      List (EqualizerPreset F) → EqualizerState F → EqualizerState F
  recalculate_active_preset presets e = record e {
    active_preset_id = matching_preset presets e.bands;
  }

  -- `std::lower_bound` on bands in order.
  abbrev pub lower_bound : List (EqualizerBand F) → F → ℕ
  lower_bound [] frequency = 0
  lower_bound (band ∷ bands) frequency =
      let rest = lower_bound bands frequency in
      if less band.center_frequency_hz frequency then suc rest else 0
