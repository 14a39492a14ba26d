-- ===== src/Equalizer/Calls.antt =====
-- playback_session.cpp: the public calls that edit the equalizer, over the session whose equalizer
-- is `EqualizerState`. The presets of the session and the preamp of the headroom controller are
-- parameters.
use sonotide.Prelude.{
  ℕ, zero, suc, Bool, true, not, ◌&&◌, ◌||◌, String, Option, none, some, List, [], ◌∷◌, length,
  get_elem?, ltb, leb, if◌then◌else◌,
}
use sonotide.Error.{ErrorCategory, ErrorCode, make_error, VoidResult, done, failure}
use sonotide.Session.{SessionOf, increase, closed_session_result, recompute_equalizer_metadata}
use sonotide.Equalizer.{
  Floats, EqualizerBand, EqualizerPreset, EqualizerPresetId, custom, EqualizerState,
  equalizer_max_band_count, min_frequency_hz, max_frequency_hz, default_equalizer_q_value, clamp,
}
use sonotide.Equalizer.Presets.{project_preset_gains_to_bands}
use sonotide.Equalizer.Layout.{
  EqualizerFrequencyRange, above_previous, below_next, previous_band, all_finite, moved,
  normalize_equalizer_bands, equalizer_band_editable_frequency_range,
}
use sonotide.Equalizer.Edits.{
  same_preset, equalizer_port, modify, insert_at, erase, find_if, clamp_equalizer_gain_db,
  clamp_equalizer_q_value, with_gain, with_q, assign_gains, update_last_nonflat_state,
  recalculate_active_preset, lower_bound,
}

abbrev invalid_finite_value_result : String → VoidResult
invalid_finite_value_result operation = failure (
    make_error ErrorCategory.configuration ErrorCode.invalid_argument operation
      "Equalizer values must be finite.")

abbrev invalid_equalizer_argument : String → String → VoidResult
invalid_equalizer_argument operation message =
    failure (make_error ErrorCategory.configuration ErrorCode.invalid_argument operation message)

abbrev outside : String → VoidResult
outside operation =
    invalid_equalizer_argument operation "Equalizer band index is outside of the active band range."

module _ {F : Type 0} (float : Floats F) (compute_target_preamp_db : List (EqualizerBand F) → ℕ → F)
    (presets : List (EqualizerPreset F)) where
  open float use {less, is_finite, decimal}

  abbrev pub EqualizedSession : Type 0
  EqualizedSession = SessionOf (equalizer_port float compute_target_preamp_db)

  abbrev current_sample_rate_or_default : EqualizedSession → ℕ
  current_sample_rate_or_default s =
      if ltb 0 s.last_known_sample_rate then s.last_known_sample_rate else 48_000

  -- The equalizer is replaced, and its metadata are computed again.
  abbrev pub put : EqualizerState F → EqualizedSession → EqualizedSession × VoidResult
  put e s = (
    recompute_equalizer_metadata (equalizer_port float compute_target_preamp_db)
        (current_sample_rate_or_default s) (record s { equalizer = e }),
    done,
  )

  abbrev pub with_bands : List (EqualizerBand F) → EqualizerState F → EqualizerState F
  with_bands bands e = record e { bands = bands }

  -- A call that the closed session refuses, and otherwise does `k`.
  abbrev pub unless_closed :
      String → EqualizedSession → EqualizedSession × VoidResult → EqualizedSession × VoidResult
  unless_closed operation s k = if s.closed then (s, closed_session_result operation) else k

  -- A call on one band, which has a finite value to set.
  abbrev pub at_band :
      String
      → Bool
      → ℕ
      → EqualizedSession
      → EqualizedSession × VoidResult
      → EqualizedSession × VoidResult
  at_band operation finite index s k =
      if not finite
      then (s, invalid_finite_value_result operation)
      else unless_closed operation s
          (if leb (length s.equalizer.bands) index then (s, outside operation) else k)

  unfoldable pub set_equalizer_enabled : Bool → EqualizedSession → EqualizedSession × VoidResult
  set_equalizer_enabled enabled s =
      unless_closed "playback_session::set_equalizer_enabled" s
        (put (record s.equalizer { enabled = enabled }) s)

  abbrev pub apply_preset :
      EqualizerPresetId
      → Option (EqualizerPreset F)
      → EqualizedSession
      → EqualizedSession × VoidResult
  apply_preset id none s = (
    s,
    invalid_equalizer_argument "playback_session::select_equalizer_preset"
        "Unknown equalizer preset.",
  )
  apply_preset id (some preset) s =
      let gains = project_preset_gains_to_bands float preset s.equalizer.bands in
      put
        (update_last_nonflat_state float (record s.equalizer {
          bands = assign_gains float s.equalizer.bands gains;
          active_preset_id = id;
        }))
        s

  unfoldable pub select_equalizer_preset :
      EqualizerPresetId → EqualizedSession → EqualizedSession × VoidResult
  select_equalizer_preset id s = unless_closed "playback_session::select_equalizer_preset" s (
      if same_preset id custom
      then (s, done)
      else apply_preset id (find_if (λ preset. same_preset preset.id id) presets) s)

  unfoldable pub set_equalizer_band_gain : ℕ → F → EqualizedSession → EqualizedSession × VoidResult
  set_equalizer_band_gain index gain s =
      at_band "playback_session::set_equalizer_band_gain" (is_finite gain) index s (
        put
          (update_last_nonflat_state float (
            recalculate_active_preset float presets (
              with_bands
                (modify index (λ band. with_gain float band (clamp_equalizer_gain_db float gain))
                  s.equalizer.bands)
                s.equalizer)))
          s)

  unfoldable pub set_equalizer_band_q : ℕ → F → EqualizedSession → EqualizedSession × VoidResult
  set_equalizer_band_q index q s =
      at_band "playback_session::set_equalizer_band_q" (is_finite q) index s (
        put
          (with_bands
            (modify index (λ band. with_q float band (clamp_equalizer_q_value float q))
              s.equalizer.bands)
            s.equalizer)
          s)

  -- The new band, between the bounds that its neighbours leave.
  abbrev pub new_band : F → F → F → F → EqualizerBand F
  new_band frequency low high gain = record {
    center_frequency_hz = clamp float frequency low high;
    gain_db = clamp_equalizer_gain_db float gain;
    q_value = default_equalizer_q_value float;
  }

  abbrev pub add_between : ℕ → F → F → F → F → EqualizedSession → EqualizedSession × VoidResult
  add_between index low high frequency gain s =
      if less high low
      then (
        s,
        invalid_equalizer_argument "playback_session::add_equalizer_band"
            "No valid frequency slot is available for another equalizer band.",
      )
      else put
          (recalculate_active_preset float presets (
            update_last_nonflat_state float (
              with_bands (insert_at index (new_band frequency low high gain) s.equalizer.bands)
                s.equalizer)))
          s

  abbrev pub add_at : ℕ → F → F → EqualizedSession → EqualizedSession × VoidResult
  add_at index frequency gain s =
      add_between index (above_previous float (previous_band float s.equalizer.bands index))
        (below_next float (get_elem? s.equalizer.bands index)) frequency gain s

  unfoldable pub add_equalizer_band : F → F → EqualizedSession → EqualizedSession × VoidResult
  add_equalizer_band frequency gain s =
      let clamped = clamp float frequency (min_frequency_hz float) (max_frequency_hz float) in
      if not (is_finite frequency) || not (is_finite gain)
      then (s, invalid_finite_value_result "playback_session::add_equalizer_band")
      else unless_closed "playback_session::add_equalizer_band" s (
          if leb equalizer_max_band_count (length s.equalizer.bands)
          then (
            s,
            invalid_equalizer_argument "playback_session::add_equalizer_band"
                "Equalizer already uses the maximum supported number of bands.",
          )
          else add_at (lower_bound float s.equalizer.bands clamped) clamped gain s)

  unfoldable pub remove_equalizer_band : ℕ → EqualizedSession → EqualizedSession × VoidResult
  remove_equalizer_band index s = at_band "playback_session::remove_equalizer_band" true index s (
      put
        (recalculate_active_preset float presets (
          update_last_nonflat_state float (with_bands (erase index s.equalizer.bands) s.equalizer)))
        s)

  abbrev pub move_within :
      ℕ → F → Option (EqualizerFrequencyRange F) → EqualizedSession → EqualizedSession × VoidResult
  move_within index frequency none s = (
    s,
    invalid_equalizer_argument "playback_session::set_equalizer_band_frequency"
        "The requested band cannot be moved because its editable range is unavailable.",
  )
  move_within index frequency (some range) s =
      let f = clamp float frequency range.min_frequency_hz range.max_frequency_hz in
      put
        (update_last_nonflat_state float (
          recalculate_active_preset float presets
            (with_bands (modify index (λ band. moved float band f) s.equalizer.bands) s.equalizer)))
        s

  unfoldable pub set_equalizer_band_frequency :
      ℕ → F → EqualizedSession → EqualizedSession × VoidResult
  set_equalizer_band_frequency index frequency s =
      at_band "playback_session::set_equalizer_band_frequency" (is_finite frequency) index s (
        move_within index frequency
          (equalizer_band_editable_frequency_range float s.equalizer.bands index) s)

  -- The section of `reset_equalizer` that follows a successful selection of the preset `flat`.
  unfoldable pub end_reset_equalizer : EqualizedSession → EqualizedSession × VoidResult
  end_reset_equalizer s = put (record s.equalizer { output_gain_db = decimal 0 0 }) s

  unfoldable pub set_equalizer_output_gain : F → EqualizedSession → EqualizedSession × VoidResult
  set_equalizer_output_gain gain s =
      if not (is_finite gain)
      then (s, invalid_finite_value_result "playback_session::set_equalizer_output_gain")
      else unless_closed "playback_session::set_equalizer_output_gain" s (
        record s {
          equalizer = record s.equalizer { output_gain_db = clamp_equalizer_gain_db float gain };
          equalizer_control_version = increase s.equalizer_control_version;
        },
        done,
      )

  abbrev pub every_finite : List F → Bool
  every_finite [] = true
  every_finite (x ∷ xs) = is_finite x && every_finite xs

  -- `count` remembered gains: those given, and 0 where there are fewer.
  abbrev remembered : ℕ → List F → List F
  remembered zero gains = []
  remembered (suc count) [] = decimal 0 0 ∷ remembered count []
  remembered (suc count) (gain ∷ gains) =
      clamp_equalizer_gain_db float gain ∷ remembered count gains

  abbrev pub applied : EqualizerState F → EqualizerState F → EqualizerState F
  applied state e = update_last_nonflat_state float (
      recalculate_active_preset float presets (record e {
        enabled = state.enabled;
        bands = normalize_equalizer_bands float state.bands;
        last_nonflat_band_gains_db =
            remembered (length (normalize_equalizer_bands float state.bands))
              state.last_nonflat_band_gains_db;
        output_gain_db = clamp_equalizer_gain_db float state.output_gain_db;
      }))

  unfoldable pub apply_equalizer_state :
      EqualizerState F → EqualizedSession → EqualizedSession × VoidResult
  apply_equalizer_state state s =
      if not (
        is_finite state.output_gain_db
        && (all_finite float state.bands && every_finite state.last_nonflat_band_gains_db))
      then (s, invalid_finite_value_result "playback_session::apply_equalizer_state")
      else unless_closed "playback_session::apply_equalizer_state" s (
          if ltb equalizer_max_band_count (length state.bands)
          then (
            s,
            invalid_equalizer_argument "playback_session::apply_equalizer_state"
                "Equalizer state exceeds the maximum supported number of bands.",
          )
          else put (applied state s.equalizer) s)
