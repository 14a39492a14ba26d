-- ===== src/Equalizer/Refusal.antt =====
-- A call that edits the equalizer and fails changes nothing.
use sonotide.Prelude.{ℕ, ◌≡◌, List, arith}
use sonotide.Error.{Error, failure}
use sonotide.Equalizer.{Floats, EqualizerBand, EqualizerPreset}
use sonotide.Equalizer.Calls.{
  EqualizedSession, set_equalizer_enabled, select_equalizer_preset, set_equalizer_band_gain,
  set_equalizer_band_q, add_equalizer_band, remove_equalizer_band, set_equalizer_band_frequency,
  end_reset_equalizer, set_equalizer_output_gain, apply_equalizer_state,
}
use sonotide.Equalizer.Invariant.{
  EqualizerCall, enable, select_preset, band_gain, band_q, band_frequency, add_band, remove_band,
  finish_reset, output_gain, apply_state, edit,
}

module _ {F : Type 0} (float : Floats F) (compute_target_preamp_db : List (EqualizerBand F) → ℕ → F)
    (presets : List (EqualizerPreset F)) where
  -- A call that edits the equalizer and returns an error leaves the whole session as it was.
  pub edit-failure :
      (c : EqualizerCall F) (s : EqualizedSession float compute_target_preamp_db presets)
      (x : Error)
      → (edit float compute_target_preamp_db presets c s).1 ≡ failure x
      → (edit float compute_target_preamp_db presets c s).0 ≡ s
  unfolding edit set_equalizer_enabled select_equalizer_preset set_equalizer_band_gain
      set_equalizer_band_q add_equalizer_band remove_equalizer_band set_equalizer_band_frequency
      end_reset_equalizer set_equalizer_output_gain apply_equalizer_state
  edit-failure (enable enabled) s x h = ground (arith, h)
  edit-failure (select_preset id) s x h = ground (arith, h)
  edit-failure (band_gain index gain) s x h = ground (arith, h)
  edit-failure (band_q index q) s x h = ground (arith, h)
  edit-failure (band_frequency index frequency) s x h = ground (arith, h)
  edit-failure (add_band frequency gain) s x h = ground (arith, h)
  edit-failure (remove_band index) s x h = ground (arith, h)
  edit-failure finish_reset s x h = ground (arith, h)
  edit-failure (output_gain gain) s x h = ground (arith, h)
  edit-failure (apply_state state) s x h = ground (arith, h)
