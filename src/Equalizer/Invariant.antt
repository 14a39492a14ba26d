-- ===== src/Equalizer/Invariant.antt =====
-- Every call that edits the equalizer keeps its bands laid out.
use sonotide.Prelude.{
  ℕ, suc, ◌≤◌, ◌<◌, ◌≡◌, refl, Bool, true, false, not, ◌&&◌, ◌||◌, Option, none, some, List, length,
  get_elem?, leb, ltb, if_intro, arith,
}
use sonotide.Error.{VoidResult, done}
use sonotide.Session.{increase}
use sonotide.Equalizer.{
  Floats, IsIeee, Below, EqualizerBand, EqualizerPreset, EqualizerPresetId, EqualizerState,
  equalizer_max_band_count, min_frequency_hz, max_frequency_hz, min_q_value, max_q_value,
  default_equalizer_q_value, clamp,
}
use sonotide.Equalizer.Layout.{
  EqualizerFrequencyRange, above_previous, below_next, previous_band, all_finite, moved,
  equalizer_band_editable_frequency_range,
}
use sonotide.Equalizer.Spacing.{IsLaidOut, clamp-between}
use sonotide.Equalizer.Normal.{normalize_equalizer_bands-IsLaidOut}
use sonotide.Equalizer.Placing.{
  length-modify, length-insert_at, length-erase, lower_bound-length, modify-AllSpaced,
  move-AllSpaced, insert_at-AllSpaced, erase-AllSpaced, lookup-HasRange, previous-HasRange,
  clamped-fits,
}
use sonotide.Equalizer.Edits.{
  modify, insert_at, erase, clamp_equalizer_q_value, clamp_equalizer_gain_db, with_q, lower_bound,
}
use sonotide.Equalizer.Calls.{
  EqualizedSession, with_bands, every_finite, new_band, add_at, move_within, set_equalizer_enabled,
  select_equalizer_preset, set_equalizer_band_gain, set_equalizer_band_q, add_equalizer_band,
  remove_equalizer_band, set_equalizer_band_frequency, end_reset_equalizer,
  set_equalizer_output_gain, apply_equalizer_state,
}
use sonotide.Equalizer.Kept.{
  LeavesLaidOut, put-LeavesLaidOut, refused-LeavesLaidOut, unless_closed-LeavesLaidOut,
  at_band-LeavesLaidOut, updated-LeavesLaidOut, recalculated-LeavesLaidOut,
  set_equalizer_enabled-LeavesLaidOut, select_equalizer_preset-LeavesLaidOut,
  set_equalizer_band_gain-LeavesLaidOut,
}

module _ {F : Type 0} (float : Floats F) (compute_target_preamp_db : List (EqualizerBand F) → ℕ → F)
    (presets : List (EqualizerPreset F)) (ieee : IsIeee float) where
  abbrev St : Type 0
  St = EqualizedSession float compute_target_preamp_db presets

  abbrev Leaves : St × VoidResult → Type 0
  Leaves = LeavesLaidOut float compute_target_preamp_db presets

  set_equalizer_band_q-Leaves :
      (index : ℕ) (q : F) (s : St)
      → IsLaidOut float s.equalizer.bands
      → Leaves (set_equalizer_band_q float compute_target_preamp_db presets index q s)
  unfolding set_equalizer_band_q
  set_equalizer_band_q-Leaves index q s h =
      let f : EqualizerBand F → EqualizerBand F =
        λ band. with_q float band (clamp_equalizer_q_value float q) in
      at_band-LeavesLaidOut float compute_target_preamp_db presets _ (float.is_finite q) index s _ h
        (λ finite.
          let between =
            clamp-between float ieee q (min_q_value float) (max_q_value float)
              (ieee.below-finite q finite)
              (ieee.decimal_mono 1 1 12 0 (omega arith) (omega arith) (omega arith)
                (omega arith)) in
          put-LeavesLaidOut float compute_target_preamp_db presets _ s (record {
            few = rw (length-modify index f s.equalizer.bands) h.few;
            spaced =
                modify-AllSpaced float index f s.equalizer.bands (λ band. refl)
                  (λ band r. record {
                    above_min = r.above_min;
                    below_max = r.below_max;
                    above_min_q = between.0;
                    below_max_q = between.1;
                  })
                  h.spaced;
          }))

  remove_equalizer_band-Leaves :
      (index : ℕ) (s : St)
      → IsLaidOut float s.equalizer.bands
      → Leaves (remove_equalizer_band float compute_target_preamp_db presets index s)
  unfolding remove_equalizer_band
  remove_equalizer_band-Leaves index s h =
      at_band-LeavesLaidOut float compute_target_preamp_db presets _ true index s _ h (λ _.
        recalculated-LeavesLaidOut float compute_target_preamp_db presets
          (with_bands float compute_target_preamp_db presets (erase index s.equalizer.bands)
            s.equalizer)
          s
          (record {
            few = omega (arith, h.few, length-erase index s.equalizer.bands);
            spaced = erase-AllSpaced float ieee index s.equalizer.bands h.spaced;
          }))

  -- The default quality is in range.
  default_q :
      Below float (min_q_value float) (default_equalizer_q_value float)
      × Below float (default_equalizer_q_value float) (max_q_value float)
  default_q = (
    ieee.decimal_mono 1 1 1414 3 (omega arith) (omega arith) (omega arith) (omega arith),
    ieee.decimal_mono 1414 3 12 0 (omega arith) (omega arith) (omega arith) (omega arith),
  )

  add_at-Leaves :
      (index : ℕ) (frequency gain : F) (s : St)
      → IsLaidOut float s.equalizer.bands
      → index ≤ length s.equalizer.bands
      → length s.equalizer.bands < 10
      → Below float frequency frequency
      → Leaves (add_at float compute_target_preamp_db presets index frequency gain s)
  add_at-Leaves index frequency gain s h inside few number =
      let p = previous_band float s.equalizer.bands index in
      let n = get_elem? s.equalizer.bands index in
      let low = above_previous float p in
      let high = below_next float n in
      let band = new_band float compute_target_preamp_db presets frequency low high gain in
      if_intro Leaves (float.less high low)
        (λ _. refused-LeavesLaidOut float compute_target_preamp_db presets s h _)
        (λ room.
          let (after, before) =
            clamped-fits float ieee p n frequency
              (previous-HasRange float ieee s.equalizer.bands index h.spaced)
              (lookup-HasRange float ieee s.equalizer.bands index h.spaced) number room in
          recalculated-LeavesLaidOut float compute_target_preamp_db presets
            (with_bands float compute_target_preamp_db presets
              (insert_at index band s.equalizer.bands) s.equalizer)
            s
            (record {
              few = omega (arith, few, length-insert_at index band s.equalizer.bands);
              spaced =
                  insert_at-AllSpaced float index band s.equalizer.bands inside
                    (record {
                      above_min = after.0;
                      below_max = before.0;
                      above_min_q = default_q.0;
                      below_max_q = default_q.1;
                    })
                    after.1 before.1 h.spaced;
            }))

  add_equalizer_band-Leaves :
      (frequency gain : F) (s : St)
      → IsLaidOut float s.equalizer.bands
      → Leaves (add_equalizer_band float compute_target_preamp_db presets frequency gain s)
  unfolding add_equalizer_band
  add_equalizer_band-Leaves frequency gain s h =
      let clamped = clamp float frequency (min_frequency_hz float) (max_frequency_hz float) in
      if_intro Leaves (not (float.is_finite frequency) || not (float.is_finite gain))
        (λ _. refused-LeavesLaidOut float compute_target_preamp_db presets s h _)
        (λ finite. unless_closed-LeavesLaidOut float compute_target_preamp_db presets _ s _ h (
          if_intro Leaves (leb equalizer_max_band_count (length s.equalizer.bands))
            (λ _. refused-LeavesLaidOut float compute_target_preamp_db presets s h _)
            (λ few.
              let between =
                clamp-between float ieee frequency _ _
                  (ieee.below-finite frequency (ground (arith, finite)))
                  (ieee.decimal_mono 20 0 20_000 0 (omega arith) (omega arith) (omega arith)
                    (omega arith)) in
              add_at-Leaves (lower_bound float s.equalizer.bands clamped) clamped gain s h
                (lower_bound-length float s.equalizer.bands clamped) (ground (arith, few))
                (ieee.below-left _ _ between.1))))

  range_inv :
      (bands : List (EqualizerBand F)) (index : ℕ) (range : EqualizerFrequencyRange F)
      → equalizer_band_editable_frequency_range float bands index ≡ some range
      → (range ≡ record {
        min_frequency_hz = above_previous float (previous_band float bands index);
        max_frequency_hz = below_next float (get_elem? bands (suc index));
      })
        × (float.less
              (below_next float (get_elem? bands (suc index)))
              (above_previous float (previous_band float bands index))
            ≡ false)
  unfolding equalizer_band_editable_frequency_range
  range_inv bands index range h = (ground (arith, h), ground (arith, h))

  move_within-Leaves :
      (index : ℕ) (frequency : F) (o : Option (EqualizerFrequencyRange F)) (s : St)
      → equalizer_band_editable_frequency_range float s.equalizer.bands index ≡ o
      → IsLaidOut float s.equalizer.bands
      → Below float frequency frequency
      → Leaves (move_within float compute_target_preamp_db presets index frequency o s)
  move_within-Leaves index frequency none s e h number =
      refused-LeavesLaidOut float compute_target_preamp_db presets s h _
  move_within-Leaves index frequency (some range) s e h number =
      let bands = s.equalizer.bands in
      let p = previous_band float bands index in
      let n = get_elem? bands (suc index) in
      let v = clamp float frequency (above_previous float p) (below_next float n) in
      let f : EqualizerBand F → EqualizerBand F = λ band. moved float band v in
      let (is_range, room) = range_inv bands index range e in
      let (after, before) =
        clamped-fits float ieee p n frequency (previous-HasRange float ieee bands index h.spaced)
          (lookup-HasRange float ieee bands (suc index) h.spaced) number room in
      rw is_range (
        updated-LeavesLaidOut float compute_target_preamp_db presets
          (with_bands float compute_target_preamp_db presets (modify index f bands) s.equalizer) s
          (record {
            few = rw (length-modify index f bands) h.few;
            spaced = move-AllSpaced float index v bands after.0 before.0 after.1 before.1 h.spaced;
          }))

  set_equalizer_band_frequency-Leaves :
      (index : ℕ) (frequency : F) (s : St)
      → IsLaidOut float s.equalizer.bands
      → Leaves
          (set_equalizer_band_frequency float compute_target_preamp_db presets index frequency s)
  unfolding set_equalizer_band_frequency
  set_equalizer_band_frequency-Leaves index frequency s h =
      at_band-LeavesLaidOut float compute_target_preamp_db presets _ (float.is_finite frequency)
        index s _ h
        (λ finite.
          move_within-Leaves index frequency _ s refl h (ieee.below-finite frequency finite))

  end_reset_equalizer-Leaves :
      (s : St)
      → IsLaidOut float s.equalizer.bands
      → Leaves (end_reset_equalizer float compute_target_preamp_db presets s)
  unfolding end_reset_equalizer
  end_reset_equalizer-Leaves s h = put-LeavesLaidOut float compute_target_preamp_db presets _ s h

  set_equalizer_output_gain-Leaves :
      (gain : F) (s : St)
      → IsLaidOut float s.equalizer.bands
      → Leaves (set_equalizer_output_gain float compute_target_preamp_db presets gain s)
  unfolding set_equalizer_output_gain
  set_equalizer_output_gain-Leaves gain s h =
      if_intro Leaves (not (float.is_finite gain))
        (λ _. refused-LeavesLaidOut float compute_target_preamp_db presets s h _)
        (λ _. unless_closed-LeavesLaidOut float compute_target_preamp_db presets _ s _ h (
          refused-LeavesLaidOut float compute_target_preamp_db presets
            (record s {
              equalizer = record s.equalizer {
                output_gain_db = clamp_equalizer_gain_db float gain;
              };
              equalizer_control_version = increase s.equalizer_control_version;
            })
            h done))

  apply_equalizer_state-Leaves :
      (state : EqualizerState F) (s : St)
      → IsLaidOut float s.equalizer.bands
      → Leaves (apply_equalizer_state float compute_target_preamp_db presets state s)
  unfolding apply_equalizer_state
  apply_equalizer_state-Leaves state s h =
      if_intro Leaves
        (not (
          float.is_finite state.output_gain_db
          && (all_finite float state.bands
              && every_finite float compute_target_preamp_db presets
                  state.last_nonflat_band_gains_db)))
        (λ _. refused-LeavesLaidOut float compute_target_preamp_db presets s h _)
        (λ _. unless_closed-LeavesLaidOut float compute_target_preamp_db presets _ s _ h (
          if_intro Leaves (ltb equalizer_max_band_count (length state.bands))
            (λ _. refused-LeavesLaidOut float compute_target_preamp_db presets s h _)
            (λ _.
              updated-LeavesLaidOut float compute_target_preamp_db presets _ s
                (normalize_equalizer_bands-IsLaidOut float ieee state.bands))))

-- A call that edits the equalizer; `finish_reset` is the second section of `reset_equalizer`, whose
-- first one selects the preset `flat`.
pub data EqualizerCall (F : Type 0) : Type 0 where
  enable : Bool → EqualizerCall F
  select_preset : EqualizerPresetId → EqualizerCall F
  band_gain band_q band_frequency : ℕ → F → EqualizerCall F
  add_band : F → F → EqualizerCall F
  remove_band : ℕ → EqualizerCall F
  finish_reset : EqualizerCall F
  output_gain : F → EqualizerCall F
  apply_state : EqualizerState F → EqualizerCall F

module _ {F : Type 0} (float : Floats F) (compute_target_preamp_db : List (EqualizerBand F) → ℕ → F)
    (presets : List (EqualizerPreset F)) where
  unfoldable pub edit :
      EqualizerCall F
      → EqualizedSession float compute_target_preamp_db presets
      → EqualizedSession float compute_target_preamp_db presets × VoidResult
  edit (enable enabled) s = set_equalizer_enabled float compute_target_preamp_db presets enabled s
  edit (select_preset id) s = select_equalizer_preset float compute_target_preamp_db presets id s
  edit (band_gain index gain) s =
      set_equalizer_band_gain float compute_target_preamp_db presets index gain s
  edit (band_q index q) s = set_equalizer_band_q float compute_target_preamp_db presets index q s
  edit (band_frequency index frequency) s =
      set_equalizer_band_frequency float compute_target_preamp_db presets index frequency s
  edit (add_band frequency gain) s =
      add_equalizer_band float compute_target_preamp_db presets frequency gain s
  edit (remove_band index) s = remove_equalizer_band float compute_target_preamp_db presets index s
  edit finish_reset s = end_reset_equalizer float compute_target_preamp_db presets s
  edit (output_gain gain) s =
      set_equalizer_output_gain float compute_target_preamp_db presets gain s
  edit (apply_state state) s = apply_equalizer_state float compute_target_preamp_db presets state s

  -- On floats that follow IEEE 754, every call that edits the equalizer keeps its bands laid out,
  -- whether it succeeds or fails: at most 10 bands, their frequencies from 20 Hz to 20 kHz and
  -- their qualities from 0.1 to 12, and neighbours at least 10 Hz apart up to rounding.
  pub edit-IsLaidOut :
      IsIeee float
      → (c : EqualizerCall F) (s : EqualizedSession float compute_target_preamp_db presets)
      → IsLaidOut float s.equalizer.bands
      → IsLaidOut float (edit c s).0.equalizer.bands
  unfolding edit LeavesLaidOut
  edit-IsLaidOut ieee (enable enabled) s h =
      set_equalizer_enabled-LeavesLaidOut float compute_target_preamp_db presets enabled s h
  edit-IsLaidOut ieee (select_preset id) s h =
      select_equalizer_preset-LeavesLaidOut float compute_target_preamp_db presets id s h
  edit-IsLaidOut ieee (band_gain index gain) s h =
      set_equalizer_band_gain-LeavesLaidOut float compute_target_preamp_db presets index gain s h
  edit-IsLaidOut ieee (band_q index q) s h =
      set_equalizer_band_q-Leaves float compute_target_preamp_db presets ieee index q s h
  edit-IsLaidOut ieee (band_frequency index frequency) s h =
      set_equalizer_band_frequency-Leaves float compute_target_preamp_db presets ieee index
        frequency s h
  edit-IsLaidOut ieee (add_band frequency gain) s h =
      add_equalizer_band-Leaves float compute_target_preamp_db presets ieee frequency gain s h
  edit-IsLaidOut ieee (remove_band index) s h =
      remove_equalizer_band-Leaves float compute_target_preamp_db presets ieee index s h
  edit-IsLaidOut ieee finish_reset s h =
      end_reset_equalizer-Leaves float compute_target_preamp_db presets ieee s h
  edit-IsLaidOut ieee (output_gain gain) s h =
      set_equalizer_output_gain-Leaves float compute_target_preamp_db presets ieee gain s h
  edit-IsLaidOut ieee (apply_state state) s h =
      apply_equalizer_state-Leaves float compute_target_preamp_db presets ieee state s h
