-- ===== src/Equalizer/Kept.antt =====
-- The calls that edit the equalizer keep its bands laid out.
use sonotide.Prelude.{
  String, ℕ, suc, ◌≡◌, refl, ap, Bool, true, not, Option, none, some, List, [], ◌∷◌, length, leb,
  if_intro, arith,
}
use sonotide.Error.{VoidResult, done}
use sonotide.Session.{recompute_equalizer_metadata}
use sonotide.Equalizer.{
  Floats, EqualizerBand, EqualizerPreset, EqualizerPresetId, custom, EqualizerState,
}
use sonotide.Equalizer.Presets.{project_preset_gains_to_bands}
use sonotide.Equalizer.Spacing.{AllSpaced, IsLaidOut}
use sonotide.Equalizer.Placing.{length-modify, modify-AllSpaced}
use sonotide.Equalizer.Edits.{
  same_preset, modify, clamp_equalizer_gain_db, with_gain, assign_gains, update_last_nonflat_state,
  recalculate_active_preset,
}
use sonotide.Equalizer.Calls.{
  EqualizedSession, with_bands, unless_closed, at_band, put, apply_preset, set_equalizer_enabled,
  select_equalizer_preset, set_equalizer_band_gain,
}

module _ {F : Type 0} (float : Floats F) where
  update-bands : (e : EqualizerState F) → (update_last_nonflat_state float e).bands ≡ e.bands
  unfolding update_last_nonflat_state
  update-bands e = ground arith

  recalculate-bands :
      (presets : List (EqualizerPreset F)) (e : EqualizerState F)
      → (recalculate_active_preset float presets e).bands ≡ e.bands
  unfolding recalculate_active_preset
  recalculate-bands presets e = refl

  length-assign_gains :
      (bands : List (EqualizerBand F)) (gains : List F)
      → length (assign_gains float bands gains) ≡ length bands
  length-assign_gains [] gains = refl
  length-assign_gains (band ∷ bands) [] = refl
  length-assign_gains (band ∷ bands) (gain ∷ gains) = ap suc (length-assign_gains bands gains)

  assign_gains-AllSpaced :
      (bands : List (EqualizerBand F)) (gains : List F)
      → AllSpaced float bands
      → AllSpaced float (assign_gains float bands gains)
  assign_gains-AllSpaced [] gains h = tt
  assign_gains-AllSpaced (band ∷ bands) [] h = h
  assign_gains-AllSpaced (x ∷ []) (gain ∷ gains) h = (
    record {
      above_min = h.0.above_min;
      below_max = h.0.below_max;
      above_min_q = h.0.above_min_q;
      below_max_q = h.0.below_max_q;
    },
    tt,
    tt,
  )
  assign_gains-AllSpaced (x ∷ y ∷ ys) (gain ∷ []) h = (
    record {
      above_min = h.0.above_min;
      below_max = h.0.below_max;
      above_min_q = h.0.above_min_q;
      below_max_q = h.0.below_max_q;
    },
    h.1,
    h.2,
  )
  assign_gains-AllSpaced (x ∷ y ∷ ys) (gain ∷ other ∷ gains) h = (
    record {
      above_min = h.0.above_min;
      below_max = h.0.below_max;
      above_min_q = h.0.above_min_q;
      below_max_q = h.0.below_max_q;
    },
    h.1,
    assign_gains-AllSpaced (y ∷ ys) (other ∷ gains) h.2,
  )

module _ {F : Type 0} (float : Floats F) (compute_target_preamp_db : List (EqualizerBand F) → ℕ → F)
    (presets : List (EqualizerPreset F)) where
  abbrev St : Type 0
  St = EqualizedSession float compute_target_preamp_db presets

  -- The session that a call leaves has its bands laid out.
  unfoldable pub LeavesLaidOut : St × VoidResult → Type 0
  LeavesLaidOut r = IsLaidOut float r.0.equalizer.bands

  pub put-bands :
      (e : EqualizerState F) (s : St)
      → (put float compute_target_preamp_db presets e s).0.equalizer.bands ≡ e.bands
  unfolding recompute_equalizer_metadata
  put-bands e s = ground arith

  pub put-LeavesLaidOut :
      (e : EqualizerState F) (s : St)
      → IsLaidOut float e.bands
      → LeavesLaidOut (put float compute_target_preamp_db presets e s)
  unfolding LeavesLaidOut
  put-LeavesLaidOut e s h = rw (put-bands e s) h

  pub refused-LeavesLaidOut :
      (s : St) → IsLaidOut float s.equalizer.bands → (r : VoidResult) → LeavesLaidOut (s, r)
  unfolding LeavesLaidOut
  refused-LeavesLaidOut s h r = h

  pub unless_closed-LeavesLaidOut :
      (operation : String) (s : St) (k : St × VoidResult)
      → IsLaidOut float s.equalizer.bands
      → LeavesLaidOut k
      → LeavesLaidOut (unless_closed float compute_target_preamp_db presets operation s k)
  unless_closed-LeavesLaidOut operation s k h l =
      if_intro LeavesLaidOut s.closed (λ _. refused-LeavesLaidOut s h _) (λ _. l)

  pub at_band-LeavesLaidOut :
      (operation : String) (finite : Bool) (index : ℕ) (s : St) (k : St × VoidResult)
      → IsLaidOut float s.equalizer.bands
      → (finite ≡ true → LeavesLaidOut k)
      → LeavesLaidOut (at_band float compute_target_preamp_db presets operation finite index s k)
  at_band-LeavesLaidOut operation finite index s k h l =
      if_intro LeavesLaidOut (not finite) (λ _. refused-LeavesLaidOut s h _)
        (λ e. unless_closed-LeavesLaidOut operation s _ h (
          if_intro LeavesLaidOut (leb (length s.equalizer.bands) index)
            (λ _. refused-LeavesLaidOut s h _) (λ _. l (ground (arith, e)))))

  -- The gains and the preset are followed up after an edit of the bands.
  pub updated-LeavesLaidOut :
      (e : EqualizerState F) (s : St)
      → IsLaidOut float e.bands
      → LeavesLaidOut (
          put float compute_target_preamp_db presets
            (update_last_nonflat_state float (recalculate_active_preset float presets e))
            s)
  updated-LeavesLaidOut e s h = put-LeavesLaidOut _ s (
      rw
        (
          update-bands float (recalculate_active_preset float presets e),
          recalculate-bands float presets e,
        )
        h)

  pub recalculated-LeavesLaidOut :
      (e : EqualizerState F) (s : St)
      → IsLaidOut float e.bands
      → LeavesLaidOut (
          put float compute_target_preamp_db presets
            (recalculate_active_preset float presets (update_last_nonflat_state float e))
            s)
  recalculated-LeavesLaidOut e s h = put-LeavesLaidOut _ s (
      rw (recalculate-bands float presets (update_last_nonflat_state float e), update-bands float e)
        h)

  pub set_equalizer_enabled-LeavesLaidOut :
      (enabled : Bool) (s : St)
      → IsLaidOut float s.equalizer.bands
      → LeavesLaidOut (set_equalizer_enabled float compute_target_preamp_db presets enabled s)
  unfolding set_equalizer_enabled
  set_equalizer_enabled-LeavesLaidOut enabled s h =
      unless_closed-LeavesLaidOut _ s _ h (put-LeavesLaidOut _ s h)

  apply_preset-LeavesLaidOut :
      (id : EqualizerPresetId) (o : Option (EqualizerPreset F)) (s : St)
      → IsLaidOut float s.equalizer.bands
      → LeavesLaidOut (apply_preset float compute_target_preamp_db presets id o s)
  apply_preset-LeavesLaidOut id none s h = refused-LeavesLaidOut s h _
  apply_preset-LeavesLaidOut id (some preset) s h =
      let gains = project_preset_gains_to_bands float preset s.equalizer.bands in
      put-LeavesLaidOut _ s (
        rw
          (update-bands float (record s.equalizer {
            bands = assign_gains float s.equalizer.bands gains;
            active_preset_id = id;
          }))
          (record {
            few = rw (length-assign_gains float s.equalizer.bands gains) h.few;
            spaced = assign_gains-AllSpaced float s.equalizer.bands gains h.spaced;
          }))

  pub select_equalizer_preset-LeavesLaidOut :
      (id : EqualizerPresetId) (s : St)
      → IsLaidOut float s.equalizer.bands
      → LeavesLaidOut (select_equalizer_preset float compute_target_preamp_db presets id s)
  unfolding select_equalizer_preset
  select_equalizer_preset-LeavesLaidOut id s h = unless_closed-LeavesLaidOut _ s _ h (
      if_intro LeavesLaidOut (same_preset id custom) (λ _. refused-LeavesLaidOut s h done)
        (λ _. apply_preset-LeavesLaidOut id _ s h))

  pub set_equalizer_band_gain-LeavesLaidOut :
      (index : ℕ) (gain : F) (s : St)
      → IsLaidOut float s.equalizer.bands
      → LeavesLaidOut (set_equalizer_band_gain float compute_target_preamp_db presets index gain s)
  unfolding set_equalizer_band_gain
  set_equalizer_band_gain-LeavesLaidOut index gain s h =
      let f : EqualizerBand F → EqualizerBand F =
        λ band. with_gain float band (clamp_equalizer_gain_db float gain) in
      at_band-LeavesLaidOut _ (float.is_finite gain) index s _ h (λ _.
        updated-LeavesLaidOut
          (with_bands float compute_target_preamp_db presets (modify index f s.equalizer.bands)
            s.equalizer)
          s
          (record {
            few = rw (length-modify index f s.equalizer.bands) h.few;
            spaced =
                modify-AllSpaced float index f s.equalizer.bands (λ band. refl)
                  (λ band r. record {
                    above_min = r.above_min;
                    below_max = r.below_max;
                    above_min_q = r.above_min_q;
                    below_max_q = r.below_max_q;
                  })
                  h.spaced;
          }))
