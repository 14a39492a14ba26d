-- ===== src/Tests/Equalizers.antt =====
-- The equalizer on numbers of three decimals.
use sonotide.Prelude.{
  ℕ, zero, suc, ◌+◌, ◌-◌, ◌*◌, ◌/◌, ◌^◌, ◌≤◌, ◌≡◌, inl, refl, true, List, [], ◌∷◌, map, ltb, leb,
  arith,
}
use sonotide.Error.{Error, ErrorCategory, ErrorCode, make_error, failure}
use sonotide.Session.{eq_ready}
use sonotide.Equalizer.{Floats, IsIeee, EqualizerBand, EqualizerPreset, flat}
use sonotide.Equalizer.Layout.{
  normalize_equalizer_bands, sort, insert_sorted, push_up_from, pull_down,
}
use sonotide.Equalizer.Spacing.{IsInRange, IsLaidOut}
use sonotide.Equalizer.Normal.{normalize_equalizer_bands-IsLaidOut}
use sonotide.Equalizer.Calls.{EqualizedSession, remove_equalizer_band}
use sonotide.Equalizer.Invariant.{add_band, remove_band, edit, edit-IsLaidOut}
use sonotide.Equalizer.Refusal.{edit-failure}
use sonotide.Tests.Samples.{fresh_session_of}

-- `n` divided by the `k`-th power of 10, in thousandths.
abbrev thousandths : ℕ → ℕ → ℕ
thousandths n zero = n * 1_000
thousandths n (suc zero) = n * 100
thousandths n (suc (suc zero)) = n * 10
thousandths n (suc (suc (suc k))) = n

abbrev fixed : Floats ℕ
fixed = record {
  less = ltb;
  at_most = leb;
  is_finite = λ x. true;
  add = λ x y. x + y;
  subtract = λ x y. x - y;
  multiply = λ x y. x * y / 1_000;
  divide = λ x y. x * 1_000 / y;
  negate = λ x. 0;
  absolute = λ x. x;
  log = λ x. x;
  exp = λ x. x;
  truncate = λ x. x / 1_000;
  decimal = thousandths;
}

fixed-decimal_mono :
    (m k n j : ℕ)
    → k ≤ 3
    → j ≤ 3
    → m * 10 ^ j ≤ n * 10 ^ k
    → leb (thousandths m k) (thousandths n j) ≡ true
fixed-decimal_mono m zero n zero hk hj h = ground arith
fixed-decimal_mono m zero n (suc zero) hk hj h = ground arith
fixed-decimal_mono m zero n (suc (suc zero)) hk hj h = ground arith
fixed-decimal_mono m zero n (suc (suc (suc zero))) hk hj h = ground arith
fixed-decimal_mono m zero n (suc (suc (suc (suc j)))) hk hj h = absurd (omega arith)
fixed-decimal_mono m (suc zero) n zero hk hj h = ground arith
fixed-decimal_mono m (suc zero) n (suc zero) hk hj h = ground arith
fixed-decimal_mono m (suc zero) n (suc (suc zero)) hk hj h = ground arith
fixed-decimal_mono m (suc zero) n (suc (suc (suc zero))) hk hj h = ground arith
fixed-decimal_mono m (suc zero) n (suc (suc (suc (suc j)))) hk hj h = absurd (omega arith)
fixed-decimal_mono m (suc (suc zero)) n zero hk hj h = ground arith
fixed-decimal_mono m (suc (suc zero)) n (suc zero) hk hj h = ground arith
fixed-decimal_mono m (suc (suc zero)) n (suc (suc zero)) hk hj h = ground arith
fixed-decimal_mono m (suc (suc zero)) n (suc (suc (suc zero))) hk hj h = ground arith
fixed-decimal_mono m (suc (suc zero)) n (suc (suc (suc (suc j)))) hk hj h = absurd (omega arith)
fixed-decimal_mono m (suc (suc (suc zero))) n zero hk hj h = ground arith
fixed-decimal_mono m (suc (suc (suc zero))) n (suc zero) hk hj h = ground arith
fixed-decimal_mono m (suc (suc (suc zero))) n (suc (suc zero)) hk hj h = ground arith
fixed-decimal_mono m (suc (suc (suc zero))) n (suc (suc (suc zero))) hk hj h = ground arith
fixed-decimal_mono m (suc (suc (suc zero))) n (suc (suc (suc (suc j)))) hk hj h =
    absurd (omega arith)
fixed-decimal_mono m (suc (suc (suc (suc k)))) n j hk hj h = absurd (omega arith)

fixed-IsIeee : IsIeee fixed
fixed-IsIeee = record {
  below-finite = λ x h. ground arith;
  below-left = λ x y h. ground arith;
  below-right = λ x y h. ground arith;
  below_trans = λ x y z h i. ground (arith, h, i);
  below-less = λ x y h. ground (arith, h);
  below-not_less = λ x y hx hy h. ground (arith, h);
  below-add = λ x h. ground arith;
  below-subtract = λ x h. ground arith;
  add_mono = λ x y h. ground (arith, h);
  subtract_mono = λ x y h. ground (arith, h);
  finite-decimal = λ n k h i. refl;
  add-grid = λ i h. omega arith;
  subtract-grid = λ i h. omega arith;
  decimal_mono = λ m k n j hk hj h w. fixed-decimal_mono m k n j hk hj h;
}

abbrev band : ℕ → EqualizerBand ℕ
band frequency = record {
  center_frequency_hz = thousandths frequency 0;
  gain_db = 0;
  q_value = thousandths 1 0;
}

abbrev preamp : List (EqualizerBand ℕ) → ℕ → ℕ
preamp bands rate = 0

abbrev presets : List (EqualizerPreset ℕ)
presets = record { id = flat; gains_db = 0 ∷ [] } ∷ []

abbrev session : EqualizedSession fixed preamp presets
session = fresh_session_of (record {
  status = eq_ready;
  enabled = true;
  active_preset_id = flat;
  bands = band 100 ∷ band 200 ∷ [];
  last_nonflat_band_gains_db = 0 ∷ 0 ∷ [];
  output_gain_db = 0;
  headroom_compensation_db = 0;
  error_message = "";
})

-- Three bands that stand too close.
normal_frequencies :
    map
      (λ b. b.center_frequency_hz)
      (normalize_equalizer_bands fixed (band 20_000 ∷ band 5 ∷ band 19_999 ∷ []))
    ≡ 20_000 ∷ 19_990_000 ∷ 20_000_000 ∷ []
unfolding normalize_equalizer_bands sort insert_sorted push_up_from pull_down
normal_frequencies = refl

band-IsInRange :
    (frequency : ℕ) → 20 ≤ frequency → frequency ≤ 20_000 → IsInRange fixed (band frequency)
band-IsInRange frequency low high = record {
  above_min = ground arith;
  below_max = ground arith;
  above_min_q = refl;
  below_max_q = refl;
}

session-IsLaidOut : IsLaidOut fixed session.equalizer.bands
session-IsLaidOut = record {
  few = omega arith;
  spaced = (
    band-IsInRange 100 (omega arith) (omega arith),
    inl refl,
    (band-IsInRange 200 (omega arith) (omega arith), tt, tt),
  );
}

normalize_equalizer_bands-IsLaidOut_example :
    IsLaidOut fixed (normalize_equalizer_bands fixed (band 20_000 ∷ band 5 ∷ band 19_999 ∷ []))
normalize_equalizer_bands-IsLaidOut_example =
    normalize_equalizer_bands-IsLaidOut fixed fixed-IsIeee (band 20_000 ∷ band 5 ∷ band 19_999 ∷ [])

edit-IsLaidOut_example :
    IsLaidOut fixed
      (edit fixed preamp presets (add_band (thousandths 105 0) 0) session).0.equalizer.bands
edit-IsLaidOut_example =
    edit-IsLaidOut fixed preamp presets fixed-IsIeee (add_band (thousandths 105 0) 0) session
      session-IsLaidOut

abbrev no_band : Error
no_band =
    make_error ErrorCategory.configuration ErrorCode.invalid_argument
      "playback_session::remove_equalizer_band"
      "Equalizer band index is outside of the active band range."

removed : (edit fixed preamp presets (remove_band 2) session).1 ≡ failure no_band
unfolding edit remove_equalizer_band
removed = refl

edit-failure_example : (edit fixed preamp presets (remove_band 2) session).0 ≡ session
edit-failure_example = edit-failure fixed preamp presets (remove_band 2) session no_band removed
