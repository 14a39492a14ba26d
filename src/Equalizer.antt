-- ===== src/Equalizer.antt =====
-- include/sonotide/equalizer.h: the equalizer's bands, presets and state, over the operations of
-- `float`. The children have the presets' names, the layout of the bands, and the session's edits.
pub mod Presets
pub mod Layout
pub mod Spacing
pub mod Normal
pub mod Edits
pub mod Calls
pub mod Placing
pub mod Kept
pub mod Invariant
pub mod Refusal
use sonotide.Prelude.{
  ℕ, zero, suc, ◌+◌, ◌*◌, ◌<◌, ◌≤◌, ◌^◌, ◌≡◌, Bool, true, false, Option, String, List,
  if◌then◌else◌,
}
use sonotide.Session.{EqualizerStatus}

-- The operations of `float`: `less` is `<`, `at_most` is `<=`, and `decimal n k` is the literal
-- for `n` divided by the `k`-th power of 10.
pub record Floats (F : Type 0) : Type 0 where
  pub less : F → F → Bool
  pub at_most : F → F → Bool
  pub is_finite : F → Bool
  pub add : F → F → F
  pub subtract : F → F → F
  pub multiply : F → F → F
  pub divide : F → F → F
  pub negate : F → F
  pub absolute : F → F
  pub log : F → F
  pub exp : F → F
  pub truncate : F → ℕ
  pub decimal : ℕ → ℕ → F

pub data EqualizerPresetId : Type 0 where
  flat bass_boost treble_boost vocal pop rock electronic hip_hop jazz classical acoustic dance :
      EqualizerPresetId
  piano spoken_podcast loudness custom : EqualizerPresetId

pub record EqualizerBand (F : Type 0) : Type 0 where
  pub center_frequency_hz : F
  pub gain_db : F
  pub q_value : F

pub record EqualizerPreset (F : Type 0) : Type 0 where
  pub id : EqualizerPresetId
  pub gains_db : List F

-- `equalizer_state`. The presets that it shows are those of the session.
pub record EqualizerState (F : Type 0) : Type 0 where
  pub status : EqualizerStatus
  pub enabled : Bool
  pub active_preset_id : EqualizerPresetId
  pub bands : List (EqualizerBand F)
  pub last_nonflat_band_gains_db : List F
  pub output_gain_db : F
  pub headroom_compensation_db : F
  pub error_message : String

abbrev pub equalizer_max_band_count : ℕ
equalizer_max_band_count = 10

module _ {F : Type 0} (float : Floats F) where
  open float use {less, at_most, is_finite, add, subtract, decimal, negate}

  abbrev pub min_frequency_hz : F
  min_frequency_hz = decimal 20 0

  abbrev pub max_frequency_hz : F
  max_frequency_hz = decimal 20_000 0

  abbrev pub min_band_spacing_hz : F
  min_band_spacing_hz = decimal 10 0

  abbrev pub min_q_value : F
  min_q_value = decimal 1 1

  abbrev pub max_q_value : F
  max_q_value = decimal 12 0

  abbrev pub default_equalizer_q_value : F
  default_equalizer_q_value = decimal 1414 3

  -- `std::max`, `std::min` and `std::clamp`.
  abbrev pub maximum : F → F → F
  maximum x y = if less x y then y else x

  abbrev pub minimum : F → F → F
  minimum x y = if less y x then y else x

  abbrev pub clamp : F → F → F → F
  clamp x low high = if less x low then low else if less high x then high else x

  -- `x <= y`.
  abbrev pub Below : F → F → Type 0
  Below x y = at_most x y ≡ true

  -- What the code relies on in the arithmetic of IEEE 754. A value that is not a number is below
  -- nothing, itself included, and rounding is monotone. The grid of the least frequencies, 20, 30,
  -- 40 and so on, is exact.
  pub record IsIeee : Type 0 where
    pub below-finite : (x : F) → is_finite x ≡ true → Below x x
    pub below-left : (x y : F) → Below x y → Below x x
    pub below-right : (x y : F) → Below x y → Below y y
    pub below_trans : (x y z : F) → Below x y → Below y z → Below x z
    pub below-less : (x y : F) → less x y ≡ true → Below x y
    pub below-not_less : (x y : F) → Below x x → Below y y → less x y ≡ false → Below y x
    pub below-add : (x : F) → Below x x → Below x (add x min_band_spacing_hz)
    pub below-subtract : (x : F) → Below x x → Below (subtract x min_band_spacing_hz) x
    pub add_mono :
        (x y : F) → Below x y → Below (add x min_band_spacing_hz) (add y min_band_spacing_hz)
    pub subtract_mono :
        (x y : F)
        → Below x y
        → Below (subtract x min_band_spacing_hz) (subtract y min_band_spacing_hz)
    pub finite-decimal : (n k : ℕ) → k ≤ 3 → n < 2 ^ 24 → is_finite (decimal n k) ≡ true
    pub add-grid :
        (i : ℕ)
        → i < 9
        → add (decimal (20 + 10 * i) 0) min_band_spacing_hz ≡ decimal (20 + 10 * suc i) 0
    pub subtract-grid :
        (i : ℕ)
        → i < 9
        → subtract (decimal (20 + 10 * suc i) 0) min_band_spacing_hz ≡ decimal (20 + 10 * i) 0
    pub decimal_mono :
        (m k n j : ℕ)
        → k ≤ 3
        → j ≤ 3
        → m * 10 ^ j ≤ n * 10 ^ k
        → n < 2 ^ 24
        → Below (decimal m k) (decimal n j)
