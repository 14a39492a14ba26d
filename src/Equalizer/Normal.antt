-- ===== src/Equalizer/Normal.antt =====
-- `normalize_equalizer_bands` lays any bands out.
use sonotide.Prelude.{
  ℕ, suc, ◌+◌, ◌*◌, ◌≤◌, ◌<◌, ◌^◌, ◌≡◌, inl, inr, refl, sym, ap, ◌∙◌, List, [], ◌∷◌, length,
  length-map, length-take, take, map, Bool-cases, arith,
}
use sonotide.Equalizer.{
  Floats, IsIeee, Below, EqualizerBand, equalizer_max_band_count, min_frequency_hz,
  max_frequency_hz, min_band_spacing_hz, min_q_value, max_q_value, maximum, minimum,
}
use sonotide.Equalizer.Layout.{
  or_default, sanitize, insert_sorted, sort, push_up, push_up_from, under, pull_down,
  normalize_equalizer_bands,
}
use sonotide.Equalizer.Spacing.{
  IsInRange, AllSpaced, IsLaidOut, maximum-left, maximum-right, maximum-least, minimum-right,
  minimum-greatest, clamp-between,
}

module _ {F : Type 0} (float : Floats F) (ieee : IsIeee float) where
  open float use {add, subtract, decimal, is_finite}

  -- The least frequency that the band at an index can have.
  abbrev grid : ℕ → F
  grid i = decimal (20 + 10 * i) 0

  number : (n k : ℕ) → k ≤ 3 → n < 2 ^ 24 → Below float (decimal n k) (decimal n k)
  number n k b h = ieee.below-finite _ (ieee.finite-decimal n k b h)

  or_default-number :
      (x default_value : F)
      → Below float default_value default_value
      → Below float (or_default float x default_value) (or_default float x default_value)
  or_default-number x default_value h = elim (Bool-cases (is_finite x)) [
    | inl e ↦ rw e (ieee.below-finite x e)
    | inr e ↦ rw e h
  ]

  sanitize-IsInRange : (band : EqualizerBand F) → IsInRange float (sanitize float band)
  sanitize-IsInRange band =
      let f =
        clamp-between float ieee (or_default float band.center_frequency_hz (decimal 20 0))
          (decimal 20 0) (decimal 20_000 0)
          (or_default-number band.center_frequency_hz (decimal 20 0)
            (number 20 0 (omega arith) (omega arith)))
          (ieee.decimal_mono 20 0 20_000 0 (omega arith) (omega arith) (omega arith)
            (omega arith)) in
      let q =
        clamp-between float ieee (or_default float band.q_value (decimal 1414 3)) (decimal 1 1)
          (decimal 12 0)
          (or_default-number band.q_value (decimal 1414 3)
            (number 1414 3 (omega arith) (omega arith)))
          (ieee.decimal_mono 1 1 12 0 (omega arith) (omega arith) (omega arith) (omega arith)) in
      record { above_min = f.0; below_max = f.1; above_min_q = q.0; below_max_q = q.1 }

  abbrev AllInRange : List (EqualizerBand F) → Type 0
  AllInRange [] = Unit
  AllInRange (band ∷ bands) = IsInRange float band × AllInRange bands

  sanitized-AllInRange : (bands : List (EqualizerBand F)) → AllInRange (map (sanitize float) bands)
  sanitized-AllInRange [] = tt
  sanitized-AllInRange (band ∷ bands) = (sanitize-IsInRange band, sanitized-AllInRange bands)

  insert_sorted-AllInRange :
      (band : EqualizerBand F) (bands : List (EqualizerBand F))
      → IsInRange float band
      → AllInRange bands
      → AllInRange (insert_sorted float band bands)
        × (length (insert_sorted float band bands) ≡ suc (length bands))
  unfolding insert_sorted
  insert_sorted-AllInRange band [] h r = ((h, tt), refl)
  insert_sorted-AllInRange band (b ∷ bands) h r =
      let (ih, l) = insert_sorted-AllInRange band bands h r.1 in
      elim (Bool-cases (float.less b.center_frequency_hz band.center_frequency_hz)) [
        | inl e ↦ rw e ((r.0, ih), ap suc l)
        | inr e ↦ rw e ((h, r), refl)
      ]

  sort-AllInRange :
      (bands : List (EqualizerBand F))
      → AllInRange bands
      → AllInRange (sort float bands) × (length (sort float bands) ≡ length bands)
  unfolding sort
  sort-AllInRange [] r = (tt, refl)
  sort-AllInRange (band ∷ bands) r =
      let (ih, l) = sort-AllInRange bands r.1 in
      let (all, one) = insert_sorted-AllInRange band (sort float bands) r.0 ih in
      (all, one ∙ ap suc l)

  -- From the band at index `i` on, the frequencies are on or above the grid, the qualities in range.
  abbrev AboveGrid : ℕ → List (EqualizerBand F) → Type 0
  AboveGrid i [] = Unit
  AboveGrid i (band ∷ bands) =
      Below float (grid i) band.center_frequency_hz
      × Below float (min_q_value float) band.q_value
      × Below float band.q_value (max_q_value float)
      × AboveGrid (suc i) bands

  push_up_from-AboveGrid :
      (i : ℕ) (previous : F) (bands : List (EqualizerBand F))
      → Below float (grid i) previous
      → AllInRange bands
      → i + length bands ≤ 9
      → AboveGrid (suc i) (push_up_from float previous bands)
        × (length (push_up_from float previous bands) ≡ length bands)
  unfolding push_up_from
  push_up_from-AboveGrid i previous [] h r w = (tt, refl)
  push_up_from-AboveGrid i previous (band ∷ bands) h r w =
      let pushed = add previous (min_band_spacing_hz float) in
      let frequency = maximum float band.center_frequency_hz pushed in
      let step : Below float (grid (suc i)) pushed =
        rw (sym (ieee.add-grid i (omega arith))) (ieee.add_mono (grid i) previous h) in
      let above : Below float (grid (suc i)) frequency = ieee.below_trans _ pushed frequency step (
        maximum-right float ieee band.center_frequency_hz pushed (ieee.below-left _ _ r.0.below_max)
          (ieee.below-right _ _ step)) in
      let (ih, l) = push_up_from-AboveGrid (suc i) frequency bands above r.1 (omega arith) in
      ((above, r.0.above_min_q, r.0.below_max_q, ih), ap suc l)

  push_up-AboveGrid :
      (bands : List (EqualizerBand F))
      → AllInRange bands
      → length bands ≤ 10
      → AboveGrid 0 (push_up float bands) × (length (push_up float bands) ≡ length bands)
  push_up-AboveGrid [] r w = (tt, refl)
  push_up-AboveGrid (band ∷ bands) r w =
      let (above, l) =
        push_up_from-AboveGrid 0 band.center_frequency_hz bands r.0.above_min r.1 (omega arith) in
      ((r.0.above_min, r.0.above_min_q, r.0.below_max_q, above), ap suc l)

  min-grid : (i : ℕ) → i ≤ 9 → Below float (min_frequency_hz float) (grid i)
  min-grid i h =
      ieee.decimal_mono 20 0 (20 + 10 * i) 0 (omega arith) (omega arith) (omega arith) (omega arith)

  grid-max : (i : ℕ) → i ≤ 9 → Below float (grid i) (max_frequency_hz float)
  grid-max i h =
      ieee.decimal_mono (20 + 10 * i) 0 20_000 0 (omega arith) (omega arith) (omega arith)
        (omega arith)

  -- The bands from index `i` on are laid out and on or above the grid.
  Pulled : ℕ → List (EqualizerBand F) → Type 0
  Pulled i bands = AllSpaced float bands × AboveGrid i bands

  under-Pulled :
      (i : ℕ) (band : EqualizerBand F) (rest : List (EqualizerBand F))
      → i + length rest ≤ 9
      → Below float (grid i) band.center_frequency_hz
      → Below float (min_q_value float) band.q_value
      → Below float band.q_value (max_q_value float)
      → Pulled (suc i) rest
      → Pulled i (under float band rest ∷ rest)
  unfolding Pulled
  under-Pulled i band [] w above low_q high_q p =
      let top = number 20_000 0 (omega arith) (omega arith) in
      let here = ieee.below-right _ _ above in
      let f = minimum float band.center_frequency_hz (max_frequency_hz float) in
      let g =
        minimum-greatest float ieee band.center_frequency_hz (max_frequency_hz float) (grid i) above
          (grid-max i (omega arith)) in
      (
        (
          record {
            above_min = ieee.below_trans _ (grid i) f (min-grid i (omega arith)) g;
            below_max =
                minimum-right float ieee band.center_frequency_hz (max_frequency_hz float) here top;
            above_min_q = low_q;
            below_max_q = high_q;
          },
          tt,
          tt,
        ),
        (g, low_q, high_q, tt),
      )
  under-Pulled i band (next ∷ bands) w above low_q high_q p =
      let x = band.center_frequency_hz in
      let y = next.center_frequency_hz in
      let drop = subtract y (min_band_spacing_hz float) in
      let least = min_frequency_hz float in
      let m = minimum float x drop in
      let result = maximum float m least in
      let grid_drop : Below float (grid i) drop =
        rw (sym (ieee.subtract-grid i (omega arith))) (ieee.subtract_mono (grid (suc i)) y p.1.0) in
      let here = ieee.below-right _ _ above in
      let drop_number = ieee.below-right _ _ grid_drop in
      let grid_m = minimum-greatest float ieee x drop (grid i) above grid_drop in
      let m_number = ieee.below-right _ _ grid_m in
      let least_number = number 20 0 (omega arith) (omega arith) in
      let to_drop =
        maximum-least float ieee m least drop (minimum-right float ieee x drop here drop_number)
          (ieee.below_trans _ (grid i) drop (min-grid i (omega arith)) grid_drop) in
      let to_y =
        ieee.below_trans result drop y to_drop
          (ieee.below-subtract y (ieee.below-left _ _ p.0.0.below_max)) in
      (
        (
          record {
            above_min = maximum-right float ieee m least m_number least_number;
            below_max = ieee.below_trans result y _ to_y p.0.0.below_max;
            above_min_q = low_q;
            below_max_q = high_q;
          },
          inr to_drop,
          p.0,
        ),
        (
          ieee.below_trans (grid i) m result grid_m
              (maximum-left float ieee m least m_number least_number),
          low_q,
          high_q,
          p.1,
        ),
      )

  pull_down-Pulled :
      (i : ℕ) (bands : List (EqualizerBand F))
      → AboveGrid i bands
      → i + length bands ≤ 10
      → Pulled i (pull_down float bands) × (length (pull_down float bands) ≡ length bands)
  unfolding pull_down Pulled
  pull_down-Pulled i [] above w = ((tt, tt), refl)
  pull_down-Pulled i (band ∷ bands) (g, low_q, high_q, above) w =
      let (ih, l) = pull_down-Pulled (suc i) bands above (omega arith) in
      (under-Pulled i band (pull_down float bands) (omega (arith, l)) g low_q high_q ih, ap suc l)

  -- On floats that follow IEEE 754, `normalize_equalizer_bands` takes any bands, finite or not and
  -- in any order, keeps at most 10 of them and lays them out: frequencies and qualities in range,
  -- and neighbours at least the spacing apart up to rounding.
  pub normalize_equalizer_bands-IsLaidOut :
      (bands : List (EqualizerBand F)) → IsLaidOut float (normalize_equalizer_bands float bands)
  unfolding normalize_equalizer_bands Pulled
  normalize_equalizer_bands-IsLaidOut bands =
      let kept = take equalizer_max_band_count bands in
      let few : length (map (sanitize float) kept) ≤ 10 =
        omega (arith, length-map kept (sanitize float), length-take 10 bands) in
      let (all, sorted) = sort-AllInRange _ (sanitized-AllInRange kept) in
      let (above, pushed) = push_up-AboveGrid _ all (omega (arith, sorted, few)) in
      let (pulled, l) = pull_down-Pulled 0 _ above (omega (arith, sorted, few, pushed)) in
      record { few = omega (arith, sorted, few, pushed, l); spaced = pulled.0 }
