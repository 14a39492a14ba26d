-- ===== src/Equalizer/Placing.antt =====
-- Changes of one band that keep the bands laid out.
use sonotide.Prelude.{
  ℕ, zero, suc, ◌≤◌, ◌<◌, ◌^◌, ◌≡◌, inl, inr, refl, ap, false, Option, none, some, List, [], ◌∷◌,
  length, get_elem?, Bool-cases, arith,
}
use sonotide.Equalizer.{
  Floats, IsIeee, Below, EqualizerBand, min_frequency_hz, max_frequency_hz, min_band_spacing_hz,
  clamp,
}
use sonotide.Equalizer.Layout.{above_previous, below_next, previous_band, moved}
use sonotide.Equalizer.Spacing.{
  IsInRange, Spaced, Follows, AllSpaced, maximum-left, maximum-right, minimum-left, minimum-right,
  clamp-between, Spaced-Below, Spaced-widen_right,
}
use sonotide.Equalizer.Edits.{modify, insert_at, erase, lower_bound}

module _ {A : Type 0} where
  pub length-modify : (i : ℕ) (f : A → A) (xs : List A) → length (modify i f xs) ≡ length xs
  length-modify zero f [] = refl
  length-modify (suc i) f [] = refl
  length-modify zero f (x ∷ xs) = refl
  length-modify (suc i) f (x ∷ xs) = ap suc (length-modify i f xs)

  pub length-insert_at : (i : ℕ) (a : A) (xs : List A) → length (insert_at i a xs) ≡ suc (length xs)
  length-insert_at zero a xs = refl
  length-insert_at (suc i) a [] = refl
  length-insert_at (suc i) a (x ∷ xs) = ap suc (length-insert_at i a xs)

  pub length-erase : (i : ℕ) (xs : List A) → length (erase i xs) ≤ length xs
  length-erase zero [] = omega arith
  length-erase (suc i) [] = omega arith
  length-erase zero (x ∷ xs) = omega arith
  length-erase (suc i) (x ∷ xs) = omega (arith, length-erase i xs)

module _ {F : Type 0} (float : Floats F) where
  open float use {less, add, subtract, decimal}

  pub lower_bound-length :
      (bands : List (EqualizerBand F)) (frequency : F)
      → lower_bound float bands frequency ≤ length bands
  lower_bound-length [] frequency = omega arith
  lower_bound-length (band ∷ bands) frequency =
      elim (Bool-cases (less band.center_frequency_hz frequency)) [
        | inl e ↦ rw e (omega (arith, lower_bound-length bands frequency))
        | inr e ↦ rw e (omega arith)
      ]

  -- A change that keeps the frequencies and the ranges keeps the layout.
  pub modify-AllSpaced :
      (i : ℕ) (f : EqualizerBand F → EqualizerBand F) (bands : List (EqualizerBand F))
      → ((band : EqualizerBand F) → (f band).center_frequency_hz ≡ band.center_frequency_hz)
      → ((band : EqualizerBand F) → IsInRange float band → IsInRange float (f band))
      → AllSpaced float bands
      → AllSpaced float (modify i f bands)
  modify-AllSpaced zero f [] same range h = tt
  modify-AllSpaced (suc i) f [] same range h = tt
  modify-AllSpaced zero f (x ∷ xs) same range h = (range x h.0, rw (same x) (h.1), h.2)
  modify-AllSpaced (suc i) f (x ∷ xs) same range h =
      (h.0, head i xs h.1, modify-AllSpaced i f xs same range h.2)
    where
      head :
          (i : ℕ) (xs : List (EqualizerBand F))
          → Follows float x.center_frequency_hz xs
          → Follows float x.center_frequency_hz (modify i f xs)
      head zero [] h = h
      head (suc i) [] h = h
      head zero (y ∷ ys) h = rw (same y) h
      head (suc i) (y ∷ ys) h = h

  -- The neighbours of an index keep their space to a frequency.
  abbrev pub After : Option (EqualizerBand F) → F → Type 0
  After none v = Unit
  After (some a) v = Spaced float a.center_frequency_hz v

  abbrev pub Before : F → Option (EqualizerBand F) → Type 0
  Before v none = Unit
  Before v (some c) = Spaced float v c.center_frequency_hz

  pub move-AllSpaced :
      (i : ℕ) (v : F) (bands : List (EqualizerBand F))
      → Below float (min_frequency_hz float) v
      → Below float v (max_frequency_hz float)
      → After (previous_band float bands i) v
      → Before v (get_elem? bands (suc i))
      → AllSpaced float bands
      → AllSpaced float (modify i (λ band. moved float band v) bands)
  move-AllSpaced zero v [] low high prev next h = tt
  move-AllSpaced (suc i) v [] low high prev next h = tt
  move-AllSpaced zero v (x ∷ []) low high prev next h = (
    record {
      above_min = low;
      below_max = high;
      above_min_q = h.0.above_min_q;
      below_max_q = h.0.below_max_q;
    },
    tt,
    tt,
  )
  move-AllSpaced zero v (x ∷ y ∷ ys) low high prev next h = (
    record {
      above_min = low;
      below_max = high;
      above_min_q = h.0.above_min_q;
      below_max_q = h.0.below_max_q;
    },
    next,
    h.2,
  )
  move-AllSpaced (suc zero) v (x ∷ []) low high prev next h = h
  move-AllSpaced (suc zero) v (x ∷ y ∷ ys) low high prev next h =
      (h.0, prev, move-AllSpaced zero v (y ∷ ys) low high tt next h.2)
  move-AllSpaced (suc (suc i)) v (x ∷ []) low high prev next h = h
  move-AllSpaced (suc (suc i)) v (x ∷ y ∷ ys) low high prev next h =
      (h.0, h.1, move-AllSpaced (suc i) v (y ∷ ys) low high prev next h.2)

  pub insert_at-AllSpaced :
      (i : ℕ) (band : EqualizerBand F) (bands : List (EqualizerBand F))
      → i ≤ length bands
      → IsInRange float band
      → After (previous_band float bands i) band.center_frequency_hz
      → Before band.center_frequency_hz (get_elem? bands i)
      → AllSpaced float bands
      → AllSpaced float (insert_at i band bands)
  insert_at-AllSpaced zero band [] w range prev next h = (range, tt, tt)
  insert_at-AllSpaced zero band (x ∷ xs) w range prev next h = (range, next, h)
  insert_at-AllSpaced (suc i) band [] w range prev next h = absurd (omega arith)
  insert_at-AllSpaced (suc zero) band (x ∷ []) w range prev next h = (h.0, prev, (range, tt, tt))
  insert_at-AllSpaced (suc zero) band (x ∷ y ∷ ys) w range prev next h =
      (h.0, prev, (range, next, h.2))
  insert_at-AllSpaced (suc (suc i)) band (x ∷ []) w range prev next h = absurd (omega arith)
  insert_at-AllSpaced (suc (suc i)) band (x ∷ y ∷ ys) w range prev next h =
      (h.0, h.1, insert_at-AllSpaced (suc i) band (y ∷ ys) (omega arith) range prev next h.2)

  module _ (ieee : IsIeee float) where
    pub erase-AllSpaced :
        (i : ℕ) (bands : List (EqualizerBand F))
        → AllSpaced float bands
        → AllSpaced float (erase i bands)
    erase-AllSpaced zero [] h = tt
    erase-AllSpaced (suc i) [] h = tt
    erase-AllSpaced zero (x ∷ xs) h = h.2
    erase-AllSpaced (suc zero) (x ∷ []) h = h
    erase-AllSpaced (suc zero) (x ∷ y ∷ []) h = (h.0, tt, tt)
    erase-AllSpaced (suc zero) (x ∷ y ∷ z ∷ zs) (rx, sxy, (ry, syz, rest)) = (
      rx,
      Spaced-widen_right float ieee x.center_frequency_hz y.center_frequency_hz
          z.center_frequency_hz sxy
          (Spaced-Below float ieee y.center_frequency_hz z.center_frequency_hz syz
            (ieee.below-left _ _ ry.below_max) (ieee.below-left _ _ rest.0.below_max)),
      rest,
    )
    erase-AllSpaced (suc (suc i)) (x ∷ []) h = h
    erase-AllSpaced (suc (suc i)) (x ∷ y ∷ ys) h = (h.0, h.1, erase-AllSpaced (suc i) (y ∷ ys) h.2)

    pub HasRange : Option (EqualizerBand F) → Type 0
    HasRange none = Unit
    HasRange (some band) = IsInRange float band

    least-above_previous :
        (p : Option (EqualizerBand F)) (v : F)
        → HasRange p
        → Below float (min_frequency_hz float) (min_frequency_hz float)
        → Below float (above_previous float p) v
        → Below float (min_frequency_hz float) v × After p v
    unfolding HasRange
    least-above_previous none v r m h = (h, tt)
    least-above_previous (some a) v r m h =
        let up = add a.center_frequency_hz (min_band_spacing_hz float) in
        let number =
          ieee.below-right _ _
            (ieee.below-add a.center_frequency_hz (ieee.below-left _ _ r.below_max)) in
        (
          ieee.below_trans _ _ v (maximum-left float ieee (min_frequency_hz float) up m number) h,
          inl (
              ieee.below_trans _ _ v (maximum-right float ieee (min_frequency_hz float) up m number)
                h),
        )

    greatest-below_next :
        (n : Option (EqualizerBand F)) (v : F)
        → HasRange n
        → Below float (max_frequency_hz float) (max_frequency_hz float)
        → Below float v (below_next float n)
        → Below float v (max_frequency_hz float) × Before v n
    unfolding HasRange
    greatest-below_next none v r m h = (h, tt)
    greatest-below_next (some c) v r m h =
        let down = subtract c.center_frequency_hz (min_band_spacing_hz float) in
        let number =
          ieee.below-left _ _
            (ieee.below-subtract c.center_frequency_hz (ieee.below-left _ _ r.below_max)) in
        (
          ieee.below_trans v _ _ h (minimum-left float ieee (max_frequency_hz float) down m number),
          inr (
              ieee.below_trans v _ _ h
                (minimum-right float ieee (max_frequency_hz float) down m number)),
        )

    number : (n : ℕ) → n < 2 ^ 24 → Below float (decimal n 0) (decimal n 0)
    number n h = ieee.below-finite _ (ieee.finite-decimal n 0 (omega arith) h)

    low-number :
        (p : Option (EqualizerBand F))
        → HasRange p
        → Below float (above_previous float p) (above_previous float p)
    unfolding HasRange
    low-number none r = number 20 (omega arith)
    low-number (some a) r =
        let up =
          ieee.below-right _ _
            (ieee.below-add a.center_frequency_hz (ieee.below-left _ _ r.below_max)) in
        ieee.below-right _ _
          (maximum-left float ieee (min_frequency_hz float) _ (number 20 (omega arith)) up)

    high-number :
        (n : Option (EqualizerBand F))
        → HasRange n
        → Below float (below_next float n) (below_next float n)
    unfolding HasRange
    high-number none r = number 20_000 (omega arith)
    high-number (some c) r =
        let down =
          ieee.below-left _ _
            (ieee.below-subtract c.center_frequency_hz (ieee.below-left _ _ r.below_max)) in
        ieee.below-left _ _
          (minimum-left float ieee (max_frequency_hz float) _ (number 20_000 (omega arith)) down)

    pub lookup-HasRange :
        (bands : List (EqualizerBand F)) (i : ℕ)
        → AllSpaced float bands
        → HasRange (get_elem? bands i)
    unfolding HasRange
    lookup-HasRange [] i h = tt
    lookup-HasRange (x ∷ xs) zero h = h.0
    lookup-HasRange (x ∷ xs) (suc i) h = lookup-HasRange xs i h.2

    pub previous-HasRange :
        (bands : List (EqualizerBand F)) (i : ℕ)
        → AllSpaced float bands
        → HasRange (previous_band float bands i)
    unfolding HasRange
    previous-HasRange bands zero h = tt
    previous-HasRange bands (suc i) h = lookup-HasRange bands i h

    -- A frequency that is clamped between two neighbours keeps its space to them.
    pub clamped-fits :
        (p n : Option (EqualizerBand F)) (f : F)
        → HasRange p
        → HasRange n
        → Below float f f
        → less (below_next float n) (above_previous float p) ≡ false
        → (Below float
              (min_frequency_hz float)
              (clamp float f (above_previous float p) (below_next float n))
            × After p (clamp float f (above_previous float p) (below_next float n)))
          × (Below float
                (clamp float f (above_previous float p) (below_next float n))
                (max_frequency_hz float)
              × Before (clamp float f (above_previous float p) (below_next float n)) n)
    clamped-fits p n f rp rn number_f room =
        let ordered = ieee.below-not_less _ _ (high-number n rn) (low-number p rp) room in
        let between = clamp-between float ieee f _ _ number_f ordered in
        (
          least-above_previous p _ rp (number 20 (omega arith)) between.0,
          greatest-below_next n _ rn (number 20_000 (omega arith)) between.1,
        )
