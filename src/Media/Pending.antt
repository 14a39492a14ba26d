-- ===== src/Media/Pending.antt =====
-- What the loop of `ensure_decoded_frames` does to the samples that wait in the decoder.
use sonotide.Prelude.{
  ℕ, ◌≡◌, refl, sym, ap, ◌∙◌, Bool, true, false, Option, none, some, List, [], ◌∷◌, ◌++◌, take, ltb,
  if◌then◌else◌, Bool-cases, if_intro, inl, inr, arith, ◌||◌,
}
use mathlib.Core.List.{append_assoc, append-nil}
use sonotide.Prelude.Int.{ℤ}
use sonotide.Hresult.{is_failed}
use sonotide.Error.{Error, success, failure}
use sonotide.Media.{MediaDecoder}
use sonotide.Decoder.{changed_since}
use sonotide.Media.Read.{
  is_invalid, is_beyond, MediaBuffer, MediaSample, Growth, grows, bad_alloc, length_error, timed,
  no_samples, Reply, Round, goes_on, breaks, fails, ReadOutcome, returns, unfinished, floats_behind,
  float_count, unlocked, copied, grown, append_contiguous, append_buffer, append_sample,
  read_sample, wants, read_loop,
}

module _ {A : Type 0} where
  abbrev buffer_floats : Option (MediaBuffer A) → List A
  buffer_floats none = []
  buffer_floats (some b) = take (float_count b) (floats_behind b.floats)

  abbrev sample_floats : Option (MediaSample A) → List A
  sample_floats none = []
  sample_floats (some s) = buffer_floats s.buffer

  -- The floats of an answer that the loop takes.
  abbrev pub reply_floats : Reply A → List A
  reply_floats r = if r.is_end_of_stream then [] else sample_floats r.sample

  -- The floats of the source that a list of answers brings.
  abbrev pub source_floats : List (Reply A) → List A
  source_floats [] = []
  source_floats (r ∷ rs) = reply_floats r ++ source_floats rs

  -- The decoder `e` is `d` with some samples added at the end.
  pub record Grew (d e : MediaDecoder A) (added : List A) : Type 0 where
    pub samples : e.decoded_samples ≡ d.decoded_samples ++ added
    pub offset : e.decoded_sample_offset ≡ d.decoded_sample_offset
    pub format : e.output_format ≡ d.output_format
    pub source : e.has_source_reader ≡ d.has_source_reader

  -- What a round has done, by its end.
  RoundGrew : List A → MediaDecoder A → Round A → Type 0
  RoundGrew added d (goes_on e) = Grew d e added
  RoundGrew added d (breaks e) = Grew d e added × (e.end_of_stream ≡ true)
  RoundGrew added d (fails e x) = Grew d e []

  pub Grew-refl : (d : MediaDecoder A) → Grew d d []
  Grew-refl d = record {
    samples = sym (append-nil d.decoded_samples);
    offset = refl;
    format = refl;
    source = refl;
  }

  timed-Grew :
      {d e : MediaDecoder A} {added : List A} (time : ℤ)
      → Grew (timed d time) e added
      → Grew d e added
  timed-Grew {d} time g = elim (Bool-cases (no_samples d.decoded_samples)) [
    | inl h ↦ ground (arith, g, h)
    | inr h ↦ ground (arith, g, h)
  ]

  timed-RoundGrew :
      (d : MediaDecoder A) (added : List A) (time : ℤ) (x : Round A)
      → RoundGrew added (timed d time) x
      → RoundGrew added d x
  unfolding RoundGrew
  timed-RoundGrew d added time (goes_on e) g = timed-Grew time g
  timed-RoundGrew d added time (breaks e) g = (timed-Grew time g.0, g.1)
  timed-RoundGrew d added time (fails e x) g = timed-Grew time g

  -- A round that fails leaves the samples as they are.
  fails-RoundGrew :
      (added : List A) (d : MediaDecoder A) (x : Error) → RoundGrew added d (fails d x)
  unfolding RoundGrew
  fails-RoundGrew added d x = Grew-refl d

  copied-RoundGrew :
      (d : MediaDecoder A) (b : MediaBuffer A)
      → RoundGrew (buffer_floats (some b)) d (goes_on (copied d b))
  unfolding RoundGrew
  copied-RoundGrew d b = record { samples = refl; offset = refl; format = refl; source = refl }

  kept-RoundGrew : (d : MediaDecoder A) → RoundGrew [] d (goes_on d)
  unfolding RoundGrew
  kept-RoundGrew d = Grew-refl d

  ended-RoundGrew :
      (d : MediaDecoder A) (r : Reply A)
      → r.is_end_of_stream ≡ true
      → RoundGrew (reply_floats r) d (breaks (record d { end_of_stream = true }))
  unfolding RoundGrew
  ended-RoundGrew d r e = (
    record {
      samples = rw e (sym (append-nil d.decoded_samples));
      offset = refl;
      format = refl;
      source = refl;
    },
    refl,
  )

  unlocked-RoundGrew :
      (d : MediaDecoder A) (b : MediaBuffer A) → RoundGrew (buffer_floats (some b)) d (unlocked d b)
  unlocked-RoundGrew d b =
      if_intro (RoundGrew (buffer_floats (some b)) d) (is_failed b.unlock_hr)
        (λ _. fails-RoundGrew _ d _) (λ _. copied-RoundGrew d b)

  grown-RoundGrew :
      (g : Growth) (d : MediaDecoder A) (b : MediaBuffer A)
      → RoundGrew (buffer_floats (some b)) d (grown g d b)
  grown-RoundGrew grows d b = unlocked-RoundGrew d b
  grown-RoundGrew bad_alloc d b = fails-RoundGrew _ d _
  grown-RoundGrew length_error d b = fails-RoundGrew _ d _

module _ {A : Type 0} (is_not_accepting : ℤ → Bool) (max_size : ℕ) where
  append_buffer-RoundGrew :
      (d : MediaDecoder A) (b : MediaBuffer A)
      → RoundGrew (buffer_floats (some b)) d (append_buffer is_not_accepting max_size d b)
  unfolding append_buffer
  append_buffer-RoundGrew d b =
      let P = RoundGrew (buffer_floats (some b)) d in
      if_intro P (is_failed b.lock_hr) (λ _. fails-RoundGrew _ d _)
        (λ _.
          if_intro P (is_invalid b) (λ _. fails-RoundGrew _ d _)
            (λ _.
              if_intro P (is_beyond max_size d b) (λ _. fails-RoundGrew _ d _)
                (λ _.
                  if_intro P (ltb 0 (float_count b)) (λ _. grown-RoundGrew b.growth d b)
                    (λ _. unlocked-RoundGrew d b))))

  contiguous-RoundGrew :
      (d : MediaDecoder A) (b : Option (MediaBuffer A))
      → RoundGrew (buffer_floats b) d (append_contiguous is_not_accepting max_size d b)
  contiguous-RoundGrew d none = fails-RoundGrew _ d _
  contiguous-RoundGrew d (some b) = append_buffer-RoundGrew d b

  append_sample-RoundGrew :
      (d : MediaDecoder A) (s : Option (MediaSample A))
      → RoundGrew (sample_floats s) d (append_sample is_not_accepting max_size d s)
  unfolding append_sample
  append_sample-RoundGrew d none = kept-RoundGrew d
  append_sample-RoundGrew d (some s) = timed-RoundGrew d (buffer_floats s.buffer) s.time _ (
      if_intro (RoundGrew (buffer_floats s.buffer) (timed d s.time)) (is_failed s.contiguous_hr)
        (λ _. fails-RoundGrew _ (timed d s.time) _)
        (λ _. contiguous-RoundGrew (timed d s.time) s.buffer))

  read_sample-RoundGrew :
      (epoch : ℕ) (d : MediaDecoder A) (r : Reply A)
      → RoundGrew (reply_floats r) d (read_sample is_not_accepting max_size epoch d r)
  unfolding read_sample
  read_sample-RoundGrew epoch d r =
      let P = RoundGrew (reply_floats r) d in
      if_intro P (changed_since r.epoch_before epoch) (λ _. fails-RoundGrew _ d _)
        (λ _.
          if_intro P (is_failed r.hr)
            (λ _.
              if_intro P (changed_since r.epoch_after epoch || is_not_accepting r.hr)
                (λ _. fails-RoundGrew _ d _) (λ _. fails-RoundGrew _ d _))
            (λ _.
              if_intro P (changed_since r.epoch_after epoch) (λ _. fails-RoundGrew _ d _)
                (λ _.
                  if_intro P r.is_end_of_stream (ended-RoundGrew d r)
                    (λ e. rw e (append_sample-RoundGrew d r.sample)))))

-- What a read of the loop has done: it has taken the answers `accepted`, and left the others from
-- `left` on; when it succeeds there is enough, or the source has ended, and when it is unfinished
-- neither holds and no answer is left.
pub record IsFed {A : Type 0} (required : ℕ) (d : MediaDecoder A) (replies : List (Reply A))
    (r : MediaDecoder A × ReadOutcome (Unit {0}) × List (Reply A)) : Type 0 where
  pub accepted : List (Reply A)
  pub left : List (Reply A)
  pub split : replies ≡ accepted ++ left
  pub grew : Grew d r.0 (source_floats accepted)
  pub enough : r.1 ≡ returns (success tt) → (wants r.0 required ≡ false) × (r.2 ≡ left)
  pub short : r.1 ≡ unfinished → (wants r.0 required ≡ true) × (left ≡ [])

module _ {A : Type 0} where
  Grew-trans :
      {d e f : MediaDecoder A} {xs ys : List A} → Grew d e xs → Grew e f ys → Grew d f (xs ++ ys)
  Grew-trans {d} {xs} {ys} g h = record {
    samples = h.samples ∙ ap (λ l. l ++ ys) g.samples ∙ append_assoc d.decoded_samples xs ys;
    offset = h.offset ∙ g.offset;
    format = h.format ∙ g.format;
    source = h.source ∙ g.source;
  }

  round-IsFed :
      (required : ℕ) (d : MediaDecoder A) (r : Reply A) (rs : List (Reply A)) (x : Round A)
      (rest : MediaDecoder A → MediaDecoder A × ReadOutcome (Unit {0}) × List (Reply A))
      → RoundGrew (reply_floats r) d x
      → ((e : MediaDecoder A) → IsFed required e rs (rest e))
      → IsFed required d (r ∷ rs) (elim x [
        | goes_on e ↦ rest e
        | breaks e ↦ (e, returns (success tt), rs)
        | fails e y ↦ (e, returns (failure y), rs)
      ])
  unfolding RoundGrew
  round-IsFed required d r rs (goes_on e) rest g ih =
      let fed = ih e in
      record {
        accepted = r ∷ fed.accepted;
        left = fed.left;
        split = ap (λ l. r ∷ l) fed.split;
        grew = Grew-trans g fed.grew;
        enough = fed.enough;
        short = fed.short;
      }
  round-IsFed required d r rs (breaks e) rest g ih = record {
    accepted = r ∷ [];
    left = rs;
    split = refl;
    grew = rw (append-nil (reply_floats r)) g.0;
    enough = λ _. (rw (g.1) (ground arith), refl);
    short = λ h. absurd (ground arith);
  }
  round-IsFed required d r rs (fails e y) rest g ih = record {
    accepted = [];
    left = r ∷ rs;
    split = refl;
    grew = g;
    enough = λ h. absurd (ground arith);
    short = λ h. absurd (ground arith);
  }

module _ {A : Type 0} (is_not_accepting : ℤ → Bool) (max_size : ℕ) (epoch required : ℕ) where
  stopped-IsFed :
      (d : MediaDecoder A) (replies : List (Reply A))
      → wants d required ≡ false
      → IsFed required d replies (d, returns (success tt), replies)
  stopped-IsFed d replies e = record {
    accepted = [];
    left = replies;
    split = refl;
    grew = Grew-refl d;
    enough = λ _. (e, refl);
    short = λ h. absurd (ground arith);
  }

  pub read_loop-IsFed :
      (d : MediaDecoder A) (replies : List (Reply A))
      → IsFed required d replies (read_loop is_not_accepting max_size epoch required d replies)
  unfolding read_loop
  read_loop-IsFed d [] =
      if_intro (IsFed required d []) (wants d required)
        (λ e. record {
          accepted = [];
          left = [];
          split = refl;
          grew = Grew-refl d;
          enough = λ h. absurd (ground arith);
          short = λ _. (e, refl);
        })
        (stopped-IsFed d [])
  read_loop-IsFed d (r ∷ rs) =
      if_intro (IsFed required d (r ∷ rs)) (wants d required)
        (λ _.
          round-IsFed required d r rs (read_sample is_not_accepting max_size epoch d r)
            (λ e. read_loop is_not_accepting max_size epoch required e rs)
            (read_sample-RoundGrew is_not_accepting max_size epoch d r) (λ e. read_loop-IsFed e rs))
        (stopped-IsFed d (r ∷ rs))
