-- ===== src/Media/Stream.antt =====
-- The blocks that `read_frames` hands out, against the samples that the source brings.
use sonotide.Prelude.{
  ℕ, ◌+◌, ◌-◌, ◌*◌, ◌≤◌, ◌<◌, ◌^◌, ◌/◌, ◌≡◌, ◌⊎◌, inl, inr, refl, sym, ap, ◌∙◌, Bool, true, false,
  Option, none, some, List, [], ◌++◌, length, take, drop, replicate, min, leb, ltb, if_intro, not,
  Bool-cases, drop_append, drop-drop, drop_all, length-drop, take-length, length-append, arith,
}
use native.Mathlib.Nat.{le-div_iff_mul-le}
use mathlib.Core.List.{append-nil}
use sonotide.Prelude.Int.{ℤ}
use sonotide.Error.{Error, success, failure}
use sonotide.Decoder.{advance_timestamp_100ns, checked_sample_count, changed_since}
use sonotide.Session.Worker.{DecodedBlock}
use sonotide.Media.{MediaDecoder, pending}
use sonotide.Media.Read.{
  Growth, grows, bad_alloc, length_error, Reply, ReadOutcome, returns, unfinished, wants,
  ensure_decoded_frames,
}
use sonotide.Media.Frames.{
  ReadAnswers, with_rest, allocated, timestamped, ensured, requested_frames, take_samples, hand_out,
  read_frames,
}
use sonotide.Media.Pending.{source_floats, Grew, Grew-refl, IsFed, read_loop-IsFed}

module _ {A : Type 0} (silence : A) (n : ℕ) where
  -- What a read does to the stream of samples `stream` that wait or arrive: a block takes the
  -- first `n` of them, padded with silence where the source has ended; without a block all wait, and
  -- a read that the list of answers does not finish has taken all of them and fewer than `n` samples.
  unfoldable pub Serves :
      List A
      → List (Reply A)
      → MediaDecoder A × ReadOutcome (DecodedBlock A) × List (Reply A)
      → Type 0
  Serves stream left (e, unfinished, rest) =
      (pending e ≡ stream) × (length stream < n) × (left ≡ [])
  Serves stream left (e, returns (failure x), rest) = pending e ≡ stream
  Serves stream left (e, returns (success b), rest) =
      (b.samples ≡ take n stream ++ replicate (n - length stream) silence)
      × (pending e ≡ drop n stream)
      × ((n ≤ length stream) ⊎ (e.end_of_stream ≡ true))
      × (rest ≡ left)

  -- A read accepts the answers `accepted` of the source, and serves what waits and what they bring.
  pub record IsInOrder (d : MediaDecoder A) (replies : List (Reply A))
      (r : MediaDecoder A × ReadOutcome (DecodedBlock A) × List (Reply A)) : Type 0 where
    pub accepted : List (Reply A)
    pub left : List (Reply A)
    pub split : replies ≡ accepted ++ left
    pub serves : Serves (pending d ++ source_floats accepted) left r
    pub offset : r.0.decoded_sample_offset ≤ length r.0.decoded_samples

module _ {A : Type 0} where
  Grew-pending :
      {d e : MediaDecoder A} {added : List A}
      → d.decoded_sample_offset ≤ length d.decoded_samples
      → Grew d e added
      → (pending e ≡ pending d ++ added) × (e.decoded_sample_offset ≤ length e.decoded_samples)
  Grew-pending {d} {e} {added} h g = (
    rw (g.samples, g.offset) (drop_append d.decoded_sample_offset d.decoded_samples added h),
    rw (g.samples, g.offset) (omega (arith, h, length-append d.decoded_samples added)),
  )

  -- Not to want more is to have enough, or to have met the end.
  wants_iff :
      (d : MediaDecoder A) (n : ℕ)
      → wants d n ≡ false
      → (n ≤ length (pending d)) ⊎ (d.end_of_stream ≡ true)
  wants_iff d n h = elim (Bool-cases d.end_of_stream) [
    | inl e ↦ inr e
    | inr e ↦
        inl (rw (length-drop d.decoded_sample_offset d.decoded_samples) (ground (arith, h, e)))
  ]

  still_wants : (d : MediaDecoder A) (n : ℕ) → wants d n ≡ true → length (pending d) < n
  still_wants d n h = rw (length-drop d.decoded_sample_offset d.decoded_samples) (ground (arith, h))

-- The decoder `e` is `d` after the first `n` of its waiting samples are gone.
pub record Served {A : Type 0} (n : ℕ) (d e : MediaDecoder A) : Type 0 where
  pub kept : pending e ≡ drop n (pending d)
  pub offset : e.decoded_sample_offset ≤ length e.decoded_samples
  pub ended : e.end_of_stream ≡ d.end_of_stream

module _ {A : Type 0} (silence : A) (n : ℕ) where
  take_samples-Served :
      (d : MediaDecoder A)
      → d.decoded_sample_offset ≤ length d.decoded_samples
      → Served n d (take_samples silence n d).0
  unfolding take_samples
  take_samples-Served d h =
      let offset =
        d.decoded_sample_offset + min (length d.decoded_samples - d.decoded_sample_offset) n in
      if_intro (Served n d) (leb (length d.decoded_samples) offset)
        (λ e. record {
          kept = sym (
              drop_all n (pending d) (
                rw (length-drop d.decoded_sample_offset d.decoded_samples) (ground (arith, h, e))));
          offset = omega arith;
          ended = refl;
        })
        (λ e. record {
          kept =
              let m : min (length d.decoded_samples - d.decoded_sample_offset) n ≡ n =
                ground (arith, h, e) in
              rw m (sym (drop-drop n d.decoded_sample_offset d.decoded_samples));
          offset = ground arith;
          ended = refl;
        })

  take_samples-samples :
      (d : MediaDecoder A)
      → (take_samples silence n d).1
        ≡ take n (pending d) ++ replicate (n - length (pending d)) silence
  unfolding take_samples
  take_samples-samples d =
      let l = length-drop d.decoded_sample_offset d.decoded_samples in
      let e : n - min (length d.decoded_samples - d.decoded_sample_offset) n
          ≡ n - length (pending d) =
        rw l (omega arith) in
      rw e (
        rw (sym l)
          (ap (λ r. r ++ replicate (n - length (pending d)) silence) (take-length n (pending d))))

  module _ (d : MediaDecoder A) where
    -- A block from the waiting samples `stream` of a decoder.
    delivered-Serves :
        (left : List (Reply A)) (b : DecodedBlock A) (e : MediaDecoder A)
        → (n ≤ length (pending d)) ⊎ (d.end_of_stream ≡ true)
        → b.samples ≡ (take_samples silence n d).1
        → Served n d e
        → Serves silence n (pending d) left (e, returns (success b), left)
    unfolding Serves
    delivered-Serves left b e w samples served = (
      samples ∙ take_samples-samples d,
      served.kept,
      elim w [ inl h ↦ inl h | inr h ↦ inr (served.ended ∙ h) ],
      refl,
    )

-- What every read keeps: the stream is served, and the offset stays inside the decoder's vector.
IsServed :
    {A : Type 0}
    → A
    → ℕ
    → List A
    → List (Reply A)
    → MediaDecoder A × ReadOutcome (DecodedBlock A) × List (Reply A)
    → Type 0
IsServed silence n stream left r =
    Serves silence n stream left r × (r.0.decoded_sample_offset ≤ length r.0.decoded_samples)

module _ {A : Type 0} (silence : A) (n : ℕ) (d : MediaDecoder A)
    (h : d.decoded_sample_offset ≤ length d.decoded_samples) where
  failed-IsServed :
      (x : Error) (left rest : List (Reply A))
      → IsServed silence n (pending d) left (d, returns (failure x), rest)
  unfolding Serves IsServed
  failed-IsServed x left rest = (refl, h)

  module _ (left : List (Reply A)) (w : (n ≤ length (pending d)) ⊎ (d.end_of_stream ≡ true)) where
    allocated-IsServed :
        (g : Growth) (next : ℕ)
        → IsServed silence n
            (pending d)
            left
            (with_rest silence left (allocated silence g n next d))
    unfolding IsServed
    allocated-IsServed grows next =
        let served = take_samples-Served silence n d h in
        (
          delivered-Serves silence n d left _ _ w refl
              record { kept = served.kept; offset = served.offset; ended = served.ended },
          served.offset,
        )
    allocated-IsServed bad_alloc next = failed-IsServed _ left left
    allocated-IsServed length_error next = failed-IsServed _ left left

    timestamped-IsServed :
        (a : ReadAnswers) (o : Option ℕ)
        → IsServed silence n (pending d) left (with_rest silence left (timestamped silence a n o d))
    timestamped-IsServed a none = failed-IsServed _ left left
    timestamped-IsServed a (some next) = allocated-IsServed a.allocation next

    hand_out-IsServed :
        (a : ReadAnswers) (frame_count epoch : ℕ)
        → IsServed silence n
            (pending d)
            left
            (with_rest silence left (hand_out silence a frame_count n epoch d))
    unfolding hand_out
    hand_out-IsServed a frame_count epoch =
        if_intro (λ r. IsServed silence n (pending d) left (with_rest silence left r))
          (changed_since a.epoch_last epoch) (λ _. failed-IsServed _ left left)
          (λ _. timestamped-IsServed a (
            advance_timestamp_100ns d.next_sample_time_100ns frame_count
              d.output_format.sample_rate))

-- The number of samples that a read asks for fits in `std::size_t`.
checked_sample_count_eq :
    (frames channels max_size n : ℕ)
    → max_size < 2 ^ 64
    → checked_sample_count frames channels max_size ≡ some n
    → n ≡ frames * channels
unfolding checked_sample_count
checked_sample_count_eq frames channels max_size n w e =
    let positive : 0 < channels = ground arith in
    let below : frames ≤ max_size / channels = ground arith in
    let fits : frames * channels ≤ max_size =
      (le-div_iff_mul-le {k = channels} {x = frames} {y = max_size} positive).0 below in
    ground (arith, fits)

module _ {A : Type 0} (silence : A) (is_not_accepting : ℤ → Bool) (max_size : ℕ) where
  ensure_decoded_frames-IsFed :
      (frame_count epoch n : ℕ) (d : MediaDecoder A) (replies : List (Reply A))
      → checked_sample_count frame_count d.output_format.channel_count max_size ≡ some n
      → IsFed n d replies
          (ensure_decoded_frames is_not_accepting max_size frame_count epoch d replies)
  unfolding ensure_decoded_frames
  ensure_decoded_frames-IsFed frame_count epoch n d replies e =
      let stays : (x : Error) → IsFed n d replies (d, returns (failure x), replies) = λ x. record {
        accepted = [];
        left = replies;
        split = refl;
        grew = Grew-refl d;
        enough = λ h. absurd (ground arith);
        short = λ h. absurd (ground arith);
      } in
      if_intro (IsFed n d replies) (not d.has_source_reader) (λ _. stays _)
        (λ _.
          if_intro (IsFed n d replies) (ltb (length d.decoded_samples) d.decoded_sample_offset)
            (λ _. stays _)
            (λ _. rw e (read_loop-IsFed is_not_accepting max_size epoch n d replies)))

  in_order :
      {n : ℕ} {d : MediaDecoder A} {replies : List (Reply A)}
      (r : MediaDecoder A × ReadOutcome (DecodedBlock A) × List (Reply A))
      (accepted left : List (Reply A))
      → replies ≡ accepted ++ left
      → IsServed silence n (pending d ++ source_floats accepted) left r
      → IsInOrder silence n d replies r
  unfolding IsServed
  in_order r accepted left split served = record {
    accepted = accepted;
    left = left;
    split = split;
    serves = served.0;
    offset = served.1;
  }

  ensured-IsInOrder :
      (a : ReadAnswers) (frame_count epoch n : ℕ) (d : MediaDecoder A) (replies : List (Reply A))
      (r : MediaDecoder A × ReadOutcome (Unit {0}) × List (Reply A))
      → d.decoded_sample_offset ≤ length d.decoded_samples
      → IsFed n d replies r
      → IsInOrder silence n d replies (ensured silence a frame_count n epoch r)
  unfolding IsServed Serves
  ensured-IsInOrder a frame_count epoch n d replies (e, unfinished, rest) h fed =
      let g = Grew-pending h fed.grew in
      let short = fed.short refl in
      in_order (e, unfinished, rest) fed.accepted fed.left fed.split
        ((g.0, rw (sym g.0) (still_wants e n short.0), short.1), g.1)
  ensured-IsInOrder a frame_count epoch n d replies (e, returns (failure x), rest) h fed =
      let g = Grew-pending h fed.grew in
      in_order (e, returns (failure x), rest) fed.accepted fed.left fed.split (g.0, g.1)
  ensured-IsInOrder a frame_count epoch n d replies (e, returns (success tt), rest) h fed =
      let g = Grew-pending h fed.grew in
      let enough = fed.enough refl in
      in_order _ fed.accepted fed.left fed.split (
        rw (sym g.0, sym enough.1)
          (hand_out-IsServed silence n e g.1 rest (wants_iff e n enough.0) a frame_count epoch))

  refused-IsInOrder :
      (n : ℕ) (d : MediaDecoder A) (replies : List (Reply A))
      → d.decoded_sample_offset ≤ length d.decoded_samples
      → (x : Error) → IsInOrder silence n d replies (d, returns (failure x), replies)
  unfolding Serves IsServed
  refused-IsInOrder n d replies h x = in_order _ [] replies refl (sym (append-nil (pending d)), h)

  requested-IsInOrder :
      (a : ReadAnswers) (frame_count epoch : ℕ) (d : MediaDecoder A) (replies : List (Reply A))
      → max_size < 2 ^ 64
      → d.decoded_sample_offset ≤ length d.decoded_samples
      → (o : Option ℕ) → checked_sample_count frame_count d.output_format.channel_count max_size ≡ o
      → IsInOrder silence
          (frame_count * d.output_format.channel_count)
          d
          replies
          (requested_frames silence is_not_accepting max_size a frame_count epoch o d replies)
  requested-IsInOrder a frame_count epoch d replies w h none e = refused-IsInOrder _ d replies h _
  requested-IsInOrder a frame_count epoch d replies w h (some n) e =
      rw (sym (checked_sample_count_eq frame_count d.output_format.channel_count max_size n w e)) (
        ensured-IsInOrder a frame_count epoch n d replies _ h
          (ensure_decoded_frames-IsFed frame_count epoch n d replies e))

  -- For a bound on the vector's size below 2^64, and a decoder whose offset is inside its vector, a
  -- read loses, repeats and reorders no sample: of the samples that waited and those of the answers
  -- it accepts, a block takes the first `frame_count` times the channels, padded with silence only
  -- where the source has ended, and the rest waits; a failure keeps all of them waiting; and a read
  -- goes on past the given answers only where they bring fewer samples than it needs.
  pub read_frames-IsInOrder :
      (a : ReadAnswers) (frame_count epoch : ℕ) (d : MediaDecoder A) (replies : List (Reply A))
      → max_size < 2 ^ 64
      → d.decoded_sample_offset ≤ length d.decoded_samples
      → IsInOrder silence
          (frame_count * d.output_format.channel_count)
          d
          replies
          (read_frames silence is_not_accepting max_size a frame_count epoch d replies)
  unfolding read_frames
  read_frames-IsInOrder a frame_count epoch d replies w h =
      if_intro (IsInOrder silence (frame_count * d.output_format.channel_count) d replies)
        (changed_since a.epoch_first epoch) (λ _. refused-IsInOrder _ d replies h _)
        (λ _.
          requested-IsInOrder a frame_count epoch d replies w h
            (checked_sample_count frame_count d.output_format.channel_count max_size) refl)
