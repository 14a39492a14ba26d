-- ===== src/Wave/RoundTrip.antt =====
-- The requested format against what is built from it and read back.
use sonotide.Prelude.{
  ℕ, ◌*◌, ◌/◌, ◌≤◌, ◌<◌, ◌≡◌, ◌≢◌, ◌⊎◌, inl, inr, refl, ap, Option, Bool, true, some, none, arith,
}
use sonotide.Error.{Result, done, success}
use sonotide.Format.{SampleType, unknown, pcm_i16, pcm_i24_in_32, pcm_i32, float32, FormatRequest}
use sonotide.Wave.{
  WaveSdk, WaveFormat, word_max, dword_max, maximum_wave_format_extra_bytes, popcount,
  detect_sample_type, validate_wave_format,
}
use sonotide.Wave.Convert.{
  request_error, container_bits, valid_bits, requested_format, requested_mask, make_format,
  make_requested_wave_format, to_audio_format,
}
use sonotide.Wave.Validity.{IsUsable, validate_wave_format_iff}

-- What the code relies on in the Windows headers: the extension is small, and the masks name one
-- and two speakers.
pub record IsWindows (sdk : WaveSdk) : Type 0 where
  pub small_extension : sdk.extension_bytes ≤ maximum_wave_format_extra_bytes
  pub one_speaker : popcount sdk.speaker_front_center ≡ 1
  pub two_speakers : popcount sdk.speaker_stereo ≡ 2

-- A complete request whose sizes fit the fields of a WAVE format.
pub record IsRequestable (sample : SampleType) (rate channels : ℕ) : Type 0 where
  pub known : sample ≢ unknown
  pub has_rate : 0 < rate
  pub has_channels : 0 < channels
  pub block_fits : channels * (container_bits sample / 8) ≤ word_max
  pub rate_fits : channels * (container_bits sample / 8) * rate ≤ dword_max

-- Which refusal a request gets, and why.
unfoldable pub IsRefused : SampleType → ℕ → ℕ → Result WaveFormat → Type 0
IsRefused sample rate channels r =
    (((sample ≡ unknown) ⊎ (rate ≡ 0) ⊎ (channels ≡ 0))
      × (r
          ≡ request_error
              "Requested sample type must be known and rate/channels must be non-zero."))
    ⊎ ((sample ≢ unknown)
        × (0 < rate)
        × (0 < channels)
        × ((word_max < channels * (container_bits sample / 8))
            ⊎ (dword_max < channels * (container_bits sample / 8) * rate))
        × (r
            ≡ request_error
                "Requested WAVE format overflows block alignment or average byte rate."))

module _ (sdk : WaveSdk) (windows : IsWindows sdk) where
  detect-requested :
      (sample : SampleType) (rate channels : ℕ)
      → sample ≢ unknown
      → detect_sample_type sdk (requested_format sdk sample rate channels) ≡ sample
  unfolding detect_sample_type
  detect-requested unknown rate channels h = absurd (h refl)
  detect-requested pcm_i16 rate channels h = ground arith
  detect-requested pcm_i24_in_32 rate channels h = ground arith
  detect-requested pcm_i32 rate channels h = ground arith
  detect-requested float32 rate channels h = ground arith

  requested-IsUsable :
      (sample : SampleType) (rate channels : ℕ)
      → IsRequestable sample rate channels
      → IsUsable sdk (requested_format sdk sample rate channels)
  requested-IsUsable sample rate channels r = record {
    bounded = windows.small_extension;
    has_channels = r.has_channels;
    has_rate = r.has_rate;
    extended = λ _. omega arith;
    mask_counts = λ _. ground (arith, windows.one_speaker, windows.two_speakers);
    known = rw (detect-requested sample rate channels r.known) r.known;
    aligned = refl;
    block_fits = r.block_fits;
    rated = refl;
    rate_fits = r.rate_fits;
  }

  make_format-ok :
      (sample : SampleType) (rate channels : ℕ)
      → IsRequestable sample rate channels
      → make_format sdk true sample rate channels
        ≡ success (requested_format sdk sample rate channels)
  unfolding make_format
  make_format-ok sample rate channels r =
      let valid : validate_wave_format sdk (requested_format sdk sample rate channels) ≡ done =
        (validate_wave_format_iff sdk _).1 (requested-IsUsable sample rate channels r) in
      ground (arith, valid)

  to_audio_format-requested :
      (sample : SampleType) (rate channels : ℕ)
      → IsRequestable sample rate channels
      → to_audio_format sdk (requested_format sdk sample rate channels) ≡ record {
        sample = sample;
        sample_rate = rate;
        channel_count = channels;
        bits_per_sample = container_bits sample;
        valid_bits_per_sample = valid_bits sample;
        channel_mask = requested_mask sdk channels;
        interleaved = true;
      }
  unfolding to_audio_format
  to_audio_format-requested sample rate channels r =
      let valid : validate_wave_format sdk (requested_format sdk sample rate channels) ≡ done =
        (validate_wave_format_iff sdk _).1 (requested-IsUsable sample rate channels r) in
      let detected = detect-requested sample rate channels r.known in
      ground (arith, valid, detected)

  -- A requestable format is built, and reads back as what was requested.
  pub make_requested_wave_format-reads :
      (request : FormatRequest) (sample : SampleType) (rate channels : ℕ)
      → request.preferred_sample ≡ some sample
      → request.preferred_sample_rate ≡ some rate
      → request.preferred_channel_count ≡ some channels
      → IsRequestable sample rate channels
      → (f : WaveFormat) × (make_requested_wave_format sdk true request ≡ success f)
        × (validate_wave_format sdk f ≡ done)
        × ((to_audio_format sdk f).sample ≡ sample)
        × ((to_audio_format sdk f).sample_rate ≡ rate)
        × ((to_audio_format sdk f).channel_count ≡ channels)
        × ((to_audio_format sdk f).interleaved ≡ true)
  unfolding make_requested_wave_format
  make_requested_wave_format-reads request sample rate channels hs hr hc r =
      let back = to_audio_format-requested sample rate channels r in
      (
        requested_format sdk sample rate channels,
        rw (make_requested_wave_format, hs, hr, hc) (make_format-ok sample rate channels r),
        (validate_wave_format_iff sdk _).1 (requested-IsUsable sample rate channels r),
        ap (λ v. v.sample) back,
        ap (λ v. v.sample_rate) back,
        ap (λ v. v.channel_count) back,
        ap (λ v. v.interleaved) back,
      )

  make_format-IsRefused :
      (sample : SampleType) (rate channels : ℕ)
      → IsRequestable sample rate channels
        ⊎ IsRefused sample rate channels (make_format sdk true sample rate channels)
  unfolding make_format IsRefused
  make_format-IsRefused sample rate channels = ground arith

  -- With memory at hand, a complete request is either requestable: its sample type is known, its
  -- rate and channel count are positive, and its block alignment and byte rate fit their fields.
  -- Then a format is built that passes `validate_wave_format` and reads back as the requested
  -- sample type, rate and channel count, interleaved. Or the request is not, and it is refused as
  -- an invalid argument: as incomplete where the type is unknown or a count is 0, and else as an
  -- overflow, where the block alignment or the byte rate does not fit.
  pub make_requested_wave_format-round_trip :
      (request : FormatRequest) (sample : SampleType) (rate channels : ℕ)
      → request.preferred_sample ≡ some sample
      → request.preferred_sample_rate ≡ some rate
      → request.preferred_channel_count ≡ some channels
      → (IsRequestable sample rate channels
          × (f : WaveFormat) × (make_requested_wave_format sdk true request ≡ success f)
          × (validate_wave_format sdk f ≡ done)
          × ((to_audio_format sdk f).sample ≡ sample)
          × ((to_audio_format sdk f).sample_rate ≡ rate)
          × ((to_audio_format sdk f).channel_count ≡ channels)
          × ((to_audio_format sdk f).interleaved ≡ true))
        ⊎ IsRefused sample rate channels (make_requested_wave_format sdk true request)
  unfolding make_requested_wave_format
  make_requested_wave_format-round_trip request sample rate channels hs hr hc =
      elim (make_format-IsRefused sample rate channels) [
        | inl r ↦
            let (f, made, valid, as_sample, as_rate, as_channels, interleaved) =
              make_requested_wave_format-reads request sample rate channels hs hr hc r in
            inl (r, f, made, valid, as_sample, as_rate, as_channels, interleaved)
        | inr x ↦ inr (rw (make_requested_wave_format, hs, hr, hc) x)
      ]

module _ (sdk : WaveSdk) where
  make_format-IsRequestable :
      (allocated : Bool) (sample : SampleType) (rate channels : ℕ) (f : WaveFormat)
      → make_format sdk allocated sample rate channels ≡ success f
      → IsRequestable sample rate channels
  unfolding make_format
  make_format-IsRequestable allocated sample rate channels f h = record {
    known = λ e. ground arith;
    has_rate = ground arith;
    has_channels = ground arith;
    block_fits = ground arith;
    rate_fits = ground arith;
  }

  -- A format is built only for a request that names a sample type, a rate and a channel count
  -- which meet those bounds.
  pub make_requested_wave_format-success :
      (allocated : Bool) (request : FormatRequest) (f : WaveFormat)
      → make_requested_wave_format sdk allocated request ≡ success f
      → (sample : SampleType) × (rate : ℕ) × (channels : ℕ) × (request.preferred_sample
          ≡ some sample)
        × (request.preferred_sample_rate ≡ some rate)
        × (request.preferred_channel_count ≡ some channels)
        × IsRequestable sample rate channels
  unfolding make_requested_wave_format
  make_requested_wave_format-success allocated request f h =
      by_hints request.preferred_sample request.preferred_sample_rate
        request.preferred_channel_count refl refl refl
    where
      by_hints :
          (s : Option SampleType) (r c : Option ℕ)
          → request.preferred_sample ≡ s
          → request.preferred_sample_rate ≡ r
          → request.preferred_channel_count ≡ c
          → (sample : SampleType) × (rate : ℕ) × (channels : ℕ) × (request.preferred_sample
              ≡ some sample)
            × (request.preferred_sample_rate ≡ some rate)
            × (request.preferred_channel_count ≡ some channels)
            × IsRequestable sample rate channels
      by_hints none r c hs hr hc = absurd (ground arith)
      by_hints (some s) none c hs hr hc = absurd (ground arith)
      by_hints (some s) (some r) none hs hr hc = absurd (ground arith)
      by_hints (some s) (some r) (some c) hs hr hc =
          let built : make_format sdk allocated s r c ≡ success f = ground arith in
          (s, r, c, hs, hr, hc, make_format-IsRequestable allocated s r c f built)
