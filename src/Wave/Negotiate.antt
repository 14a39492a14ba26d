-- ===== src/Wave/Negotiate.antt =====
-- internal/win/wave_format_utils.cpp: `negotiate_shared_mode_format`. The answers of the audio
-- client, and whether each allocation returns memory, are arguments.
use sonotide.Prelude.{
  ℕ, String, ◌≡◌, ◌⊎◌, inl, inr, refl, sym, ap, ◌∙◌, Bool, true, false, Option, none, some, is_some,
  Bool-cases, ◌&&◌, if◌then◌else◌, arith,
}
use sonotide.Prelude.Int.{ℤ}
use sonotide.Error.{
  Error, ErrorCategory, ErrorCode, Result, success, failure, VoidResult, done, ◌>>=◌, ◌>>◌,
}
use sonotide.Hresult.{is_failed}
use sonotide.Format.{SampleType, AudioFormat, FormatRequest}
use sonotide.Wave.{WaveSdk, WaveFormat, validate_wave_format}
use sonotide.Wave.RoundTrip.{
  IsWindows, make_requested_wave_format-success, make_requested_wave_format-reads,
}
use sonotide.Wave.Convert.{make_requested_wave_format, clone_wave_format, to_audio_format}

-- What `IsFormatSupported` returns: `S_OK`, `S_FALSE` or another code, with its number.
pub data SupportCode : Type 0 where
  s_ok s_false other_code : ℤ → SupportCode

abbrev code_number : SupportCode → ℤ
code_number (s_ok n) = n
code_number (s_false n) = n
code_number (other_code n) = n

-- `IAudioClient`: the mix format, and the answer to a format with the closest one, if any.
pub record AudioClient : Type 0 where
  pub mix_hr : ℤ
  pub mix_format : Option WaveFormat
  pub supports : WaveFormat → SupportCode × Option WaveFormat

-- `negotiated_format`.
pub record NegotiatedFormat : Type 0 where
  pub wave_format : WaveFormat
  pub public_format : AudioFormat
  pub block_align : ℕ

abbrev negotiation_error : String → String → ℤ → Error
negotiation_error message operation hr = record {
  category = ErrorCategory.format;
  code = ErrorCode.format_negotiation_failed;
  message = message;
  operation = operation;
  native_code = some hr;
  recoverable = false;
}

-- Whether the request names a sample type, a rate and a channel count.
abbrev pub is_explicit : FormatRequest → Bool
is_explicit request =
    is_some request.preferred_sample
    && is_some request.preferred_sample_rate
    && is_some request.preferred_channel_count

module _ (sdk : WaveSdk) (allocated cloned : Bool) where
  -- The mix format, where the request allows it.
  abbrev fall_back : FormatRequest → WaveFormat → SupportCode → Result WaveFormat
  fall_back request mix code =
      if request.allow_mix_format_fallback
      then clone_wave_format sdk cloned mix
      else failure (
          negotiation_error "Requested format is not supported by the selected endpoint."
            "IAudioClient::IsFormatSupported" (code_number code))

  abbrev select_closest :
      FormatRequest → WaveFormat → SupportCode → Option WaveFormat → Result WaveFormat
  select_closest request mix code none = fall_back request mix code
  select_closest request mix code (some closest) =
      if request.allow_mix_format_fallback then success closest else fall_back request mix code

  -- The choice by the answer for the requested format.
  abbrev select_by :
      FormatRequest → WaveFormat → WaveFormat → SupportCode × Option WaveFormat → Result WaveFormat
  select_by request mix requested (s_ok n, closest) = success requested
  select_by request mix requested (s_false n, closest) =
      select_closest request mix (s_false n) closest
  select_by request mix requested (other_code n, closest) = fall_back request mix (other_code n)

  abbrev select_format : AudioClient → FormatRequest → WaveFormat → Result WaveFormat
  select_format client request mix =
      if is_explicit request
      then (make_requested_wave_format sdk allocated request >>= λ requested.
          select_by request mix requested (client.supports requested))
      else clone_wave_format sdk cloned mix

  abbrev describe : WaveFormat → NegotiatedFormat
  describe selected = record {
    wave_format = selected;
    public_format = to_audio_format sdk selected;
    block_align = selected.block_align;
  }

  abbrev negotiate_from : AudioClient → FormatRequest → WaveFormat → Result NegotiatedFormat
  negotiate_from client request mix =
      validate_wave_format sdk mix
      >> (select_format client request mix >>= λ selected.
          validate_wave_format sdk selected >> success (describe selected))

  abbrev mix_error : ℤ → Result NegotiatedFormat
  mix_error hr =
      failure
        (negotiation_error "Failed to query device mix format." "IAudioClient::GetMixFormat" hr)

  abbrev negotiate_with : AudioClient → FormatRequest → Option WaveFormat → Result NegotiatedFormat
  negotiate_with client request none = mix_error client.mix_hr
  negotiate_with client request (some mix) = negotiate_from client request mix

  unfoldable pub negotiate_shared_mode_format :
      AudioClient → FormatRequest → Result NegotiatedFormat
  negotiate_shared_mode_format client request =
      if is_failed client.mix_hr
      then mix_error client.mix_hr
      else negotiate_with client request client.mix_format

  -- The choice for a requested format, by the client's answer to this format.
  pub Chosen :
      FormatRequest
      → WaveFormat
      → WaveFormat
      → SupportCode × Option WaveFormat
      → WaveFormat
      → Type 0
  Chosen request mix requested answer selected =
      ((n : ℤ) × (answer.0 ≡ s_ok n) × (selected ≡ requested))
      ⊎ ((n : ℤ) × (answer.0 ≡ s_false n)
          × (answer.1 ≡ some selected)
          × (request.allow_mix_format_fallback ≡ true))
      ⊎ ((n : ℤ) × ((answer ≡ (s_false n, none)) ⊎ (answer.0 ≡ other_code n))
          × (selected ≡ mix)
          × (request.allow_mix_format_fallback ≡ true))

  -- Where a selected format comes from.
  pub Origin : AudioClient → FormatRequest → WaveFormat → WaveFormat → Type 0
  Origin client request mix selected =
      ((is_explicit request ≡ false) × (selected ≡ mix))
      ⊎ ((is_explicit request ≡ true)
          × (requested : WaveFormat) × (make_requested_wave_format sdk allocated request
              ≡ success requested)
          × Chosen request mix requested (client.supports requested) selected)

  clone_eq :
      (mix selected : WaveFormat)
      → clone_wave_format sdk cloned mix ≡ success selected
      → selected ≡ mix
  unfolding clone_wave_format
  clone_eq mix selected h = ground (arith, h)

  module _ (client : AudioClient) (request : FormatRequest) (mix selected : WaveFormat) where
    fall_back-selected :
        (code : SupportCode)
        → fall_back request mix code ≡ success selected
        → (selected ≡ mix) × (request.allow_mix_format_fallback ≡ true)
    fall_back-selected code h = elim (Bool-cases request.allow_mix_format_fallback) [
      | inl e ↦ (clone_eq mix selected (rw e at h), e)
      | inr e ↦ absurd (ground (arith, e, h))
    ]

    select_by-Chosen :
        (requested : WaveFormat) (answer : SupportCode × Option WaveFormat)
        → select_by request mix requested answer ≡ success selected
        → Chosen request mix requested answer selected
    unfolding Chosen
    select_by-Chosen requested (s_ok n, closest) h = inl (n, refl, ground (arith, h))
    select_by-Chosen requested (s_false n, none) h =
        let (same, allowed) = fall_back-selected (s_false n) h in
        inr (inr (n, inl refl, same, allowed))
    select_by-Chosen requested (s_false n, some closest) h =
        inr (inl (n, refl, ground (arith, h), ground (arith, h)))
    select_by-Chosen requested (other_code n, closest) h =
        let (same, allowed) = fall_back-selected (other_code n) h in
        inr (inr (n, inr refl, same, allowed))

    requested-Origin :
        (r : Result WaveFormat)
        → is_explicit request ≡ true
        → make_requested_wave_format sdk allocated request ≡ r
        → (r >>= λ requested. select_by request mix requested (client.supports requested))
          ≡ success selected
        → Origin client request mix selected
    unfolding Origin
    requested-Origin (success requested) e made h =
        inr (e, requested, made, select_by-Chosen requested (client.supports requested) h)
    requested-Origin (failure x) e made h = absurd (ground (arith, h))

    select_format-Origin :
        select_format client request mix ≡ success selected → Origin client request mix selected
    unfolding Origin
    select_format-Origin h = elim (Bool-cases (is_explicit request)) [
      | inl e ↦ requested-Origin _ e refl (rw e at h)
      | inr e ↦ inl (e, clone_eq mix selected (rw e at h))
    ]

  -- A format that is described has been selected, and passes the validation.
  described_inv :
      (r : Result WaveFormat) (n : NegotiatedFormat)
      → (r >>= λ selected. validate_wave_format sdk selected >> success (describe selected))
        ≡ success n
      → (r ≡ success n.wave_format)
        × (validate_wave_format sdk n.wave_format ≡ done)
        × (n ≡ describe n.wave_format)
  described_inv (failure x) n h = absurd (ground (arith, h))
  described_inv (success selected) n h = validated_inv (validate_wave_format sdk selected) refl h
    where
      validated_inv :
          (v : VoidResult)
          → validate_wave_format sdk selected ≡ v
          → (v >> success (describe selected)) ≡ success n
          → (success selected ≡ success n.wave_format)
            × (validate_wave_format sdk n.wave_format ≡ done)
            × (n ≡ describe n.wave_format)
      validated_inv (success u) v e =
          let same : describe selected ≡ n = ground (arith, e) in
          let wave : selected ≡ n.wave_format = ap (λ m. m.wave_format) same in
          (ap success wave, rw (sym wave) v, sym same ∙ ap describe wave)
      validated_inv (failure x) v e = absurd (ground (arith, e))

  then_inv :
      (v : VoidResult) (r : Result NegotiatedFormat) (n : NegotiatedFormat)
      → (v >> r) ≡ success n
      → r ≡ success n
  then_inv (success u) r n h = h
  then_inv (failure x) r n h = absurd (ground (arith, h))

  module _ (client : AudioClient) (request : FormatRequest) (n : NegotiatedFormat) where
    -- How a negotiation that starts from a mix format ends.
    negotiate_from_inv :
        (mix : WaveFormat)
        → negotiate_from client request mix ≡ success n
        → (validate_wave_format sdk n.wave_format ≡ done)
          × (n ≡ describe n.wave_format)
          × Origin client request mix n.wave_format
    negotiate_from_inv mix h =
        let (selected, valid, same) = described_inv _ n (then_inv _ _ n h) in
        (valid, same, select_format-Origin client request mix n.wave_format selected)

    negotiate_with_inv :
        (o : Option WaveFormat)
        → negotiate_with client request o ≡ success n
        → (mix : WaveFormat) × (o ≡ some mix) × (negotiate_from client request mix ≡ success n)
    negotiate_with_inv none h = absurd (ground (arith, h))
    negotiate_with_inv (some mix) h = (mix, refl, h)

    -- A negotiation that succeeds has a mix format, and selects a format that passes the
    -- validation and is described by its block alignment and its public view. Where the request
    -- is incomplete, the selected format is the mix format. Where it is complete, a requested
    -- format is made of it, and the client's answer to this format decides: `S_OK` selects the
    -- requested format; the closest format is selected when it comes with `S_FALSE` and the request
    -- allows a fallback; the mix format when no closest format comes with `S_FALSE`, or on any other
    -- code, and the request allows a fallback.
    pub negotiate_shared_mode_format-Origin :
        negotiate_shared_mode_format client request ≡ success n
        → (mix : WaveFormat) × (client.mix_format ≡ some mix)
          × (validate_wave_format sdk n.wave_format ≡ done)
          × (n ≡ describe n.wave_format)
          × Origin client request mix n.wave_format
    unfolding negotiate_shared_mode_format
    negotiate_shared_mode_format-Origin h = elim (Bool-cases (is_failed client.mix_hr)) [
      | inl e ↦ absurd (ground (arith, e, h))
      | inr e ↦
          let (mix, has_mix, from) = negotiate_with_inv client.mix_format (rw e at h) in
          let (valid, same, origin) = negotiate_from_inv mix from in
          (mix, has_mix, valid, same, origin)
    ]

    exact_request :
        request.allow_mix_format_fallback ≡ false
        → is_explicit request ≡ true
        → negotiate_shared_mode_format client request ≡ success n
        → (make_requested_wave_format sdk allocated request ≡ success n.wave_format)
          × (n.public_format ≡ to_audio_format sdk n.wave_format)
    unfolding Origin Chosen
    exact_request f e h =
        let (mix, has_mix, valid, same, origin) = negotiate_shared_mode_format-Origin h in
        elim origin [
          | inl (incomplete, same_mix) ↦ absurd (ground (arith, e, incomplete))
          | inr (explicit, requested, made, inl (n_ok, accepted, is_requested)) ↦
              (made ∙ ap success (sym is_requested), ap (λ m. m.public_format) same)
          | inr (explicit, requested, made, inr (inl (n_false, partly, closest, allowed))) ↦
              absurd (ground (arith, f, allowed))
          | inr (explicit, requested, made, inr (inr (n_other, refused, is_mix, allowed))) ↦
              absurd (ground (arith, f, allowed))
        ]

-- With memory at hand, a request for a sample type, a rate and a channel count that allows no
-- fallback is never met by another format: a negotiation that succeeds shows just these, in an
-- interleaved format.
pub negotiate_shared_mode_format-exact :
    (sdk : WaveSdk) (cloned : Bool) (client : AudioClient) (request : FormatRequest)
    (n : NegotiatedFormat) (sample : SampleType) (rate channels : ℕ)
    → IsWindows sdk
    → request.allow_mix_format_fallback ≡ false
    → request.preferred_sample ≡ some sample
    → request.preferred_sample_rate ≡ some rate
    → request.preferred_channel_count ≡ some channels
    → negotiate_shared_mode_format sdk true cloned client request ≡ success n
    → (n.public_format.sample ≡ sample)
      × (n.public_format.sample_rate ≡ rate)
      × (n.public_format.channel_count ≡ channels)
      × (n.public_format.interleaved ≡ true)
negotiate_shared_mode_format-exact sdk cloned client request n sample rate channels windows f hs hr
      hc h =
    let e : is_explicit request ≡ true = rw (hs, hr, hc) refl in
    let (made, described) = exact_request sdk true cloned client request n f e h in
    let (s, r, c, ks, kr, kc, ok) =
      make_requested_wave_format-success sdk true request n.wave_format made in
    let (format, built, valid, is_sample, is_rate, is_channels, interleaved) =
      make_requested_wave_format-reads sdk windows request s r c ks kr kc ok in
    let same : format ≡ n.wave_format = ground (arith, built, made) in
    let back : to_audio_format sdk format ≡ n.public_format =
      ap (to_audio_format sdk) same ∙ sym described in
    let as_sample : s ≡ sample = ground (arith, hs, ks) in
    let as_rate : r ≡ rate = ground (arith, hr, kr) in
    let as_channels : c ≡ channels = ground (arith, hc, kc) in
    (
      sym (ap (λ v. v.sample) back) ∙ is_sample ∙ as_sample,
      sym (ap (λ v. v.sample_rate) back) ∙ is_rate ∙ as_rate,
      sym (ap (λ v. v.channel_count) back) ∙ is_channels ∙ as_channels,
      sym (ap (λ v. v.interleaved) back) ∙ interleaved,
    )
