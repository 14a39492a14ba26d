-- ===== src/Wave/Validity.antt =====
-- What `validate_wave_format` accepts, in terms of the fields.
use sonotide.Prelude.{ℕ, ◌*◌, ◌/◌, ◌≤◌, ◌<◌, ◌≡◌, ◌≢◌, ◌↔◌, ◌⊎◌, refl, true, arith}
use sonotide.Error.{VoidResult, done, success, failure, ◌>>◌}
use sonotide.Format.{unknown, pcm_i16}
use sonotide.Wave.{
  WaveSdk, WaveFormat, word_max, dword_max, maximum_wave_format_extra_bytes, popcount,
  is_extensible, detect_sample_type, validate_header, validate_layout, validate_sizes,
  validate_wave_format,
}

module _ (sdk : WaveSdk) where
  -- A format that the streams can use: the header is bounded and complete, the sample layout is
  -- known, and the two sizes are the exact products and fit their fields.
  pub record IsUsable (f : WaveFormat) : Type 0 where
    pub bounded : f.cb_size ≤ maximum_wave_format_extra_bytes
    pub has_channels : 0 < f.channels
    pub has_rate : 0 < f.samples_per_sec
    pub extended : is_extensible f.format_tag ≡ true → sdk.extension_bytes ≤ f.cb_size
    pub mask_counts :
        is_extensible f.format_tag ≡ true
        → (f.channel_mask ≡ 0) ⊎ (popcount f.channel_mask ≡ f.channels)
    pub known : detect_sample_type sdk f ≢ unknown
    pub aligned : f.block_align ≡ f.channels * (f.bits_per_sample / 8)
    pub block_fits : f.block_align ≤ word_max
    pub rated : f.avg_bytes_per_sec ≡ f.block_align * f.samples_per_sec
    pub rate_fits : f.avg_bytes_per_sec ≤ dword_max

  -- The four facts that the checks on the header and the extension establish.
  abbrev HeaderOk : WaveFormat → Type 0
  HeaderOk f =
      (f.cb_size ≤ maximum_wave_format_extra_bytes)
      × (0 < f.channels)
      × (0 < f.samples_per_sec)
      × (is_extensible f.format_tag ≡ true → sdk.extension_bytes ≤ f.cb_size)
      × (is_extensible f.format_tag ≡ true
          → (f.channel_mask ≡ 0) ⊎ (popcount f.channel_mask ≡ f.channels))

  validate_header_iff : (f : WaveFormat) → (validate_header sdk f ≡ done) ↔ HeaderOk f
  unfolding validate_header
  validate_header_iff f = (
    (λ h. (ground arith, ground arith, ground arith, (λ e. ground arith), (λ e. ground arith))),
    λ h. ground (arith, h.3, h.4),
  )

  -- A known layout has a container of 16 or 32 bits, as its sample type says.
  detect-container :
      (f : WaveFormat)
      → (detect_sample_type sdk f ≡ unknown)
        ⊎ ((detect_sample_type sdk f ≡ pcm_i16) × (f.bits_per_sample ≡ 16))
        ⊎ ((detect_sample_type sdk f ≢ unknown)
            × (detect_sample_type sdk f ≢ pcm_i16)
            × (f.bits_per_sample ≡ 32))
  unfolding detect_sample_type
  detect-container f = ground arith

  validate_layout_iff :
      (f : WaveFormat)
      → (validate_layout sdk f (detect_sample_type sdk f) ≡ done)
        ↔ (detect_sample_type sdk f ≢ unknown)
  unfolding validate_layout
  validate_layout_iff f = (ground (arith, detect-container f), ground (arith, detect-container f))

  abbrev SizesOk : WaveFormat → Type 0
  SizesOk f =
      (f.block_align ≡ f.channels * (f.bits_per_sample / 8))
      × (0 < f.block_align)
      × (f.block_align ≤ word_max)
      × (f.avg_bytes_per_sec ≡ f.block_align * f.samples_per_sec)
      × (0 < f.avg_bytes_per_sec)
      × (f.avg_bytes_per_sec ≤ dword_max)

  validate_sizes_iff : (f : WaveFormat) → (validate_sizes sdk f ≡ done) ↔ SizesOk f
  unfolding validate_sizes
  validate_sizes_iff f = (ground arith, ground arith)

  -- The three groups of checks run in order, and all of them have to pass.
  checks_iff :
      (f : WaveFormat)
      → (validate_wave_format sdk f ≡ done)
        ↔ (validate_header sdk f ≡ done)
          × (validate_layout sdk f (detect_sample_type sdk f) ≡ done)
          × (validate_sizes sdk f ≡ done)
  unfolding validate_wave_format
  checks_iff f =
      unfold_checks (validate_header sdk f) (validate_layout sdk f (detect_sample_type sdk f))
        (validate_sizes sdk f)
    where
      unfold_checks :
          (a b c : VoidResult) → ((a >> (b >> c)) ≡ done) ↔ (a ≡ done) × (b ≡ done) × (c ≡ done)
      unfold_checks (success _) (success _) c = ((λ h. (refl, refl, h)), λ h. h.2)
      unfold_checks (success _) (failure e) c = ((λ h. cc), λ h. cc (h.1))
      unfold_checks (failure e) b c = ((λ h. cc), λ h. cc (h.0))

  container_pos : (f : WaveFormat) → detect_sample_type sdk f ≢ unknown → 2 ≤ f.bits_per_sample / 8
  container_pos f h = grind (arith, detect-container f)

  sizes_pos :
      (channels width rate : ℕ)
      → 0 < channels
      → 2 ≤ width
      → 0 < rate
      → (0 < channels * width) × (0 < channels * width * rate)
  sizes_pos c w r hc hw hr = (grind arith, grind arith)

  -- `validate_wave_format` accepts a format exactly when its extra bytes are at most 4096, it has
  -- channels and a rate, an extensible one has its extension and a channel mask that is 0 or
  -- counts the channels, the sample layout is a known one, and the block alignment and the byte
  -- rate are the exact products and fit their fields.
  pub validate_wave_format_iff : (f : WaveFormat) → (validate_wave_format sdk f ≡ done) ↔ IsUsable f
  validate_wave_format_iff f = (to_usable, from_usable)
    where
      to_usable : validate_wave_format sdk f ≡ done → IsUsable f
      to_usable h =
          let (header, layout, sizes) = (checks_iff f).0 h in
          let (bounded, channels, rate, extended, mask) = (validate_header_iff f).0 header in
          let (aligned, _, block, rated, _, average) = (validate_sizes_iff f).0 sizes in
          record {
            bounded = bounded;
            has_channels = channels;
            has_rate = rate;
            extended = extended;
            mask_counts = mask;
            known = (validate_layout_iff f).0 layout;
            aligned = aligned;
            block_fits = block;
            rated = rated;
            rate_fits = average;
          }

      from_usable : IsUsable f → validate_wave_format sdk f ≡ done
      from_usable u =
          let (block, average) =
            sizes_pos f.channels (f.bits_per_sample / 8) f.samples_per_sec u.has_channels
              (container_pos f u.known) u.has_rate in
          (checks_iff f).1 (
            (validate_header_iff f).1
                (u.bounded, u.has_channels, u.has_rate, u.extended, u.mask_counts),
            (validate_layout_iff f).1 u.known,
            (validate_sizes_iff f).1 (
              u.aligned,
              rw (u.aligned) block,
              u.block_fits,
              u.rated,
              rw (u.rated, u.aligned) average,
              u.rate_fits,
            ),
          )
