-- ===== src/Tests/Formats.antt =====
-- The formats of samples, and the requests for them.
use sonotide.Prelude.{
  ℕ, ◌*◌, ◌≡◌, ◌⊎◌, ◌↔◌, ◌≤◌, ◌<◌, ◌+◌, ◌/◌, ◌^◌, ◌-◌, leb, refl, true, none, some, arith,
}
use sonotide.Prelude.Int.{pos}
use sonotide.Error.{done, success}
use sonotide.Timing.{i64_max}
use sonotide.Format.{float32}
use sonotide.Wave.{
  WaveFormat, popcount_bits, detect_sample_type, validate_header, validate_layout, validate_sizes,
  validate_wave_format,
}
use sonotide.Wave.Convert.{make_requested_wave_format, requested_format, to_audio_format}
use sonotide.Wave.Validity.{IsUsable, validate_wave_format_iff}
use sonotide.Wave.RoundTrip.{IsRequestable, IsRefused, make_requested_wave_format-round_trip}
use sonotide.Decoder.{
  is_valid_decoder_output_format, milliseconds_to_100ns, advance_timestamp_100ns, to_milliseconds,
}
use sonotide.Decoder.Validation.{
  is_valid_decoder_output_format-to_audio_format, to_milliseconds-milliseconds_to_100ns,
  advance_timestamp_100ns_iff,
}
use sonotide.Stream.Request.{
  StreamTiming, shared, event_driven, validate_stream_request, IsSupported,
  validate_stream_request_iff,
}
use sonotide.Tests.Samples.{windows-IsWindows, windows, stereo_request}

make_requested_wave_format-round_trip_example :
    (IsRequestable float32 48_000 2
      × (f : WaveFormat) × (make_requested_wave_format windows true stereo_request ≡ success f)
      × (validate_wave_format windows f ≡ done)
      × ((to_audio_format windows f).sample ≡ float32)
      × ((to_audio_format windows f).sample_rate ≡ 48_000)
      × ((to_audio_format windows f).channel_count ≡ 2)
      × ((to_audio_format windows f).interleaved ≡ true))
    ⊎ IsRefused float32 48_000 2 (make_requested_wave_format windows true stereo_request)
make_requested_wave_format-round_trip_example =
    make_requested_wave_format-round_trip windows windows-IsWindows stereo_request float32 48_000 2
      refl refl refl

-- The format that Windows gives a stereo stream of floats.
abbrev stereo_wave : WaveFormat
stereo_wave = requested_format windows float32 48_000 2

validate_wave_format_iff_example :
    (validate_wave_format windows stereo_wave ≡ done) ↔ IsUsable windows stereo_wave
validate_wave_format_iff_example = validate_wave_format_iff windows stereo_wave

stereo_wave-valid : validate_wave_format windows stereo_wave ≡ done
unfolding validate_wave_format validate_header validate_layout validate_sizes detect_sample_type
    popcount_bits
stereo_wave-valid = refl

is_valid_decoder_output_format-to_audio_format_example :
    is_valid_decoder_output_format (to_audio_format windows stereo_wave)
    ≡ leb (48_000 * 2 * 4) (2 ^ 32 - 1)
is_valid_decoder_output_format-to_audio_format_example =
    is_valid_decoder_output_format-to_audio_format windows stereo_wave stereo_wave-valid

to_milliseconds-milliseconds_to_100ns_example :
    (pos (to_milliseconds (pos 15_000_000)) ≡ pos 1_500) × (15_000_000 ≤ i64_max)
unfolding milliseconds_to_100ns
to_milliseconds-milliseconds_to_100ns_example =
    to_milliseconds-milliseconds_to_100ns (pos 1_500) 15_000_000 refl

advance_timestamp_100ns_iff_example :
    (advance_timestamp_100ns (pos 5) 480 48_000 ≡ some 100_005) ↔ (
      (n : ℕ) × (pos 5 ≡ pos n)
      × (0 < 48_000)
      × (100_005 ≡ n + 480 * 10_000_000 / 48_000)
      × (100_005 ≤ i64_max))
advance_timestamp_100ns_iff_example =
    advance_timestamp_100ns_iff (pos 5) 480 48_000 100_005 (omega arith)

abbrev usual_timing : StreamTiming
usual_timing = record { target_latency = pos 20; engine_period = none }

validate_stream_request_iff_example :
    (validate_stream_request stereo_request usual_timing shared event_driven "start" ≡ done)
    ↔ IsSupported stereo_request usual_timing shared event_driven
validate_stream_request_iff_example =
    validate_stream_request_iff stereo_request usual_timing shared event_driven "start"
