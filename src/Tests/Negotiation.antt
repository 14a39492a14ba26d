-- ===== src/Tests/Negotiation.antt =====
-- The negotiation of a stream's format.
use sonotide.Prelude.{◌≡◌, refl, true, none, some}
use sonotide.Prelude.Int.{pos}
use sonotide.Error.{success, done}
use sonotide.Format.{float32}
use sonotide.Wave.{
  WaveFormat, popcount_bits, detect_sample_type, validate_header, validate_layout, validate_sizes,
  validate_wave_format,
}
use sonotide.Wave.Convert.{
  make_format, make_requested_wave_format, requested_format, to_audio_format,
}
use sonotide.Wave.Negotiate.{
  AudioClient, s_ok, NegotiatedFormat, Origin, negotiate_shared_mode_format,
  negotiate_shared_mode_format-Origin, negotiate_shared_mode_format-exact,
}
use sonotide.Tests.Samples.{windows, stereo, stereo_request, windows-IsWindows}

abbrev mix : WaveFormat
mix = requested_format windows float32 44_100 2

-- A client that supports every format.
abbrev client : AudioClient
client = record { mix_hr = pos 0; mix_format = some mix; supports = λ format. (s_ok (pos 0), none) }

abbrev selected : WaveFormat
selected = requested_format windows float32 48_000 2

abbrev negotiated : NegotiatedFormat
negotiated = record { wave_format = selected; public_format = stereo; block_align = 8 }

negotiated-success :
    negotiate_shared_mode_format windows true true client stereo_request ≡ success negotiated
unfolding negotiate_shared_mode_format validate_wave_format validate_header popcount_bits
    validate_layout detect_sample_type validate_sizes make_requested_wave_format make_format
    to_audio_format
negotiated-success = refl

negotiate_shared_mode_format-Origin_example :
    (m : WaveFormat) × (some mix ≡ some m)
    × (validate_wave_format windows selected ≡ done)
    × (negotiated ≡ record {
      wave_format = selected;
      public_format = to_audio_format windows selected;
      block_align = 8;
    })
    × Origin windows true true client stereo_request m selected
negotiate_shared_mode_format-Origin_example =
    negotiate_shared_mode_format-Origin windows true true client stereo_request negotiated
      negotiated-success

negotiate_shared_mode_format-exact_example :
    (stereo.sample ≡ float32)
    × (stereo.sample_rate ≡ 48_000)
    × (stereo.channel_count ≡ 2)
    × (stereo.interleaved ≡ true)
negotiate_shared_mode_format-exact_example =
    negotiate_shared_mode_format-exact windows true client stereo_request negotiated float32 48_000
      2 windows-IsWindows refl refl refl refl negotiated-success
