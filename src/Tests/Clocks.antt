-- ===== src/Tests/Clocks.antt =====
-- The arithmetic on clocks and sizes.
use sonotide.Prelude.{◌*◌, ◌/◌, ◌+◌, ◌≡◌, ◌↔◌, ◌<◌, ◌≤◌, ◌^◌, none, some, arith}
use sonotide.Prelude.Int.{pos, negsuc}
use sonotide.Timing.{
  u64_max, multiply_u64, search_rounds, scale_remainder, scale_qpc_to_100ns,
  checked_audio_byte_count,
}
use sonotide.Timing.Product.{value, value-multiply_u64}
use sonotide.Timing.Search.{scale_remainder-exact, search_rounds-stalls}
use sonotide.Timing.Clock.{exact_100ns, scale_qpc_to_100ns-exact, checked_audio_byte_count_iff}

value-multiply_u64_example :
    (value (multiply_u64 (2 ^ 40) (2 ^ 41 + 3)) ≡ 2 ^ 40 * (2 ^ 41 + 3))
    × ((multiply_u64 (2 ^ 40) (2 ^ 41 + 3)).high < 2 ^ 64)
    × ((multiply_u64 (2 ^ 40) (2 ^ 41 + 3)).low < 2 ^ 64)
value-multiply_u64_example = value-multiply_u64 (2 ^ 40) (2 ^ 41 + 3) (omega arith) (omega arith)

scale_remainder-exact_example :
    (scale_remainder 7 10_000_000 24 ≡ 7 * 10_000_000 / 24)
    × (scale_remainder 7 10_000_000 24 < 10_000_000)
scale_remainder-exact_example =
    scale_remainder-exact 7 10_000_000 24 (omega arith) (omega arith) (omega arith) (omega arith)

search_rounds-stalls_example :
    search_rounds 3 (record { high = 5; low = 1 }) 9 0 u64_max ≡ some (0, u64_max)
search_rounds-stalls_example =
    search_rounds-stalls 3 (record { high = 5; low = 1 }) 9 (omega arith) (omega arith)

scale_qpc_to_100ns-exact_example :
    (scale_qpc_to_100ns (pos 1_000) (pos 3_000_000) ≡ exact_100ns 1_000 3_000_000)
    × (scale_qpc_to_100ns (negsuc 4) (pos 3_000_000) ≡ none)
    × (scale_qpc_to_100ns (pos 1_000) (negsuc 4) ≡ none)
    × (scale_qpc_to_100ns (pos 1_000) (pos 0) ≡ none)
scale_qpc_to_100ns-exact_example =
    scale_qpc_to_100ns-exact 1_000 3_000_000 4 (omega arith) (omega arith) (omega arith)

checked_audio_byte_count_iff_example :
    (checked_audio_byte_count 480 8 ≡ some 3_840) ↔ (0 < 8) × (480 * 8 ≡ 3_840) × (3_840 ≤ u64_max)
checked_audio_byte_count_iff_example = checked_audio_byte_count_iff 480 8 3_840
