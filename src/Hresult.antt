-- ===== src/Hresult.antt =====
-- internal/win/hresult_utils.cpp, `map_hresult`: the error of a failed Windows call, and the test
-- `FAILED`. A result code is a signed integer of 32 bits.
use sonotide.Prelude.{
  ℕ, zero, suc, ◌-◌, ◌/◌, ◌%◌, ◌^◌, String, Bool, some, [], ◌∷◌, get_or, ltb, if◌then◌else◌,
}
use sonotide.Prelude.Int.{ℤ, pos, negsuc, is_negative}
use sonotide.Error.{Error, ErrorCategory, ErrorCode}
use Prim.Native.String.{◌++◌}

abbrev pub is_failed : ℤ → Bool
is_failed hr = is_negative hr

-- `static_cast<unsigned long>` on a platform where `long` has 32 bits.
abbrev to_unsigned : ℤ → ℕ
to_unsigned (pos n) = n % 2 ^ 32
to_unsigned (negsuc n) = 2 ^ 32 - 1 - n % 2 ^ 32

abbrev digit : ℕ → String
digit n = get_or ("0" ∷ "1" ∷ "2" ∷ "3" ∷ "4" ∷ "5" ∷ "6" ∷ "7" ∷ "8" ∷ "9" ∷ []) n ""

-- The digits of a number in front of a text, at most `places` of them.
unfoldable pub digits_before : ℕ → ℕ → String → String
digits_before zero n text = text
digits_before (suc places) n text =
    let longer = digits_before places (n / 10) (digit (n % 10) ++ text) in
    if ltb n 10 then digit n ++ text else longer

-- `std::to_string` of a number of 32 bits, which has at most 10 digits.
abbrev number_to_string : ℕ → String
number_to_string n = digits_before 10 n ""

unfoldable pub map_hresult : String → ℤ → ErrorCategory → ErrorCode → Bool → Error
unfolding digits_before
map_hresult operation hr category code recoverable = record {
  category = category;
  code = code;
  message = "Windows API call failed with HRESULT 0x" ++ number_to_string (to_unsigned hr) ++ ".";
  operation = operation;
  native_code = some hr;
  recoverable = recoverable;
}
