-- ===== src/Error.antt =====
-- include/sonotide/error.h, include/sonotide/result.h and error.cpp: the error value that every
-- fallible operation returns, and the `result<T>` that carries it.
use Prim.Native.String.{String}
use sonotide.Prelude.{Option, none, Bool, false}
use sonotide.Prelude.Int.{ℤ}

pub data ErrorCategory : Type 0 where
  configuration initialization device format stream callback platform : ErrorCategory

pub data ErrorCode : Type 0 where
  invalid_argument invalid_state unsupported_platform initialization_failed : ErrorCode
  device_not_found device_enumeration_failed format_negotiation_failed : ErrorCode
  stream_open_failed stream_start_failed stream_stop_failed callback_failed : ErrorCode
  platform_failure not_implemented operation_timed_out : ErrorCode

pub record Error : Type 0 where
  pub category : ErrorCategory
  pub code : ErrorCode
  pub message : String
  pub operation : String
  pub native_code : Option ℤ
  pub recoverable : Bool

-- The fields that a caller does not set keep their defaults.
abbrev pub make_error : ErrorCategory → ErrorCode → String → String → Error
make_error category code operation message = record {
  category = category;
  code = code;
  message = message;
  operation = operation;
  native_code = none;
  recoverable = false;
}

pub data Result {ℓ} (A : Type ℓ) : Type ℓ where
  success : A → Result A
  failure : Error → Result A

-- `result<void>`.
abbrev pub VoidResult : Type 0
VoidResult = Result (Unit {0})

abbrev pub done : VoidResult
done = success tt

abbrev pub has_value {ℓ} : {A : Type ℓ} → Result A → Bool
has_value (success a) = Bool.true
has_value (failure e) = false

infixl 5 ◌>>=◌ ◌>>◌
abbrev pub ◌>>=◌ {ℓ κ} : {A : Type ℓ} {B : Type κ} → Result A → (A → Result B) → Result B
success a >>= f = f a
failure e >>= f = failure e

abbrev pub ◌>>◌ {ℓ} : {B : Type ℓ} → VoidResult → Result B → Result B
m >> k = m >>= λ _. k
