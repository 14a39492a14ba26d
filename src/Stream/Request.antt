-- ===== src/Stream/Request.antt =====
-- internal/win/wasapi_stream_handle.cpp, `validate_stream_request`, and the tests of the modes in
-- internal/win/wasapi_stream_validation.h.
use sonotide.Prelude.{
  ℕ, ◌+◌, ◌≡◌, ◌≢◌, ◌↔◌, String, Bool, true, false, not, ◌&&◌, ◌||◌, Option, none, some, is_some,
  ◌==◌, ◌!=◌, if◌then◌else◌, Option-cases, arith,
}
use sonotide.Prelude.Int.{ℤ}
use sonotide.Error.{Error, ErrorCategory, ErrorCode, make_error, VoidResult, done, failure}
use sonotide.Format.{SampleType, FormatRequest, same_sample}
use sonotide.Timing.{milliseconds_to_reference_time}

-- The enumerations of include/sonotide/stream_config.h. An integer cast to one of them may be none
-- of its enumerators, which is `other_mode`.
pub data ShareMode : Type 0 where
  shared exclusive other_mode : ShareMode

pub data CallbackMode : Type 0 where
  event_driven other_mode : CallbackMode

pub record StreamTiming : Type 0 where
  pub target_latency : ℤ
  pub engine_period : Option ℤ

abbrev is_valid_callback_mode : CallbackMode → Bool
is_valid_callback_mode event_driven = true
is_valid_callback_mode CallbackMode.other_mode = false

abbrev is_known_share_mode : ShareMode → Bool
is_known_share_mode shared = true
is_known_share_mode exclusive = true
is_known_share_mode ShareMode.other_mode = false

abbrev is_exclusive : ShareMode → Bool
is_exclusive exclusive = true
is_exclusive _ = false

abbrev make_not_implemented_error : String → String → Error
make_not_implemented_error = make_error ErrorCategory.configuration ErrorCode.not_implemented

abbrev make_invalid_argument_error : String → String → Error
make_invalid_argument_error = make_error ErrorCategory.configuration ErrorCode.invalid_argument

-- `static_cast<int>` of a Boolean.
abbrev to_count : Bool → ℕ
to_count true = 1
to_count false = 0

abbrev is_sample : SampleType → Option SampleType → Bool
is_sample sample none = false
is_sample sample (some preferred) = same_sample preferred sample

-- `request.has_value() && *request == 0`.
abbrev is_given_zero : Option ℕ → Bool
is_given_zero none = false
is_given_zero (some n) = n == 0

abbrev preferred_hint_count : FormatRequest → ℕ
preferred_hint_count format =
    to_count (is_some format.preferred_sample)
    + to_count (is_some format.preferred_sample_rate)
    + to_count (is_some format.preferred_channel_count)

unfoldable pub validate_stream_request :
    FormatRequest → StreamTiming → ShareMode → CallbackMode → String → VoidResult
validate_stream_request format timing mode callback operation =
    if not (is_some (milliseconds_to_reference_time timing.target_latency))
    then failure (
        make_invalid_argument_error operation
          "Target latency must be positive and representable in 100-ns units.")
    else if not (is_known_share_mode mode)
    then failure
        (make_invalid_argument_error operation "Share mode contains an unknown enum value.")
    else if is_exclusive mode
    then failure (make_not_implemented_error operation "Exclusive WASAPI mode is not implemented.")
    else if not (is_valid_callback_mode callback)
    then failure
        (make_invalid_argument_error operation "Callback mode contains an unknown enum value.")
    else if is_some timing.engine_period
    then failure
        (make_not_implemented_error operation "Custom WASAPI engine periods are not implemented.")
    else if not format.interleaved
    then failure (
        make_not_implemented_error operation
          "The WASAPI backend currently supports interleaved audio only.")
    else if preferred_hint_count format != 0 && preferred_hint_count format != 3
    then failure (
        make_invalid_argument_error operation
          "Preferred sample type, sample rate, and channel count must be provided together.")
    else if is_sample SampleType.unknown format.preferred_sample
    then failure (make_invalid_argument_error operation "Preferred sample type cannot be unknown.")
    else if is_given_zero format.preferred_sample_rate
    then failure
        (make_invalid_argument_error operation "Preferred sample rate must be greater than zero.")
    else if is_given_zero format.preferred_channel_count
    then failure
        (make_invalid_argument_error operation "Preferred channel count must be greater than zero.")
    else done

-- The preferences for no format in particular, or for a known sample type, a rate and a number of
-- channels that are not zero.
pub IsHint : Option SampleType → Option ℕ → Option ℕ → Type 0
IsHint none none none = Unit
IsHint (some sample) (some rate) (some channels) =
    (sample ≢ SampleType.unknown) × (rate ≢ 0) × (channels ≢ 0)
IsHint _ _ _ = ⊥

-- What the backend supports: a latency that the device clock can express, the shared mode with
-- event callbacks and the period of the engine, and interleaved samples of no format in
-- particular or of a complete one.
pub record IsSupported (format : FormatRequest) (timing : StreamTiming) (mode : ShareMode)
    (callback : CallbackMode) : Type 0 where
  pub latency : milliseconds_to_reference_time timing.target_latency ≢ none
  pub period : timing.engine_period ≡ none
  pub mode_shared : mode ≡ shared
  pub callback_known : callback ≡ event_driven
  pub interleaved : format.interleaved ≡ true
  pub complete :
      IsHint format.preferred_sample format.preferred_sample_rate format.preferred_channel_count

-- The three tests on the preferences, against the predicate.
hints_iff :
    (sample : Option SampleType) (rate channels : Option ℕ)
    → let count =
        to_count (is_some sample) + to_count (is_some rate) + to_count (is_some channels) in
      ((count != 0 && count != 3)
          || is_sample SampleType.unknown sample
          || is_given_zero rate
          || is_given_zero channels
        ≡ false)
      ↔ IsHint sample rate channels
unfolding IsHint
hints_iff none none none = ground arith
hints_iff none none (some c) = ground arith
hints_iff none (some r) none = ground arith
hints_iff none (some r) (some c) = ground arith
hints_iff (some s) none none = ground arith
hints_iff (some s) none (some c) = ground arith
hints_iff (some s) (some r) none = ground arith
hints_iff (some s) (some r) (some c) = ground arith

-- A request is accepted exactly when the backend supports it, whatever the operation is named.
pub validate_stream_request_iff :
    (format : FormatRequest) (timing : StreamTiming) (mode : ShareMode) (callback : CallbackMode)
    (operation : String)
    → (validate_stream_request format timing mode callback operation ≡ done)
      ↔ IsSupported format timing mode callback
unfolding validate_stream_request
validate_stream_request_iff format timing mode callback operation =
    let hint =
      hints_iff format.preferred_sample format.preferred_sample_rate
        format.preferred_channel_count in
    let latency = Option-cases (milliseconds_to_reference_time timing.target_latency) in
    let period = Option-cases timing.engine_period in ground (arith, hint, latency, period)
