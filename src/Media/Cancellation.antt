-- ===== src/Media/Cancellation.antt =====
-- `open` and `seek_to` of the decoder against the cancellation of their command and the answers of
-- the system.
use sonotide.Prelude.{
  ℕ, ◌≡◌, ◌≢◌, ◌⊎◌, inl, inr, refl, String, Bool, true, false, not, Option, none, some, [],
  Bool-cases, if_intro, arith,
}
use sonotide.Prelude.Int.{ℤ, pos}
use sonotide.Error.{Error, VoidResult, done, success, failure}
use sonotide.Hresult.{is_failed}
use sonotide.Format.{AudioFormat}
use sonotide.Session.{is_empty}
use sonotide.Decoder.{changed_since, is_valid_decoder_output_format, milliseconds_to_100ns}
use sonotide.Media.{MediaDecoder, closed_decoder, close_source}
use sonotide.Media.Open.{
  position_result, sought_at, moved_to, seek_converted, TypeCodes, OpenAnswers, SeekAnswers,
  configure_output_type, open_source, open_checks, open_after, seek_source, query_duration_100ns,
}

-- Every call that sets up the type of the output has succeeded.
pub record IsConfigured (t : TypeCodes) : Type 0 where
  pub create : is_failed t.create ≡ false
  pub major : is_failed t.major ≡ false
  pub subtype : is_failed t.subtype ≡ false
  pub channels : is_failed t.channels ≡ false
  pub rate : is_failed t.rate ≡ false
  pub bits : is_failed t.bits ≡ false
  pub alignment : is_failed t.alignment ≡ false
  pub bytes : is_failed t.bytes ≡ false
  pub valid_bits_per_sample : is_failed t.valid_bits_per_sample ≡ false
  pub selection : is_failed t.selection ≡ false
  pub current : is_failed t.current ≡ false

-- What an `open` needs: a name, a format that the decoder supports, a command that is current at
-- the first and at the last test of the epoch, and the success of every call of the system.
pub record IsOpenable (a : OpenAnswers) (uri : String) (format : AudioFormat) (epoch : ℕ)
    : Type 0 where
  pub named : is_empty uri ≡ false
  pub valid : is_valid_decoder_output_format format ≡ true
  pub first : a.epoch_first ≡ epoch
  pub attributes : is_failed a.attributes ≡ false
  pub low_latency : is_failed a.low_latency ≡ false
  pub transforms : is_failed a.transforms ≡ false
  pub wide_uri : a.has_wide_uri ≡ true
  pub created : is_failed a.create ≡ false
  pub configured : IsConfigured a.types
  pub last : a.epoch_last ≡ epoch

configure_output_type-IsConfigured :
    (t : TypeCodes) → configure_output_type t ≡ done → IsConfigured t
unfolding configure_output_type
configure_output_type-IsConfigured t h = record {
  create = ground (arith, h);
  major = ground (arith, h);
  subtype = ground (arith, h);
  channels = ground (arith, h);
  rate = ground (arith, h);
  bits = ground (arith, h);
  alignment = ground (arith, h);
  bytes = ground (arith, h);
  valid_bits_per_sample = ground (arith, h);
  selection = ground (arith, h);
  current = ground (arith, h);
}

configure_output_type-done : (t : TypeCodes) → IsConfigured t → configure_output_type t ≡ done
unfolding configure_output_type
configure_output_type-done t c = simp (
  c.create, c.major, c.subtype, c.channels, c.rate, c.bits, c.alignment, c.bytes,
  c.valid_bits_per_sample, c.selection, c.current,
)

module _ (a : OpenAnswers) (uri : String) (format : AudioFormat) (epoch : ℕ) where
  configured_by :
      (r : VoidResult)
      → configure_output_type a.types ≡ r
      → open_checks a uri format epoch ≡ done
      → r ≡ done
  configured_by (success u) c h = refl
  configured_by (failure x) c h = absurd (ground (arith, c, h))

  open_checks-IsOpenable : open_checks a uri format epoch ≡ done → IsOpenable a uri format epoch
  open_checks-IsOpenable h = record {
    named = ground (arith, h);
    valid = ground (arith, h);
    first = ground (arith, h);
    attributes = ground (arith, h);
    low_latency = ground (arith, h);
    transforms = ground (arith, h);
    wide_uri = ground (arith, h);
    created = ground (arith, h);
    configured = configure_output_type-IsConfigured a.types (configured_by _ refl h);
    last = ground (arith, h);
  }

  open_checks-done : IsOpenable a uri format epoch → open_checks a uri format epoch ≡ done
  open_checks-done o =
      let configured = configure_output_type-done a.types o.configured in
      ground (
        arith, configured, o.named, o.valid, o.first, o.attributes, o.low_latency, o.transforms,
        o.wide_uri, o.created, o.last,
      )

-- The decoder after a successful `open`.
abbrev opened_decoder : {A : Type 0} → OpenAnswers → AudioFormat → MediaDecoder A
opened_decoder a format = record closed_decoder {
  has_source_reader = true;
  output_format = format;
  duration_100ns = query_duration_100ns a.duration;
}

-- How an `open` ends.
unfoldable pub Opens :
    {A : Type 0} → OpenAnswers → String → AudioFormat → ℕ → MediaDecoder A × VoidResult → Type 0
Opens a uri format epoch r =
    (IsOpenable a uri format epoch × (r ≡ (opened_decoder a format, done)))
    ⊎ ((¬ IsOpenable a uri format epoch) × (x : Error) × (r ≡ (closed_decoder, failure x)))

open_after-Opens :
    (A : Type 0) (a : OpenAnswers) (uri : String) (format : AudioFormat) (epoch : ℕ)
    (d : MediaDecoder A) (r : VoidResult)
    → open_checks a uri format epoch ≡ r
    → Opens a uri format epoch (open_after a format (close_source d) r)
unfolding Opens close_source
open_after-Opens A a uri format epoch d (success u) h =
    inl (open_checks-IsOpenable a uri format epoch h, refl)
open_after-Opens A a uri format epoch d (failure x) h =
    inr (λ o. ground (arith, h, open_checks-done a uri format epoch o), x, refl)

-- Whatever the decoder was before, an `open` either leaves a fresh decoder of the wanted format at
-- the start of its source, or fails and leaves the closed decoder. It succeeds exactly when the
-- source has a name, which has a UTF-16 form, the decoder supports the format, the command is
-- current at the first and at the last test of the epoch, and every call of the system succeeds,
-- those that set up the output type included; the duration is optional.
pub open_source-Opens :
    (A : Type 0) (a : OpenAnswers) (uri : String) (format : AudioFormat) (epoch : ℕ)
    (d : MediaDecoder A)
    → Opens a uri format epoch (open_source a uri format epoch d)
unfolding open_source
open_source-Opens A a uri format epoch d = open_after-Opens A a uri format epoch d _ refl

-- Why a seek is refused before it has moved the reader.
abbrev pub IsRefused : {A : Type 0} → SeekAnswers → Option ℕ → ℕ → MediaDecoder A → Type 0
IsRefused a target epoch d =
    (a.epoch_first ≢ epoch)
    ⊎ (d.has_source_reader ≡ false)
    ⊎ (target ≡ none)
    ⊎ (is_failed a.hr ≡ true)

-- A seek that is not refused: the position fits, and the reader has moved to it.
abbrev pub IsMoved : {A : Type 0} → SeekAnswers → Option ℕ → ℕ → MediaDecoder A → ℕ → Type 0
IsMoved a target epoch d ticks =
    (target ≡ some ticks)
    × (a.epoch_first ≡ epoch)
    × (d.has_source_reader ≡ true)
    × (is_failed a.hr ≡ false)

-- How a seek to `ticks`, if the position fits, ends.
unfoldable pub Seeks :
    {A : Type 0}
    → SeekAnswers
    → Option ℕ
    → ℕ
    → MediaDecoder A
    → MediaDecoder A × VoidResult
    → Type 0
Seeks a target epoch d r =
    ((ticks : ℕ) × IsMoved a target epoch d ticks
      × (a.epoch_last ≡ epoch)
      × (r ≡ (
        record d {
          source_reader_position = ticks;
          decoded_samples = [];
          decoded_sample_offset = 0;
          next_sample_time_100ns = pos ticks;
          end_of_stream = false;
        },
        done,
      )))
    ⊎ ((ticks : ℕ) × IsMoved a target epoch d ticks
        × (a.epoch_last ≢ epoch)
        × (x : Error) × (r ≡ (record d { source_reader_position = ticks }, failure x)))
    ⊎ (IsRefused a target epoch d × (x : Error) × (r ≡ (d, failure x)))

module _ {A : Type 0} (is_not_accepting : ℤ → Bool) (a : SeekAnswers) (epoch : ℕ) where
  sought_at-Seeks :
      (d : MediaDecoder A) (ticks : ℕ) (r : VoidResult)
      → position_result is_not_accepting a epoch ≡ r
      → d.has_source_reader ≡ true
      → a.epoch_first ≡ epoch
      → Seeks a (some ticks) epoch d (sought_at (moved_to a ticks d) ticks r)
  unfolding Seeks
  sought_at-Seeks d ticks (success u) h e first =
      let ok : is_failed a.hr ≡ false = ground (arith, h) in
      rw ok (inl (ticks, (refl, first, e, refl), ground (arith, h), refl))
  sought_at-Seeks d ticks (failure x) h e first = elim (Bool-cases (is_failed a.hr)) [
    | inl bad ↦ rw bad (inr (inr (inr (inr (inr refl)), x, refl)))
    | inr ok ↦
        rw ok
          (inr (inl (ticks, (refl, first, e, refl), λ same. ground (arith, h, ok, same), x, refl)))
  ]

  seek_converted-Seeks :
      (d : MediaDecoder A) (target : Option ℕ)
      → d.has_source_reader ≡ true
      → a.epoch_first ≡ epoch
      → Seeks a target epoch d (seek_converted is_not_accepting a epoch d target)
  unfolding Seeks
  seek_converted-Seeks d none e first = inr (inr (inr (inr (inl refl)), _, refl))
  seek_converted-Seeks d (some ticks) e first = sought_at-Seeks d ticks _ refl e first

  refused-Seeks :
      (d : MediaDecoder A) (target : Option ℕ) (x : Error)
      → IsRefused a target epoch d
      → Seeks a target epoch d (d, failure x)
  unfolding Seeks
  refused-Seeks d target x why = inr (inr (why, x, refl))

  -- A seek of the decoder is refused, and changes nothing, when the command is not current at
  -- first, no source is open, the position does not fit, or `SetCurrentPosition` fails. Otherwise
  -- the reader is moved to the position in 100-ns units. If the command is then still current, the
  -- seek succeeds: the decoder is empty at this position, with the end of the source forgotten. If
  -- not, it fails, and leaves the decoder as it was except for the reader, which has moved.
  pub seek_source-Seeks :
      (position : ℤ) (d : MediaDecoder A)
      → Seeks a
          (milliseconds_to_100ns position)
          epoch
          d
          (seek_source is_not_accepting a position epoch d)
  unfolding seek_source
  seek_source-Seeks position d =
      let target = milliseconds_to_100ns position in
      if_intro (Seeks a target epoch d) (changed_since a.epoch_first epoch)
        (λ late. refused-Seeks d target _ (inl (λ same. ground (arith, late, same))))
        (λ first.
          if_intro (Seeks a target epoch d) (not d.has_source_reader)
            (λ closed. refused-Seeks d target _ (inr (inl (ground (arith, closed)))))
            (λ e. seek_converted-Seeks d target (ground arith) (ground arith)))
