-- ===== src/AudioQueue.antt =====
-- internal/playback/decoded_audio_queue.h: the ring of decoded blocks between the decode worker and
-- the render callback. A sample is of any type with a silent value (`0.0F`). Each method is one
-- step here; slot indices stay below the size of `slots_`, so their sums do not wrap.
pub mod Contents
pub mod Ring
pub mod Refinement
use sonotide.Prelude.{
  ℕ, suc, ◌+◌, ◌-◌, ◌%◌, Bool, true, false, ◌||◌, List, ◌++◌, length, get_or, set, take, drop,
  replicate, min, ltb, ◌==◌, if◌then◌else◌,
}
use sonotide.Prelude.Int.{ℤ, pos}

pub record DecodedMetadata : Type 0 where
  pub generation : ℕ
  pub seek_sequence : ℕ
  pub position_ms : ℤ
  pub duration_ms : ℤ
  pub end_of_stream : Bool

abbrev pub no_metadata : DecodedMetadata
no_metadata = record {
  generation = 0;
  seek_sequence = 0;
  position_ms = pos 0;
  duration_ms = pos 0;
  end_of_stream = false;
}

pub record Slot (A : Type 0) : Type 0 where
  pub samples : List A
  pub sample_count : ℕ
  pub metadata : DecodedMetadata

pub record DecodedAudioQueue (A : Type 0) : Type 0 where
  pub slots : List (Slot A)
  pub read : ℕ
  pub write : ℕ

-- What `try_pop` leaves in its result, its two output arguments and the queue.
pub record Popped (A : Type 0) : Type 0 where
  pub taken : Bool
  pub destination : List A
  pub metadata : DecodedMetadata
  pub queue : DecodedAudioQueue A

module _ {A : Type 0} (silence : A) where
  abbrev pub fresh_slot : ℕ → Slot A
  fresh_slot samples_per_slot = record {
    samples = replicate samples_per_slot silence;
    sample_count = 0;
    metadata = no_metadata;
  }

  -- The constructor.
  unfoldable pub make_queue : ℕ → ℕ → DecodedAudioQueue A
  make_queue slot_count samples_per_slot = record {
    slots = replicate (slot_count + 1) (fresh_slot samples_per_slot);
    read = 0;
    write = 0;
  }

  abbrev pub slot_at : List (Slot A) → ℕ → Slot A
  slot_at slots i = get_or slots i (fresh_slot 0)

  abbrev pub increment : List (Slot A) → ℕ → ℕ
  increment slots value = (value + 1) % length slots

  -- `std::copy` to the start of a vector.
  abbrev pub copy_to_start : List A → List A → List A
  copy_to_start samples target = samples ++ drop (length samples) target

  unfoldable pub try_push :
      DecodedAudioQueue A → List A → DecodedMetadata → Bool × DecodedAudioQueue A
  try_push q samples metadata =
      let next = increment q.slots q.write in
      let target = slot_at q.slots q.write in
      if next == q.read || ltb (length target.samples) (length samples) then (false, q) else (
        true,
        record q {
          slots = set q.slots q.write (record {
            samples = copy_to_start samples target.samples;
            sample_count = length samples;
            metadata = metadata;
          });
          write = next;
        },
      )

  unfoldable pub try_pop : DecodedAudioQueue A → List A → DecodedMetadata → Popped A
  try_pop q destination metadata =
      let source = slot_at q.slots q.read in
      let count = min (length destination) source.sample_count in
      if q.read == q.write
      then record { taken = false; destination = destination; metadata = metadata; queue = q }
      else record {
        taken = true;
        destination = take count source.samples ++ replicate (length destination - count) silence;
        metadata = source.metadata;
        queue = record q { read = increment q.slots q.read };
      }

  unfoldable pub full : DecodedAudioQueue A → Bool
  full q = increment q.slots q.write == q.read
