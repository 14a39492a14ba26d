-- ===== src/AudioQueue/Refinement.antt =====
-- The ring of internal/playback/decoded_audio_queue.h against a bounded first-in first-out list.
use sonotide.Prelude.{
  ℕ, ◌-◌, ◌≤◌, ◌≡◌, refl, ap, ◌∙◌, ◌↔◌, inl, inr, Bool, true, false, not, ◌&&◌, Bool-cases, List,
  [], ◌∷◌, ◌++◌, length, length-append, length-take, length-drop, drop, take, take-take,
  take_append_left, replicate, min, ltb, ltb→lt, leb, leb→le, ◌==◌, ==_iff, if◌then◌else◌, arith,
}
use sonotide.AudioQueue.{
  DecodedMetadata, Slot, DecodedAudioQueue, slot_at, increment, copy_to_start, try_push, try_pop,
  full,
}
use sonotide.AudioQueue.Contents.{Block, distance-full, distance-lt, block}
use sonotide.AudioQueue.Ring.{
  IsRing, contents, length-contents, full_iff, pushed, contents-pushed, pushed-IsRing, popped,
  popped-IsRing, contents-popped, contents-empty,
}

module _ {A : Type 0} (silence : A) where
  -- The list that the ring stands for: an entry goes to the end if there is room for it.
  abbrev pub fifo_push : ℕ → ℕ → List (Block A) → Block A → Bool × List (Block A)
  fifo_push slot_count capacity blocks b =
      if ltb (length blocks) slot_count && leb (length b.samples) capacity
      then (true, blocks ++ b ∷ [])
      else (false, blocks)

  -- A block cut to a length, or filled up with silence.
  abbrev pub fit : ℕ → List A → List A
  fit size samples = take size samples ++ replicate (size - length samples) silence

  fit-take :
      (size count : ℕ) (samples : List A)
      → count ≤ length samples
      → take (min size count) samples ++ replicate (size - min size count) silence
        ≡ fit size (take count samples)
  fit-take size count samples h =
      let same : size - min count (length samples) ≡ size - min size count = omega arith in
      rw (take-take size count samples, length-take count samples, same)

  -- The oldest entry leaves, if there is one.
  abbrev pub fifo_pop :
      List (Block A) → List A → DecodedMetadata → Bool × List A × DecodedMetadata × List (Block A)
  fifo_pop [] destination metadata = (false, destination, metadata, [])
  fifo_pop (b ∷ blocks) destination metadata =
      (true, fit (length destination) b.samples, b.metadata, blocks)

  module _ {n capacity : ℕ} {q : DecodedAudioQueue A} (ring : IsRing silence n capacity q) where
    -- The two guards of `try_push`, in terms of the list and the capacity.
    room_test :
        (increment silence q.slots q.write == q.read) ≡ not (ltb (length (contents silence q)) n)
    room_test =
        let bound =
          distance-lt (length q.slots) q.read q.write ring.read_inside ring.write_inside in
        let meets =
          distance-full (length q.slots) q.read q.write ring.read_inside ring.write_inside in
        let spare = ring.one_spare in
        rw (length-contents silence ring) (ground (arith, meets, bound, spare))

    size_test :
        (size : ℕ)
        → ltb (length (slot_at silence q.slots q.write).samples) size ≡ not (leb size capacity)
    size_test size = rw (ring.sized q.write ring.write_inside) (ground arith)

    -- The slot that an accepted block leaves behind.
    written : List A → DecodedMetadata → Slot A
    written samples metadata = record {
      samples = copy_to_start silence samples (slot_at silence q.slots q.write).samples;
      sample_count = length samples;
      metadata = metadata;
    }

    length-written :
        (samples : List A) (metadata : DecodedMetadata)
        → length samples ≤ capacity
        → length (written samples metadata).samples ≡ capacity
    unfolding written
    length-written samples metadata fits =
        let old = (slot_at silence q.slots q.write).samples in
        omega (
          arith,
          length-append samples (drop (length samples) old),
          length-drop (length samples) old,
          ring.sized q.write ring.write_inside,
        )

    block-written :
        (samples : List A) (metadata : DecodedMetadata)
        → block silence (written samples metadata)
          ≡ record { samples = samples; metadata = metadata }
    unfolding written block
    block-written samples metadata =
        ap (λ xs. record { samples = xs; metadata = metadata }) (take_append_left samples _)

  -- On a well-formed ring a push does what it does on the bounded list: the block goes to the end
  -- exactly if fewer than `slot_count` blocks wait and it fits a slot, and otherwise nothing
  -- changes. The ring stays well formed.
  pub try_push-fifo_push :
      (n capacity : ℕ) (q : DecodedAudioQueue A) (samples : List A) (metadata : DecodedMetadata)
      → IsRing silence n capacity q
      → IsRing silence n capacity (try_push silence q samples metadata).1
        × ((
          (try_push silence q samples metadata).0,
          contents silence (try_push silence q samples metadata).1,
        )
            ≡ fifo_push n capacity
                (contents silence q)
                (record { samples = samples; metadata = metadata }))
  unfolding try_push pushed written
  try_push-fifo_push n capacity q samples metadata ring =
      rw (try_push, room_test ring, size_test ring (length samples))
        (elim (Bool-cases (ltb (length (contents silence q)) n)) [
          | inr no_room ↦ rw no_room (ring, refl)
          | inl room ↦ elim (Bool-cases (leb (length samples) capacity)) [
            | inr too_long ↦ rw (room, too_long) (ring, refl)
            | inl fits ↦
                rw (room, fits)
                  (
                    pushed-IsRing silence ring (written ring samples metadata)
                        (length-written ring samples metadata (leb→le _ _ fits)) (leb→le _ _ fits),
                    ap (λ blocks. (true, blocks))
                        (contents-pushed silence ring (written ring samples metadata)
                            (ltb→lt _ _ room)
                          ∙ ap (λ b. contents silence q ++ b ∷ [])
                              (block-written ring samples metadata)),
                  )
          ]
        ])

  -- On a well-formed ring a pop does what it does on the list: it takes the oldest block, cut or
  -- filled with silence to the size of the destination, with its metadata; from an empty ring it
  -- takes nothing and leaves both arguments as they were. The ring stays well formed.
  pub try_pop-fifo_pop :
      (n capacity : ℕ) (q : DecodedAudioQueue A) (destination : List A) (metadata : DecodedMetadata)
      → IsRing silence n capacity q
      → let r = try_pop silence q destination metadata in
        IsRing silence n capacity r.queue
        × ((r.taken, r.destination, r.metadata, contents silence r.queue)
            ≡ fifo_pop (contents silence q) destination metadata)
  unfolding try_pop popped block
  try_pop-fifo_pop n capacity q destination metadata ring = elim (Bool-cases (q.read == q.write)) [
    | inl empty ↦
        rw (try_pop, empty)
          (ring, rw (contents-empty silence ring ((==_iff q.read q.write).0 empty)) refl)
    | inr waiting ↦
        rw (try_pop, waiting)
          (
            popped-IsRing silence ring,
            rw (contents-popped silence ring (λ e. cc ((==_iff q.read q.write).1 e))) (
                ap
                  (λ samples. (
                    true,
                    samples,
                    (slot_at silence q.slots q.read).metadata,
                    contents silence (popped silence ring),
                  ))
                  (fit-take (length destination) (slot_at silence q.slots q.read).sample_count
                    (slot_at silence q.slots q.read).samples
                    (omega (
                      arith,
                      ring.counted q.read ring.read_inside,
                      ring.sized q.read ring.read_inside,
                    )))),
          )
  ]

  -- The ring reports that it is full exactly when `slot_count` blocks wait.
  pub full-length-contents_iff :
      (n capacity : ℕ) (q : DecodedAudioQueue A)
      → IsRing silence n capacity q
      → (full silence q ≡ true) ↔ (length (contents silence q) ≡ n)
  full-length-contents_iff n capacity q ring = full_iff silence ring
