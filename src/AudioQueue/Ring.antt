-- ===== src/AudioQueue/Ring.antt =====
-- internal/playback/decoded_audio_queue.h: a well-formed ring, the blocks in it, and how they change
-- when one end of the ring moves.
use sonotide.Prelude.{
  ℕ, suc, ◌+◌, ◌≤◌, ◌<◌, ◌≡◌, refl, ◌≢◌, ◌↔◌, true, List, [], ◌∷◌, ◌++◌, length, length-set,
  length-replicate, get_or-set_self, get_or-set_ne, get_or-replicate, set, replicate, ==_iff, arith,
}
use native.Mathlib.Decide.{ℕ_discrete}
use sonotide.AudioQueue.{Slot, DecodedAudioQueue, fresh_slot, make_queue, slot_at, increment, full}
use sonotide.AudioQueue.Contents.{
  Block, distance, distance-increment, distance-advance, distance-full, distance_self,
  increment_cases, block, collect, length-collect, collect-set_end,
}

module _ {A : Type 0} (silence : A) where
  -- A ring for `slot_count` blocks of at most `capacity` samples.
  pub record IsRing (slot_count capacity : ℕ) (q : DecodedAudioQueue A) : Type 0 where
    pub one_spare : length q.slots ≡ suc slot_count
    pub read_inside : q.read < length q.slots
    pub write_inside : q.write < length q.slots
    pub sized : (i : ℕ) → i < length q.slots → length (slot_at silence q.slots i).samples ≡ capacity
    pub counted : (i : ℕ) → i < length q.slots → (slot_at silence q.slots i).sample_count ≤ capacity

  -- The blocks in the ring, oldest first.
  pub contents : DecodedAudioQueue A → List (Block A)
  contents q = collect silence q.slots (distance (length q.slots) q.read q.write) q.read

  -- A new ring is well formed and holds nothing.
  pub make_queue-IsRing :
      (slot_count capacity : ℕ)
      → IsRing slot_count capacity (make_queue silence slot_count capacity)
        × (contents (make_queue silence slot_count capacity) ≡ [])
  unfolding make_queue contents collect
  make_queue-IsRing n capacity =
      let spare : length (replicate (n + 1) (fresh_slot silence capacity)) ≡ suc n =
        omega (arith, length-replicate (n + 1) (fresh_slot silence capacity)) in
      let fresh_at : (i : ℕ)
          → i < length (replicate (n + 1) (fresh_slot silence capacity))
          → slot_at silence (replicate (n + 1) (fresh_slot silence capacity)) i
            ≡ fresh_slot silence capacity =
        λ i h.
          get_or-replicate (n + 1) i (fresh_slot silence capacity) (fresh_slot silence 0)
            (omega arith) in
      (
        record {
          one_spare = spare;
          read_inside = omega arith;
          write_inside = omega arith;
          sized = λ i h. rw (fresh_at i h) (length-replicate capacity silence);
          counted = λ i h. rw (fresh_at i h) (omega arith);
        },
        rw (distance_self (length (replicate (n + 1) (fresh_slot silence capacity))) 0) refl,
      )

  module _ {n capacity : ℕ} {q : DecodedAudioQueue A} (ring : IsRing n capacity q) where
    pub length-contents : length (contents q) ≡ distance (length q.slots) q.read q.write
    unfolding contents
    length-contents = length-collect silence q.slots _ q.read

    pub full_iff : (full silence q ≡ true) ↔ (length (contents q) ≡ n)
    unfolding full
    full_iff =
        let (meets, spare) =
          distance-full (length q.slots) q.read q.write ring.read_inside ring.write_inside in
        (
          (λ h. omega (arith, meets ((==_iff _ q.read).0 h), length-contents, ring.one_spare)),
          λ h.
              (==_iff (increment silence q.slots q.write) q.read).1
                (spare (omega (arith, length-contents, ring.one_spare))),
        )

    -- A refused block changes nothing; an accepted one goes to the end.
    unfoldable pub pushed : Slot A → DecodedAudioQueue A
    pushed slot = record q {
      slots = set q.slots q.write slot;
      write = increment silence q.slots q.write;
    }

    pub contents-pushed :
        (slot : Slot A)
        → length (contents q) < n
        → contents (pushed slot) ≡ contents q ++ block silence slot ∷ []
    unfolding contents pushed
    contents-pushed slot room =
        let d = distance (length q.slots) q.read q.write in
        let apart : increment silence q.slots q.write ≢ q.read = λ e. absurd (
          omega (
            arith,
            (distance-full _ q.read q.write ring.read_inside ring.write_inside).0 e,
            length-contents,
            ring.one_spare,
          )) in
        let longer : distance (length q.slots) q.read (increment silence q.slots q.write) ≡ suc d =
          distance-advance (length q.slots) q.read q.write ring.read_inside ring.write_inside
            apart in
        rw (length-set q.slots q.write slot, longer)
          (collect-set_end silence q.slots d q.read q.write slot ring.read_inside ring.write_inside
            refl)

    pub pushed-IsRing :
        (slot : Slot A)
        → length slot.samples ≡ capacity
        → slot.sample_count ≤ capacity
        → IsRing n capacity (pushed slot)
    unfolding pushed
    pushed-IsRing slot size count =
        let same = length-set q.slots q.write slot in
        record {
          one_spare = rw same ring.one_spare;
          read_inside = rw same ring.read_inside;
          write_inside = rw same (ground (arith, increment_cases (length q.slots) q.write));
          sized = λ i h. elim (ℕ_discrete q.write i) [
            | yes here ↦
                rw
                  (
                    ← here,
                    get_or-set_self q.slots q.write slot (fresh_slot silence 0) ring.write_inside,
                  )
                  size
            | no there ↦
                rw (get_or-set_ne q.slots q.write i slot (fresh_slot silence 0) there)
                  (ring.sized i (rw same at h))
          ];
          counted = λ i h. elim (ℕ_discrete q.write i) [
            | yes here ↦
                rw
                  (
                    ← here,
                    get_or-set_self q.slots q.write slot (fresh_slot silence 0) ring.write_inside,
                  )
                  count
            | no there ↦
                rw (get_or-set_ne q.slots q.write i slot (fresh_slot silence 0) there)
                  (ring.counted i (rw same at h))
          ];
        }

    -- What the ring is after it has moved on from the oldest block.
    unfoldable pub popped : DecodedAudioQueue A
    popped = record q { read = increment silence q.slots q.read }

    pub popped-IsRing : IsRing n capacity popped
    unfolding popped
    popped-IsRing = record {
      one_spare = ring.one_spare;
      read_inside = ground (arith, increment_cases (length q.slots) q.read);
      write_inside = ring.write_inside;
      sized = ring.sized;
      counted = ring.counted;
    }

    pub contents-popped :
        q.read ≢ q.write
        → contents q ≡ block silence (slot_at silence q.slots q.read) ∷ contents popped
    unfolding contents popped collect
    contents-popped apart = rw (
      (distance-increment (length q.slots) q.read q.write ring.read_inside ring.write_inside
          apart).0,
      collect,
    )

    pub contents-empty : q.read ≡ q.write → contents q ≡ []
    unfolding contents collect
    contents-empty e = rw (← e, distance_self (length q.slots) q.read)
