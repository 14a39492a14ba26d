-- ===== src/Tests/Queues.antt =====
-- The queue of decoded blocks.
use sonotide.Prelude.{ℕ, ◌≡◌, [], ◌∷◌}
use sonotide.AudioQueue.{no_metadata, DecodedAudioQueue, make_queue, try_push, try_pop}
use sonotide.AudioQueue.Ring.{IsRing, contents, make_queue-IsRing}
use sonotide.AudioQueue.Refinement.{fifo_push, fifo_pop, try_push-fifo_push, try_pop-fifo_pop}

-- Room for two blocks of three samples; empty, and with a block of two samples.
abbrev empty_queue : DecodedAudioQueue ℕ
empty_queue = make_queue 0 2 3

abbrev one_block : DecodedAudioQueue ℕ
one_block = (try_push 0 empty_queue (8 ∷ 9 ∷ []) no_metadata).1

empty_queue-IsRing : IsRing 0 2 3 empty_queue
empty_queue-IsRing = (make_queue-IsRing 0 2 3).0

one_block-IsRing : IsRing 0 2 3 one_block
one_block-IsRing =
    (try_push-fifo_push 0 2 3 empty_queue (8 ∷ 9 ∷ []) no_metadata empty_queue-IsRing).0

try_push-fifo_push_example :
    IsRing 0 2 3 (try_push 0 one_block (5 ∷ []) no_metadata).1
    × ((
      (try_push 0 one_block (5 ∷ []) no_metadata).0,
      contents 0 (try_push 0 one_block (5 ∷ []) no_metadata).1,
    )
        ≡ fifo_push 0 2 3
            (contents 0 one_block)
            (record { samples = 5 ∷ []; metadata = no_metadata }))
try_push-fifo_push_example =
    try_push-fifo_push 0 2 3 one_block (5 ∷ []) no_metadata one_block-IsRing

try_pop-fifo_pop_example :
    let r = try_pop 0 one_block (0 ∷ 0 ∷ 0 ∷ []) no_metadata in
    IsRing 0 2 3 r.queue
    × ((r.taken, r.destination, r.metadata, contents 0 r.queue)
        ≡ fifo_pop 0 (contents 0 one_block) (0 ∷ 0 ∷ 0 ∷ []) no_metadata)
try_pop-fifo_pop_example =
    try_pop-fifo_pop 0 2 3 one_block (0 ∷ 0 ∷ 0 ∷ []) no_metadata one_block-IsRing
