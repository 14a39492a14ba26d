-- ===== src/Stream/Rendering.antt =====
-- What the render loop does to the endpoint's buffer and to the counters.
use sonotide.Prelude.{
  ℕ, ◌+◌, ◌-◌, ◌≤◌, ◌<◌, ◌≡◌, ◌⊎◌, inl, inr, refl, ◌∙◌, Bool, true, false, ◌&&◌, Option, none, some,
  List, [], ◌∷◌, ltb, leb, ◌==◌, if_intro, arith,
}
use sonotide.Prelude.Int.{ℤ}
use sonotide.Error.{Error, VoidResult, success, failure}
use sonotide.Hresult.{is_failed}
use sonotide.Timing.{u64, checked_audio_byte_count}
use sonotide.Stream.{Handle}
use sonotide.Stream.Worker.{count_callback, record_runtime_error}
use sonotide.Stream.RenderLoop.{
  WaitResult, stop_event, audio_event, other_wait, RenderAnswer, Endpoint, ClientCall, get_buffer,
  release_buffer, stop_client, RoundEnd, idles, breaks, writes, fails, Rendered, leave, before,
  released, filled, write_frames, write_round, wait_round, after_round, render_loop,
}

-- Every buffer that is taken, of at least one frame and at most `most`, is given back at once and
-- whole, and nothing follows the stop of the client.
unfoldable pub is_balanced : ℕ → List ClientCall → Bool
is_balanced most [] = true
is_balanced most (stop_client ∷ []) = true
is_balanced most (stop_client ∷ c ∷ calls) = false
is_balanced most (release_buffer n silent ∷ calls) = false
is_balanced most (get_buffer n ∷ []) = false
is_balanced most (get_buffer n ∷ release_buffer m silent ∷ calls) =
    n == m && (ltb 0 n && (leb n most && is_balanced most calls))
is_balanced most (get_buffer n ∷ get_buffer m ∷ calls) = false
is_balanced most (get_buffer n ∷ stop_client ∷ calls) = false

-- Whether the client has been stopped.
unfoldable pub is_stopped : List ClientCall → Bool
is_stopped [] = false
is_stopped (stop_client ∷ calls) = true
is_stopped (get_buffer n ∷ calls) = is_stopped calls
is_stopped (release_buffer n silent ∷ calls) = is_stopped calls

-- The frames that were given back with sound.
unfoldable pub audible : List ClientCall → ℕ
audible [] = 0
audible (stop_client ∷ calls) = audible calls
audible (get_buffer n ∷ calls) = audible calls
audible (release_buffer n true ∷ calls) = audible calls
audible (release_buffer n false ∷ calls) = n + audible calls

-- A loop that starts with the handle `h` and `n` frames written.
pub record IsRendered (most : ℕ) (h : Handle) (n : ℕ) (r : Rendered) : Type 0 where
  pub balanced : is_balanced most r.calls ≡ true
  pub stopped : is_stopped r.calls ≡ r.left
  pub frames : ℕ
  pub played : frames ≤ audible r.calls
  pub written : u64 r.frames_written ≡ u64 (n + frames)
  pub processed :
      u64 r.handle.counters.frames_processed ≡ u64 (h.counters.frames_processed + frames)

-- The calls of a round: none, or one buffer taken and given back, with sound where it has been
-- written.
IsRound : ℕ → List ClientCall → RoundEnd → Type 0
IsRound most calls (writes k) =
    (calls ≡ get_buffer k ∷ release_buffer k false ∷ []) × (0 < k) × (k ≤ most)
IsRound most calls _ =
    (calls ≡ [])
    ⊎ ((k : ℕ) × (silent : Bool) × (calls ≡ get_buffer k ∷ release_buffer k silent ∷ [])
        × (0 < k)
        × (k ≤ most))

RoundIs : ℕ → List ClientCall × RoundEnd → Type 0
RoundIs most (calls, end) = IsRound most calls end

module _ (is_device_lost_hresult : ℤ → Bool) (endpoint : Endpoint) where
  abbrev most : ℕ
  most = endpoint.buffer_frame_count

  released-RoundIs :
      (k : ℕ) (a : RenderAnswer) (r : VoidResult)
      → 0 < k
      → k ≤ most
      → RoundIs most (released is_device_lost_hresult k a r)
  unfolding RoundIs IsRound
  released-RoundIs k a (failure e) low high = inr (k, true, refl, low, high)
  released-RoundIs k a (success u) low high =
      if_intro (IsRound most (get_buffer k ∷ release_buffer k false ∷ [])) (is_failed a.release_hr)
        (λ _. inr (k, false, refl, low, high)) (λ _. (refl, low, high))

  filled-RoundIs :
      (k : ℕ) (a : RenderAnswer) (o : Option ℕ)
      → 0 < k
      → k ≤ most
      → RoundIs most (filled is_device_lost_hresult k a o)
  unfolding RoundIs IsRound
  filled-RoundIs k a none low high = inr (k, true, refl, low, high)
  filled-RoundIs k a (some bytes) low high = released-RoundIs k a _ low high

  write_frames-RoundIs :
      (k : ℕ) (a : RenderAnswer)
      → k ≤ most
      → RoundIs most (write_frames is_device_lost_hresult endpoint k a)
  unfolding write_frames RoundIs IsRound
  write_frames-RoundIs k a high =
      if_intro (RoundIs most) (k == 0) (λ _. inl refl)
        (λ e.
          if_intro (RoundIs most) (is_failed a.buffer_hr) (λ _. inl refl)
            (λ _.
              filled-RoundIs k a (checked_audio_byte_count k endpoint.block_align)
                (ground (arith, e)) high))

  write_round-RoundIs :
      (a : RenderAnswer) → RoundIs most (write_round is_device_lost_hresult endpoint a)
  unfolding write_round RoundIs IsRound
  write_round-RoundIs a =
      if_intro (RoundIs most) (is_failed a.padding_hr) (λ _. inl refl)
        (λ _.
          if_intro (RoundIs most) (ltb most a.padding) (λ _. inl refl)
            (λ _. write_frames-RoundIs (most - a.padding) a (omega arith)))

  wait_round-RoundIs :
      (a : RenderAnswer) (w : WaitResult)
      → RoundIs most (wait_round is_device_lost_hresult endpoint a w)
  unfolding RoundIs IsRound
  wait_round-RoundIs a stop_event = inl refl
  wait_round-RoundIs a audio_event = write_round-RoundIs a
  wait_round-RoundIs a other_wait = inl refl

-- A buffer taken and given back whole leaves the balance to what follows.
balanced-buffer :
    (most k : ℕ) (silent : Bool) (calls : List ClientCall)
    → 0 < k
    → k ≤ most
    → is_balanced most calls ≡ true
    → is_balanced most (get_buffer k ∷ release_buffer k silent ∷ calls) ≡ true
unfolding is_balanced
balanced-buffer most k silent calls low high h = ground (arith, low, high, h)

-- Calls of a round that writes nothing, before the rest of the loop.
before-IsRendered :
    (most : ℕ) (h : Handle) (n : ℕ) (calls : List ClientCall) (r : Rendered)
    → (calls ≡ [])
      ⊎ ((k : ℕ) × (silent : Bool) × (calls ≡ get_buffer k ∷ release_buffer k silent ∷ [])
          × (0 < k)
          × (k ≤ most))
    → IsRendered most h n r
    → IsRendered most h n (before calls r)
unfolding is_stopped audible
before-IsRendered most h n calls r (inl e) i = rw e (record {
  balanced = i.balanced;
  stopped = i.stopped;
  frames = i.frames;
  played = i.played;
  written = i.written;
  processed = i.processed;
})
before-IsRendered most h n calls r (inr (k, true, e, low, high)) i = rw e (record {
  balanced = balanced-buffer most k true r.calls low high i.balanced;
  stopped = i.stopped;
  frames = i.frames;
  played = i.played;
  written = i.written;
  processed = i.processed;
})
before-IsRendered most h n calls r (inr (k, false, e, low, high)) i = rw e (record {
  balanced = balanced-buffer most k false r.calls low high i.balanced;
  stopped = i.stopped;
  frames = i.frames;
  played = omega (arith, i.played);
  written = i.written;
  processed = i.processed;
})

-- The loop is left at once.
stopped-IsRendered :
    (most : ℕ) (h k : Handle) (n : ℕ) → k.counters ≡ h.counters → IsRendered most h n (leave k n [])
unfolding is_balanced is_stopped audible
stopped-IsRendered most h k n e = record {
  balanced = refl;
  stopped = refl;
  frames = 0;
  played = omega arith;
  written = ground arith;
  processed = rw e (ground arith);
}

u64_add : (n k f : ℕ) → u64 (u64 (n + k) + f) ≡ u64 (n + (k + f))
u64_add n k f = omega arith

-- A buffer of sound before the rest of the loop.
written-IsRendered :
    (most : ℕ) (h : Handle) (n k : ℕ) (r : Rendered)
    → 0 < k
    → k ≤ most
    → IsRendered most (count_callback k h) (u64 (n + k)) r
    → IsRendered most h n (before (get_buffer k ∷ release_buffer k false ∷ []) r)
unfolding is_stopped audible count_callback
written-IsRendered most h n k r low high i = record {
  balanced = balanced-buffer most k false r.calls low high i.balanced;
  stopped = i.stopped;
  frames = k + i.frames;
  played = omega (arith, i.played);
  written = i.written ∙ u64_add n k i.frames;
  processed = i.processed ∙ u64_add h.counters.frames_processed k i.frames;
}

module _ (is_device_lost_hresult : ℤ → Bool) where
  record_runtime_error-counters :
      (x : Error) (h : Handle)
      → (record_runtime_error is_device_lost_hresult x h).0.counters ≡ h.counters
  unfolding record_runtime_error
  record_runtime_error-counters x h = ground arith

  after_round-IsRendered :
      (most : ℕ) (h : Handle) (n : ℕ) (rest : Handle → ℕ → Rendered) (calls : List ClientCall)
      (end : RoundEnd)
      → RoundIs most (calls, end)
      → ((k : Handle) (m : ℕ) → IsRendered most k m (rest k m))
      → IsRendered most h n (after_round is_device_lost_hresult h n rest (calls, end))
  unfolding RoundIs IsRound
  after_round-IsRendered most h n rest calls idles r ih =
      before-IsRendered most h n calls (rest h n) r (ih h n)
  after_round-IsRendered most h n rest calls breaks r ih =
      before-IsRendered most h n calls (leave h n []) r (stopped-IsRendered most h h n refl)
  after_round-IsRendered most h n rest calls (fails x) r ih =
      let k = (record_runtime_error is_device_lost_hresult x h).0 in
      before-IsRendered most h n calls (leave k n []) r
        (stopped-IsRendered most h k n (record_runtime_error-counters x h))
  after_round-IsRendered most h n rest calls (writes k) (e, low, high) ih = rw e (
      written-IsRendered most h n k (rest (count_callback k h) (u64 (n + k))) low high
        (ih (count_callback k h) (u64 (n + k))))

  -- Each buffer of the endpoint that the render loop takes has at least one frame and at most the
  -- endpoint's number, and is given back whole before the next call of the client; the client is
  -- stopped exactly when the loop is left, and last. The frame position of the callbacks and the
  -- counter of processed frames move on, modulo 2^64, by the same number of frames, and by no more
  -- than were given back with sound.
  pub render_loop-IsRendered :
      (endpoint : Endpoint) (h : Handle) (n : ℕ) (answers : List RenderAnswer)
      → IsRendered endpoint.buffer_frame_count h n
          (render_loop is_device_lost_hresult endpoint h n answers)
  unfolding render_loop is_balanced is_stopped audible
  render_loop-IsRendered endpoint h n [] = record {
    balanced = refl;
    stopped = refl;
    frames = 0;
    played = omega arith;
    written = ground arith;
    processed = ground arith;
  }
  render_loop-IsRendered endpoint h n (a ∷ answers) =
      after_round-IsRendered endpoint.buffer_frame_count h n
        (λ k m. render_loop is_device_lost_hresult endpoint k m answers)
        (wait_round is_device_lost_hresult endpoint a a.wait).0
        (wait_round is_device_lost_hresult endpoint a a.wait).1
        (wait_round-RoundIs is_device_lost_hresult endpoint a a.wait)
        (λ k m. render_loop-IsRendered endpoint k m answers)
