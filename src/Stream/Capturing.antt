-- ===== src/Stream/Capturing.antt =====
-- What the capture loop does to the packets, and what makes it leave.
use sonotide.Prelude.{
  ℕ, ◌≡◌, refl, Bool, true, false, ◌&&◌, ◌||◌, List, [], ◌∷◌, ◌++◌, ◌==◌, ==_refl, if_intro, arith,
}
use sonotide.Prelude.Int.{ℤ}
use sonotide.Hresult.{is_failed}
use sonotide.Stream.{Handle}
use sonotide.Stream.RenderLoop.{
  WaitResult, stop_event, audio_event, other_wait, ClientCall, get_buffer, release_buffer,
  stop_client, Rendered,
}
use sonotide.Stream.CaptureLoop.{
  Packet, CaptureAnswer, CaptureEndpoint, PacketEnd, passes, fails, Packets, after_packet,
  with_buffer, capture_packets, capture_event, capture_loop,
}

-- Every packet that is taken is given back at once and whole.
unfoldable pub is_paired : List ClientCall → Bool
is_paired [] = true
is_paired (stop_client ∷ calls) = is_paired calls
is_paired (release_buffer n silent ∷ calls) = false
is_paired (get_buffer n ∷ []) = false
is_paired (get_buffer n ∷ release_buffer m silent ∷ calls) = n == m && is_paired calls
is_paired (get_buffer n ∷ get_buffer m ∷ calls) = false
is_paired (get_buffer n ∷ stop_client ∷ calls) = false

-- Whether an answer makes the loop leave: the stop event, another wait, or a failed question for
-- the first packet of an event.
abbrev pub is_leaving : WaitResult → ℤ → Bool
is_leaving stop_event hr = true
is_leaving other_wait hr = true
is_leaving audio_event hr = is_failed hr

unfoldable pub leaves : List CaptureAnswer → Bool
leaves [] = false
leaves (a ∷ answers) = is_leaving a.wait a.size_hr || leaves answers

module _ (is_device_lost_hresult : ℤ → Bool) (endpoint : CaptureEndpoint) where
  Paired : Packets → Type 0
  Paired r = is_paired r.calls ≡ true

  after_packet-Paired :
      (p : Packet) (h : Handle) (rest : ℕ → Handle → Packets) (end : PacketEnd)
      → ((n : ℕ) (k : Handle) → Paired (rest n k))
      → Paired (
          with_buffer is_device_lost_hresult p.frames
            (after_packet is_device_lost_hresult p h rest end))
  unfolding Paired is_paired
  after_packet-Paired p h rest (fails e) ih = ground arith
  after_packet-Paired p h rest passes ih =
      if_intro (λ r. Paired (with_buffer is_device_lost_hresult p.frames r)) (is_failed p.next_hr)
        (λ _. ground arith) (λ _. rw (==_refl p.frames) (ih p.next_frames _))

  capture_packets-Paired :
      (n : ℕ) (h : Handle) (packets : List Packet)
      → Paired (capture_packets is_device_lost_hresult endpoint n h packets)
  unfolding Paired capture_packets is_paired
  capture_packets-Paired n h [] = refl
  capture_packets-Paired n h (p ∷ packets) =
      if_intro Paired (n == 0) (λ _. refl)
        (λ _.
          if_intro Paired (is_failed p.buffer_hr) (λ _. refl)
            (λ _.
              after_packet-Paired p h
                (λ m k. capture_packets is_device_lost_hresult endpoint m k packets) _
                (λ m k. capture_packets-Paired m k packets)))

  paired-append :
      (calls more : List ClientCall)
      → is_paired calls ≡ true
      → is_paired more ≡ true
      → is_paired (calls ++ more) ≡ true
  unfolding is_paired
  paired-append [] more h i = i
  paired-append (stop_client ∷ calls) more h i = paired-append calls more h i
  paired-append (release_buffer n silent ∷ calls) more h i = absurd (ground (arith, h))
  paired-append (get_buffer n ∷ []) more h i = absurd (ground (arith, h))
  paired-append (get_buffer n ∷ release_buffer m silent ∷ calls) more h i =
      let rest = paired-append calls more (ground (arith, h)) i in ground (arith, h, rest)
  paired-append (get_buffer n ∷ get_buffer m ∷ calls) more h i = absurd (ground (arith, h))
  paired-append (get_buffer n ∷ stop_client ∷ calls) more h i = absurd (ground (arith, h))

  -- A loop whose packets are paired, and which has not been left without a reason.
  Captured : Bool → Rendered → Type 0
  Captured may_leave r = (is_paired r.calls ≡ true) × (may_leave ≡ false → r.left ≡ false)

  capture_event-Captured :
      (a : CaptureAnswer) (h : Handle) (rest : Handle → Rendered) (more : Bool) (w : WaitResult)
      → ((k : Handle) → Captured more (rest k))
      → Captured
          (is_leaving w a.size_hr || more)
          (capture_event is_device_lost_hresult endpoint a h rest w)
  unfolding Captured is_paired Paired
  capture_event-Captured a h rest more stop_event ih = (refl, λ e. absurd (ground (arith, e)))
  capture_event-Captured a h rest more other_wait ih = (refl, λ e. absurd (ground (arith, e)))
  capture_event-Captured a h rest more audio_event ih =
      if_intro (Captured (is_failed a.size_hr || more)) (is_failed a.size_hr)
        (λ e. (refl, λ f. absurd (ground (arith, e, f))))
        (λ e.
          let r = capture_packets is_device_lost_hresult endpoint a.packet_frames h a.packets in
          let paired = capture_packets-Paired a.packet_frames h a.packets in
          if_intro (Captured (is_failed a.size_hr || more)) r.is_over
            (λ _. (
              paired-append r.calls (rest r.handle).calls paired (ih r.handle).0,
              λ f. (ih r.handle).1 (ground (arith, f)),
            ))
            (λ _. (paired, λ _. refl)))

  capture_loop-Captured :
      (h : Handle) (answers : List CaptureAnswer)
      → Captured (leaves answers) (capture_loop is_device_lost_hresult endpoint h answers)
  unfolding Captured capture_loop leaves is_paired
  capture_loop-Captured h [] = (refl, λ _. refl)
  capture_loop-Captured h (a ∷ answers) =
      capture_event-Captured a h (λ k. capture_loop is_device_lost_hresult endpoint k answers)
        (leaves answers) a.wait (λ k. capture_loop-Captured k answers)

  -- Where no answer is the stop event, an unexpected wait or a failed question for the first packet
  -- of an event, the capture loop gives back every packet that it takes, at once and whole, and it is
  -- never left, whatever errors a packet or the callback has recorded.
  pub capture_loop-leaves :
      (h : Handle) (answers : List CaptureAnswer)
      → leaves answers ≡ false
      → (is_paired (capture_loop is_device_lost_hresult endpoint h answers).calls ≡ true)
        × ((capture_loop is_device_lost_hresult endpoint h answers).left ≡ false)
  unfolding Captured
  capture_loop-leaves h answers e = let c = capture_loop-Captured h answers in (c.0, c.1 e)
