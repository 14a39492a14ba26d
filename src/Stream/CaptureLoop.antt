-- ===== src/Stream/CaptureLoop.antt =====
-- internal/win/wasapi_stream_handle.cpp: the loop of the capture worker. The answers of the system
-- and of the callback are lists, as for the render worker; a worker that needs more of them waits.
use sonotide.Prelude.{
  ℕ, ◌+◌, String, Bool, true, false, ◌&&◌, ◌||◌, Option, none, some, List, [], ◌∷◌, ltb, ◌==◌,
  if◌then◌else◌,
}
use sonotide.Prelude.Int.{ℤ}
use sonotide.Error.{Error, ErrorCategory, ErrorCode, VoidResult, success, failure}
use sonotide.Hresult.{is_failed, map_hresult}
use sonotide.Timing.{u64, checked_audio_byte_count}
use sonotide.Stream.{Handle, make_invalid_state_error, make_callback_exception_error}
use sonotide.Stream.Worker.{count_callback, record_runtime_error}
use sonotide.Stream.RenderLoop.{
  WaitResult, stop_event, audio_event, other_wait, CallbackEnd, returned, threw, threw_unknown,
  ClientCall, get_buffer, release_buffer, Rendered, leave, before,
}

-- One packet: what `GetBuffer` hands out with its flags, how the callback ends, and what the
-- release and the question for the next packet answer.
pub record Packet : Type 0 where
  pub buffer_hr : ℤ
  pub frames : ℕ
  pub is_silent : Bool
  pub is_discontinuous : Bool
  pub callback : CallbackEnd
  pub release_hr : ℤ
  pub next_hr : ℤ
  pub next_frames : ℕ

pub record CaptureAnswer : Type 0 where
  pub wait : WaitResult
  pub size_hr : ℤ
  pub packet_frames : ℕ
  pub packets : List Packet

-- The frame size of the client, the bytes of the buffer of silence, and a field of the
-- configuration.
pub record CaptureEndpoint : Type 0 where
  pub block_align : ℕ
  pub silent_bytes : ℕ
  pub deliver_silence_on_glitch : Bool

-- What a packet does: an error ends the packets of this event, or the packet has been delivered.
pub data PacketEnd : Type 0 where
  passes : PacketEnd
  fails : Error → PacketEnd

-- The packets of one event: the handle, the calls of the client, and whether they have come to an
-- end.
pub record Packets : Type 0 where
  pub handle : Handle
  pub calls : List ClientCall
  pub is_over : Bool

abbrev capture_result : CallbackEnd → VoidResult
capture_result (returned r) = r
capture_result (threw message) =
    failure (make_callback_exception_error "capture_callback::on_capture" message)
capture_result threw_unknown = failure (
    make_callback_exception_error "capture_callback::on_capture"
      "Capture callback threw an unknown exception.")

-- The bytes that the callback is shown, silence or the packet's own, if there are so many.
abbrev shows_silence : CaptureEndpoint → Packet → Bool
shows_silence endpoint p = p.is_silent || endpoint.deliver_silence_on_glitch && p.is_discontinuous

abbrev shown_bytes : CaptureEndpoint → Packet → Option ℕ → VoidResult
shown_bytes endpoint p none = failure (
    make_invalid_state_error "capture_stream::worker" (
      if shows_silence endpoint p
      then "Capture packet exceeded the negotiated endpoint buffer capacity."
      else "Capture buffer byte count exceeds the addressable range."))
shown_bytes endpoint p (some bytes) =
    if shows_silence endpoint p && ltb endpoint.silent_bytes bytes
    then failure (
        make_invalid_state_error "capture_stream::worker"
          "Capture packet exceeded the negotiated endpoint buffer capacity.")
    else success tt

-- The counters after a packet.
abbrev count_packet : Packet → Handle → Handle
count_packet p h =
    let counted = count_callback p.frames h in
    if p.is_discontinuous
    then record counted {
      counters = record (counted.counters) {
        discontinuity_count = u64 (counted.counters.discontinuity_count + 1);
      };
    }
    else counted

module _ (is_device_lost_hresult : ℤ → Bool) where
  abbrev capture_error : String → ℤ → Error
  capture_error operation hr =
      map_hresult operation hr ErrorCategory.stream ErrorCode.stream_stop_failed
        (is_device_lost_hresult hr)

  abbrev delivered_by : VoidResult → PacketEnd
  delivered_by (success u) = passes
  delivered_by (failure e) = fails e

  -- A packet whose buffer has been taken, with the result of the check of its bytes. The buffer is
  -- given back before the callback's result is looked at.
  abbrev checked_packet : Packet → VoidResult → PacketEnd
  checked_packet p (failure e) = fails e
  checked_packet p (success u) =
      if is_failed p.release_hr
      then fails (capture_error "IAudioCaptureClient::ReleaseBuffer" p.release_hr)
      else delivered_by (capture_result p.callback)

  abbrev pub recorded : Error → Handle → Handle
  recorded e h = (record_runtime_error is_device_lost_hresult e h).0

  -- What a packet does to the handle, before the rest of the packets.
  abbrev pub after_packet : Packet → Handle → (ℕ → Handle → Packets) → PacketEnd → Packets
  after_packet p h rest (fails e) = record { handle = recorded e h; calls = []; is_over = true }
  after_packet p h rest passes =
      if is_failed p.next_hr
      then record {
        handle =
            recorded (capture_error "IAudioCaptureClient::GetNextPacketSize" p.next_hr)
              (count_packet p h);
        calls = [];
        is_over = true;
      }
      else rest p.next_frames (count_packet p h)

  abbrev pub with_buffer : ℕ → Packets → Packets
  with_buffer frames r = record r {
    calls = get_buffer frames ∷ release_buffer frames false ∷ r.calls;
  }

  -- The inner loop.
  unfoldable pub capture_packets : CaptureEndpoint → ℕ → Handle → List Packet → Packets
  capture_packets endpoint packet_frames h [] = record {
    handle = h;
    calls = [];
    is_over = packet_frames == 0;
  }
  capture_packets endpoint packet_frames h (p ∷ packets) =
      if packet_frames == 0
      then record { handle = h; calls = []; is_over = true }
      else if is_failed p.buffer_hr
      then record {
        handle = recorded (capture_error "IAudioCaptureClient::GetBuffer" p.buffer_hr) h;
        calls = [];
        is_over = true;
      }
      else with_buffer p.frames (
          after_packet p h (λ frames k. capture_packets endpoint frames k packets)
            (checked_packet p
              (shown_bytes endpoint p (checked_audio_byte_count p.frames endpoint.block_align))))

  -- The rest of the outer loop after the packets of one event.
  abbrev pub after_packets : (Handle → Rendered) → Packets → Rendered
  after_packets rest r =
      if r.is_over
      then before r.calls (rest r.handle)
      else record { handle = r.handle; frames_written = 0; calls = r.calls; left = false }

  abbrev pub capture_event :
      CaptureEndpoint → CaptureAnswer → Handle → (Handle → Rendered) → WaitResult → Rendered
  capture_event endpoint a h rest stop_event = leave h 0 []
  capture_event endpoint a h rest other_wait =
      leave
        (recorded
          (make_invalid_state_error "WaitForMultipleObjects" "Unexpected capture wait result.") h)
        0 []
  capture_event endpoint a h rest audio_event =
      if is_failed a.size_hr
      then leave (recorded (capture_error "IAudioCaptureClient::GetNextPacketSize" a.size_hr) h) 0
          []
      else after_packets rest (capture_packets endpoint a.packet_frames h a.packets)

  unfoldable pub capture_loop : CaptureEndpoint → Handle → List CaptureAnswer → Rendered
  capture_loop endpoint h [] = record { handle = h; frames_written = 0; calls = []; left = false }
  capture_loop endpoint h (a ∷ answers) =
      capture_event endpoint a h (λ k. capture_loop endpoint k answers) a.wait
