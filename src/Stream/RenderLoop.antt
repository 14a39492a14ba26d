-- ===== src/Stream/RenderLoop.antt =====
-- internal/win/wasapi_stream_handle.cpp: the loop of the render worker, from its first wait on. The
-- answers of the system and of the callback are a list, one for each round; a loop that needs more
-- of them is still waiting.
use sonotide.Prelude.{
  ℕ, ◌+◌, ◌-◌, String, Bool, true, false, Option, none, some, List, [], ◌∷◌, ◌++◌, ltb, ◌==◌,
  if◌then◌else◌,
}
use sonotide.Prelude.Int.{ℤ}
use sonotide.Error.{Error, ErrorCategory, ErrorCode, VoidResult, success, failure}
use sonotide.Hresult.{is_failed, map_hresult}
use sonotide.Timing.{u64, checked_audio_byte_count}
use sonotide.Stream.{Handle, make_invalid_state_error, make_callback_exception_error}
use sonotide.Stream.Worker.{count_callback, record_runtime_error}

-- What `WaitForMultipleObjects` returns: the event of the stop, that of the client, or another.
pub data WaitResult : Type 0 where
  stop_event audio_event other_wait : WaitResult

-- How the callback ends: it returns, it throws a known exception, or it throws another.
pub data CallbackEnd : Type 0 where
  returned : VoidResult → CallbackEnd
  threw : String → CallbackEnd
  threw_unknown : CallbackEnd

pub record RenderAnswer : Type 0 where
  pub wait : WaitResult
  pub padding_hr : ℤ
  pub padding : ℕ
  pub buffer_hr : ℤ
  pub callback : CallbackEnd
  pub release_hr : ℤ

-- The client's buffer size, and the bytes of one of its frames.
pub record Endpoint : Type 0 where
  pub buffer_frame_count : ℕ
  pub block_align : ℕ

-- The calls that move the endpoint's buffer: a release says whether the frames are silent.
pub data ClientCall : Type 0 where
  get_buffer : ℕ → ClientCall
  release_buffer : ℕ → Bool → ClientCall
  stop_client : ClientCall

-- How a round ends: nothing to write, some frames written, the stop event, or an error.
pub data RoundEnd : Type 0 where
  idles breaks : RoundEnd
  writes : ℕ → RoundEnd
  fails : Error → RoundEnd

-- The loop's result: the handle, the frames written, the calls of the client, and whether the
-- loop has been left.
pub record Rendered : Type 0 where
  pub handle : Handle
  pub frames_written : ℕ
  pub calls : List ClientCall
  pub left : Bool

abbrev pub leave : Handle → ℕ → List ClientCall → Rendered
leave h frames_written calls = record {
  handle = h;
  frames_written = frames_written;
  calls = calls ++ stop_client ∷ [];
  left = true;
}

abbrev pub before : List ClientCall → Rendered → Rendered
before calls r = record r { calls = calls ++ r.calls }

module _ (is_device_lost_hresult : ℤ → Bool) where
  abbrev client_error : String → ℤ → Error
  client_error operation hr =
      map_hresult operation hr ErrorCategory.stream ErrorCode.stream_stop_failed
        (is_device_lost_hresult hr)

  abbrev callback_result : CallbackEnd → VoidResult
  callback_result (returned r) = r
  callback_result (threw message) =
      failure (make_callback_exception_error "render_callback::on_render" message)
  callback_result threw_unknown = failure (
      make_callback_exception_error "render_callback::on_render"
        "Render callback threw an unknown exception.")

  -- After the callback.
  abbrev pub released : ℕ → RenderAnswer → VoidResult → List ClientCall × RoundEnd
  released frames a (failure e) = (get_buffer frames ∷ release_buffer frames true ∷ [], fails e)
  released frames a (success u) = (
    get_buffer frames ∷ release_buffer frames false ∷ [],
    if is_failed a.release_hr
        then fails (client_error "IAudioRenderClient::ReleaseBuffer" a.release_hr)
        else writes frames,
  )

  abbrev pub filled : ℕ → RenderAnswer → Option ℕ → List ClientCall × RoundEnd
  filled frames a none = (
    get_buffer frames ∷ release_buffer frames true ∷ [],
    fails (
        make_invalid_state_error "render_stream::worker"
          "Render buffer byte count exceeds the addressable range."),
  )
  filled frames a (some bytes) = released frames a (callback_result a.callback)

  -- With some frames free. A `GetBuffer` that fails hands out no buffer.
  unfoldable pub write_frames : Endpoint → ℕ → RenderAnswer → List ClientCall × RoundEnd
  write_frames endpoint frames a =
      if frames == 0
      then ([], idles)
      else if is_failed a.buffer_hr
      then ([], fails (client_error "IAudioRenderClient::GetBuffer" a.buffer_hr))
      else filled frames a (checked_audio_byte_count frames endpoint.block_align)

  unfoldable pub write_round : Endpoint → RenderAnswer → List ClientCall × RoundEnd
  write_round endpoint a =
      if is_failed a.padding_hr
      then ([], fails (client_error "IAudioClient::GetCurrentPadding" a.padding_hr))
      else if ltb endpoint.buffer_frame_count a.padding
      then (
        [],
        fails (
            make_invalid_state_error "IAudioClient::GetCurrentPadding"
              "WASAPI reported padding larger than the endpoint buffer."),
      )
      else write_frames endpoint (endpoint.buffer_frame_count - a.padding) a

  abbrev pub wait_round : Endpoint → RenderAnswer → WaitResult → List ClientCall × RoundEnd
  wait_round endpoint a stop_event = ([], breaks)
  wait_round endpoint a audio_event = write_round endpoint a
  wait_round endpoint a other_wait = (
    [],
    fails (make_invalid_state_error "WaitForMultipleObjects" "Unexpected render wait result."),
  )

  -- What a round does to the handle and to the frames written, before the rest of the loop.
  abbrev pub after_round :
      Handle → ℕ → (Handle → ℕ → Rendered) → List ClientCall × RoundEnd → Rendered
  after_round h frames_written rest (calls, idles) = before calls (rest h frames_written)
  after_round h frames_written rest (calls, breaks) = leave h frames_written calls
  after_round h frames_written rest (calls, writes frames) =
      before calls (rest (count_callback frames h) (u64 (frames_written + frames)))
  after_round h frames_written rest (calls, fails e) =
      leave (record_runtime_error is_device_lost_hresult e h).0 frames_written calls

  unfoldable pub render_loop : Endpoint → Handle → ℕ → List RenderAnswer → Rendered
  render_loop endpoint h frames_written [] = record {
    handle = h;
    frames_written = frames_written;
    calls = [];
    left = false;
  }
  render_loop endpoint h frames_written (a ∷ answers) =
      after_round h frames_written (λ k n. render_loop endpoint k n answers)
        (wait_round endpoint a a.wait)
