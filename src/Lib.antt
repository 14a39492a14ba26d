-- ===== src/Lib.antt =====
-- Sonotide: a model of the audio library's core, and what holds of it.
--
-- Sonotide plays audio through WASAPI. A playback session owns a decode worker, which fills a queue
-- of decoded blocks, and a render stream, whose audio thread calls back into the session to take
-- blocks from that queue. The stream handle under the session owns its own worker thread and a
-- lifecycle automaton. Formats are negotiated in the native WAVE form and shown in a public one.
--
-- Parts and files:
--   Error          include/sonotide/error.h and result.h: errors and `result<T>`.
--   Lifecycle      src/internal/state_machine.cpp: `stream_state_machine`. Lifecycle/Graph has the
--                  diagram as a relation.
--   Timing         src/internal/win/wasapi_stream_validation.h: 128-bit products, the conversion
--                  of the performance counter, latencies and byte counts.
--   AudioQueue     src/internal/playback/decoded_audio_queue.h: the ring of decoded blocks.
--                  AudioQueue/Ring has its invariant, AudioQueue/Refinement the bounded list.
--   Format         include/sonotide/audio_format.h, and `formats_match` of playback_session.cpp.
--   Wave           src/internal/win/wave_format_utils.cpp: detection, validation, construction;
--                  the negotiation of a shared-mode format in Wave/Negotiate.
--   Decoder        src/internal/win/media_foundation_decoder_validation.h, and `to_milliseconds`.
--   Hresult        src/internal/win/hresult_utils.cpp: `map_hresult`.
--   Media          src/internal/win/media_foundation_decoder.cpp: opening and seeking in Media/Open,
--                  `ensure_decoded_frames` in Media/Read, `read_frames` in Media/Frames, and what
--                  they do to the samples of the source in Media/Pending and Media/Stream.
--   Stream         src/internal/win/wasapi_stream_handle.cpp: `wasapi_stream_handle_base`; requests
--                  in Stream/Request, `start` and the worker in Stream/Worker, the steps of
--                  callers and worker as a relation in Stream/Invariant; the render worker in
--                  Stream/RenderStart and Stream/RenderLoop, its buffers in Stream/Rendering;
--                  the loop of the capture worker in Stream/CaptureLoop and Stream/Capturing.
--   Session        src/playback_session.cpp: the state of `playback_session::implementation`.
--                  Session/Transport has the public calls, Session/Transport/Device those about
--                  the output device, Session/Render the callback `on_render`, run as a whole in
--                  Session/Render/Taking and Session/Render/Playback, and after a round of the
--                  worker in Session/Render/Heard; Session/Worker the decode worker, its reports in Session/Worker/Reports, its slots in
--                  Session/Worker/Slots and a whole round of it in Session/Worker/Round.
--   Equalizer      include/sonotide/equalizer.h, src/equalizer.cpp and
--                  src/internal/equalizer_layout_utils.h: presets, layout and normalisation of
--                  bands; the session's edits of src/playback_session.cpp in Equalizer/Edits and
--                  Equalizer/Calls. The state fills the session's interface `EqualizerPort`.
--   Prelude        shared tests, lists and signed integers; Tests has runs and examples.
--
-- How state corresponds: each section of the code that holds a mutex is one function from the
-- state before to the state after, with the result that the code returns or a note that it waits.
-- What other threads do between two sections, or between two accesses of the callback without the
-- lock, is a step between two functions. The use of a null pointer is an outcome of its own. Pointers to pipeline
-- slots are indices. Answers of the system, of the decoder and of the audio device are arguments.
--
-- Bounds and fuel: machine words are natural numbers with the wrap-around written out, 64 bits for
-- counters and `std::size_t`. The loop of `scale_remainder` runs on 64 rounds of fuel, one for
-- each bit of the multiplier, since each round halves the distance of its bounds. The scan for a
-- free slot is structural. The loop of `ensure_decoded_frames` runs over the list of the source's
-- answers, one for each round, and a read that needs more of them than the list has is unfinished; the
-- loops of the render and capture workers run over such lists too, and wait at their end.
--
-- Parameters: the numbers of the Windows headers (`WaveSdk`), the codes of a lost device
-- (`is_device_lost_hresult`) and of a source that accepts no call (`is_not_accepting`), the greatest
-- size of a vector, the equalizer as the transport sees it (`EqualizerPort`, whose laws say what
-- setting one of its fields leaves alone), and for the equalizer itself the operations of `float`
-- (`Floats`, whose laws `IsIeee` hold of IEEE 754 arithmetic), the presets and the preamp of the
-- headroom controller.
--
-- Not modelled: the filters under src/internal/dsp and the sampled response curve, whose meaning is
-- that of rounded arithmetic; the calls of Windows in src/internal/win (device enumeration, the
-- initialization of the audio client, the start of the capture worker); the public wrappers of
-- streams and sessions; the memory order of atomics, since each access is one step; the runtime
-- facade, examples and packaging.
pub mod Prelude
pub mod Error
pub mod Lifecycle
pub mod Timing
pub mod AudioQueue
pub mod Format
pub mod Wave
pub mod Decoder
pub mod Hresult
pub mod Media
pub mod Stream
pub mod Session
pub mod Equalizer
pub mod Tests
