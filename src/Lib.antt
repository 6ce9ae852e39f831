-- ===== src/Lib.antt =====
-- mod_openai_realtime: a FreeSWITCH module that streams the audio of a call to a WebSocket server
-- (the OpenAI realtime API) and plays the audio that comes back.
--
-- The program. `stream_protocol.cpp` holds the checks on untrusted text: the URI of the server, UTF-8,
-- the nesting of JSON, the type of a message. `openai_audio_streamer_glue.cpp` holds the class
-- AudioStreamer, which one session owns: a WebSocket thread runs its message callback, which decodes
-- audio into the playback queue; the media thread runs `write_frame`, which plays the queue through a
-- playback buffer, and `stream_frame`, which sends what the caller says, at once or aggregated in
-- `sbuffer`; the API's calls mute, pause, and send JSON. `mod_openai_audio_stream.c` parses the command,
-- starts a session on a channel by a media bug, and hands the bug's callbacks on; a lock for each
-- session, kept in a registry, orders the commands, the start and the cleanup.
--
-- The files.
-- - Base and its modules: helpers on numbers, lists, options and bytes; no code.
-- - Services: the libraries outside the repository, and the vendored base64, as interfaces.
-- - Protocol/Depth, Utf8, Uri, Classify: one function of stream_protocol.cpp each, by its name; a loop
--   over a pointer is a recursion over the bytes from the pointer on. Protocol/Json is the grammar
--   that the nesting is measured by.
-- - Queue: `push_audio_queue`, `pop_audio_queue` and `clear_audio_queue`.
-- - Pcm: `convertRawAudio`, as `convert_raw_audio`.
-- - Streamer and Streamer/Sending: the state of AudioStreamer, a record, and its small operations.
-- - Private: `private_t` of mod_openai_audio_stream.h.
-- - Playback: `write_frame`; its division by the bytes for a sample can trap, which is a result `none`.
-- - Capture: `stream_frame` and `flush_capture_residue`.
-- - Message: the callback of the constructor, `eventCallback` and `processMessage`; Message/Files the
--   debug audio files.
-- - Session: the API's calls on a running session, and the flush in `stream_session_cleanup`.
--   Session/Run: one step of a session, of any of its threads, and what each step keeps; sequences of
--   them around a muting. Session/Wire: the messages of a stop, in their order.
-- - Numeral: `strtol` of the C library, as the rates and two channel variables are read by it.
-- - Setup: the constructor of AudioStreamer and `stream_data_init`; Setup/Init `stream_session_init`;
--   Setup/Authorization says what the headers need of cJSON.
-- - Lifecycle: `start_capture` and `capture_callback` of mod_openai_audio_stream.c, and what they call
--   in openai_audio_streamer_glue.cpp: `start`, `disconnect`, `deleteFiles`, `finish`,
--   `destroy_tech_pvt`, `stream_session_start`, `stream_session_release`, `stream_session_cleanup`. The
--   channel is a record with the context behind its media bug, the contexts that were destroyed and a
--   count of those that were created.
-- - Command: `stream_api_execute` and its helpers, from the separated words on; Command/Life: a channel
--   that gets commands, callbacks and messages in any order; its modules say what holds of it for any
--   invariant of the streamer (Message/Keeps and Session/Run/Invariant say what an invariant is).
-- - Race: `write_frame` against the WebSocket thread, a step for each access of the streamer that they
--   share.
-- - Module: `mod_openai_audio_stream_load` and `mod_openai_audio_stream_shutdown`, the two API functions
--   and `responseHandler`.
-- - Lock: `acquire_lifecycle_lock` and `release_lifecycle_lock`, as a step relation of threads.
-- - Tests: a concrete platform, and the theorems at concrete inputs.
--
-- How state is modelled. An operation takes the state and returns the new one. Threads are sequences
-- of steps: what a mutex or an atomic guards is one step, and a turn of `write_frame` runs as one step,
-- but for Race, where the WebSocket thread may come between any two accesses of a turn. A turn of
-- `stream_frame` has two steps, the test of its flags and what is behind the mutex; in Command/Life the
-- second one comes with any outcome of the first. Bytes are numbers; a C string is the list of its
-- bytes without the NUL, and a null pointer is `none`. Texts for the log are left out. The 32-bit and 64-bit products that can wrap
-- are written with their remainder; sizes of memory are not bounded.
--
-- Fuel. The loop of `write_frame` has one unit for each queued chunk and one more, that of
-- `push_audio_queue` one for each chunk to be made, that of `send_or_buffer_audio` one for each byte:
-- the theorems that their results are right hold with this fuel, so it is enough. The resampling loop
-- of `stream_frame` has two units for each sample of the frame and two more; two are enough for a
-- resampler that paces its output by its rates (Capture/Ends).
--
-- Not modelled: base64.cpp, which is another project's. FreeSWITCH's registry of events is a parameter of
-- Module, and an event counts as fired when it is handed to FreeSWITCH. Of a command, its separation into
-- words is FreeSWITCH's, and the text of its syntax is left out; of the media bug's flags, only the
-- number of channels matters here. A failed allocation that makes `acquire_lifecycle_lock` give no
-- handle is an input of the command and of each cleanup. The API's calls do not come between the
-- accesses of Race.
mod Base
mod Services
pub mod Protocol
pub mod Numeral
pub mod Queue
pub mod Pcm
pub mod Streamer
pub mod Private
pub mod Playback
pub mod Capture
pub mod Message
pub mod Session
pub mod Setup
pub mod Lifecycle
pub mod Command
pub mod Lock
pub mod Module
pub mod Race
mod Tests
