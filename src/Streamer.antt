-- ===== src/Streamer.antt =====
-- openai_audio_streamer_glue.cpp, class AudioStreamer: its state, and the operations that the two
-- media callbacks and the WebSocket thread share. Each atomic or mutex-guarded call is one step.
pub mod Sending
use mod_openai_realtime.Base.{
  ℕ, ◌+◌, ◌%◌, ◌^◌, Bool, true, false, ◌&&◌, List, [], ◌∷◌, ◌++◌, Option, none, some, ◌==◌,
  if◌then◌else◌, Bytes, codes,
}
use mod_openai_realtime.Services.{Platform}
use mod_openai_realtime.Queue.{
  AudioQueue, max_playback_queue_samples, push_audio_queue, pop_audio_queue, clear_audio_queue,
}
use mod_openai_realtime.Pcm.{Converter, convert_raw_audio}

-- The names of mod_openai_audio_stream.h; the `json` body is `none` when it is null.
pub data EventName : Type 0 where
  connect disconnect error json play openai_speech_start openai_speech_stop : EventName

pub record Event : Type 0 where
  pub name : EventName
  pub body : Option Bytes

pub record Streamer (p : Platform) : Type 0 where
  pub converter : Converter p.speex.State
  pub open converter use *
  pub socket : p.socket.State
  pub queue : AudioQueue ℕ
  pub playback_clear_gen : ℕ
  pub playback_clear_gen_seen : ℕ
  pub suppress_log : Bool
  pub disable_audiofiles : Bool
  pub raw_audio_mode : Bool
  pub openai_speaking : Bool
  pub response_audio_done : Bool
  pub terminal_close : Bool
  pub send_failure_logged : Bool
  pub capture_reset_pending : Bool
  pub started : Bool
  pub play_file : ℕ
  pub files : List Bytes
  -- The debug files that were created on the disk, with what was written to them.
  pub on_disk : List (Bytes × Bytes)
  -- What `m_notify` was called with, and the audio that the WebSocket client accepted, in order.
  pub events : List Event
  pub sent_audio : List Bytes

module _ (p : Platform) where
  unfoldable pub is_connected : Streamer p → Bool
  is_connected s = p.socket.is_open s.socket

  unfoldable pub notify : EventName → Option Bytes → Streamer p → Streamer p
  notify name body s = record s { events = s.events ++ record { name = name; body = body } ∷ [] }

  unfoldable pub queue_limit : Streamer p → ℕ
  queue_limit s = max_playback_queue_samples s.converter.out_sample_rate

  unfoldable pub push_audio : List ℕ → Streamer p → Streamer p
  push_audio audio s = record s { queue = push_audio_queue (queue_limit s) audio s.queue }

  unfoldable pub pop_audio : Streamer p → Option (List ℕ × AudioQueue ℕ)
  pop_audio s = pop_audio_queue (queue_limit s) s.queue

  unfoldable pub clear_audio : Streamer p → Streamer p
  clear_audio s = record s { queue = clear_audio_queue s.queue }

  unfoldable pub convert : Bytes → Streamer p → Streamer p × List ℕ
  convert input s =
      let (c, out) = convert_raw_audio p.speex s.converter input in
      (record s { converter = c }, out)

  -- `fetch_add` on a 64-bit generation.
  unfoldable pub request_playback_clear : Streamer p → Streamer p
  request_playback_clear s = record s { playback_clear_gen = (s.playback_clear_gen + 1) % 2 ^ 64 }

  unfoldable pub consume_playback_clear : Streamer p → Bool × Streamer p
  consume_playback_clear s =
      if s.playback_clear_gen == s.playback_clear_gen_seen
      then (false, s)
      else (true, record s { playback_clear_gen_seen = s.playback_clear_gen })

  unfoldable pub request_capture_reset : Streamer p → Streamer p
  request_capture_reset s = record s { capture_reset_pending = true }

  unfoldable pub consume_capture_reset : Streamer p → Bool × Streamer p
  consume_capture_reset s = (s.capture_reset_pending, record s { capture_reset_pending = false })

  -- `located` says that the session is still found under its id.
  unfoldable pub openai_speech_started : Bool → Streamer p → Streamer p
  unfolding notify
  openai_speech_started located s =
      let s' = record s { openai_speaking = true } in
      if located
      then notify openai_speech_start (some (codes "{\"status\":\"started\"}")) s'
      else s'

  unfoldable pub openai_speech_stopped : Bool → Streamer p → Streamer p
  unfolding notify
  openai_speech_stopped located s =
      let s' = record s { openai_speaking = false } in
      if located then notify openai_speech_stop (some (codes "{\"status\":\"stopped\"}")) s' else s'
