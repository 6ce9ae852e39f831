-- ===== src/Private.antt =====
-- mod_openai_audio_stream.h, `private_t`: what one session keeps. A pointer that may be null is an
-- `Option`; the atomic flags are Booleans, since the code writes only 0 and 1. The
-- mutex, both buffers and the stream buffers are there in every session that `stream_data_init`
-- completed, and no other is published, so their null checks are left out.
use mod_openai_realtime.Base.{ℕ, Bool, Option, Bytes}
use mod_openai_realtime.Services.{Platform}
use mod_openai_realtime.Streamer.{Streamer}

pub record Private (p : Platform) : Type 0 where
  pub session_id : Bytes
  pub resampler : Option p.speex.State
  pub streamer : Option (Streamer p)
  pub sampling : ℕ
  pub channels : ℕ
  pub audio_paused : Bool
  pub user_audio_muted : Bool
  pub openai_audio_muted : Bool
  pub close_requested : Bool
  pub sbuffer : p.buffer.Buffer
  pub rtp_packets : ℕ
  pub playback_buffer : p.buffer.Buffer
