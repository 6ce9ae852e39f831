-- ===== src/Message/Barge.antt =====
-- `processMessage` and `write_frame` together: a barge-in.
use mod_openai_realtime.Base.{
  ◌+◌, ◌%◌, ◌^◌, ◌≤◌, ◌<◌, ◌≡◌, refl, ap, ◌∙◌, Bool, true, false, [], none, some, arith, ◌==◌, pos,
  Bytes, codes, All, drop-nil, drop,
}
use mod_openai_realtime.Services.{Platform}
use mod_openai_realtime.Protocol.Depth.{json_depth_exceeded}
use mod_openai_realtime.Protocol.Classify.{classify_json_message, speech_started}
use mod_openai_realtime.Queue.{max_audio_chunk_samples, clear_audio_queue}
use mod_openai_realtime.Queue.Chunks.{IsShort}
use mod_openai_realtime.Queue.Refine.{pop_all_lem}
use mod_openai_realtime.Pcm.{bytes_of}
use mod_openai_realtime.Streamer.{Streamer, clear_audio, request_playback_clear}
use mod_openai_realtime.Private.{Private}
use mod_openai_realtime.Playback.{Frame, write_frame, bytes_needed}
use mod_openai_realtime.Playback.Line.{session_line, replacement}
use mod_openai_realtime.Playback.Plays.{CanPlay, audible, write_frame-plays}
use mod_openai_realtime.Message.{process_message, process_type, max_json_depth}
use mod_openai_realtime.Message.Files.{Env}

module _ (p : Platform) where
  -- The message is one that OpenAI sends when the user starts to speak.
  pub record IsBargeIn (message : Bytes) (value : p.json.Value) (type : Bytes) : Type 0 where
    pub shallow : json_depth_exceeded (some message) (pos max_json_depth) ≡ false
    pub parsed : p.json.parse message ≡ some value
    pub typed : p.json.get_cstr value (codes "type") ≡ some type
    pub started : classify_json_message (some type) ≡ speech_started

  cleared-audible :
      (tech : Private p) (s : Streamer p)
      → s.playback_clear_gen_seen ≤ s.playback_clear_gen
      → s.playback_clear_gen + 1 < 2 ^ 64
      → let s' = request_playback_clear p (clear_audio p s) in
        audible p (record tech { streamer = some s' }) s' ≡ []
  unfolding request_playback_clear clear_audio clear_audio_queue bytes_of
  cleared-audible tech s fresh small =
      let pending : ((s.playback_clear_gen + 1) % 2 ^ 64 == s.playback_clear_gen_seen) ≡ false =
        ground arith in
      rw (pending, pop_all_lem s.queue.chunks) refl

  process_message-clears :
      (env : Env) (message : Bytes) (value : p.json.Value) (type : Bytes) (s : Streamer p)
      → IsBargeIn message value type
      → (process_message p env message s).0 ≡ request_playback_clear p (clear_audio p s)
  unfolding process_message process_type
  process_message-clears env message value type s m =
      rw (m.shallow, m.parsed, m.typed, m.started) refl

  cleared-IsShort :
      (s : Streamer p)
      → let s' = request_playback_clear p (clear_audio p s) in
        All (IsShort max_audio_chunk_samples) s'.queue.chunks
  unfolding request_playback_clear clear_audio clear_audio_queue
  cleared-IsShort s = rw (pop_all_lem s.queue.chunks) tt

  silenced :
      (located : Bool) (tech : Private p) (s : Streamer p) (frame : Frame)
      → CanPlay p (record tech { streamer = some s }) s frame
      → audible p (record tech { streamer = some s }) s ≡ []
      → let r = write_frame p located (record tech { streamer = some s }) (some frame) true in
        (session_line p r.0 ≡ []) × (r.1 ≡ none)
  silenced located tech s frame c empty =
      let r = write_frame-plays p located (record tech { streamer = some s }) s frame c in
      (
        r.0 ∙ ap (drop (bytes_needed p frame)) empty ∙ drop-nil (bytes_needed p frame),
        r.1 ∙ ap (λ a. replacement p tech.openai_audio_muted a frame) empty,
      )

  -- On a session that can play, when OpenAI reports that the user started to speak (a message that is
  -- not nested too deeply, parses, and has the type of a barge-in): the next turn of `write_frame`
  -- plays nothing and leaves nothing to be played, whatever the playback buffer and the queue held.
  -- The condition on the two generations is that 2 ^ 64 clears have not been asked for.
  pub process_message-silences :
      (env : Env) (message : Bytes) (value : p.json.Value) (type : Bytes) (located : Bool)
      (tech : Private p) (s : Streamer p) (frame : Frame)
      → CanPlay p tech s frame
      → IsBargeIn message value type
      → s.playback_clear_gen_seen ≤ s.playback_clear_gen
      → s.playback_clear_gen + 1 < 2 ^ 64
      → let s' = (process_message p env message s).0 in
        let r = write_frame p located (record tech { streamer = some s' }) (some frame) true in
        (session_line p r.0 ≡ []) × (r.1 ≡ none)
  process_message-silences env message value type located tech s frame c m fresh small =
      rw (process_message-clears env message value type s m) (
        silenced located tech (request_playback_clear p (clear_audio p s)) frame
          (record {
            has_streamer = refl;
            not_paused = c.not_paused;
            has_samples = c.has_samples;
            has_data = c.has_data;
            has_room = c.has_room;
            small = c.small;
            room = c.room;
            short = cleared-IsShort s;
          })
          (cleared-audible tech s fresh small))
