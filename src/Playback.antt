-- ===== src/Playback.antt =====
-- openai_audio_streamer_glue.cpp, `write_frame`: one turn of the media thread that plays.
pub mod Refill
mod Window
pub mod Line
pub mod Plays
pub mod Close
pub mod Octets
use mod_openai_realtime.Base.{
  ℕ, zero, suc, ◌+◌, ◌-◌, ◌*◌, ◌/◌, ◌%◌, ◌^◌, min, Bool, true, false, not, ◌&&◌, ◌||◌, List, [],
  ◌∷◌, ◌++◌, Option, none, some, ltb, ◌==◌, if◌then◌else◌, Bytes, length, replicate,
}
use mod_openai_realtime.Services.{Platform}
use mod_openai_realtime.Queue.{AudioQueue}
use mod_openai_realtime.Pcm.{bytes_of}
use mod_openai_realtime.Streamer.{
  Streamer, pop_audio, consume_playback_clear, openai_speech_started, openai_speech_stopped,
}
use mod_openai_realtime.Private.{Private}

-- `switch_frame_t`. `audio` is what `data` holds, its first `datalen` bytes.
pub record Frame : Type 0 where
  pub audio : Bytes
  pub datalen : ℕ
  pub samples : ℕ
  pub buflen : ℕ

-- The frame that replaces a written one; its `buflen` is the same. `samples` is `none` where the source
-- divides by zero: the program traps there, and no frame is handed out.
pub record Replaced : Type 0 where
  pub audio : Bytes
  pub datalen : ℕ
  pub samples : Option ℕ

-- The division of unsigned numbers; `none` is its trap.
abbrev pub quotient : ℕ → ℕ → Option ℕ
quotient a b = if b == 0 then none else some (a / b)

-- The variables of the turn: the playback buffer, the streamer, `inuse` and `chunk_enqueued`.
pub record Turn (p : Platform) : Type 0 where
  pub buffer : p.buffer.Buffer
  pub streamer : Streamer p
  pub inuse : ℕ
  pub chunk_enqueued : Bool

module _ (p : Platform) where
  -- The clear that a barge-in asked for.
  unfoldable pub take_clear : Bool → p.buffer.Buffer → Streamer p → Turn p
  take_clear located buffer s =
      let (cleared, s') = consume_playback_clear p s in
      if cleared
      then record {
        buffer = p.buffer.zero buffer;
        streamer = if s'.openai_speaking then openai_speech_stopped p located s' else s';
        inuse = 0;
        chunk_enqueued = false;
      }
      else record {
        buffer = buffer;
        streamer = s';
        inuse = p.buffer.inuse buffer;
        chunk_enqueued = false;
      }

  -- The body of the loop behind a pop; the flag says that the loop goes on.
  unfoldable pub take_chunk : List ℕ → AudioQueue ℕ → Turn p → Bool × Turn p
  take_chunk chunk rest t =
      let popped : Streamer p = record (t.streamer) { queue = rest } in
      let (buffer, n) = p.buffer.write t.buffer (bytes_of chunk) in
      if n == 0 then (false, record t { buffer = buffer; streamer = popped }) else (
        true,
        record {
          buffer = buffer;
          streamer = popped;
          inuse = p.buffer.inuse buffer;
          chunk_enqueued = true;
        },
      )

  -- The loop that fills the playback buffer, on fuel. `wanted` is `bytes_needed * 2`.
  unfoldable pub refill : ℕ → ℕ → Turn p → Turn p
  refill zero wanted t = t
  refill (suc fuel) wanted t = elim (ltb t.inuse wanted) [
    | false ↦ t
    | true ↦ elim (pop_audio p t.streamer) [
      | none ↦ t
      | some (chunk, rest) ↦
          let (more, t') = take_chunk chunk rest t in
          elim more [ true ↦ refill fuel wanted t' | false ↦ t' ]
    ]
  ]

  -- `bytes_needed`.
  abbrev pub bytes_needed : Frame → ℕ
  bytes_needed frame = if ltb frame.buflen frame.datalen then frame.buflen else frame.datalen

  -- Nothing to play: close the speaking state at the end of a response, and the stream at the end
  -- of a connection that will not come back.
  unfoldable pub fall_silent : Bool → Bool → Private p → Turn p → Private p
  fall_silent located terminal_close tech t = record tech {
    playback_buffer = t.buffer;
    streamer = some (
        if t.streamer.openai_speaking && t.streamer.response_audio_done
        then openai_speech_stopped p located t.streamer
        else t.streamer);
    close_requested = if terminal_close then true else tech.close_requested;
  }

  -- The frame that replaces the written one, `inuse` bytes of audio padded with silence. `bytes_per_sample`
  -- is 0 for a frame of more samples than bytes.
  unfoldable pub play : Bool → ℕ → Private p → Turn p → Frame → Private p × Replaced
  play located inuse tech t frame =
      let needed = bytes_needed frame in
      let (buffer, audio) = p.buffer.read t.buffer inuse in
      (
        record tech {
          playback_buffer = buffer;
          streamer = some (
              if not t.streamer.openai_speaking
              then openai_speech_started p located t.streamer
              else t.streamer);
        },
        record {
          audio = audio ++ replicate (needed - inuse) 0;
          datalen = needed;
          samples = quotient needed (frame.datalen / frame.samples);
        },
      )

  -- From the test for an empty turn on. The frame is the one handed to
  -- `switch_core_media_bug_set_write_replace_frame`, if it is called.
  unfoldable pub finish_turn :
      Bool → Bool → Private p → Turn p → Frame → Private p × Option Replaced
  finish_turn located terminal_close tech t frame =
      let inuse = min t.inuse (bytes_needed frame) in
      if not t.chunk_enqueued && t.inuse == 0
      then (fall_silent located terminal_close tech t, none)
      else if tech.openai_audio_muted
      then (
        record tech { playback_buffer = p.buffer.toss t.buffer inuse; streamer = some t.streamer },
        none,
      )
      else let (tech', played) = play located inuse tech t frame in (tech', some played)

  -- The turn on a frame with audio and a streamer, with the 32-bit product of the loop's test.
  unfoldable pub turn : Bool → Private p → Streamer p → Frame → Private p × Option Replaced
  turn located tech s frame =
      let t = take_clear located tech.playback_buffer s in
      let terminal_close = t.streamer.terminal_close in
      let wanted = bytes_needed frame * 2 % 2 ^ 32 in
      let t' = refill (suc (length t.streamer.queue.chunks)) wanted t in
      finish_turn located terminal_close tech t' frame

  -- `none` for a frame or a codec that is not there. `located` as for the speech events.
  unfoldable pub write_frame : Bool → Private p → Option Frame → Bool → Private p × Option Replaced
  write_frame located tech none codec_ready = (tech, none)
  write_frame located tech (some frame) codec_ready =
      if tech.audio_paused || not codec_ready then (tech, none) else elim tech.streamer [
        | none ↦ (tech, none)
        | some s ↦
            if frame.samples == 0 || frame.datalen == 0
            then (tech, none)
            else turn located tech s frame
      ]
