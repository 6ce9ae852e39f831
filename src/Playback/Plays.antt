-- ===== src/Playback/Plays.antt =====
-- `write_frame` against what it is for: play the next audio of the session, and no other.
use mod_openai_realtime.Base.{
  ℕ, suc, ◌+◌, ◌*◌, ◌%◌, ◌^◌, ◌≤◌, ◌<◌, ◌≡◌, refl, sym, ap, subst, ◌∙◌, inl, inr, Bool, true, false,
  not, ◌||◌, [], ◌++◌, some, arith, ◌==◌, if◌then◌else◌, Bool-cases, Bytes, length, drop, flatten,
  All,
}
use mod_openai_realtime.Services.{Platform}
use mod_openai_realtime.Queue.{max_audio_chunk_samples}
use mod_openai_realtime.Queue.Chunks.{IsShort}
use mod_openai_realtime.Pcm.{bytes_of}
use mod_openai_realtime.Streamer.{Streamer, consume_playback_clear}
use mod_openai_realtime.Private.{Private}
use mod_openai_realtime.Playback.{Frame, take_clear, bytes_needed, turn, write_frame}
use mod_openai_realtime.Playback.Refill.{line, IsReady, refill-Refilled}
use mod_openai_realtime.Playback.Line.{
  queued, session_line, replacement, queue-stopped, finish_turn-Finished,
}

module _ (p : Platform) where
  open p use {buffer}

  -- A barge-in is waiting to be taken by the media thread.
  abbrev pub clear_pending : Streamer p → Bool
  clear_pending s = not (s.playback_clear_gen == s.playback_clear_gen_seen)

  -- The audio that the turn may play: a pending clear drops what the playback buffer holds.
  abbrev pub audible : Private p → Streamer p → Bytes
  audible tech s =
      (if clear_pending s then [] else buffer.contents tech.playback_buffer) ++ queued p (some s)

  -- The session plays, the frame carries audio, and the playback buffer has room for twice the frame
  -- and one chunk more.
  pub record CanPlay (tech : Private p) (s : Streamer p) (frame : Frame) : Type 0 where
    pub has_streamer : tech.streamer ≡ some s
    pub not_paused : tech.audio_paused ≡ false
    pub has_samples : 0 < frame.samples
    pub has_data : 0 < frame.datalen
    pub has_room : 0 < frame.buflen
    pub small : frame.datalen < 2 ^ 31
    pub room :
        bytes_needed p frame * 2 + 2 * max_audio_chunk_samples
        ≤ buffer.capacity tech.playback_buffer
    pub short : All (IsShort max_audio_chunk_samples) s.queue.chunks

  pub take_clear_lem :
      (wanted : ℕ) (located : Bool) (tech : Private p) (s : Streamer p)
      → wanted + 2 * max_audio_chunk_samples ≤ buffer.capacity tech.playback_buffer
      → All (IsShort max_audio_chunk_samples) s.queue.chunks
      → let t = take_clear p located tech.playback_buffer s in
        IsReady p wanted t × (line p t ≡ audible tech s)
  unfolding take_clear consume_playback_clear
  take_clear_lem wanted located tech s room short =
      elim (Bool-cases (s.playback_clear_gen == s.playback_clear_gen_seen)) [
        | inl e ↦ rw e (
          record {
            measured = buffer.inuse-contents tech.playback_buffer;
            room = room;
            short = short;
            flagged = λ h. cc;
          },
          refl,
        )
        | inr e ↦
            let same =
              queue-stopped p s.openai_speaking located
                (record s { playback_clear_gen_seen = s.playback_clear_gen }) in
            rw e (
              record {
                measured = sym (ap length (buffer.zero-contents tech.playback_buffer));
                room = omega (arith, buffer.zero-capacity tech.playback_buffer);
                short =
                    subst (λ q. All (IsShort max_audio_chunk_samples) q.chunks) (sym same) short;
                flagged = λ h. cc;
              },
              rw (buffer.zero-contents tech.playback_buffer)
                  (ap (λ q. bytes_of (flatten q.chunks)) same),
            )
      ]

  -- On a session that can play: the turn puts the next `bytes_needed` bytes of the audible audio into
  -- the frame, padded with silence to that length, or leaves the frame alone when there is none or
  -- the playback is muted; either way those bytes are gone and all the audio behind them is still to
  -- be played, in order. No chunk is ever dropped for want of room.
  turn-Finished :
      (located : Bool) (tech : Private p) (s : Streamer p) (frame : Frame)
      → CanPlay tech s frame
      → let r = turn p located tech s frame in
        (session_line p r.0 ≡ drop (bytes_needed p frame) (audible tech s))
        × (r.1 ≡ replacement p tech.openai_audio_muted (audible tech s) frame)
  unfolding turn
  turn-Finished located tech s frame c =
      let n : ℕ = bytes_needed p frame in
      let t = take_clear p located tech.playback_buffer s in
      let wanted : n * 2 % 2 ^ 32 ≡ n * 2 = ground (arith, c.small) in
      let start = take_clear_lem (n * 2) located tech s c.room c.short in
      let r =
        refill-Refilled p (suc (length t.streamer.queue.chunks)) (n * 2) t t.streamer.queue.chunks
          refl (omega arith) start.0 in
      let done =
        finish_turn-Finished p located t.streamer.terminal_close tech _ frame r.ready
          (ground (arith, c.has_data, c.has_room)) r.enough in
      let same = r.same_line ∙ start.1 in
      rw wanted (
        done.0 ∙ ap (drop n) same,
        done.1 ∙ ap (λ a. replacement p tech.openai_audio_muted a frame) same,
      )

  -- On a session that can play, whatever was asked of it before: `write_frame` puts the next
  -- `bytes_needed` bytes of the audible audio into the frame, padded with silence to that length, or
  -- leaves the frame alone when there is none or the playback is muted; either way those bytes are
  -- gone, and all the audio behind them is still to be played, in order. The audible audio is the
  -- playback buffer, unless a pending barge-in drops it, and then the queue.
  pub write_frame-plays :
      (located : Bool) (tech : Private p) (s : Streamer p) (frame : Frame)
      → CanPlay tech s frame
      → let r = write_frame p located tech (some frame) true in
        (session_line p r.0 ≡ drop (bytes_needed p frame) (audible tech s))
        × (r.1 ≡ replacement p tech.openai_audio_muted (audible tech s) frame)
  unfolding write_frame
  write_frame-plays located tech s frame c =
      let some_audio : (frame.samples == 0 || frame.datalen == 0) ≡ false =
        ground (arith, c.has_samples, c.has_data) in
      rw (c.not_paused, c.has_streamer, some_audio) (turn-Finished located tech s frame c)
