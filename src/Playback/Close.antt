-- ===== src/Playback/Close.antt =====
-- `write_frame` at the end of a connection that will not come back: when it asks for the teardown.
use mod_openai_realtime.Base.{
  ℕ, suc, ◌*◌, ◌%◌, ◌^◌, ◌<◌, ◌≡◌, ◌≢◌, refl, ap, ◌∙◌, Bool, true, false, ◌||◌, some, arith, ◌==◌,
  if◌then◌else◌, length,
}
use mod_openai_realtime.Services.{Platform}
use mod_openai_realtime.Streamer.{Streamer, consume_playback_clear, openai_speech_stopped, notify}
use mod_openai_realtime.Private.{Private}
use mod_openai_realtime.Playback.{
  Frame, Turn, take_clear, refill, bytes_needed, fall_silent, play, finish_turn, turn, write_frame,
}
use mod_openai_realtime.Playback.Refill.{line, IsReady, refill-Refilled}
use mod_openai_realtime.Playback.Line.{line_empty, not_empty}
use mod_openai_realtime.Playback.Plays.{CanPlay, audible, take_clear_lem}

module _ (p : Platform) where
  -- What asks for the teardown: it was asked for, or the end has come and there is no audio left.
  abbrev pub closes : Bool → Bool → ℕ → Bool
  closes asked terminal_close left = if left == 0 then terminal_close || asked else asked

  take_clear-terminal_close :
      (located : Bool) (tech : Private p) (s : Streamer p)
      → (take_clear p located tech.playback_buffer s).streamer.terminal_close ≡ s.terminal_close
  unfolding take_clear consume_playback_clear openai_speech_stopped notify
  take_clear-terminal_close located tech s = ground arith

  finish_turn-closes :
      (located terminal_close : Bool) (tech : Private p) (t : Turn p) (frame : Frame)
      → IsReady p (bytes_needed p frame * 2) t
      → (t.inuse ≡ 0 → length (line p t) ≡ 0)
      → (t.inuse ≢ 0 → (length (line p t) == 0) ≡ false)
      → (finish_turn p located terminal_close tech t frame).0.close_requested
        ≡ closes tech.close_requested terminal_close (length (line p t))
  unfolding finish_turn fall_silent play
  finish_turn-closes located terminal_close tech t frame ready empty some_left =
      ground (arith, ready.flagged)

  turn-closes :
      (located : Bool) (tech : Private p) (s : Streamer p) (frame : Frame)
      → CanPlay p tech s frame
      → (turn p located tech s frame).0.close_requested
        ≡ closes tech.close_requested s.terminal_close (length (audible p tech s))
  unfolding turn
  turn-closes located tech s frame c =
      let n : ℕ = bytes_needed p frame in
      let t = take_clear p located tech.playback_buffer s in
      let wanted : n * 2 % 2 ^ 32 ≡ n * 2 = ground (arith, c.small) in
      let start = take_clear_lem p (n * 2) located tech s c.room c.short in
      let r =
        refill-Refilled p (suc (length t.streamer.queue.chunks)) (n * 2) t t.streamer.queue.chunks
          refl (omega arith) start.0 in
      let u = refill p (suc (length t.streamer.queue.chunks)) (n * 2) t in
      let some_room : 0 < n = ground (arith, c.has_data, c.has_room) in
      let ends = t.streamer.terminal_close in
      let empty : u.inuse ≡ 0 → length (line p u) ≡ 0 =
        λ e. ap length (line_empty p located ends tech u frame r.ready some_room r.enough e) in
      let some_left = not_empty p located ends tech u frame r.ready some_room r.enough in
      rw wanted (
        finish_turn-closes located ends tech u frame r.ready empty some_left
        ∙ ap (λ l. closes tech.close_requested ends (length l)) (r.same_line ∙ start.1)
        ∙ ap (λ b. closes tech.close_requested b (length (audible p tech s)))
            (take_clear-terminal_close located tech s))

  -- On a session that can play: after `write_frame`, the teardown is asked for exactly if it was asked
  -- for before, or the connection has ended for good and there was no audio left to play.
  pub write_frame-closes :
      (located : Bool) (tech : Private p) (s : Streamer p) (frame : Frame)
      → CanPlay p tech s frame
      → (write_frame p located tech (some frame) true).0.close_requested
        ≡ closes tech.close_requested s.terminal_close (length (audible p tech s))
  unfolding write_frame
  write_frame-closes located tech s frame c =
      let some_audio : (frame.samples == 0 || frame.datalen == 0) ≡ false =
        ground (arith, c.has_samples, c.has_data) in
      rw (c.not_paused, c.has_streamer, some_audio) (turn-closes located tech s frame c)
