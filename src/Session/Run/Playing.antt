-- ===== src/Session/Run/Playing.antt =====
-- What a turn of `write_frame` keeps: an invariant of the streamer, and the size of the playback buffer.
use mod_openai_realtime.Base.{
  if-both, ℕ, zero, suc, ◌≡◌, refl, ◌∙◌, Bool, not, ◌&&◌, ◌||◌, Option, none, some, arith, ◌==◌,
  if◌then◌else◌, min, inl, inr, Bool-cases,
}
use mod_openai_realtime.Services.{Platform}
use mod_openai_realtime.Streamer.{Streamer, openai_speech_started, openai_speech_stopped}
use mod_openai_realtime.Private.{Private}
use mod_openai_realtime.Playback.{
  Frame, Turn, take_clear, take_chunk, refill, fall_silent, play, finish_turn, turn, write_frame,
  bytes_needed,
}
use mod_openai_realtime.Session.Run.Invariant.{IsInvariant, refill-holds}

module _ (p : Platform) where
  open p use {buffer}

  pub take_clear-capacity :
      (located : Bool) (b : buffer.Buffer) (s : Streamer p)
      → buffer.capacity (take_clear p located b s).buffer ≡ buffer.capacity b
  unfolding take_clear
  take_clear-capacity located b s = ground (arith, buffer.zero-capacity b)

  refill-capacity :
      (fuel wanted : ℕ) (t : Turn p)
      → buffer.capacity (refill p fuel wanted t).buffer ≡ buffer.capacity t.buffer
  unfolding refill take_chunk
  refill-capacity zero wanted t = refl
  refill-capacity (suc fuel) wanted t = grind (arith, refill-capacity fuel, buffer.write-capacity)

  module _ (Q : Streamer p → Type 0) (Located : Bool → Type 0) (law : IsInvariant p Q Located) where
    -- What the turn leaves in the session.
    pub record IsPlayed (tech tech' : Private p) : Type 0 where
      pub streamer : Streamer p
      pub has_streamer : tech'.streamer ≡ some streamer
      pub holds : Q streamer
      pub capacity : buffer.capacity tech'.playback_buffer ≡ buffer.capacity tech.playback_buffer
      pub same_capture : tech'.sbuffer ≡ tech.sbuffer

    abbrev IsPlayedThen : Private p → {B : Type 0} → Private p × B → Type 0
    IsPlayedThen tech r = IsPlayed tech r.0

    same : (tech : Private p) (s : Streamer p) → tech.streamer ≡ some s → Q s → IsPlayed tech tech
    same tech s e v = record {
      streamer = s;
      has_streamer = e;
      holds = v;
      capacity = refl;
      same_capture = refl;
    }

    silent-holds :
        (located : Bool) (s : Streamer p)
        → Located located
        → Q s
        → Q (
            if s.openai_speaking && s.response_audio_done
            then openai_speech_stopped p located s
            else s)
    silent-holds located s k v = elim (Bool-cases s.openai_speaking) [
      | inl e ↦ simp e (if-both Q s.response_audio_done _ _ (law.stopped located s k e v) v)
      | inr e ↦ simp e v
    ]

    speaking-holds :
        (located : Bool) (s : Streamer p)
        → Located located
        → Q s
        → Q (if not s.openai_speaking then openai_speech_started p located s else s)
    speaking-holds located s k v = elim (Bool-cases s.openai_speaking) [
      | inl e ↦ simp e v
      | inr e ↦ simp e (law.started located s k e v)
    ]

    pub finish_turn-IsPlayed :
        (located terminal_close : Bool) (tech : Private p) (t : Turn p) (frame : Frame)
        → Located located
        → Q t.streamer
        → buffer.capacity t.buffer ≡ buffer.capacity tech.playback_buffer
        → IsPlayed tech (finish_turn p located terminal_close tech t frame).0
    unfolding finish_turn fall_silent play
    finish_turn-IsPlayed located terminal_close tech t frame k v size =
        let n = min t.inuse (bytes_needed p frame) in
        if-both (IsPlayedThen tech) (not t.chunk_enqueued && t.inuse == 0) _ _
          (record {
            streamer =
                if t.streamer.openai_speaking && t.streamer.response_audio_done
                then openai_speech_stopped p located t.streamer
                else t.streamer;
            has_streamer = refl;
            holds = silent-holds located t.streamer k v;
            capacity = size;
            same_capture = refl;
          })
          (if-both (IsPlayedThen tech) tech.openai_audio_muted _ _
            (record {
              streamer = t.streamer;
              has_streamer = refl;
              holds = v;
              capacity = buffer.toss-capacity t.buffer n ∙ size;
              same_capture = refl;
            })
            (record {
              streamer =
                  if not t.streamer.openai_speaking
                  then openai_speech_started p located t.streamer
                  else t.streamer;
              has_streamer = refl;
              holds = speaking-holds located t.streamer k v;
              capacity = buffer.read-capacity t.buffer n ∙ size;
              same_capture = refl;
            }))

    turn-IsPlayed :
        (located : Bool) (tech : Private p) (s : Streamer p) (frame : Frame)
        → Located located
        → Q s
        → IsPlayed tech (turn p located tech s frame).0
    unfolding turn
    turn-IsPlayed located tech s frame k v =
        let t = take_clear p located tech.playback_buffer s in
        finish_turn-IsPlayed located t.streamer.terminal_close tech _ frame k
          (refill-holds p Q Located law _ _ t (law.clear located tech.playback_buffer s k v))
          (refill-capacity _ _ t ∙ take_clear-capacity located tech.playback_buffer s)

    pub write_frame-IsPlayed :
        (located : Bool) (tech : Private p) (s : Streamer p) (frame : Option Frame)
        (codec_ready : Bool)
        → Located located
        → tech.streamer ≡ some s
        → Q s
        → IsPlayed tech (write_frame p located tech frame codec_ready).0
    unfolding write_frame
    write_frame-IsPlayed located tech s none codec_ready k e v = same tech s e v
    write_frame-IsPlayed located tech s (some frame) codec_ready k e v =
        simp (write_frame, e)
          (if-both (IsPlayedThen tech) (tech.audio_paused || not codec_ready) _ _ (same tech s e v)
            (if-both (IsPlayedThen tech) (frame.samples == 0 || frame.datalen == 0) _ _
              (same tech s e v) (turn-IsPlayed located tech s frame k v)))
