-- ===== src/Race/Steps.antt =====
-- A step of a turn of `write_frame`, by itself.
use mod_openai_realtime.Base.{
  if-both, ◌≡◌, refl, subst, ap, ◌∙◌, Bool, true, ◌||◌, arith, ◌==◌, length, length-drop, min,
}
use mod_openai_realtime.Services.{Platform}
use mod_openai_realtime.Streamer.{
  Streamer, consume_playback_clear, openai_speech_started, openai_speech_stopped, notify,
}
use mod_openai_realtime.Playback.{
  Frame, Turn, take_clear, bytes_needed, finish_turn, fall_silent, play,
}
use mod_openai_realtime.Message.Bounded.{IsBounded}
use mod_openai_realtime.Session.Run.Plays.{IsPlayable}
use mod_openai_realtime.Session.Run.Live.{Anyway, IsBounded-IsInvariant}
use mod_openai_realtime.Session.Run.Playing.{take_clear-capacity, finish_turn-IsPlayed}
use mod_openai_realtime.Race.{
  TurnPhase, resting, clearing, snapping, filling, finishing, System, settle, media_step,
}
use mod_openai_realtime.Race.Safe.{IsDrained, InPhase, IsSafe}
use mod_openai_realtime.Race.Loop.{fill-IsSafe}

module _ (p : Platform) where
  open p use {buffer}

  take_clear-measured :
      (located : Bool) (b : buffer.Buffer) (s : Streamer p)
      → (take_clear p located b s).inuse ≡ buffer.inuse (take_clear p located b s).buffer
  unfolding take_clear
  take_clear-measured located b s =
      ground (arith, buffer.inuse-contents (buffer.zero b), buffer.zero-contents b)

  take_clear-IsDrained :
      (located : Bool) (t : Turn p)
      → IsDrained p t
      → IsDrained p (take_clear p located t.buffer t.streamer)
  unfolding take_clear consume_playback_clear openai_speech_stopped notify
  take_clear-IsDrained located t d = ground (
    arith,
    d.0,
    d.1,
    d.2,
    buffer.inuse-contents (buffer.zero t.buffer),
    buffer.zero-contents t.buffer,
  )

  -- What the end of a turn leaves of the end of the connection.
  finish_turn-IsDrained :
      (located ends : Bool) (frame : Frame) (σ : System p)
      → InPhase p (finishing frame ends) σ.turn
      → (σ.tech.close_requested ≡ true → IsDrained p σ.turn)
      → let σ' = settle p (finish_turn p located ends σ.tech σ.turn frame) σ in
        σ'.tech.close_requested ≡ true → IsDrained p σ'.turn
  unfolding settle finish_turn fall_silent play openai_speech_started openai_speech_stopped notify
  finish_turn-IsDrained located ends frame σ h drained closed =
      let n = min σ.turn.inuse (bytes_needed p frame) in
      ground (
        arith,
        drained,
        buffer.inuse-contents σ.turn.buffer,
        buffer.inuse-contents (buffer.toss σ.turn.buffer n),
        buffer.inuse-contents (buffer.read σ.turn.buffer n).0,
        ap length (buffer.toss-contents σ.turn.buffer n),
        ap length (buffer.read-contents σ.turn.buffer n).0,
        length-drop n (buffer.contents σ.turn.buffer),
      )

  finish-IsSafe :
      (located ends : Bool) (frame : Frame) (σ : System p)
      → InPhase p (finishing frame ends) σ.turn
      → IsSafe p σ
      → IsSafe p (settle p (finish_turn p located ends σ.tech σ.turn frame) σ)
  unfolding settle
  finish-IsSafe located ends frame σ h v =
      let r = finish_turn p located ends σ.tech σ.turn frame in
      let q =
        finish_turn-IsPlayed p (IsBounded p) Anyway (IsBounded-IsInvariant p) located ends σ.tech
          σ.turn frame tt v.bounded v.same_room in
      record {
        bounded = simp q.has_streamer q.holds;
        room = omega (arith, v.room, v.same_room, q.capacity);
        same_room = refl;
        in_phase = tt;
        drained = finish_turn-IsDrained located ends frame σ h v.drained;
      }

  pub media_step-IsSafe :
      (located : Bool) (frame : Frame) (σ : System p) (f : TurnPhase)
      → σ.phase ≡ f
      → IsPlayable p frame
      → IsSafe p σ
      → IsSafe p (media_step p located frame f σ)
  unfolding media_step
  media_step-IsSafe located frame σ resting e k v =
      if-both (IsSafe p) (σ.tech.audio_paused || (frame.samples == 0 || frame.datalen == 0)) _ _ v
        (record {
          bounded = v.bounded;
          room = v.room;
          same_room = v.same_room;
          in_phase = k;
          drained = v.drained;
        })
  media_step-IsSafe located frame σ (clearing g) e k v = record {
    bounded = (IsBounded-IsInvariant p).clear located σ.turn.buffer σ.turn.streamer tt v.bounded;
    room = omega (arith, v.room, take_clear-capacity p located σ.turn.buffer σ.turn.streamer);
    same_room = take_clear-capacity p located σ.turn.buffer σ.turn.streamer ∙ v.same_room;
    in_phase = (
      subst (λ f. InPhase p f σ.turn) e v.in_phase,
      take_clear-measured located σ.turn.buffer σ.turn.streamer,
    );
    drained = λ closed. take_clear-IsDrained located σ.turn (v.drained closed);
  }
  media_step-IsSafe located frame σ (snapping g) e k v =
      let h : InPhase p (snapping g) σ.turn = subst (λ f. InPhase p f σ.turn) e v.in_phase in
      record {
        bounded = v.bounded;
        room = v.room;
        same_room = v.same_room;
        in_phase = (h.0, h.1, λ end. end);
        drained = v.drained;
      }
  media_step-IsSafe located frame σ (filling g ends) e k v = fill-IsSafe p g ends σ e v
  media_step-IsSafe located frame σ (finishing g ends) e k v =
      finish-IsSafe located ends g σ (subst (λ f. InPhase p f σ.turn) e v.in_phase) v
