-- ===== src/Playback/Line.antt =====
-- What a turn of `write_frame` does to the audio still to be played, and to the frame.
use mod_openai_realtime.Base.{
  ℕ, ◌-◌, ◌*◌, ◌/◌, ◌≤◌, ◌<◌, min, ◌≡◌, ◌≢◌, sym, ap, subst, ◌∙◌, ◌⊎◌, inl, inr, Bool, true, false,
  not, ◌&&◌, List, [], ◌++◌, Option, none, some, arith, ◌==◌, if◌then◌else◌, if_true, if_false,
  Bool-cases, Bytes, length, take, drop, replicate, flatten, drop-nil, length-zero,
}
use mod_openai_realtime.Services.{Platform}
use mod_openai_realtime.Pcm.{bytes_of}
use mod_openai_realtime.Streamer.{Streamer, openai_speech_started, openai_speech_stopped}
use mod_openai_realtime.Private.{Private}
use mod_openai_realtime.Playback.{
  Frame, Replaced, quotient, Turn, bytes_needed, fall_silent, play, finish_turn,
}
use mod_openai_realtime.Playback.Refill.{line, IsReady}
use mod_openai_realtime.Playback.Window.{
  Suffices, take_window, drop_window, gap_window, empty_window,
}

module _ (p : Platform) where
  open p use {buffer}

  -- The audio still to be played in a session: the playback buffer, then the queue.
  abbrev pub queued : Option (Streamer p) → Bytes
  queued none = []
  queued (some s) = bytes_of (flatten s.queue.chunks)

  abbrev pub session_line : Private p → Bytes
  session_line tech = buffer.contents tech.playback_buffer ++ queued tech.streamer

  -- The frame that a turn is to put in the place of the written one.
  abbrev pub replacement : Bool → Bytes → Frame → Option Replaced
  replacement muted audio frame =
      let needed = bytes_needed p frame in
      if length audio == 0
      then none
      else if muted
      then none
      else some (record {
        audio = take needed audio ++ replicate (needed - length audio) 0;
        datalen = needed;
        samples = quotient needed (frame.datalen / frame.samples);
      })

  bytes_of-nil : (cs : List (List ℕ)) → cs ≡ [] → bytes_of (flatten cs) ≡ []
  unfolding bytes_of
  bytes_of-nil cs e = rw e

  abbrev pub Finished : Private p → Turn p → Frame → Private p × Option Replaced → Type 0
  Finished tech t frame r =
      (session_line r.0 ≡ drop (bytes_needed p frame) (line p t))
      × (r.1 ≡ replacement tech.openai_audio_muted (line p t) frame)

  -- The speech events leave the queue alone.
  pub queue-stopped :
      (b located : Bool) (s : Streamer p)
      → (if b then openai_speech_stopped p located s else s).queue ≡ s.queue
  unfolding openai_speech_stopped
  queue-stopped b located s = ground arith

  queue-started :
      (b located : Bool) (s : Streamer p)
      → (if b then openai_speech_started p located s else s).queue ≡ s.queue
  unfolding openai_speech_started
  queue-started b located s = ground arith

  module _ (located terminal_close : Bool) (tech : Private p) (t : Turn p) (frame : Frame)
      (ready : IsReady p (bytes_needed p frame * 2) t) (pos : 0 < bytes_needed p frame)
      (enough : (bytes_needed p frame * 2 ≤ t.inuse) ⊎ (t.streamer.queue.chunks ≡ [])) where
    abbrev held : Bytes
    held = buffer.contents t.buffer

    abbrev behind : Bytes
    behind = bytes_of (flatten t.streamer.queue.chunks)

    suffices : Suffices (bytes_needed p frame) held behind
    suffices = elim enough [
      | inl h ↦ inl (omega (arith, ready.measured))
      | inr h ↦ inr (bytes_of-nil t.streamer.queue.chunks h)
    ]

    pub line_empty : t.inuse ≡ 0 → line p t ≡ []
    line_empty e = length-zero (line p t) (
        ground
          (arith, ready.measured, empty_window (bytes_needed p frame) held behind pos suffices))

    -- A turn that finds nothing has no audio at all before it.
    silent-Finished :
        t.inuse ≡ 0 → Finished tech t frame (fall_silent p located terminal_close tech t, none)
    unfolding fall_silent
    silent-Finished e =
        let empty = line_empty e in
        (
          ap (λ q. held ++ bytes_of (flatten q.chunks)) (queue-stopped _ located t.streamer)
              ∙ empty
              ∙ sym (drop-nil (bytes_needed p frame))
              ∙ ap (drop (bytes_needed p frame)) (sym empty),
          rw empty,
        )

    pub not_empty : t.inuse ≢ 0 → (length (line p t) == 0) ≡ false
    not_empty h =
        ground (arith, ready.measured, empty_window (bytes_needed p frame) held behind pos suffices)

    muted-Finished :
        t.inuse ≢ 0
        → tech.openai_audio_muted ≡ true
        → Finished tech t frame (
          record tech {
            playback_buffer = buffer.toss t.buffer (min t.inuse (bytes_needed p frame));
            streamer = some t.streamer;
          },
          none,
        )
    muted-Finished h m = (
      rw (buffer.toss-contents t.buffer (min t.inuse (bytes_needed p frame)), ready.measured)
          (drop_window (bytes_needed p frame) held behind suffices),
      rw (not_empty h, m),
    )

    played-Finished :
        t.inuse ≢ 0
        → tech.openai_audio_muted ≡ false
        → let r = play p located (min t.inuse (bytes_needed p frame)) tech t frame in
          Finished tech t frame (r.0, some r.1)
    unfolding play
    played-Finished h m =
        let n = bytes_needed p frame in
        let read = buffer.read-contents t.buffer (min t.inuse n) in
        (
          ap
                (λ q.
                  buffer.contents (buffer.read t.buffer (min t.inuse n)).0
                  ++ bytes_of (flatten q.chunks))
                (queue-started _ located t.streamer)
              ∙ rw (read.0, ready.measured) (drop_window n held behind suffices),
          rw (
            not_empty h,
            m,
            read.1,
            ready.measured,
            take_window n held behind suffices,
            gap_window n held behind suffices,
          ),
        )

    pub finish_turn-Finished :
        Finished tech t frame (finish_turn p located terminal_close tech t frame)
    unfolding finish_turn
    finish_turn-Finished = elim (Bool-cases (not t.chunk_enqueued && t.inuse == 0)) [
      | inl e ↦ rw e (silent-Finished (ground arith))
      | inr e ↦
          let some_audio : t.inuse ≢ 0 = ground (arith, ready.flagged) in
          rw e (heard some_audio (Bool-cases tech.openai_audio_muted))
    ]
      where
        heard :
            t.inuse ≢ 0
            → (tech.openai_audio_muted ≡ true) ⊎ (tech.openai_audio_muted ≡ false)
            → Finished tech t frame (
                if tech.openai_audio_muted
                then (
                  record tech {
                    playback_buffer = buffer.toss t.buffer (min t.inuse (bytes_needed p frame));
                    streamer = some t.streamer;
                  },
                  none,
                )
                else let (tech', played) =
                    play p located (min t.inuse (bytes_needed p frame)) tech t frame in
                  (tech', some played))
        heard h (inl m) = subst (Finished tech t frame) (sym (if_true _ _ _ m)) (muted-Finished h m)
        heard h (inr m) =
            subst (Finished tech t frame) (sym (if_false _ _ _ m)) (played-Finished h m)
