-- ===== src/Session/Run/Silent.antt =====
-- What a muted caller says is not sent.
use mod_openai_realtime.Base.{
  if-both, option-both, ℕ, zero, suc, ◌≡◌, refl, sym, subst, ap, ◌∙◌, Bool, true, false, not, ◌&&◌,
  ◌||◌, All, List, [], ◌∷◌, Option, none, some, arith, ◌==◌, if◌then◌else◌, Bytes,
}
use mod_openai_realtime.Services.{Platform}
use mod_openai_realtime.Streamer.{
  Streamer, consume_playback_clear, openai_speech_started, openai_speech_stopped, notify,
}
use mod_openai_realtime.Streamer.Sending.{write_text}
use mod_openai_realtime.Private.{Private}
use mod_openai_realtime.Playback.{
  Frame, Turn, take_clear, take_chunk, refill, fall_silent, play, finish_turn, turn, write_frame,
}
use mod_openai_realtime.Capture.{CapturedFrame, flush_buffer, flush_capture_residue, stream_turn}
use mod_openai_realtime.Message.{WsMessage, receive, on_message, c_str}
use mod_openai_realtime.Message.Files.{Env, is_empty}
use mod_openai_realtime.Message.Sent.{SameSent, on_message-SameSent}
use mod_openai_realtime.Session.{
  send_json, send_decoded, send_value, pause_resume, set_openai_mute, set_user_mute, flush_and_send,
}
use mod_openai_realtime.Session.Run.{
  Action, received, played, paused, user_muted, openai_muted, json_sent, flushed, act, Moment,
  tested, turned, acted, Capturing, proceed, run,
}

-- Every step but an unmuting of the caller.
abbrev pub StaysMuted : Action → Type 0
StaysMuted (user_muted mute) = mute ≡ true
StaysMuted _ = Unit

abbrev pub StaysMutedThen : Moment → Type 0
StaysMutedThen (acted action) = StaysMuted action
StaysMutedThen _ = Unit

module _ (p : Platform) where
  open p use {buffer}

  take_clear-SameSent :
      (located : Bool) (b : buffer.Buffer) (s : Streamer p)
      → SameSent p s (take_clear p located b s).streamer
  unfolding take_clear consume_playback_clear openai_speech_stopped notify
  take_clear-SameSent located b s = grind arith

  refill-SameSent :
      (fuel wanted : ℕ) (t : Turn p) → SameSent p t.streamer (refill p fuel wanted t).streamer
  unfolding refill take_chunk
  refill-SameSent zero wanted t = refl
  refill-SameSent (suc fuel) wanted t = grind (arith, refill-SameSent fuel)

  -- A muted session with nothing waiting, whose client accepted some audio.
  pub record IsSilent (sent : List Bytes) (tech : Private p) : Type 0 where
    pub streamer : Streamer p
    pub has_streamer : tech.streamer ≡ some streamer
    pub same_sent : streamer.sent_audio ≡ sent
    pub muted : tech.user_audio_muted ≡ true
    pub nothing_waits : buffer.inuse tech.sbuffer ≡ 0

  module _ (sent : List Bytes) where
    abbrev SilentThen : {B : Type 0} → Private p × B → Type 0
    SilentThen r = IsSilent sent r.0

    -- Another streamer that has sent the same.
    with-IsSilent :
        (tech tech' : Private p) (q : IsSilent sent tech) (s : Streamer p)
        → tech'.streamer ≡ some s
        → SameSent p q.streamer s
        → tech'.user_audio_muted ≡ true
        → tech'.sbuffer ≡ tech.sbuffer
        → IsSilent sent tech'
    with-IsSilent tech tech' q s e same m b = record {
      streamer = s;
      has_streamer = e;
      same_sent = same ∙ q.same_sent;
      muted = m;
      nothing_waits = ap buffer.inuse b ∙ q.nothing_waits;
    }

    receive-IsSilent :
        (env : Env) (message : WsMessage) (tech : Private p)
        → IsSilent sent tech
        → IsSilent sent (receive p env message tech)
    unfolding receive
    receive-IsSilent env message tech q =
        simp (receive, q.has_streamer)
          (with-IsSilent tech _ q (on_message p env message q.streamer).0 refl
            (on_message-SameSent p env message q.streamer) q.muted refl)

    finish_turn-IsSilent :
        (located terminal_close : Bool) (tech : Private p) (t : Turn p) (frame : Frame)
        (q : IsSilent sent tech)
        → SameSent p q.streamer t.streamer
        → SilentThen (finish_turn p located terminal_close tech t frame)
    unfolding finish_turn fall_silent play openai_speech_started openai_speech_stopped notify
    finish_turn-IsSilent located terminal_close tech t frame q same =
        if-both SilentThen (not t.chunk_enqueued && t.inuse == 0) _ _
          (with-IsSilent tech _ q
            (if t.streamer.openai_speaking && t.streamer.response_audio_done
              then openai_speech_stopped p located t.streamer
              else t.streamer)
            refl (grind (arith, same)) q.muted refl)
          (if-both SilentThen tech.openai_audio_muted _ _
            (with-IsSilent tech _ q t.streamer refl same q.muted refl)
            (with-IsSilent tech _ q
              (if not t.streamer.openai_speaking
                then openai_speech_started p located t.streamer
                else t.streamer)
              refl (grind (arith, same)) q.muted refl))

    turn-IsSilent :
        (located : Bool) (tech : Private p) (frame : Frame) (q : IsSilent sent tech)
        → SilentThen (turn p located tech q.streamer frame)
    unfolding turn
    turn-IsSilent located tech frame q =
        let t = take_clear p located tech.playback_buffer q.streamer in
        finish_turn-IsSilent located t.streamer.terminal_close tech _ frame q
          (refill-SameSent _ _ t ∙ take_clear-SameSent located tech.playback_buffer q.streamer)

    write_frame-IsSilent :
        (located : Bool) (tech : Private p) (frame : Option Frame) (codec_ready : Bool)
        → IsSilent sent tech
        → SilentThen (write_frame p located tech frame codec_ready)
    unfolding write_frame
    write_frame-IsSilent located tech none codec_ready q = q
    write_frame-IsSilent located tech (some frame) codec_ready q =
        simp (write_frame, q.has_streamer)
          (if-both SilentThen (tech.audio_paused || not codec_ready) _ _ q (
            if-both SilentThen (frame.samples == 0 || frame.datalen == 0) _ _ q
              (turn-IsSilent located tech frame q)))

    -- There is nothing to flush.
    flush_capture_residue-IsSilent :
        (tech : Private p) → IsSilent sent tech → flush_capture_residue p tech ≡ tech
    unfolding flush_capture_residue flush_buffer
    flush_capture_residue-IsSilent tech q = ground (arith, q.has_streamer, q.nothing_waits)

    send_value-IsSilent :
        (tech : Private p) (q : IsSilent sent tech) (value : p.json.Value)
        → SilentThen (send_value p tech q.streamer value)
    unfolding send_value write_text
    send_value-IsSilent tech q value =
        option-both SilentThen (p.json.print_unformatted value) _ _ q (λ printed.
          with-IsSilent tech _ q (write_text p printed q.streamer).0 refl (grind arith) q.muted
            refl)

    send_json-IsSilent :
        (input : Option Bytes) (tech : Private p)
        → IsSilent sent tech
        → SilentThen (send_json p input tech)
    unfolding send_json send_decoded
    send_json-IsSilent none tech q = q
    send_json-IsSilent (some input) tech q =
        simp (send_json, q.has_streamer)
          (if-both SilentThen (is_empty input) _ _ q (
            option-both SilentThen (p.base64.decode input) _ _ q (λ decoded.
              if-both SilentThen (is_empty decoded) _ _ q (
                option-both SilentThen (p.json.parse (c_str decoded)) _ _ q
                  (send_value-IsSilent tech q)))))

    flush_and_send-IsSilent :
        (final : Option Bytes) (tech : Private p)
        → IsSilent sent tech
        → SilentThen (flush_and_send p final tech)
    unfolding flush_and_send
    flush_and_send-IsSilent none tech q =
        subst (IsSilent sent) (sym (flush_capture_residue-IsSilent tech q)) q
    flush_and_send-IsSilent (some input) tech q =
        let kept = subst (IsSilent sent) (sym (flush_capture_residue-IsSilent tech q)) q in
        if-both SilentThen (is_empty input) _ _ kept
          (send_json-IsSilent (some input) (flush_capture_residue p tech) kept)

    -- A turn that has not passed its test does nothing.
    stream_turn_refused :
        (acquired : Bool) (frames : List CapturedFrame) (tech : Private p)
        → stream_turn p false acquired frames tech ≡ tech
    unfolding stream_turn
    stream_turn_refused acquired frames tech = refl

    set_user_mute_muted :
        (tech : Private p)
        → tech.user_audio_muted ≡ true
        → set_user_mute p true tech ≡ (record tech { user_audio_muted = true }, true)
    unfolding set_user_mute
    set_user_mute_muted tech m = ground (arith, m)

    act-IsSilent :
        (action : Action) (tech : Private p)
        → StaysMuted action
        → IsSilent sent tech
        → IsSilent sent (act p action tech)
    unfolding act pause_resume set_openai_mute set_user_mute
    act-IsSilent (received env message) tech k q = receive-IsSilent env message tech q
    act-IsSilent (played located frame codec_ready) tech k q =
        write_frame-IsSilent located tech frame codec_ready q
    act-IsSilent (paused pause) tech k q =
        with-IsSilent tech _ q q.streamer q.has_streamer refl q.muted refl
    act-IsSilent (user_muted false) tech k q = cc k
    act-IsSilent (user_muted true) tech k q =
        subst (λ (r : Private p × Bool). IsSilent sent r.0) (sym (set_user_mute_muted tech q.muted))
          (with-IsSilent tech (record tech { user_audio_muted = true }) q q.streamer q.has_streamer
            refl refl refl)
    act-IsSilent (openai_muted mute) tech k q =
        with-IsSilent tech _ q q.streamer q.has_streamer refl q.muted refl
    act-IsSilent (json_sent input) tech k q = send_json-IsSilent input tech q
    act-IsSilent (flushed final) tech k q = flush_and_send-IsSilent final tech q

    -- A muted session, and no turn under way has passed its test.
    pub record IsQuiet (σ : Capturing p) : Type 0 where
      pub silent : IsSilent sent σ.tech
      pub not_passed : σ.passed ≡ false

    proceed-IsQuiet :
        (moment : Moment) (σ : Capturing p)
        → StaysMutedThen moment
        → IsQuiet σ
        → IsQuiet (proceed p moment σ)
    unfolding proceed
    proceed-IsQuiet tested σ k q = record {
      silent = q.silent;
      not_passed = ground (arith, q.silent.muted);
    }
    proceed-IsQuiet (turned acquired frames) σ k q = record {
      silent =
          subst (IsSilent sent)
            (sym (
              ap (λ passed. stream_turn p passed acquired frames σ.tech) q.not_passed
              ∙ stream_turn_refused acquired frames σ.tech))
            q.silent;
      not_passed = refl;
    }
    proceed-IsQuiet (acted action) σ k q = record {
      silent = act-IsSilent action σ.tech k q.silent;
      not_passed = q.not_passed;
    }

    pub run-IsQuiet :
        (moments : List Moment) (σ : Capturing p)
        → All StaysMutedThen moments
        → IsQuiet σ
        → IsQuiet (run p moments σ)
    unfolding run
    run-IsQuiet [] σ k q = q
    run-IsQuiet (moment ∷ moments) σ (k, ks) q =
        run-IsQuiet moments (proceed p moment σ) ks (proceed-IsQuiet moment σ k q)
