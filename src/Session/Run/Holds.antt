-- ===== src/Session/Run/Holds.antt =====
-- What every step of a session keeps.
use mod_openai_realtime.Base.{
  if-both, option-both, ℕ, ◌≡◌, refl, ap, ◌∙◌, Bool, false, not, ◌||◌, List, Option, none, some,
  arith, if◌then◌else◌, Bytes,
}
use mod_openai_realtime.Services.{Platform}
use mod_openai_realtime.Streamer.{Streamer, is_connected, consume_capture_reset}
use mod_openai_realtime.Streamer.Sending.{write_text, send_audio}
use mod_openai_realtime.Private.{Private}
use mod_openai_realtime.Playback.{Frame, write_frame}
use mod_openai_realtime.Capture.{
  Taking, CapturedFrame, flush_buffer, flush_capture_residue, take_frames, stream_turn,
}
use mod_openai_realtime.Message.{WsMessage, on_message, receive, c_str}
use mod_openai_realtime.Message.Files.{Env, is_empty}
use mod_openai_realtime.Setup.{Options, new_streamer}
use mod_openai_realtime.Setup.Fresh.{IsFresh}
use mod_openai_realtime.Session.{
  send_json, send_decoded, send_value, pause_resume, set_openai_mute, set_user_mute, send_silence,
  silence, flush_and_send, same_flag,
}
use mod_openai_realtime.Session.Run.{
  Action, received, played, paused, user_muted, openai_muted, json_sent, flushed, act,
}
use mod_openai_realtime.Session.Run.Captured.{
  SamePlayback, SamePlayback-refl, send_audio-SamePlayback, flush_buffer-Same, take_frames-Same,
}
use mod_openai_realtime.Session.Run.Invariant.{IsInvariant}
use mod_openai_realtime.Session.Run.Playing.{write_frame-IsPlayed}

-- What the media thread may be told of the session.
abbrev pub Permits : (Bool → Type 0) → Action → Type 0
Permits Located (played located frame codec_ready) = Located located
Permits Located _ = Unit

module _ (p : Platform) where
  open p use {buffer}

  reset-SamePlayback :
      (s s' : Streamer p)
      → SamePlayback p (record s { capture_reset_pending = false }) s'
      → SamePlayback p s s'
  reset-SamePlayback s s' h = ground arith

  -- A session with its streamer, an invariant of it, and buffers of the given sizes.
  pub record Holds (Q : Streamer p → Type 0) (playback_room capture_room : ℕ) (tech : Private p)
      : Type 0 where
    pub streamer : Streamer p
    pub has_streamer : tech.streamer ≡ some streamer
    pub holds : Q streamer
    pub playback_capacity : buffer.capacity tech.playback_buffer ≡ playback_room
    pub capture_capacity : buffer.capacity tech.sbuffer ≡ capture_room

  module _ (Q : Streamer p → Type 0) (Located : Bool → Type 0) (law : IsInvariant p Q Located)
      (playback_room capture_room : ℕ) where
    abbrev IsHeld : Private p → Type 0
    IsHeld = Holds Q playback_room capture_room

    abbrev IsHeldThen : {B : Type 0} → Private p × B → Type 0
    IsHeldThen r = IsHeld r.0

    receive-Holds :
        (env : Env) (message : WsMessage) (tech : Private p)
        → IsHeld tech
        → IsHeld (receive p env message tech)
    unfolding receive
    receive-Holds env message tech l =
        simp (receive, l.has_streamer)
          (record {
            streamer = (on_message p env message l.streamer).0;
            has_streamer = refl;
            holds = law.message env message l.streamer l.holds;
            playback_capacity = l.playback_capacity;
            capture_capacity = l.capture_capacity;
          })

    write_frame-Holds :
        (located : Bool) (tech : Private p) (frame : Option Frame) (codec_ready : Bool)
        → Located located
        → IsHeld tech
        → IsHeld (write_frame p located tech frame codec_ready).0
    write_frame-Holds located tech frame codec_ready k l =
        let q =
          write_frame-IsPlayed p Q Located law located tech l.streamer frame codec_ready k
            l.has_streamer l.holds in
        record {
          streamer = q.streamer;
          has_streamer = q.has_streamer;
          holds = q.holds;
          playback_capacity = q.capacity ∙ l.playback_capacity;
          capture_capacity = ap buffer.capacity q.same_capture ∙ l.capture_capacity;
        }

    -- A new capture buffer and a streamer with the same playback.
    pub replaced-Holds :
        (tech tech' : Private p) (l : IsHeld tech) (s : Streamer p)
        → tech'.streamer ≡ some s
        → SamePlayback p l.streamer s
        → tech'.playback_buffer ≡ tech.playback_buffer
        → buffer.capacity tech'.sbuffer ≡ buffer.capacity tech.sbuffer
        → IsHeld tech'
    replaced-Holds tech tech' l s e same b c = record {
      streamer = s;
      has_streamer = e;
      holds = law.same l.streamer s same l.holds;
      playback_capacity = ap buffer.capacity b ∙ l.playback_capacity;
      capture_capacity = c ∙ l.capture_capacity;
    }

    flush_capture_residue-Holds :
        (tech : Private p) → IsHeld tech → IsHeld (flush_capture_residue p tech)
    unfolding flush_capture_residue
    flush_capture_residue-Holds tech l =
        let same = flush_buffer-Same p tech.sbuffer l.streamer in
        simp (flush_capture_residue, l.has_streamer)
          (replaced-Holds tech _ l (flush_buffer p tech.sbuffer l.streamer).1 refl same.1 refl
            same.0)

    send_silence-Holds : (tech : Private p) → IsHeld tech → IsHeldThen (send_silence p tech)
    unfolding send_silence
    send_silence-Holds tech l =
        simp (send_silence, l.has_streamer)
          (if-both IsHeldThen (is_connected p l.streamer) _ _
            (replaced-Holds tech _ l (send_audio p (silence p tech) l.streamer).0 refl
              (send_audio-SamePlayback p (silence p tech) l.streamer) refl refl)
            l)

    set_user_mute-Holds :
        (mute : Bool) (tech : Private p) → IsHeld tech → IsHeldThen (set_user_mute p mute tech)
    unfolding set_user_mute
    set_user_mute-Holds mute tech l =
        let tech' : Private p = record tech { user_audio_muted = mute } in
        let l' =
          replaced-Holds tech tech' l l.streamer l.has_streamer (SamePlayback-refl p l.streamer)
            refl refl in
        if-both IsHeldThen (same_flag tech.user_audio_muted mute || not mute) _ _ l' (
          send_silence-Holds (flush_capture_residue p tech') (flush_capture_residue-Holds tech' l'))

    write_text-SamePlayback :
        (text : Bytes) (s : Streamer p) → SamePlayback p s (write_text p text s).0
    unfolding write_text
    write_text-SamePlayback text s = ground arith

    send_value-Holds :
        (tech : Private p) (l : IsHeld tech) (value : p.json.Value)
        → IsHeldThen (send_value p tech l.streamer value)
    unfolding send_value
    send_value-Holds tech l value =
        option-both IsHeldThen (p.json.print_unformatted value) _ _ l (λ printed.
          replaced-Holds tech _ l (write_text p printed l.streamer).0 refl
            (write_text-SamePlayback printed l.streamer) refl refl)

    send_decoded-Holds :
        (tech : Private p) (l : IsHeld tech) (decoded : Bytes)
        → IsHeldThen (send_decoded p tech l.streamer decoded)
    unfolding send_decoded
    send_decoded-Holds tech l decoded =
        if-both IsHeldThen (is_empty decoded) _ _ l
          (option-both IsHeldThen (p.json.parse (c_str decoded)) _ _ l (send_value-Holds tech l))

    send_json-Holds :
        (input : Option Bytes) (tech : Private p)
        → IsHeld tech
        → IsHeldThen (send_json p input tech)
    unfolding send_json
    send_json-Holds none tech l = l
    send_json-Holds (some input) tech l =
        simp (send_json, l.has_streamer)
          (if-both IsHeldThen (is_empty input) _ _ l
            (option-both IsHeldThen (p.base64.decode input) _ _ l (send_decoded-Holds tech l)))

    pub flush_and_send-Holds :
        (final : Option Bytes) (tech : Private p)
        → IsHeld tech
        → IsHeldThen (flush_and_send p final tech)
    unfolding flush_and_send
    flush_and_send-Holds none tech l = flush_capture_residue-Holds tech l
    flush_and_send-Holds (some input) tech l =
        let flushed_tech = flush_capture_residue p tech in
        let kept = flush_capture_residue-Holds tech l in
        if-both IsHeldThen (is_empty input) _ _ kept
          (send_json-Holds (some input) flushed_tech kept)

    pub stream_turn-Holds :
        (passed acquired : Bool) (frames : List CapturedFrame) (tech : Private p)
        → IsHeld tech
        → IsHeld (stream_turn p passed acquired frames tech)
    unfolding stream_turn consume_capture_reset
    stream_turn-Holds passed acquired frames tech l =
        let s = l.streamer in
        let sink = if s.capture_reset_pending then buffer.zero tech.sbuffer else tech.sbuffer in
        let t : Taking p = record {
          sink = sink;
          streamer = record s { capture_reset_pending = false };
          resampler = tech.resampler;
        } in
        let same = take_frames-Same p tech.channels tech.rtp_packets frames t in
        let size : buffer.capacity sink ≡ buffer.capacity tech.sbuffer =
          ground (arith, buffer.zero-capacity tech.sbuffer) in
        if-both IsHeld (not passed || not acquired) _ _ l (
          simp l.has_streamer (
            if-both IsHeld (is_connected p s) _ _
              (replaced-Holds tech _ l
                (take_frames p tech.channels tech.rtp_packets frames t).streamer refl
                (reset-SamePlayback s _ same.1) refl (same.0 ∙ size))
              l))

    pub act-Holds :
        (action : Action) (tech : Private p)
        → Permits Located action
        → IsHeld tech
        → IsHeld (act p action tech)
    unfolding act pause_resume set_openai_mute
    act-Holds (received env message) tech k l = receive-Holds env message tech l
    act-Holds (played located frame codec_ready) tech k l =
        write_frame-Holds located tech frame codec_ready k l
    act-Holds (paused pause) tech k l =
        replaced-Holds tech _ l l.streamer l.has_streamer (SamePlayback-refl p l.streamer) refl refl
    act-Holds (user_muted mute) tech k l = set_user_mute-Holds mute tech l
    act-Holds (openai_muted mute) tech k l =
        replaced-Holds tech _ l l.streamer l.has_streamer (SamePlayback-refl p l.streamer) refl refl
    act-Holds (json_sent input) tech k l = send_json-Holds input tech l
    act-Holds (flushed final) tech k l = flush_and_send-Holds final tech l

  pub IsFresh-Holds :
      (Q : Streamer p → Type 0)
      → ((o : Options) → Q (new_streamer p o))
      → (o : Options) (tech : Private p) → IsFresh p o tech
      → Holds Q 128000 (buffer.capacity tech.sbuffer) tech
  IsFresh-Holds Q fresh o tech f = record {
    streamer = new_streamer p o;
    has_streamer = f.has_streamer;
    holds = fresh o;
    playback_capacity = f.playback_capacity;
    capture_capacity = refl;
  }
