-- ===== src/Session/Run.antt =====
-- openai_audio_streamer_glue.cpp: a session between its start and its cleanup: the steps of its
-- three threads, the WebSocket's, the media's and those of the API.
pub mod Captured
pub mod Invariant
pub mod Playing
pub mod Holds
pub mod Live
pub mod Speech
pub mod Tracked
pub mod Plays
pub mod Silent
pub mod Muting
use mod_openai_realtime.Base.{Bool, false, List, [], ◌∷◌, Option, Bytes}
use mod_openai_realtime.Services.{Platform}
use mod_openai_realtime.Private.{Private}
use mod_openai_realtime.Playback.{Frame, write_frame}
use mod_openai_realtime.Capture.{CapturedFrame, may_capture, stream_turn}
use mod_openai_realtime.Message.{WsMessage, receive}
use mod_openai_realtime.Message.Files.{Env}
use mod_openai_realtime.Session.{
  send_json, pause_resume, set_openai_mute, set_user_mute, flush_and_send,
}

-- A step, with what the environment answers to it, of all that is no capture turn.
pub data Action : Type 0 where
  received : Env → WsMessage → Action
  played : Bool → Option Frame → Bool → Action
  paused : Bool → Action
  user_muted : Bool → Action
  openai_muted : Bool → Action
  json_sent : Option Bytes → Action
  flushed : Option Bytes → Action

-- A capture turn tests its flags, and behind that tries the mutex; `acted` is an action that comes
-- before, between or behind.
pub data Moment : Type 0 where
  tested : Moment
  turned : Bool → List CapturedFrame → Moment
  acted : Action → Moment

module _ (p : Platform) where
  unfoldable pub act : Action → Private p → Private p
  act (received env message) tech = receive p env message tech
  act (played located frame codec_ready) tech = (write_frame p located tech frame codec_ready).0
  act (paused pause) tech = (pause_resume p pause tech).0
  act (user_muted mute) tech = (set_user_mute p mute tech).0
  act (openai_muted mute) tech = (set_openai_mute p mute tech).0
  act (json_sent input) tech = (send_json p input tech).0
  act (flushed final) tech = (flush_and_send p final tech).0

  -- A session, and whether a capture turn under way has passed the test of its flags.
  pub record Capturing : Type 0 where
    pub tech : Private p
    pub passed : Bool

  -- The two accesses of a capture turn, with any action of another thread between them.
  unfoldable pub proceed : Moment → Capturing → Capturing
  unfolding act
  proceed tested σ = record σ { passed = may_capture p σ.tech }
  proceed (turned acquired frames) σ = record {
    tech = stream_turn p σ.passed acquired frames σ.tech;
    passed = false;
  }
  proceed (acted action) σ = record σ { tech = act action σ.tech }

  unfoldable pub run : List Moment → Capturing → Capturing
  unfolding proceed
  run [] σ = σ
  run (moment ∷ moments) σ = run moments (proceed moment σ)
