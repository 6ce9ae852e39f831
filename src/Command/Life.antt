-- ===== src/Command/Life.antt =====
-- A channel's whole life: API commands, callbacks of the media bug and WebSocket messages, in any
-- order, each of them taken as one step; a capture turn comes with any outcome of its test, as that may
-- be of an earlier state.
pub mod Steps
pub mod Kept
pub mod Speech
pub mod Files
use mod_openai_realtime.Base.{Bool, List, [], ◌∷◌, Option, none, some, Bytes}
use mod_openai_realtime.Services.{Platform}
use mod_openai_realtime.Private.{Private}
use mod_openai_realtime.Message.{WsMessage, receive}
use mod_openai_realtime.Message.Files.{Env}
use mod_openai_realtime.Lifecycle.{Channel, Media, Callback, capture_callback}
use mod_openai_realtime.Command.Execute.{stream_api_execute}

pub data Event : Type 0 where
  commanded : Media → Bool → Bool → Bool → List Bytes → Event
  called_back : Callback → Event
  delivered : Env → WsMessage → Event

module _ (p : Platform) where
  -- A message reaches the session that is attached; a streamer that is gone has joined its thread.
  unfoldable pub deliver : Env → WsMessage → Channel p → Channel p
  deliver env message ch = elim ch.bug [
    | none ↦ ch
    | some tech ↦ record ch { bug = some (receive p env message tech) }
  ]

  unfoldable pub step : Event → Channel p → Channel p
  unfolding deliver
  step (commanded m force_raw located locked words) ch =
      (stream_api_execute p m force_raw located locked words ch).0
  step (called_back callback) ch = (capture_callback p callback ch).0
  step (delivered env message) ch = deliver env message ch

  unfoldable pub live : List Event → Channel p → Channel p
  unfolding step
  live [] ch = ch
  live (event ∷ events) ch = live events (step event ch)

  -- A channel that never had a session.
  abbrev pub new_channel : Channel p
  new_channel = record { bug = none; created = 0; destroyed = []; deleted = [] }
