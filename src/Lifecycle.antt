-- ===== src/Lifecycle.antt =====
-- The life of a session on its channel: `start`, `disconnect` and `deleteFiles` of AudioStreamer,
-- `finish`, `destroy_tech_pvt`, `stream_session_start`, `stream_session_release` and
-- `stream_session_cleanup` of openai_audio_streamer_glue.cpp; `start_capture` and `capture_callback` of
-- mod_openai_audio_stream.c. A start or a cleanup holds the session's lifecycle lock and is taken as one
-- step: a media callback that comes while a bug is attached or removed counts as before or behind it.
pub mod Accounts
use mod_openai_realtime.Base.{
  ℕ, ◌+◌, Bool, true, false, not, ◌&&◌, ◌||◌, List, [], ◌∷◌, ◌++◌, Option, none, some, ltb,
  if◌then◌else◌, Bytes,
}
use mod_openai_realtime.Services.{Platform}
use mod_openai_realtime.Streamer.{Streamer}
use mod_openai_realtime.Private.{Private}
use mod_openai_realtime.Playback.{Frame, write_frame}
use mod_openai_realtime.Capture.{CapturedFrame, stream_turn}
use mod_openai_realtime.Setup.{Memory, Variables}
use mod_openai_realtime.Setup.Init.{Request, stream_session_init}
use mod_openai_realtime.Session.{flush_and_send}

-- The channel: the context behind its media bug (a bug is always added with one), how many contexts
-- were handed over, those that were destroyed, and the debug files removed.
pub record Channel (p : Platform) : Type 0 where
  pub bug : Option (Private p)
  pub created : ℕ
  pub destroyed : List (Private p)
  pub deleted : List Bytes

-- What the system answers while a command runs. A rate is `none` for a codec that is not ready.
-- `lockable` says that a cleanup acquires the lifecycle lock, which the command holds, once more.
pub record Media : Type 0 where
  pub uuid : Bytes
  pub pre_answer : Bool
  pub read_rate : Option ℕ
  pub write_rate : Option ℕ
  pub memory : Memory
  pub variables : Variables
  pub bug_added : Bool
  pub lockable : Bool
  pub removable : Bool

-- The arguments of `start_capture`.
pub record Start : Type 0 where
  pub uri : Bytes
  pub stereo : Bool
  pub sampling : ℕ
  pub playback_sampling : ℕ
  pub start_muted : Bool
  pub force_raw_audio_mode : Bool

-- `switch_abc_type_t`, with what the callbacks get: whether CLOSE's cleanup acquires the lifecycle lock,
-- and for the two media callbacks the environment of `stream_turn` and of `write_frame`.
pub data Callback : Type 0 where
  init other : Callback
  close : Bool → Callback
  read : Bool → Bool → List CapturedFrame → Callback
  write_replace : Bool → Option Frame → Bool → Callback

module _ (p : Platform) where
  open p use {socket}

  -- `none` is an exception of the client.
  unfoldable pub start : Streamer p → Streamer p × Bool
  start s = elim (socket.start s.socket) [
    | none ↦ (s, false)
    | some w ↦ (record s { socket = w; started = true }, true)
  ]

  unfoldable pub disconnect : Streamer p → Streamer p
  disconnect s =
      if s.started then record s { started = false; socket = socket.stop s.socket } else s

  -- The files that `deleteFiles` removes.
  unfoldable pub delete_files : Streamer p → List Bytes
  delete_files s = if ltb 0 s.play_file then s.files else []

  -- The context without its streamer, and the files removed.
  unfoldable pub finish : Private p → Private p × List Bytes
  unfolding disconnect delete_files
  finish tech = elim tech.streamer [
    | none ↦ (tech, [])
    | some s ↦ (record tech { streamer = none }, delete_files (disconnect s))
  ]

  -- The streamer, its thread joined, and the resampler are gone; no code looks at the context again.
  unfoldable pub destroy_tech_pvt : Private p → Private p
  destroy_tech_pvt tech = record tech { streamer = none; resampler = none }

  unfoldable pub release : Private p → Channel p → Channel p
  unfolding destroy_tech_pvt
  release tech ch = record ch { destroyed = destroy_tech_pvt tech ∷ ch.destroyed }

  -- `finish` and `destroy_tech_pvt` on a context that is detached.
  unfoldable pub teardown : Private p → Channel p → Channel p
  unfolding finish release
  teardown tech ch =
      let (tech', files) = finish tech in
      release tech' (record ch { bug = none; deleted = ch.deleted ++ files })

  -- Behind the lifecycle lock. While the bug is removed, its CLOSE callback cleans up a channel without
  -- a bug, which does nothing.
  unfoldable pub locked_cleanup : Bool → Option Bytes → Bool → Channel p → Channel p × Bool
  unfolding teardown
  locked_cleanup removable text channel_is_closing ch = elim ch.bug [
    | none ↦ (ch, false)
    | some tech ↦
        let (tech', status) = flush_and_send p text tech in
        if not channel_is_closing && not removable
        then (record ch { bug = some tech' }, false)
        else (teardown tech' ch, status)
  ]

  -- `lockable` is the outcome of `acquire_lifecycle_lock`, which fails for want of memory.
  unfoldable pub stream_session_cleanup :
      Bool → Bool → Option Bytes → Bool → Channel p → Channel p × Bool
  unfolding locked_cleanup
  stream_session_cleanup lockable removable text channel_is_closing ch =
      if not lockable then (ch, false) else locked_cleanup removable text channel_is_closing ch

  -- The new context, and whether its WebSocket thread runs.
  unfoldable pub stream_session_start : Private p → Private p × Bool
  unfolding start
  stream_session_start tech = elim tech.streamer [
    | none ↦ (tech, false)
    | some s ↦ let (s', success) = start s in (record tech { streamer = some s' }, success)
  ]

  -- From the adding of the media bug on.
  unfoldable pub attach : Media → Private p → Channel p → Channel p × Bool
  unfolding release stream_session_start stream_session_cleanup
  attach m tech ch =
      if not m.bug_added
      then (release tech ch, false)
      else (let (tech', running) = stream_session_start tech in
          let ch' : Channel p = record ch { bug = some tech' } in
          if running
          then (ch', true)
          else ((stream_session_cleanup m.lockable m.removable none false ch').0, false))

  abbrev pub request : Media → Start → ℕ → Request
  request m a samples_per_second = record {
    uri = a.uri;
    sampling = a.sampling;
    playback_sampling = a.playback_sampling;
    channels = if a.stereo then 2 else 1;
    start_muted = a.start_muted;
    force_raw_audio_mode = a.force_raw_audio_mode;
    samples_per_second = samples_per_second;
    write_rate = m.write_rate;
  }

  -- A session is created behind all checks.
  unfoldable pub create : Media → Start → ℕ → Channel p → Channel p × Bool
  unfolding attach
  create m a rate ch = elim (stream_session_init p m.uuid m.memory m.variables (request m a rate)) [
    | none ↦ (ch, false)
    | some tech ↦ attach m tech (record ch { created = ch.created + 1 })
  ]

  unfoldable pub start_capture : Media → Start → Channel p → Channel p × Bool
  unfolding create
  start_capture m a ch = elim ch.bug [
    | some tech ↦ (ch, false)
    | none ↦
        if m.pre_answer
        then (elim m.read_rate [ none ↦ (ch, false) | some rate ↦ create m a rate ch ])
        else (ch, false)
  ]

  -- A media callback on a bug that is attached; false asks FreeSWITCH to remove it.
  unfoldable pub media_callback : Callback → Private p → Private p × Bool
  media_callback (read passed acquired frames) tech =
      if tech.close_requested
      then (tech, false)
      else (stream_turn p passed acquired frames tech, true)
  media_callback (write_replace located frame codec_ready) tech =
      if tech.close_requested
      then (tech, false)
      else ((write_frame p located tech frame codec_ready).0, true)
  media_callback _ tech = (tech, true)

  -- A callback but CLOSE.
  unfoldable pub on_media : Callback → Channel p → Channel p × Bool
  unfolding media_callback
  on_media callback ch = elim ch.bug [
    | none ↦ (ch, true)
    | some tech ↦
        let (tech', stays) = media_callback callback tech in (record ch { bug = some tech' }, stays)
  ]

  unfoldable pub capture_callback : Callback → Channel p → Channel p × Bool
  unfolding on_media stream_session_cleanup
  capture_callback (close lockable) ch =
      ((stream_session_cleanup lockable true none true ch).0, true)
  capture_callback callback ch = on_media callback ch
