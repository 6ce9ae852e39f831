-- ===== src/Command/Life/Kept.antt =====
-- What holds whatever a channel has seen since it had no session.
use mod_openai_realtime.Base.{
  ◌≡◌, Bool, true, false, All, length, drop, List, [], ◌∷◌, none, some, arith,
}
use mod_openai_realtime.Services.{Platform}
use mod_openai_realtime.Streamer.{Streamer}
use mod_openai_realtime.Private.{Private}
use mod_openai_realtime.Playback.{Frame, write_frame, bytes_needed}
use mod_openai_realtime.Playback.Line.{session_line, replacement}
use mod_openai_realtime.Playback.Plays.{audible}
use mod_openai_realtime.Session.Run.Live.{Anyway, IsBounded-IsInvariant}
use mod_openai_realtime.Session.Run.Plays.{IsPlayable, IsLive-plays, new_streamer-IsBounded}
use mod_openai_realtime.Message.Bounded.{IsBounded}
use mod_openai_realtime.Lifecycle.{close, write_replace, capture_callback}
use mod_openai_realtime.Lifecycle.Accounts.{
  IsAccounted, IsReleased, bug-IsSession, cleanup-closed, capture_callback-IsAccounted,
}
use mod_openai_realtime.Command.Life.{Event, commanded, called_back, delivered, live, new_channel}
use mod_openai_realtime.Command.Life.Steps.{PermitsEvent, live-Accounted}

pub Permits-Anyway : (events : List Event) → All (PermitsEvent Anyway) events
Permits-Anyway [] = tt
Permits-Anyway (commanded m raw located locked words ∷ events) = (tt, Permits-Anyway events)
Permits-Anyway (called_back (write_replace located frame ready) ∷ events) =
    (tt, Permits-Anyway events)
Permits-Anyway (called_back _ ∷ events) = (tt, Permits-Anyway events)
Permits-Anyway (delivered env message ∷ events) = (tt, Permits-Anyway events)

module _ (p : Platform) where
  -- Whatever API commands, callbacks of the media bug and WebSocket messages a channel has seen since
  -- it had no session: every context that was created is destroyed or is the one behind the media bug;
  -- those destroyed have neither streamer nor resampler left; and the one behind the bug has its
  -- streamer, a playback buffer of 128000 bytes, and a valid queue.
  pub live-accounts :
      (events : List Event) → IsAccounted p (IsBounded p) (live p events (new_channel p))
  live-accounts events =
      live-Accounted p (IsBounded p) Anyway (IsBounded-IsInvariant p) (new_streamer-IsBounded p)
        events (Permits-Anyway events)

  -- Whatever API commands, callbacks and WebSocket messages a channel has seen since it had no session:
  -- when its media bug is closed and the lifecycle lock can be acquired, no session is attached any more, and as many contexts are destroyed as
  -- were ever created, each with its streamer and its resampler gone.
  pub live-closes :
      (events : List Event)
      → let ch = (capture_callback p (close true) (live p events (new_channel p))).0 in
        (ch.bug ≡ none) × (ch.created ≡ length ch.destroyed) × All (IsReleased p) ch.destroyed
  unfolding capture_callback
  live-closes events =
      let ch = live p events (new_channel p) in
      let a =
        capture_callback-IsAccounted p (IsBounded p) Anyway (IsBounded-IsInvariant p)
          (new_streamer-IsBounded p) (close true) ch tt (live-accounts events) in
      let gone = cleanup-closed p true none ch in (gone, grind (arith, a.balance, gone), a.released)

  -- Whatever API commands, callbacks and WebSocket messages a channel has seen since it had no session,
  -- when a session is attached that is not paused, and for a frame with audio that needs at most 47616
  -- bytes: the session has its streamer, and `write_frame` puts the next `bytes_needed` bytes of the
  -- audible audio into the frame, padded with silence (or nothing, when there is none or the playback is
  -- muted), and leaves exactly the audio behind them to be played.
  pub live-plays :
      (events : List Event) (tech : Private p) (located : Bool) (frame : Frame)
      → (live p events (new_channel p)).bug ≡ some tech
      → IsPlayable p frame
      → tech.audio_paused ≡ false
      → let w = write_frame p located tech (some frame) true in
        (s : Streamer p) × (tech.streamer ≡ some s)
        × (session_line p w.0 ≡ drop (bytes_needed p frame) (audible p tech s))
        × (w.1 ≡ replacement p tech.openai_audio_muted (audible p tech s) frame)
  live-plays events tech located frame e f running =
      let (room, l) =
        bug-IsSession p (IsBounded p) (live p events (new_channel p)) tech e
          (live-accounts events) in
      let plays = IsLive-plays p room tech located frame l f running in
      (l.streamer, l.has_streamer, plays.0, plays.1)
