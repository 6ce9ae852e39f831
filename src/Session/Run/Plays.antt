-- ===== src/Session/Run/Plays.antt =====
-- A session from its start on: whatever has happened in it, `write_frame` plays the audio it holds.
use mod_openai_realtime.Base.{ℕ, ◌^◌, ◌≤◌, ◌<◌, ◌≡◌, refl, some, true, false, Bool, arith, drop}
use mod_openai_realtime.Services.{Platform}
use mod_openai_realtime.Private.{Private}
use mod_openai_realtime.Playback.{Frame, write_frame, bytes_needed}
use mod_openai_realtime.Playback.Line.{session_line, replacement}
use mod_openai_realtime.Playback.Plays.{CanPlay, audible, write_frame-plays}
use mod_openai_realtime.Message.Bounded.{IsBounded}
use mod_openai_realtime.Setup.{Options, new_streamer}
use mod_openai_realtime.Session.Run.Live.{IsLive}

-- A frame with audio, of a size of which the playback buffer holds two and one chunk more.
pub record IsPlayable (p : Platform) (frame : Frame) : Type 0 where
  pub has_samples : 0 < frame.samples
  pub has_data : 0 < frame.datalen
  pub has_room : 0 < frame.buflen
  pub small : frame.datalen < 2 ^ 31
  pub fits : bytes_needed p frame ≤ 47616

module _ (p : Platform) where
  open p use {buffer}

  pub new_streamer-IsBounded : (o : Options) → IsBounded p (new_streamer p o)
  unfolding new_streamer
  new_streamer-IsBounded o = record { counted = refl; bounded = omega arith; short = tt }

  IsLive-CanPlay :
      (capture_room : ℕ) (tech : Private p) (frame : Frame)
      → IsPlayable p frame
      → tech.audio_paused ≡ false
      → (l : IsLive p 128000 capture_room tech) → CanPlay p tech l.streamer frame
  IsLive-CanPlay capture_room tech frame f running l = record {
    has_streamer = l.has_streamer;
    not_paused = running;
    has_samples = f.has_samples;
    has_data = f.has_data;
    has_room = f.has_room;
    small = f.small;
    room = omega (arith, f.fits, l.playback_capacity);
    short = l.holds.short;
  }

  pub IsLive-plays :
      (capture_room : ℕ) (tech : Private p) (located : Bool) (frame : Frame)
      → (l : IsLive p 128000 capture_room tech) → IsPlayable p frame
      → tech.audio_paused ≡ false
      → let w = write_frame p located tech (some frame) true in
        (session_line p w.0 ≡ drop (bytes_needed p frame) (audible p tech l.streamer))
        × (w.1 ≡ replacement p tech.openai_audio_muted (audible p tech l.streamer) frame)
  IsLive-plays capture_room tech located frame l f running =
      write_frame-plays p located tech l.streamer frame
        (IsLive-CanPlay capture_room tech frame f running l)
