-- ===== src/Command/Life/Speech.antt =====
-- The speech events of a channel's life.
use mod_openai_realtime.Base.{◌≡◌, refl, List, some, false, All}
use mod_openai_realtime.Services.{Platform}
use mod_openai_realtime.Streamer.{Streamer}
use mod_openai_realtime.Private.{Private}
use mod_openai_realtime.Setup.{Options, new_streamer}
use mod_openai_realtime.Session.Run.Speech.{IsLocated, Alternates, Alternates-IsInvariant, hear_all}
use mod_openai_realtime.Lifecycle.Accounts.{bug-IsSession}
use mod_openai_realtime.Command.Life.{Event, live, new_channel}
use mod_openai_realtime.Command.Life.Steps.{PermitsEvent, live-Accounted}

module _ (p : Platform) where
  new_streamer-Alternates : (o : Options) → Alternates p (new_streamer p o)
  unfolding new_streamer hear_all
  new_streamer-Alternates o = refl

  -- Whatever API commands, callbacks of the media bug and WebSocket messages a channel has seen since
  -- it had no session, if the media thread always found the session when it played: in the events of
  -- a session that is attached, the starts and the stops of OpenAI's speech alternate, the first of
  -- them a start, and the last of them is a start exactly if the session takes OpenAI to be speaking.
  pub live-alternates :
      (events : List Event) (tech : Private p)
      → All (PermitsEvent IsLocated) events
      → (live p events (new_channel p)).bug ≡ some tech
      → (s : Streamer p) × (tech.streamer ≡ some s)
        × (hear_all (some false) s.events ≡ some s.openai_speaking)
  live-alternates events tech k e =
      let (room, l) = bug-IsSession p (Alternates p) (live p events (new_channel p)) tech e (
        live-Accounted p (Alternates p) IsLocated (Alternates-IsInvariant p) new_streamer-Alternates
          events k) in
      (l.streamer, l.has_streamer, l.holds)
