-- ===== src/Tests/Lives.antt =====
-- The theorems on a channel's life at concrete inputs.
use mathlib.Core.List.{Memᴰ}
use mod_openai_realtime.Base.{
  ◌≡◌, refl, true, false, List, [], ◌∷◌, ◌++◌, none, some, codes, All, Option,
}
use mod_openai_realtime.Protocol.Uri.{validate_ws_uri, host_byte}
use mod_openai_realtime.Message.{receive}
use mod_openai_realtime.Private.{Private}
use mod_openai_realtime.Streamer.{Streamer, convert, notify, push_audio}
use mod_openai_realtime.Pcm.{convert_raw_audio, stitch, resample, carry, samples_of}
use mod_openai_realtime.Message.Files.{save_debug_audio_file}
use mod_openai_realtime.Setup.Init.{stream_session_init}
use mod_openai_realtime.Lifecycle.{
  write_replace, capture_callback, start_capture, stream_session_cleanup,
}
use mod_openai_realtime.Command.{parse_sampling_rate, parse_start, stream_command_from_string}
use mod_openai_realtime.Command.Execute.{stream_api_execute}
use mod_openai_realtime.Command.Life.{Event, called_back, live, new_channel}
use mod_openai_realtime.Command.Life.Files.{live-deletes}
use mod_openai_realtime.Command.Life.Speech.{live-alternates}
use mod_openai_realtime.Session.Run.Speech.{hear_all}
use mod_openai_realtime.Tests.Sample.{sample_platform, sample_streamer}
use mod_openai_realtime.Tests.Commands.{
  sample_events, sample_frame, session_or, sample_channel, sample_session, sample_channel-attached,
}

-- A session that has begun to play.
abbrev spoken_events : List Event
spoken_events = sample_events ++ called_back (write_replace true (some sample_frame) true) ∷ []

abbrev spoken_session : Private sample_platform
spoken_session = session_or (live sample_platform spoken_events (new_channel sample_platform)).bug

spoken_session-attached :
    (live sample_platform spoken_events (new_channel sample_platform)).bug ≡ some spoken_session
unfolding live capture_callback stream_api_execute stream_command_from_string parse_start
    validate_ws_uri host_byte parse_sampling_rate start_capture stream_session_init receive
spoken_session-attached = refl

live-alternates_example :
    (s : Streamer sample_platform) × (spoken_session.streamer ≡ some s)
    × (hear_all (some false) s.events ≡ some s.openai_speaking)
live-alternates_example =
    live-alternates sample_platform spoken_events spoken_session (tt, (tt, (refl, tt)))
      spoken_session-attached

-- The streamer of a session that wrote a file.
abbrev streamer_or : Option (Streamer sample_platform) → Streamer sample_platform
streamer_or none = sample_streamer
streamer_or (some s) = s

abbrev written_streamer : Streamer sample_platform
written_streamer = streamer_or sample_session.streamer

sample_session-streamer : sample_session.streamer ≡ some written_streamer
unfolding live capture_callback stream_api_execute stream_command_from_string parse_start
    validate_ws_uri host_byte parse_sampling_rate start_capture stream_session_init receive
sample_session-streamer = refl

written_streamer-files : written_streamer.files ≡ codes "file" ∷ []
unfolding live capture_callback stream_api_execute stream_command_from_string parse_start
    validate_ws_uri host_byte parse_sampling_rate start_capture stream_session_init receive convert
    convert_raw_audio stitch save_debug_audio_file notify resample carry samples_of push_audio
written_streamer-files = refl

live-deletes_example :
    let deleted =
      (stream_session_cleanup sample_platform true true none false sample_channel).0.deleted in
    All (λ file. Memᴰ file deleted) written_streamer.files
    × All (λ created. Memᴰ created.0 deleted) written_streamer.on_disk
live-deletes_example =
    live-deletes sample_platform sample_events sample_session written_streamer true none false
      sample_channel-attached sample_session-streamer refl
