-- ===== src/Tests/Commands.antt =====
-- The theorems on commands and sessions at concrete inputs.
use mod_openai_realtime.Base.{
  ℕ, ◌*◌, ◌≤◌, ◌≡◌, refl, true, false, List, [], ◌∷◌, ◌++◌, Option, none, some, arith, ◌↔◌, Bytes,
  codes, length, drop, All,
}
use mod_openai_realtime.Protocol.Uri.{validate_ws_uri, host_byte}
use mod_openai_realtime.Message.{receive}
use mod_openai_realtime.Private.{Private}
use mod_openai_realtime.Streamer.{Streamer}
use mod_openai_realtime.Playback.{Frame, write_frame, bytes_needed}
use mod_openai_realtime.Playback.Line.{session_line, replacement}
use mod_openai_realtime.Playback.Plays.{audible}
use mod_openai_realtime.Capture.{Taking}
use mod_openai_realtime.Message.{binary}
use mod_openai_realtime.Message.Bounded.{IsBounded}
use mod_openai_realtime.Message.Files.{Env}
use mod_openai_realtime.Setup.{Variables}
use mod_openai_realtime.Setup.Init.{Request, stream_session_init, options_of}
use mod_openai_realtime.Setup.Fresh.{IsFresh, packet_bytes, stream_session_init-IsFresh}
use mod_openai_realtime.Session.Run.Plays.{IsPlayable}
use mod_openai_realtime.Lifecycle.{
  Channel, Media, Start, close, request, capture_callback, start_capture,
}
use mod_openai_realtime.Lifecycle.Accounts.{IsAccounted, IsReleased}
use mod_openai_realtime.Command.{
  check_rate, parse_sampling_rate, parse_start, stream_command_from_string,
}
use mod_openai_realtime.Command.Rates.{IsRate, parse_sampling_rate-IsRate}
use mod_openai_realtime.Command.Start.{IsStart}
use mod_openai_realtime.Command.Start.Exact.{parse_start-IsStart}
use mod_openai_realtime.Command.Execute.{stream_api_execute, command_syntax, failure}
use mod_openai_realtime.Command.Refused.{IsRefused, malformed, stream_api_execute-IsRefused}
use mod_openai_realtime.Command.Life.{Event, commanded, delivered, live, new_channel}
use mod_openai_realtime.Command.Life.Kept.{live-plays, live-closes, live-accounts}
use mod_openai_realtime.Session.Run.{
  Moment, tested, turned, acted, Capturing, received, user_muted, flushed, act, run,
}
use mod_openai_realtime.Session.Run.Silent.{IsSilent}
use mod_openai_realtime.Session.Run.Muting.{run-IsSilent}
use mod_openai_realtime.Numeral.Exact.{IsNumeral}
use mod_openai_realtime.Setup.{rtp_packets_of}
use mod_openai_realtime.Setup.Window.{rtp_packets_of-IsNumeral}
use mod_openai_realtime.Tests.Sample.{sample_platform, sample_streamer, sample_private}

abbrev pub sample_variables : Variables
sample_variables = record { get = λ name. none; is_true = λ name. false }

abbrev pub sample_media : Media
sample_media = record {
  uuid = codes "id";
  pre_answer = true;
  read_rate = some 8000;
  write_rate = some 8000;
  memory = record { objects = true; mutex = true; context = true };
  variables = sample_variables;
  bug_added = true;
  lockable = true;
  removable = true;
}

abbrev pub sample_env : Env
sample_env = record {
  located = true;
  created = true;
  written = true;
  partial = 0;
  path = λ n. codes "file";
}

abbrev pub sample_start : List Bytes
sample_start =
    codes "id" ∷ codes "start" ∷ codes "ws://a/x" ∷ codes "mono" ∷ codes "8k" ∷ codes "8k" ∷ []

abbrev pub sample_frame : Frame
sample_frame = record { audio = 0 ∷ 0 ∷ 0 ∷ 0 ∷ []; datalen = 4; samples = 2; buflen = 640 }

-- A raw session that is started, and gets a frame of audio.
abbrev pub sample_events : List Event
sample_events =
    commanded sample_media true true true sample_start
    ∷ delivered sample_env (binary (1 ∷ 2 ∷ 3 ∷ 4 ∷ 5 ∷ 6 ∷ []))
    ∷ []

abbrev pub session_or : Option (Private sample_platform) → Private sample_platform
session_or none = sample_private
session_or (some tech) = tech

abbrev pub sample_channel : Channel sample_platform
sample_channel = live sample_platform sample_events (new_channel sample_platform)

abbrev pub sample_session : Private sample_platform
sample_session = session_or sample_channel.bug

pub sample_channel-attached : sample_channel.bug ≡ some sample_session
unfolding live capture_callback stream_api_execute stream_command_from_string parse_start
    validate_ws_uri host_byte parse_sampling_rate start_capture stream_session_init
sample_channel-attached = refl

sample_session-runs : sample_session.audio_paused ≡ false
unfolding live capture_callback stream_api_execute stream_command_from_string parse_start
    validate_ws_uri host_byte parse_sampling_rate start_capture stream_session_init receive
sample_session-runs = refl

pub sample_frame-IsPlayable : IsPlayable sample_platform sample_frame
sample_frame-IsPlayable = record {
  has_samples = omega arith;
  has_data = omega arith;
  has_room = omega arith;
  small = omega arith;
  fits = omega arith;
}

live-plays_example :
    let w = write_frame sample_platform true sample_session (some sample_frame) true in
    (s : Streamer sample_platform) × (sample_session.streamer ≡ some s)
    × (session_line sample_platform w.0
        ≡ drop
            (bytes_needed sample_platform sample_frame)
            (audible sample_platform sample_session s))
    × (w.1
        ≡ replacement sample_platform sample_session.openai_audio_muted
            (audible sample_platform sample_session s)
            sample_frame)
live-plays_example =
    live-plays sample_platform sample_events sample_session true sample_frame
      sample_channel-attached sample_frame-IsPlayable sample_session-runs

live-closes_example :
    let ch = (capture_callback sample_platform (close true) sample_channel).0 in
    (ch.bug ≡ none)
    × (ch.created ≡ length ch.destroyed)
    × All (IsReleased sample_platform) ch.destroyed
live-closes_example = live-closes sample_platform sample_events

live-accounts_example : IsAccounted sample_platform (IsBounded sample_platform) sample_channel
live-accounts_example = live-accounts sample_platform sample_events

parse_start-IsStart_example :
    let s : Start = record {
      uri = codes "ws://a";
      stereo = false;
      sampling = 16000;
      playback_sampling = 24000;
      start_muted = true;
      force_raw_audio_mode = false;
    } in
    (parse_start false (codes "ws://a") (codes "mixed") (codes "16k" ∷ codes "MUTE_USER" ∷ [])
      ≡ some s)
    ↔ IsStart false (codes "ws://a") (codes "mixed") (codes "16k" ∷ codes "MUTE_USER" ∷ []) s
parse_start-IsStart_example =
    parse_start-IsStart false (codes "ws://a") (codes "mixed")
      (codes "16k" ∷ codes "MUTE_USER" ∷ [])
      (record {
        uri = codes "ws://a";
        stereo = false;
        sampling = 16000;
        playback_sampling = 24000;
        start_muted = true;
        force_raw_audio_mode = false;
      })

parse_sampling_rate-IsRate_example :
    (check_rate (parse_sampling_rate (codes " +32000")) ≡ some 32000)
    ↔ IsRate (codes " +32000") 32000
parse_sampling_rate-IsRate_example = parse_sampling_rate-IsRate (codes " +32000") 32000

stop_too_long :
    IsRefused sample_platform false
      (stream_command_from_string (codes "stop"))
      (codes "a" ∷ codes "b" ∷ [])
      sample_channel
unfolding stream_command_from_string
stop_too_long = malformed (λ h. h)

stream_api_execute-IsRefused_example :
    stream_api_execute sample_platform sample_media false true true
      (codes "id" ∷ codes "stop" ∷ codes "a" ∷ codes "b" ∷ [])
      sample_channel
    ≡ (
      sample_channel,
      command_syntax (stream_command_from_string (codes "stop")) (codes "a" ∷ codes "b" ∷ [])
          ++ failure ∷ [],
    )
stream_api_execute-IsRefused_example =
    stream_api_execute-IsRefused sample_platform sample_media false (codes "id") (codes "stop")
      (codes "a" ∷ codes "b" ∷ []) sample_channel stop_too_long

abbrev sample_request : Request
sample_request =
    request sample_platform sample_media
      (record {
        uri = codes "ws://a";
        stereo = true;
        sampling = 16000;
        playback_sampling = 24000;
        start_muted = true;
        force_raw_audio_mode = false;
      })
      8000

abbrev sample_init : Option (Private sample_platform)
sample_init =
    stream_session_init sample_platform (codes "id") sample_media.memory sample_variables
      sample_request

sample_init-some : sample_init ≡ some (session_or sample_init)
unfolding stream_session_init
sample_init-some = refl

stream_session_init-IsFresh_example :
    let tech = session_or sample_init in
    (headers : Option Bytes) × IsFresh sample_platform
      (options_of sample_platform sample_variables sample_request headers)
      tech
    × (sample_platform.buffer.capacity tech.sbuffer ≡ packet_bytes 16000 * 2 * tech.rtp_packets)
    × (1 ≤ tech.rtp_packets)
    × (tech.rtp_packets ≤ 50)
    × (tech.user_audio_muted ≡ true)
stream_session_init-IsFresh_example =
    stream_session_init-IsFresh sample_platform (codes "id") sample_media.memory sample_variables
      sample_request (session_or sample_init) refl sample_init-some

abbrev sample_taking : Taking sample_platform
sample_taking = record {
  sink = sample_private.sbuffer;
  streamer = sample_streamer;
  resampler = some 0;
}

abbrev Anytime : ℕ → Type 0
Anytime r = Unit

abbrev sample_moments : List Moment
sample_moments =
    tested
    ∷ turned true (record { audio = 1 ∷ 2 ∷ []; samples = 1 } ∷ [])
    ∷ acted (received sample_env (binary (1 ∷ 2 ∷ [])))
    ∷ acted (user_muted true)
    ∷ acted (flushed (some (codes "bye")))
    ∷ []

abbrev sample_capturing : Capturing sample_platform
sample_capturing = record { tech = sample_private; passed = false }

run-IsSilent_example :
    (s' : Streamer sample_platform) × ((act sample_platform
        (user_muted true)
        sample_private).streamer
      ≡ some s')
    × IsSilent sample_platform s'.sent_audio
        (run sample_platform (acted (user_muted true) ∷ sample_moments) sample_capturing).tech
run-IsSilent_example =
    run-IsSilent sample_platform sample_moments sample_capturing sample_streamer refl refl refl
      (tt, (tt, (tt, (refl, (tt, tt)))))

rtp_packets_of-IsNumeral_example :
    (rtp_packets_of (some (codes "100")) ≡ 5) ↔ (IsNumeral (codes "100") 100 × (5 ≤ 50))
rtp_packets_of-IsNumeral_example = rtp_packets_of-IsNumeral (codes "100") 5 (omega arith)
