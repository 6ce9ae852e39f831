-- ===== src/Tests.antt =====
-- Each main theorem at concrete inputs.
mod Sample
mod Commands
mod Lives
mod Races
mod Registry
mod Wires
mod Locks
mod Headers
use mod_openai_realtime.Base.{
  ℕ, ◌+◌, ◌≤◌, ◌<◌, ◌≡◌, ◌≢◌, refl, inl, inr, Bool, true, false, List, [], ◌∷◌, ◌++◌, Option, none,
  some, arith, ◌↔◌, pos, Bytes, codes, length, flatten, drop, All, map,
}
use mod_openai_realtime.Protocol.Json.{
  Value, atom, str, arr, obj, no_items, cons, no_fields, field, plain, end, render, nesting,
}
use mod_openai_realtime.Protocol.Depth.{json_depth_exceeded}
use mod_openai_realtime.Protocol.Depth.Nesting.{json_depth_exceeded-nesting}
use mod_openai_realtime.Protocol.Utf8.{is_valid_utf8}
use mod_openai_realtime.Protocol.Utf8.Sound.{IsUtf8, is_valid_utf8-IsUtf8}
use mod_openai_realtime.Protocol.Uri.{validate_ws_uri}
use mod_openai_realtime.Protocol.Uri.Grammar.{IsWsUri, name, number}
use mod_openai_realtime.Protocol.Uri.Grammar.Exact.{validate_ws_uri-IsWsUri}
use mod_openai_realtime.Protocol.Classify.{error}
use mod_openai_realtime.Protocol.Classify.Errors.{Occurs, classify_json_message-Occurs}
use mod_openai_realtime.Queue.{AudioQueue, max_playback_queue_samples}
use mod_openai_realtime.Protocol.Classify.{classify_json_message}
use mod_openai_realtime.Queue.Refine.{IsValid, push, pop, step, Fifo, contents, step-Fifo}
use mod_openai_realtime.Pcm.{bytes_of}
use mod_openai_realtime.Pcm.Aligned.{IsPlain, pending, convert_all, convert_all-stream}
use mod_openai_realtime.Streamer.{Streamer}
use mod_openai_realtime.Private.{Private}
use mod_openai_realtime.Playback.{Frame, write_frame, bytes_needed}
use mod_openai_realtime.Playback.Line.{session_line, replacement}
use mod_openai_realtime.Playback.Plays.{CanPlay, audible, write_frame-plays}
use mod_openai_realtime.Capture.{CapturedFrame, stream_frame}
use mod_openai_realtime.Capture.Conserve.{Accepts, captured}
use mod_openai_realtime.Capture.Frames.{CanCapture, kept, waiting, stream_frame-captures}
use mod_openai_realtime.Message.{process_message, on_message, WsMessage, text, binary}
use mod_openai_realtime.Message.Barge.{IsBargeIn, process_message-silences}
use mod_openai_realtime.Message.Delta.{Added, IsDelta, process_message-Added}
use mod_openai_realtime.Message.Bounded.{IsBounded, on_message-IsBounded}
use mod_openai_realtime.Message.Files.{Env, create_wav_from_raw}
use mod_openai_realtime.Message.Files.Wav.{IsWav, create_wav_from_raw-IsWav}
use mod_openai_realtime.Playback.Close.{closes, write_frame-closes}
use mod_openai_realtime.Session.{set_user_mute}
use mod_openai_realtime.Session.Mute.{Muted, set_user_mute-Muted}
use mod_openai_realtime.Tests.Sample.{sample_platform, sample_streamer, sample_private}

-- `{"a":[1]}`
abbrev sample_value : Value
sample_value = obj (
    field [] refl (plain b'a' (λ e. omega arith) (λ e. omega arith) end)
      (arr (cons (atom (b'1' ∷ []) refl) (no_items [] refl))) (no_fields [] refl))

json_depth_exceeded-nesting_example :
    json_depth_exceeded (some (render sample_value [])) (pos 1) ≡ true
unfolding nesting
json_depth_exceeded-nesting_example = json_depth_exceeded-nesting sample_value 1

is_valid_utf8-IsUtf8_example :
    (is_valid_utf8 (some (0xC3 ∷ 0xA9 ∷ [])) ≡ true) ↔ IsUtf8 (0xC3 ∷ 0xA9 ∷ [])
is_valid_utf8-IsUtf8_example =
    is_valid_utf8-IsUtf8 (0xC3 ∷ 0xA9 ∷ []) (omega arith, (omega arith, tt))

validate_ws_uri-IsWsUri_example :
    (validate_ws_uri (some (codes "ws://a:80/x")) true 20 ≡ some (codes "ws://a:80/x")) ↔ (
      (codes "ws://a:80/x" ≡ codes "ws://a:80/x")
      × IsWsUri (codes "ws://a:80/x")
      × (length (codes "ws://a:80/x") < 20))
validate_ws_uri-IsWsUri_example =
    validate_ws_uri-IsWsUri (codes "ws://a:80/x") (codes "ws://a:80/x") 20

abbrev sample_queue : AudioQueue ℕ
sample_queue = record {
  chunks = (1 ∷ 2 ∷ []) ∷ (3 ∷ []) ∷ [];
  samples = 3;
  overflow_logged = false;
}

sample_queue-IsValid : IsValid 4 sample_queue
sample_queue-IsValid = record {
  counted = refl;
  bounded = omega arith;
  short = ((omega arith, omega arith), ((omega arith, omega arith), tt));
}

step-Fifo_example :
    let r = step 4 sample_queue (push (5 ∷ [])) in
    IsValid 4 r.0 × Fifo 4 (push (5 ∷ [])) r.1 (contents sample_queue) (contents r.0)
step-Fifo_example = step-Fifo 4 sample_queue (push (5 ∷ [])) (omega arith) sample_queue-IsValid

sample_streamer-IsPlain : IsPlain sample_streamer.converter
sample_streamer-IsPlain = record {
  no_resampler = refl;
  same_rate = refl;
  pending_byte = (omega arith, tt);
}

convert_all-stream_example :
    let r =
      convert_all sample_platform.speex sample_streamer.converter ((1 ∷ 2 ∷ []) ∷ (3 ∷ []) ∷ []) in
    bytes_of r.1 ++ pending r.0 ≡ pending sample_streamer.converter ++ 1 ∷ 2 ∷ 3 ∷ []
convert_all-stream_example =
    convert_all-stream sample_platform.speex ((1 ∷ 2 ∷ []) ∷ (3 ∷ []) ∷ [])
      sample_streamer.converter sample_streamer-IsPlain
      (omega arith, (omega arith, (omega arith, tt)))

abbrev sample_frame : Frame
sample_frame = record { audio = 0 ∷ 0 ∷ 0 ∷ 0 ∷ []; datalen = 4; samples = 2; buflen = 640 }

sample-CanPlay : CanPlay sample_platform sample_private sample_streamer sample_frame
sample-CanPlay = record {
  has_streamer = refl;
  not_paused = refl;
  has_samples = omega arith;
  has_data = omega arith;
  has_room = omega arith;
  small = omega arith;
  room = omega arith;
  short = ((omega arith, omega arith), tt);
}

write_frame-plays_example :
    let r = write_frame sample_platform true sample_private (some sample_frame) true in
    (session_line sample_platform r.0
      ≡ drop
          (bytes_needed sample_platform sample_frame)
          (audible sample_platform sample_private sample_streamer))
    × (r.1
        ≡ replacement sample_platform false
            (audible sample_platform sample_private sample_streamer)
            sample_frame)
write_frame-plays_example =
    write_frame-plays sample_platform true sample_private sample_streamer sample_frame
      sample-CanPlay

sample-Accepts : Accepts sample_platform
sample-Accepts = record { accepted = λ w m o. refl; stays_open = λ w m o. refl }

sample-CanCapture : CanCapture sample_platform sample-Accepts sample_private sample_streamer
sample-CanCapture = record {
  has_streamer = refl;
  not_paused = refl;
  not_muted = refl;
  raw = record { raw = refl; open_socket = refl };
  capacity = omega arith;
  no_resampler = refl;
  idle = λ e. absurd (omega arith);
}

abbrev sample_frames : List CapturedFrame
sample_frames =
    record { audio = 1 ∷ 2 ∷ 3 ∷ 4 ∷ 5 ∷ []; samples = 2 }
    ∷ record { audio = 6 ∷ 7 ∷ []; samples = 1 }
    ∷ []

stream_frame-captures_example :
    (s' : Streamer sample_platform) × ((stream_frame sample_platform true sample_frames
        sample_private).streamer
      ≡ some s')
    × (captured sample_platform
          (stream_frame sample_platform true sample_frames sample_private).sbuffer
          s'
        ≡ (flatten sample_streamer.sent_audio
            ++ waiting sample_platform sample-Accepts sample_private sample_streamer)
          ++ flatten (map kept sample_frames))
stream_frame-captures_example =
    stream_frame-captures sample_platform sample-Accepts sample_frames sample_private
      sample_streamer sample-CanCapture

abbrev sample_env : Env
sample_env = record {
  located = true;
  created = true;
  written = true;
  partial = 0;
  path = λ n. codes "file";
}

abbrev barge_in : Bytes
barge_in = codes "input_audio_buffer.speech_started"

abbrev delta : Bytes
delta = codes "response.output_audio.delta"

sample-IsBargeIn :
    IsBargeIn sample_platform barge_in barge_in (codes "input_audio_buffer.speech_started")
unfolding json_depth_exceeded classify_json_message
sample-IsBargeIn = record { shallow = refl; parsed = refl; typed = refl; started = refl }

process_message-silences_example :
    let s' = (process_message sample_platform sample_env barge_in sample_streamer).0 in
    let r =
      write_frame sample_platform true
        (record sample_private { streamer = some s' })
        (some sample_frame)
        true in
    (session_line sample_platform r.0 ≡ []) × (r.1 ≡ none)
process_message-silences_example =
    process_message-silences sample_platform sample_env barge_in barge_in
      (codes "input_audio_buffer.speech_started") true sample_private sample_streamer sample_frame
      sample-CanPlay sample-IsBargeIn (omega arith) (omega arith)

sample_streamer-IsBounded : IsBounded sample_platform sample_streamer
unfolding max_playback_queue_samples
sample_streamer-IsBounded = record {
  counted = refl;
  bounded = omega arith;
  short = ((omega arith, omega arith), tt);
}

on_message-IsBounded_example :
    IsBounded sample_platform
      (on_message sample_platform sample_env (binary (1 ∷ 2 ∷ 3 ∷ [])) sample_streamer).0
on_message-IsBounded_example =
    on_message-IsBounded sample_platform sample_env (binary (1 ∷ 2 ∷ 3 ∷ [])) sample_streamer
      sample_streamer-IsBounded

set_user_mute-Muted_example :
    Muted sample_platform sample-Accepts sample_private sample_streamer
      (set_user_mute sample_platform true sample_private)
set_user_mute-Muted_example =
    set_user_mute-Muted sample_platform sample-Accepts sample_private sample_streamer refl refl
      (record { raw = refl; open_socket = refl })

write_frame-closes_example :
    (write_frame sample_platform true sample_private (some sample_frame) true).0.close_requested
    ≡ closes sample_platform false false
        (length (audible sample_platform sample_private sample_streamer))
write_frame-closes_example =
    write_frame-closes sample_platform true sample_private sample_streamer sample_frame
      sample-CanPlay

create_wav_from_raw-IsWav_example :
    IsWav 24000 (1 ∷ 2 ∷ []) (create_wav_from_raw 24000 (1 ∷ 2 ∷ []))
create_wav_from_raw-IsWav_example =
    create_wav_from_raw-IsWav 24000 (1 ∷ 2 ∷ []) (omega arith) (omega arith)

sample-IsDelta : IsDelta sample_platform delta delta delta (1 ∷ 2 ∷ []) (1 ∷ 2 ∷ [])
unfolding json_depth_exceeded classify_json_message
sample-IsDelta = record {
  shallow = refl;
  parsed = refl;
  typed = refl;
  delta = refl;
  has_audio = refl;
  some_audio = refl;
  decoded = refl;
}

process_message-Added_example :
    let r = process_message sample_platform sample_env delta sample_streamer in
    Added sample_platform sample_streamer.converter sample_streamer.queue (1 ∷ 2 ∷ []) r.0 r.1
    × (r.0.response_audio_done ≡ false)
process_message-Added_example =
    process_message-Added sample_platform sample_env delta delta delta (1 ∷ 2 ∷ []) (1 ∷ 2 ∷ [])
      sample_streamer sample_streamer-IsBounded sample-IsDelta

classify_json_message-Occurs_example :
    (classify_json_message (some (codes "an error")) ≡ error)
    ↔ Occurs (codes "error") (codes "an error")
classify_json_message-Occurs_example = classify_json_message-Occurs (codes "an error")
