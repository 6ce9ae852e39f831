-- ===== src/Tests/Wires.antt =====
-- The theorem on the messages of a stop, on a client that keeps what it accepts, and the one on the
-- bytes of a frame.
use mod_openai_realtime.Base.{refl, arith, true, List, [], ◌∷◌, ◌++◌, none, some, codes}
use mod_openai_realtime.Services.{Platform}
use mod_openai_realtime.Streamer.{Streamer}
use mod_openai_realtime.Private.{Private}
use mod_openai_realtime.Session.{flush_and_send}
use mod_openai_realtime.Session.Wire.{
  Sent, text, binary, residue, final, Wire, Put, flush_and_send-Put,
}
use mod_openai_realtime.Playback.{write_frame}
use mod_openai_realtime.Tests.Commands.{sample_frame}
use mod_openai_realtime.Playback.Octets.{Sound, write_frame-Sound}
use mod_openai_realtime.Tests.Sample.{sample_platform, sample_streamer, sample_private}

abbrev kept_platform : Platform
kept_platform = record sample_platform {
  socket = record {
    State = List Sent;
    configure = λ options. [];
    start = λ w. some w;
    stop = λ w. w;
    is_open = λ w. true;
    send_text = λ w m. (w ++ text m ∷ [], true);
    send_binary = λ w m. (w ++ binary m ∷ [], true);
    automatic_reconnection = λ w. true;
  };
}

abbrev kept_wire : Wire kept_platform
kept_wire = record {
  sent = λ w. w;
  accepts_text = λ w m h. (refl, refl);
  accepts_binary = λ w m h. (refl, refl, refl);
}

abbrev kept_streamer : Streamer kept_platform
kept_streamer = record {
  converter = record {
    in_sample_rate = sample_streamer.converter.in_sample_rate;
    out_sample_rate = sample_streamer.converter.out_sample_rate;
    resampler = none;
    pending_raw_byte = 0;
    has_pending_raw_byte = sample_streamer.converter.has_pending_raw_byte;
  };
  socket = text (codes "hello") ∷ [];
  queue = sample_streamer.queue;
  playback_clear_gen = 0;
  playback_clear_gen_seen = 0;
  suppress_log = true;
  disable_audiofiles = true;
  raw_audio_mode = true;
  openai_speaking = sample_streamer.openai_speaking;
  response_audio_done = sample_streamer.response_audio_done;
  terminal_close = sample_streamer.terminal_close;
  send_failure_logged = sample_streamer.send_failure_logged;
  capture_reset_pending = sample_streamer.capture_reset_pending;
  started = true;
  play_file = 0;
  files = [];
  on_disk = [];
  events = [];
  sent_audio = [];
}

abbrev kept_private : Private kept_platform
kept_private = record {
  session_id = sample_private.session_id;
  resampler = none;
  streamer = some kept_streamer;
  sampling = 24000;
  channels = 1;
  audio_paused = sample_private.audio_paused;
  user_audio_muted = sample_private.user_audio_muted;
  openai_audio_muted = sample_private.openai_audio_muted;
  close_requested = sample_private.close_requested;
  sbuffer = record { held = 5 ∷ 6 ∷ []; room = 2 };
  rtp_packets = 2;
  playback_buffer = record { held = []; room = 128000 };
}

flush_and_send-Put_example :
    Put kept_platform kept_wire
      (text (codes "hello") ∷ residue (5 ∷ 6 ∷ []))
      (final kept_platform (some (codes "{}")))
      []
      (flush_and_send kept_platform (some (codes "{}")) kept_private)
flush_and_send-Put_example =
    flush_and_send-Put kept_platform kept_wire kept_private kept_streamer (some (codes "{}")) refl
      refl refl

write_frame-Sound_example :
    Sound sample_platform sample_frame
      (write_frame sample_platform true sample_private (some sample_frame) true)
write_frame-Sound_example =
    write_frame-Sound sample_platform true sample_private sample_frame true
      (omega arith, (omega arith, tt)) (omega arith)
