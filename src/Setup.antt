-- ===== src/Setup.antt =====
-- openai_audio_streamer_glue.cpp: the constructor of AudioStreamer, `stream_data_init` and
-- `stream_session_init`, which read the channel's variables and build the context of a session.
pub mod Init
pub mod Fresh
pub mod Window
pub mod Authorization
use mod_openai_realtime.Base.{
  ℕ, ◌-◌, ◌*◌, ◌/◌, ◌%◌, Bool, true, false, not, ◌&&◌, List, [], ◌∷◌, ◌++◌, Option, none, some,
  ◌==◌, if◌then◌else◌, ◌>>=◌, guard, Bytes, codes, take,
}
use mod_openai_realtime.Services.{Platform, SocketOptions}
use mod_openai_realtime.Numeral.{strtol, whole_value}
use mod_openai_realtime.Queue.{empty_queue}
use mod_openai_realtime.Pcm.{Converter}
use mod_openai_realtime.Streamer.{Streamer}
use mod_openai_realtime.Streamer.Sending.{add_string}
use mod_openai_realtime.Private.{Private}
use mod_openai_realtime.Message.{c_str}

abbrev pub max_stream_buffer_ms : ℕ
max_stream_buffer_ms = 1000

abbrev pub max_heartbeat_seconds : ℕ
max_heartbeat_seconds = 3600

abbrev pub frame_size_8000 : ℕ
frame_size_8000 = 320

abbrev pub playback_buflen : ℕ
playback_buflen = 128000

abbrev pub max_session_id : ℕ
max_session_id = 256

-- `switch_channel_get_variable` and `switch_channel_var_true`.
pub record Variables : Type 0 where
  pub get : Bytes → Option Bytes
  pub is_true : Bytes → Bool

abbrev pub or_zero : Option ℕ → ℕ
or_zero none = 0
or_zero (some v) = v

-- STREAM_HEART_BEAT in seconds, 0 where it is absent or ignored.
unfoldable pub heart_beat_of : Option Bytes → ℕ
heart_beat_of none = 0
heart_beat_of (some text) = or_zero (whole_value 1 max_heartbeat_seconds (strtol text))

abbrev pub packets : Option ℕ → ℕ
packets none = 1
packets (some ms) = if ms % 20 == 0 then ms / 20 else 1

-- STREAM_BUFFER_SIZE in packets of 20 ms, 1 where it is absent or refused.
unfoldable pub rtp_packets_of : Option Bytes → ℕ
rtp_packets_of none = 1
rtp_packets_of (some text) = packets (whole_value 20 max_stream_buffer_ms (strtol text))

-- What `stream_session_init` passes on to `stream_data_init`.
pub record Options : Type 0 where
  pub ws_uri : Bytes
  pub sampling : ℕ
  pub playback_sampling : ℕ
  pub channels : ℕ
  pub samples_per_second : ℕ
  pub playback_target_rate : ℕ
  pub deflate : Bool
  pub heart_beat : ℕ
  pub suppress_log : Bool
  pub rtp_packets : ℕ
  pub extra_headers : Option Bytes
  pub no_reconnect : Bool
  pub tls_cafile : Option Bytes
  pub tls_keyfile : Option Bytes
  pub tls_certfile : Option Bytes
  pub tls_disable_hostname_validation : Bool
  pub disable_audiofiles : Bool
  pub start_muted : Bool
  pub raw_audio_mode : Bool

-- Whether the allocations succeed: the two objects, the mutex, the context.
pub record Memory : Type 0 where
  pub objects : Bool
  pub mutex : Bool
  pub context : Bool

-- A header of the JSON object is taken if it has a name and a text.
abbrev pub header_of : Option Bytes × Option Bytes → List (Bytes × Bytes)
header_of (some (c ∷ cs), some value) = (c ∷ cs, value) ∷ []
header_of _ = []

pub headers_of : List (Option Bytes × Option Bytes) → List (Bytes × Bytes)
headers_of [] = []
headers_of (m ∷ ms) = header_of m ++ headers_of ms

module _ (p : Platform) where
  -- The headers of STREAM_EXTRA_HEADERS, none if it is no JSON object.
  unfoldable pub parse_headers : Option Bytes → List (Bytes × Bytes)
  unfolding headers_of
  parse_headers none = []
  parse_headers (some text) = elim (p.json.parse text) [
    | none ↦ []
    | some value ↦ elim (p.json.members value) [ none ↦ [] | some ms ↦ headers_of ms ]
  ]

  -- The constructor. `deflate` is the request to disable the compression.
  unfoldable pub socket_options : Options → SocketOptions
  unfolding parse_headers
  socket_options o = record {
    url = o.ws_uri;
    ca_file = o.tls_cafile;
    key_file = o.tls_keyfile;
    cert_file = o.tls_certfile;
    disable_hostname_validation = o.tls_disable_hostname_validation;
    ping_interval = if o.heart_beat == 0 then none else some o.heart_beat;
    deflate = not o.deflate;
    headers = parse_headers o.extra_headers;
    reconnection = not o.no_reconnect;
  }

  unfoldable pub new_converter : Options → Converter p.speex.State
  new_converter o = record {
    in_sample_rate = o.playback_sampling;
    out_sample_rate = o.playback_target_rate;
    resampler =
        if o.playback_sampling == o.playback_target_rate
        then none
        else (p.speex.init 1 o.playback_sampling o.playback_target_rate).0;
    pending_raw_byte = 0;
    has_pending_raw_byte = false;
  }

  unfoldable pub new_streamer : Options → Streamer p
  unfolding socket_options new_converter
  new_streamer o = record {
    converter = new_converter o;
    socket = p.socket.configure (socket_options o);
    queue = empty_queue;
    playback_clear_gen = 0;
    playback_clear_gen_seen = 0;
    suppress_log = o.suppress_log;
    disable_audiofiles = o.disable_audiofiles;
    raw_audio_mode = o.raw_audio_mode;
    openai_speaking = false;
    response_audio_done = false;
    terminal_close = false;
    send_failure_logged = false;
    capture_reset_pending = false;
    started = false;
    play_file = 0;
    files = [];
    on_disk = [];
    events = [];
    sent_audio = [];
  }

  -- The capture resampler, if the rates differ; `none` outside is an error.
  unfoldable pub new_resampler : Options → Option (Option p.speex.State)
  new_resampler o =
      if o.sampling == o.samples_per_second
      then some none
      else (let (r, success) = p.speex.init o.channels o.samples_per_second o.sampling in
          if success then some r else none)

  unfoldable pub buflen : Options → ℕ
  buflen o = frame_size_8000 * o.sampling / 8000 * o.channels * o.rtp_packets

  -- `stream_data_init`; a context that is not completed is destroyed by the caller.
  unfoldable pub stream_data_init : Bytes → Memory → Options → Option (Private p)
  unfolding new_streamer new_resampler buflen
  stream_data_init uuid memory o = do
    playback_buffer ← p.buffer.create playback_buflen
    streamer ← guard (memory.objects && memory.mutex) (new_streamer o)
    sbuffer ← p.buffer.create (buflen o)
    resampler ← new_resampler o
    some (record {
      session_id = take (max_session_id - 1) uuid;
      resampler = resampler;
      streamer = some streamer;
      sampling = o.sampling;
      channels = o.channels;
      audio_paused = false;
      user_audio_muted = o.start_muted;
      openai_audio_muted = false;
      close_requested = false;
      sbuffer = sbuffer;
      rtp_packets = o.rtp_packets;
      playback_buffer = playback_buffer;
    })
