-- ===== src/Setup/Init.antt =====
-- openai_audio_streamer_glue.cpp, `stream_session_init`.
use mod_openai_realtime.Base.{ℕ, Bool, ◌||◌, ◌++◌, Option, none, some, ◌>>=◌, guard, Bytes, codes}
use mod_openai_realtime.Services.{Platform}
use mod_openai_realtime.Streamer.Sending.{add_string}
use mod_openai_realtime.Private.{Private}
use mod_openai_realtime.Setup.{
  Variables, Options, Memory, heart_beat_of, rtp_packets_of, stream_data_init,
}

-- The arguments of a start: those of the command, and the rates of the session's codecs, `none` for a
-- write codec that is not ready.
pub record Request : Type 0 where
  pub uri : Bytes
  pub sampling : ℕ
  pub playback_sampling : ℕ
  pub channels : ℕ
  pub start_muted : Bool
  pub force_raw_audio_mode : Bool
  pub samples_per_second : ℕ
  pub write_rate : Option ℕ

abbrev or_else : {A : Type 0} → Option A → A → A
or_else none a = a
or_else (some b) a = b

module _ (p : Platform) where
  -- The configured headers as an object, or an empty one.
  unfoldable pub headers_object : Option Bytes → Option p.json.Value
  headers_object none = p.json.create_object
  headers_object (some text) = elim (p.json.parse text) [
    | none ↦ p.json.create_object
    | some value ↦ elim (p.json.members value) [
      | none ↦ p.json.create_object
      | some ms ↦ some value
    ]
  ]

  -- The headers with the key's authorization in place of any other.
  unfoldable pub authorize : Bytes → Option Bytes → Option Bytes
  unfolding headers_object
  authorize openai_api_key configured_extra = do
    headers ← headers_object configured_extra
    p.json.print_unformatted (
        add_string p (p.json.delete_item headers (codes "Authorization")) (codes "Authorization")
          (codes "Bearer " ++ openai_api_key))

  -- `none` where the code returns a failure; inside, the headers if there are any.
  unfoldable pub extra_headers_of : Variables → Option (Option Bytes)
  unfolding authorize
  extra_headers_of v = elim (v.get (codes "STREAM_OPENAI_API_KEY")) [
    | none ↦ some (v.get (codes "STREAM_EXTRA_HEADERS"))
    | some key ↦ elim (authorize key (v.get (codes "STREAM_EXTRA_HEADERS"))) [
      | none ↦ none
      | some printed ↦ some (some printed)
    ]
  ]

  unfoldable pub options_of : Variables → Request → Option Bytes → Options
  options_of v r extra_headers = record {
    ws_uri = r.uri;
    sampling = r.sampling;
    playback_sampling = r.playback_sampling;
    channels = r.channels;
    samples_per_second = r.samples_per_second;
    playback_target_rate = or_else r.write_rate r.samples_per_second;
    deflate = v.is_true (codes "STREAM_MESSAGE_DEFLATE");
    heart_beat = heart_beat_of (v.get (codes "STREAM_HEART_BEAT"));
    suppress_log = v.is_true (codes "STREAM_SUPPRESS_LOG");
    rtp_packets = rtp_packets_of (v.get (codes "STREAM_BUFFER_SIZE"));
    extra_headers = extra_headers;
    no_reconnect = v.is_true (codes "STREAM_NO_RECONNECT");
    tls_cafile = v.get (codes "STREAM_TLS_CA_FILE");
    tls_keyfile = v.get (codes "STREAM_TLS_KEY_FILE");
    tls_certfile = v.get (codes "STREAM_TLS_CERT_FILE");
    tls_disable_hostname_validation = v.is_true (codes "STREAM_TLS_DISABLE_HOSTNAME_VALIDATION");
    disable_audiofiles = v.is_true (codes "STREAM_DISABLE_AUDIOFILES");
    start_muted = r.start_muted;
    raw_audio_mode = r.force_raw_audio_mode || v.is_true (codes "STREAM_RAW_AUDIO");
  }

  unfoldable pub stream_session_init : Bytes → Memory → Variables → Request → Option (Private p)
  unfolding extra_headers_of options_of stream_data_init
  stream_session_init uuid memory v r = do
    extra_headers ← extra_headers_of v
    options ← guard memory.context (options_of v r extra_headers)
    stream_data_init p uuid memory options
