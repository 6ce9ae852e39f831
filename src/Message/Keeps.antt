-- ===== src/Message/Keeps.antt =====
-- What a property of the streamer needs in order to be kept by every message of the WebSocket.
use mod_openai_realtime.Base.{
  if-both, option-both, list-both, ℕ, ◌+◌, ◌≡◌, refl, Bool, true, false, not, ◌||◌, ◌&&◌, [], ◌∷◌,
  ◌++◌, Option, none, some, arith, ltb, pos, if◌then◌else◌, Bytes, codes, length, List, take,
}
use mod_openai_realtime.Services.{Platform}
use mod_openai_realtime.Protocol.Depth.{json_depth_exceeded}
use mod_openai_realtime.Protocol.Classify.{
  JsonMessageType, classify_json_message, error, speech_started, speech_stopped, audio_delta,
  audio_done, unhandled,
}
use mod_openai_realtime.Streamer.{
  Streamer, EventName, connect, disconnect, json, play, openai_speech_start, openai_speech_stop,
  notify, push_audio, clear_audio, convert, request_playback_clear, request_capture_reset,
}
use mod_openai_realtime.Streamer.Sending.{add_string}
use mod_openai_realtime.Message.{
  Processed, on_message, WsMessage, binary, text, opened, failed, closed, event_callback,
  NotifyEvent, connect_success, connect_error, connection_dropped, message_received,
  process_message, process_type, process_delta, take_delta, take_binary, attach_file, queue_audio,
  max_ws_message_bytes, max_json_depth, c_str,
}
use mod_openai_realtime.Message.Files.{
  Env, notify_file, save_debug_audio_file, create_wav_from_raw, is_empty,
}

-- The events that the media thread raises.
abbrev pub is_speech : EventName → Bool
is_speech openai_speech_start = true
is_speech openai_speech_stop = true
is_speech _ = false

module _ (p : Platform) where
  -- It is kept by each change that a message can make.
  pub record IsKept (Q : Streamer p → Type 0) : Type 0 where
    pub notified :
        (name : EventName) (body : Option Bytes) (s : Streamer p)
        → is_speech name ≡ false
        → Q s
        → Q (notify p name body s)
    pub converted : (input : Bytes) (s : Streamer p) → Q s → Q (convert p input s).0
    pub pushed : (x : ℕ) (xs : List ℕ) (s : Streamer p) → Q s → Q (push_audio p (x ∷ xs) s)
    pub cleared : (s : Streamer p) → Q s → Q (request_playback_clear p (clear_audio p s))
    pub counted : (s : Streamer p) → Q s → Q (record s { play_file = s.play_file + 1 })
    pub created :
        (file content : Bytes) (s : Streamer p)
        → Q s
        → Q (record s {
          play_file = s.play_file + 1;
          files = file ∷ s.files;
          on_disk = s.on_disk ++ (file, content) ∷ [];
        })
    pub response_done : (b : Bool) (s : Streamer p) → Q s → Q (record s { response_audio_done = b })
    pub ended :
        (s : Streamer p) → Q s → Q (record s { response_audio_done = true; terminal_close = true })
    pub dropped : (s : Streamer p) → Q s → Q (request_capture_reset p s)
    pub reopened :
        (s : Streamer p)
        → Q s
        → Q (record s { converter = record (s.converter) { has_pending_raw_byte = false } })

  module _ (Q : Streamer p → Type 0) (law : IsKept Q) where
    abbrev QThen : {B : Type 0} → Streamer p × B → Type 0
    QThen r = Q r.0

    abbrev QProcessed : Processed p → Type 0
    QProcessed r = Q r.0

    notify_file-keeps : (file : Bytes) (s : Streamer p) → Q s → Q (notify_file p file s)
    unfolding notify_file
    notify_file-keeps file s v = option-both Q p.json.create_object _ _ v (λ payload.
        option-both Q (p.json.print_unformatted (add_string p payload (codes "file") file)) _ _ v
          (λ printed. law.notified play (some printed) s refl v))

    save-keeps :
        (env : Env) (b : Bool) (raw_audio : Bytes) (s : Streamer p)
        → Q s
        → Q (save_debug_audio_file p env b raw_audio s).0
    unfolding save_debug_audio_file
    save-keeps env b raw_audio s v =
        let file = env.path s.play_file in
        let wav = create_wav_from_raw s.converter.in_sample_rate raw_audio in
        let kept = law.created file (if env.written then wav else take env.partial wav) s v in
        if-both QThen (not env.created) _ _ (law.counted s v) (
          if-both QThen (not env.written) _ _ kept
            (if-both Q (b && env.located) _ _ (notify_file-keeps file _ kept) kept))

    queue_audio-keeps : (raw_audio : Bytes) (s : Streamer p) → Q s → Q (queue_audio p raw_audio s).0
    unfolding queue_audio
    queue_audio-keeps raw_audio s v =
        let kept = law.converted raw_audio s v in
        list-both QThen (convert p raw_audio s).1 _ _ kept
          (λ x xs. law.pushed x xs (convert p raw_audio s).0 kept)

    attach_file-keeps :
        (env : Env) (raw_audio : Bytes) (value : p.json.Value) (s : Streamer p)
        → Q s
        → Q (attach_file p env raw_audio value s).0
    unfolding attach_file
    attach_file-keeps env raw_audio value s v =
        let saved = save-keeps env false raw_audio s v in ground arith

    take_delta-keeps :
        (env : Env) (raw_audio : Bytes) (value : p.json.Value) (message : Bytes) (s : Streamer p)
        → Q s
        → Q (take_delta p env raw_audio value message s).0
    unfolding take_delta
    take_delta-keeps env raw_audio value message s v =
        let value1 = p.json.delete_item value (codes "delta") in
        let attached = attach_file p env raw_audio value1 s in
        let kept = attach_file-keeps env raw_audio value1 s v in
        queue_audio-keeps raw_audio _ (
          option-both Q (p.json.print_unformatted attached.1) _ _ kept (λ printed.
            if-both Q attached.2 _ _ (law.notified play (some printed) attached.0 refl kept) kept))

    process_delta-keeps :
        (env : Env) (value : p.json.Value) (message : Bytes) (s : Streamer p)
        → Q s
        → Q (process_delta p env value message s).0
    unfolding process_delta
    process_delta-keeps env value message s v =
        let s' : Streamer p = record s { response_audio_done = false } in
        let begun = law.response_done false s v in
        option-both QProcessed (p.json.get_cstr value (codes "delta")) _ _ begun (λ audio.
          if-both QProcessed (is_empty audio) _ _ begun (
            option-both QProcessed (p.base64.decode audio) _ _ begun
              (λ raw_audio. take_delta-keeps env raw_audio value message s' begun)))

    process_type-keeps :
        (env : Env) (type : JsonMessageType) (value : p.json.Value) (message : Bytes)
        (s : Streamer p)
        → Q s
        → Q (process_type p env type value message s).0
    unfolding process_type
    process_type-keeps env speech_started value message s v = law.cleared s v
    process_type-keeps env audio_delta value message s v = process_delta-keeps env value message s v
    process_type-keeps env audio_done value message s v = law.response_done true s v
    process_type-keeps env error value message s v = v
    process_type-keeps env speech_stopped value message s v = v
    process_type-keeps env unhandled value message s v = v

    process_message-keeps :
        (env : Env) (message : Bytes) (s : Streamer p) → Q s → Q (process_message p env message s).0
    unfolding process_message
    process_message-keeps env message s v =
        if-both QProcessed (json_depth_exceeded (some message) (pos max_json_depth)) _ _ v (
          option-both QProcessed (p.json.parse message) _ _ v (λ value.
            option-both QProcessed (p.json.get_cstr value (codes "type")) _ _ v (λ type.
              process_type-keeps env (classify_json_message (some type)) value message s v)))

    event_callback-keeps :
        (env : Env) (event : NotifyEvent) (body : Option Bytes) (s : Streamer p)
        → Q s
        → Q (event_callback p env event body s).0
    unfolding event_callback
    event_callback-keeps env connect_success body s v =
        if-both QThen env.located _ _ (law.notified connect body s refl v) v
    event_callback-keeps env connection_dropped body s v =
        let gone = law.dropped _ (law.notified disconnect body s refl v) in
        if-both QThen env.located _ _
          (if-both QThen (p.socket.automatic_reconnection s.socket) _ _ gone (law.ended _ gone)) v
    event_callback-keeps env connect_error body s v =
        if-both QThen env.located _ _ (law.notified EventName.error body s refl v) v
    event_callback-keeps env message_received none s v = v
    event_callback-keeps env message_received (some received) s v =
        let processed = process_message p env received s in
        let kept = process_message-keeps env received s v in
        if-both QThen env.located _ _
          (if-both QThen processed.1 _ _ kept
            (law.notified json (some processed.2) processed.0 refl kept))
          v

    take_binary-keeps :
        (env : Env) (raw_audio : Bytes) (s : Streamer p) → Q s → Q (take_binary p env raw_audio s)
    unfolding take_binary
    take_binary-keeps env raw_audio s v =
        let s1 =
          if s.disable_audiofiles then s else (save_debug_audio_file p env true raw_audio s).0 in
        let s2 = (convert p raw_audio s1).0 in
        let kept =
          law.converted raw_audio s1
            (if-both Q s.disable_audiofiles _ _ v (save-keeps env true raw_audio s v)) in
        list-both Q (convert p raw_audio s1).1 _ _ kept
          (λ x xs. law.pushed x xs _ (law.response_done false s2 kept))

    pub on_message-keeps :
        (env : Env) (received : WsMessage) (s : Streamer p)
        → Q s
        → Q (on_message p env received s).0
    unfolding on_message
    on_message-keeps env (binary body) s v =
        if-both QThen (ltb max_ws_message_bytes (length body) || not s.raw_audio_mode) _ _ v
          (take_binary-keeps env body s v)
    on_message-keeps env (text body) s v =
        if-both QThen (ltb max_ws_message_bytes (length body)) _ _ v
          (event_callback-keeps env message_received (some (c_str body)) s v)
    on_message-keeps env opened s v =
        event_callback-keeps env connect_success _ _ (law.reopened s v)
    on_message-keeps env (failed retries reason wait_time http_status) s v =
        event_callback-keeps env connect_error _ s v
    on_message-keeps env (closed code reason) s v =
        event_callback-keeps env connection_dropped _ s v
