-- ===== src/Message.antt =====
-- openai_audio_streamer_glue.cpp: what the WebSocket thread does with a message or an event, from the
-- callback of the AudioStreamer constructor to `processMessage`.
pub mod Files
pub mod Barge
pub mod Keeps
pub mod Bounded
pub mod Sent
pub mod Delta
use mod_openai_realtime.Base.{
  ℕ, ◌*◌, Bool, true, false, not, ◌||◌, List, [], ◌∷◌, Option, none, some, ltb, ◌==◌, if◌then◌else◌,
  pos, Bytes, codes, length,
}
use mod_openai_realtime.Services.{Platform}
use mod_openai_realtime.Protocol.Depth.{json_depth_exceeded}
use mod_openai_realtime.Protocol.Classify.{
  classify_json_message, JsonMessageType, speech_started, audio_delta, audio_done,
}
use mod_openai_realtime.Streamer.{
  Streamer, EventName, connect, disconnect, error, json, play, notify, push_audio, clear_audio,
  convert, request_playback_clear, request_capture_reset,
}
use mod_openai_realtime.Streamer.Sending.{add_string}
use mod_openai_realtime.Message.Files.{Env, save_debug_audio_file, is_empty}
use mod_openai_realtime.Private.{Private}

abbrev pub max_ws_message_bytes : ℕ
max_ws_message_bytes = 8 * 1024 * 1024

abbrev pub max_json_depth : ℕ
max_json_depth = 128

-- `notifyEvent_t`.
pub data NotifyEvent : Type 0 where
  connect_success connect_error connection_dropped message_received : NotifyEvent

-- `ix::WebSocketMessage`, as far as the callback reads it.
pub data WsMessage : Type 0 where
  binary text : Bytes → WsMessage
  opened : WsMessage
  failed : ℕ → Bytes → ℕ → ℕ → WsMessage
  closed : ℕ → Bytes → WsMessage

-- `c_str()` of a text that may hold a NUL.
pub c_str : Bytes → Bytes
c_str [] = []
c_str (c ∷ cs) = if c == 0 then [] else c ∷ c_str cs

module _ (p : Platform) where
  -- The streamer, the status (true for handled), and the message as events are to show it.
  abbrev pub Processed : Type 0
  Processed = Streamer p × Bool × Bytes

  -- The samples of a delta, queued if there are any.
  unfoldable pub queue_audio : Bytes → Streamer p → Streamer p × Bool
  queue_audio raw_audio s =
      let (s', samples) = convert p raw_audio s in
      elim samples [ [] ↦ (s', false) | x ∷ xs ↦ (push_audio p (x ∷ xs) s', true) ]

  -- The debug file of a delta: its name goes into the message if it was written.
  unfoldable pub attach_file :
      Env → Bytes → p.json.Value → Streamer p → Streamer p × p.json.Value × Bool
  attach_file env raw_audio value s =
      if s.disable_audiofiles
      then (s, value, false)
      else (let (s', file) = save_debug_audio_file p env false raw_audio s in
          elim file [
            | [] ↦ (s', value, false)
            | c ∷ cs ↦ elim (p.json.create_string (c ∷ cs)) [
              | none ↦ (s', value, false)
              | some name ↦ (s', p.json.add_item value (codes "file") name, true)
            ]
          ])

  -- An `AudioDelta` behind its decoding.
  unfoldable pub take_delta : Env → Bytes → p.json.Value → Bytes → Streamer p → Processed
  unfolding queue_audio attach_file
  take_delta env raw_audio value message s =
      let (s1, value', notify_play) =
        attach_file env raw_audio (p.json.delete_item value (codes "delta")) s in
      let printed = p.json.print_unformatted value' in
      let s2 : Streamer p = elim printed [
        | none ↦ s1
        | some printed_text ↦ if notify_play then notify p play (some printed_text) s1 else s1
      ] in
      let (s3, status) = queue_audio raw_audio s2 in
      (s3, status, elim printed [ none ↦ message | some printed_text ↦ printed_text ])

  unfoldable pub process_delta : Env → p.json.Value → Bytes → Streamer p → Processed
  unfolding take_delta
  process_delta env value message s =
      let s' : Streamer p = record s { response_audio_done = false } in
      elim (p.json.get_cstr value (codes "delta")) [
        | none ↦ (s', false, message)
        | some audio ↦
            if is_empty audio then (s', false, message) else elim (p.base64.decode audio) [
              | none ↦ (s', false, message)
              | some raw_audio ↦ take_delta env raw_audio value message s'
            ]
      ]

  unfoldable pub process_type :
      Env → JsonMessageType → p.json.Value → Bytes → Streamer p → Processed
  unfolding process_delta
  process_type env speech_started value message s =
      (request_playback_clear p (clear_audio p s), false, message)
  process_type env audio_delta value message s = process_delta env value message s
  process_type env audio_done value message s =
      (record s { response_audio_done = true }, false, message)
  process_type env _ value message s = (s, false, message)

  unfoldable pub process_message : Env → Bytes → Streamer p → Processed
  unfolding process_type
  process_message env message s =
      if json_depth_exceeded (some message) (pos max_json_depth)
      then (s, true, message)
      else elim (p.json.parse message) [
        | none ↦ (s, false, message)
        | some value ↦ elim (p.json.get_cstr value (codes "type")) [
          | none ↦ (s, false, message)
          | some type ↦ process_type env (classify_json_message (some type)) value message s
        ]
      ]

  -- The streamer, and whether the media bug is asked to close. A message with a null text, which the
  -- callback never passes on, changes nothing here.
  unfoldable pub event_callback : Env → NotifyEvent → Option Bytes → Streamer p → Streamer p × Bool
  unfolding process_message
  event_callback env connect_success body s =
      if env.located then (notify p connect body s, false) else (s, false)
  event_callback env connection_dropped body s =
      if env.located
      then (let s' = request_capture_reset p (notify p disconnect body s) in
          if p.socket.automatic_reconnection s.socket
          then (s', false)
          else (record s' { response_audio_done = true; terminal_close = true }, false))
      else (s, false)
  event_callback env connect_error body s =
      if env.located
      then (notify p error body s, not (p.socket.automatic_reconnection s.socket))
      else (s, false)
  event_callback env message_received none s = (s, false)
  event_callback env message_received (some received) s =
      if env.located
      then (let (s', handled, message') = process_message env received s in
          if handled then (s', false) else (notify p json (some message') s', false))
      else (s, false)

  -- A JSON object with a status, and what `fill` adds; `none` when memory runs out.
  unfoldable pub status_body : Bytes → (p.json.Value → p.json.Value) → Option Bytes
  status_body status fill = elim p.json.create_object [
    | none ↦ none
    | some root ↦ p.json.print_unformatted (fill (add_string p root (codes "status") status))
  ]

  -- The nested `message` object of an error or of a close.
  unfoldable pub add_message : (p.json.Value → p.json.Value) → p.json.Value → p.json.Value
  add_message fill root = elim p.json.create_object [
    | none ↦ root
    | some inner ↦ p.json.add_item root (codes "message") (fill inner)
  ]

  -- A binary message in raw mode: the debug file, then the samples.
  unfoldable pub take_binary : Env → Bytes → Streamer p → Streamer p
  take_binary env raw_audio s =
      let s1 : Streamer p =
        if s.disable_audiofiles then s else (save_debug_audio_file p env true raw_audio s).0 in
      let (s2, samples) = convert p raw_audio s1 in
      elim samples [
        | [] ↦ s2
        | x ∷ xs ↦ push_audio p (x ∷ xs) (record s2 { response_audio_done = false })
      ]

  -- The callback that the constructor sets.
  unfoldable pub on_message : Env → WsMessage → Streamer p → Streamer p × Bool
  unfolding take_binary event_callback status_body add_message
  on_message env (binary body) s =
      if ltb max_ws_message_bytes (length body) || not s.raw_audio_mode
      then (s, false)
      else (take_binary env body s, false)
  on_message env (text body) s =
      if ltb max_ws_message_bytes (length body)
      then (s, false)
      else event_callback env message_received (some (c_str body)) s
  on_message env opened s =
      event_callback env connect_success (status_body (codes "connected") (λ root. root))
        (record s { converter = record (s.converter) { has_pending_raw_byte = false } })
  on_message env (failed retries reason wait_time http_status) s =
      event_callback env connect_error
        (status_body (codes "error") (
          add_message (λ inner.
            p.json.add_number
              (p.json.add_number
                (add_string p (p.json.add_number inner (codes "retries") retries) (codes "error")
                  (c_str reason))
                (codes "wait_time") wait_time)
              (codes "http_status") http_status)))
        s
  on_message env (closed code reason) s =
      event_callback env connection_dropped
        (status_body (codes "disconnected") (
          add_message (λ inner.
            add_string p (p.json.add_number inner (codes "code") code) (codes "reason")
              (c_str reason))))
        s

  -- The same for the session that owns the streamer: `request_media_bug_close`.
  unfoldable pub receive : Env → WsMessage → Private p → Private p
  unfolding on_message
  receive env received tech = elim tech.streamer [
    | none ↦ tech
    | some s ↦
        let (s', close) = on_message env received s in
        record tech {
          streamer = some s';
          close_requested = if close then true else tech.close_requested;
        }
  ]
