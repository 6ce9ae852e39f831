-- ===== src/Streamer/Sending.antt =====
-- openai_audio_streamer_glue.cpp, `writeAudioDelta`, `writeBinary`, `sendAudio` and `writeText`.
use mod_openai_realtime.Base.{
  Bool, true, false, [], ◌∷◌, ◌++◌, Option, none, some, if◌then◌else◌, Bytes, codes,
}
use mod_openai_realtime.Services.{Platform}
use mod_openai_realtime.Streamer.{Streamer, is_connected}

module _ (p : Platform) where
  open p use {socket, json, base64}

  -- `cJSON_AddStringToObject`; a failed allocation adds nothing.
  unfoldable pub add_string : json.Value → Bytes → Bytes → json.Value
  add_string root key value = elim (json.create_string value) [
    | none ↦ root
    | some v ↦ json.add_item root key v
  ]

  -- The `input_audio_buffer.append` message for some base64 text.
  unfoldable pub append_message : Bytes → Option Bytes
  unfolding add_string
  append_message base64_audio = elim json.create_object [
    | none ↦ none
    | some root ↦ json.print_unformatted (
        add_string (add_string root (codes "type") (codes "input_audio_buffer.append"))
          (codes "audio") base64_audio)
  ]

  unfoldable pub write_text : Bytes → Streamer p → Streamer p × Bool
  unfolding is_connected
  write_text text s =
      if is_connected p s
      then (let (w, success) = socket.send_text s.socket text in (record s { socket = w }, success))
      else (s, false)

  unfoldable pub write_binary : Bytes → Streamer p → Streamer p × Bool
  unfolding is_connected
  write_binary audio s =
      if is_connected p s
      then (let (w, success) = socket.send_binary s.socket audio in
          (record s { socket = w }, success))
      else (s, false)

  send_message : Option Bytes → Streamer p → Streamer p × Bool
  send_message none s = (s, false)
  send_message (some text) s =
      let (w, success) = socket.send_text s.socket text in (record s { socket = w }, success)

  is_empty : Bytes → Bool
  is_empty [] = true
  is_empty (c ∷ cs) = false

  unfoldable pub write_audio_delta : Bytes → Streamer p → Streamer p × Bool
  unfolding is_connected append_message send_message is_empty
  write_audio_delta audio s =
      if is_connected p s
      then (if is_empty (base64.encode audio)
          then (s, false)
          else send_message (append_message (base64.encode audio)) s)
      else (s, false)

  -- `m_send_failure_logged` after a send; with the audio that the client accepted.
  unfoldable pub record_send : Bytes → Streamer p × Bool → Streamer p × Bool
  record_send audio (s, sent) = (
    record s {
      send_failure_logged = if sent then false else true;
      sent_audio = if sent then s.sent_audio ++ audio ∷ [] else s.sent_audio;
    },
    sent,
  )

  unfoldable pub send_audio : Bytes → Streamer p → Streamer p × Bool
  unfolding record_send write_binary write_audio_delta
  send_audio audio s =
      record_send audio
        (if s.raw_audio_mode then write_binary audio s else write_audio_delta audio s)
