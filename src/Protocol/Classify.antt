-- ===== src/Protocol/Classify.antt =====
-- stream_protocol.cpp, `classify_json_message`.
pub mod Errors
use mod_openai_realtime.Base.{Option, none, some, if◌then◌else◌, Bytes, codes, str_eq, contains}

pub data JsonMessageType : Type 0 where
  error speech_started speech_stopped audio_delta audio_done unhandled : JsonMessageType

unfoldable pub classify_json_message : Option Bytes → JsonMessageType
classify_json_message none = unhandled
classify_json_message (some type) =
    if contains (codes "error") type
    then error
    else if str_eq type (codes "input_audio_buffer.speech_started")
    then speech_started
    else if str_eq type (codes "input_audio_buffer.speech_stopped")
    then speech_stopped
    else if str_eq type (codes "response.output_audio.delta")
    then audio_delta
    else if str_eq type (codes "response.output_audio.done")
    then audio_done
    else unhandled
