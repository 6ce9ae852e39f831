-- ===== src/Message/Sent.antt =====
-- No message of the WebSocket sends audio.
use mod_openai_realtime.Base.{◌≡◌, refl, ◌∙◌, Bytes, List, ◌∷◌, ℕ}
use mod_openai_realtime.Services.{Platform}
use mod_openai_realtime.Streamer.{
  Streamer, notify, push_audio, clear_audio, convert, request_playback_clear, request_capture_reset,
}
use mod_openai_realtime.Message.{on_message, WsMessage}
use mod_openai_realtime.Message.Keeps.{IsKept, on_message-keeps}
use mod_openai_realtime.Message.Files.{Env}

module _ (p : Platform) where
  -- The same audio accepted by the client.
  abbrev pub SameSent : Streamer p → Streamer p → Type 0
  SameSent s s' = s'.sent_audio ≡ s.sent_audio

  convert-SameSent : (input : Bytes) (s : Streamer p) → SameSent s (convert p input s).0
  unfolding convert
  convert-SameSent input s = refl

  push_audio-SameSent : (audio : List ℕ) (s : Streamer p) → SameSent s (push_audio p audio s)
  unfolding push_audio
  push_audio-SameSent audio s = refl

  SameSent-IsKept : (s : Streamer p) → IsKept p (SameSent s)
  unfolding notify clear_audio request_playback_clear request_capture_reset
  SameSent-IsKept s0 = record {
    notified = λ name body s e v. v;
    converted = λ input s v. convert-SameSent input s ∙ v;
    pushed = λ x xs s v. push_audio-SameSent (x ∷ xs) s ∙ v;
    cleared = λ s v. v;
    counted = λ s v. v;
    created = λ file content s v. v;
    response_done = λ b s v. v;
    ended = λ s v. v;
    dropped = λ s v. v;
    reopened = λ s v. v;
  }

  pub on_message-SameSent :
      (env : Env) (received : WsMessage) (s : Streamer p)
      → SameSent s (on_message p env received s).0
  on_message-SameSent env received s =
      on_message-keeps p (SameSent s) (SameSent-IsKept s) env received s refl
