-- ===== src/Message/Bounded.antt =====
-- No message of the WebSocket makes the playback queue invalid.
use mod_openai_realtime.Base.{
  if-both, ℕ, ◌≡◌, refl, sym, ◌∙◌, subst, List, ◌∷◌, Option, arith, ◌%◌, ◌==◌, Bytes, length,
}
use mod_openai_realtime.Services.{Platform}
use mod_openai_realtime.Queue.{max_playback_queue_samples}
use mod_openai_realtime.Queue.Refine.{IsValid, push-IsValid, step-Fifo, clear}
use mod_openai_realtime.Pcm.{
  convert_raw_audio, carry, stitch, usable, samples_of, resample, Converter,
}
use mod_openai_realtime.Streamer.{
  Streamer, EventName, notify, push_audio, clear_audio, queue_limit, convert,
  request_playback_clear, request_capture_reset,
}
use mod_openai_realtime.Message.{on_message, WsMessage}
use mod_openai_realtime.Message.Keeps.{IsKept, on_message-keeps}
use mod_openai_realtime.Message.Files.{Env}

module _ (p : Platform) where
  -- The queue is valid under the limit of the streamer's own rate.
  abbrev pub IsBounded : Streamer p → Type 0
  IsBounded s = IsValid (max_playback_queue_samples s.converter.out_sample_rate) s.queue

  -- The same of a streamer with a result.
  abbrev IsBoundedThen : {B : Type 0} → Streamer p × B → Type 0
  IsBoundedThen r = IsBounded r.0

  carry-rate :
      (c : Converter p.speex.State) (bytes : Bytes)
      → (carry c bytes).out_sample_rate ≡ c.out_sample_rate
  unfolding carry
  carry-rate c bytes =
      if-both (λ (k : Converter p.speex.State). k.out_sample_rate ≡ c.out_sample_rate)
        (length bytes % 2 == 0) _ _ refl refl

  resample-rate :
      (r : Option p.speex.State) (c : Converter p.speex.State) (samples : List ℕ)
      → (resample p.speex r c samples).0.out_sample_rate ≡ c.out_sample_rate
  unfolding resample
  resample-rate r c samples = ground arith

  pub convert-rate :
      (c : Converter p.speex.State) (input : Bytes)
      → (convert_raw_audio p.speex c input).0.out_sample_rate ≡ c.out_sample_rate
  unfolding convert_raw_audio
  convert-rate c input =
      let bytes = stitch c input in
      if-both (λ (k : Converter p.speex.State × List ℕ). k.0.out_sample_rate ≡ c.out_sample_rate)
        (length (usable bytes) == 0) _ _ (carry-rate c bytes)
        (resample-rate (carry c bytes).resampler (carry c bytes) (samples_of (usable bytes))
          ∙ carry-rate c bytes)

  convert-IsBounded :
      (input : Bytes) (s : Streamer p) → IsBounded s → IsBounded (convert p input s).0
  unfolding convert
  convert-IsBounded input s v =
      subst (λ r. IsValid (max_playback_queue_samples r) s.queue)
        (sym (convert-rate s.converter input)) v

  push-IsBounded :
      (x : ℕ) (xs : List ℕ) (s : Streamer p) → IsBounded s → IsBounded (push_audio p (x ∷ xs) s)
  unfolding push_audio queue_limit
  push-IsBounded x xs s v =
      push-IsValid (max_playback_queue_samples s.converter.out_sample_rate) (x ∷ xs) s.queue
        (omega arith) v

  notify-IsBounded :
      (name : EventName) (body : Option Bytes) (s : Streamer p)
      → IsBounded s
      → IsBounded (notify p name body s)
  unfolding notify
  notify-IsBounded name body s v = v

  cleared-IsBounded :
      (s : Streamer p) → IsBounded s → IsBounded (request_playback_clear p (clear_audio p s))
  unfolding clear_audio request_playback_clear
  cleared-IsBounded s v = (step-Fifo _ s.queue clear tt v).0

  dropped-IsBounded : (s : Streamer p) → IsBounded s → IsBounded (request_capture_reset p s)
  unfolding request_capture_reset
  dropped-IsBounded s v = v

  IsBounded-IsKept : IsKept p IsBounded
  IsBounded-IsKept = record {
    notified = λ name body s e v. notify-IsBounded name body s v;
    converted = convert-IsBounded;
    pushed = push-IsBounded;
    cleared = cleared-IsBounded;
    counted = λ s v. v;
    created = λ file content s v. v;
    response_done = λ b s v. v;
    ended = λ s v. v;
    dropped = dropped-IsBounded;
    reopened = λ s v. v;
  }

  -- Whatever the WebSocket delivers (a text or binary message of any content, an open, an error or a
  -- close), the callback leaves the playback queue valid when it was valid: its counter is the number
  -- of queued samples, these are at most 180 seconds of the playback rate, and no chunk is empty or
  -- larger than 16384 samples.
  pub on_message-IsBounded :
      (env : Env) (received : WsMessage) (s : Streamer p)
      → IsBounded s
      → IsBounded (on_message p env received s).0
  on_message-IsBounded = on_message-keeps p IsBounded IsBounded-IsKept
