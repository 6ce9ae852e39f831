-- ===== src/Race/Closing.antt =====
-- Why the terminal close is looked at before the queue: a teardown loses no audio.
use mod_openai_realtime.Base.{
  ℕ, ◌≤◌, ◌<◌, ◌≡◌, refl, sym, ◌∙◌, true, false, List, [], ◌∷◌, arith, Bytes, length,
}
use mod_openai_realtime.Services.{Platform}
use mod_openai_realtime.Queue.{max_playback_queue_samples}
use mod_openai_realtime.Queue.Refine.{push-IsValid, step-Fifo, clear}
use mod_openai_realtime.Streamer.{
  Streamer, push_audio, clear_audio, request_playback_clear, queue_limit,
}
use mod_openai_realtime.Private.{Private}
use mod_openai_realtime.Message.Bounded.{IsBounded}
use mod_openai_realtime.Race.{
  System, Move, media, pushed, emptied, clear_requested, ended, answered, between_turns, advance,
  run,
}
use mod_openai_realtime.Race.Safe.{Allowed, AreAllowed, IsSafe, on_streamer-IsSafe}
use mod_openai_realtime.Race.Steps.{media_step-IsSafe}

empty_of_length : (xs : Bytes) → length xs ≡ 0 → xs ≡ []
empty_of_length [] e = refl
empty_of_length (x ∷ xs) e = absurd (omega (arith, e))

module _ (p : Platform) where
  open p use {buffer}

  push-IsBounded :
      (audio : List ℕ) (s : Streamer p)
      → 0 < length audio
      → IsBounded p s
      → IsBounded p (push_audio p audio s)
  unfolding push_audio queue_limit
  push-IsBounded audio s some_audio v =
      push-IsValid (max_playback_queue_samples s.converter.out_sample_rate) audio s.queue some_audio
        v

  clear-IsBounded : (s : Streamer p) → IsBounded p s → IsBounded p (clear_audio p s)
  unfolding clear_audio
  clear-IsBounded s v = (step-Fifo _ s.queue clear tt v).0

  advance-IsSafe : (m : Move) (σ : System p) → Allowed p m σ → IsSafe p σ → IsSafe p (advance p m σ)
  unfolding advance request_playback_clear
  advance-IsSafe (media located frame) σ k v = media_step-IsSafe p located frame σ σ.phase refl k v
  advance-IsSafe (pushed audio) σ k v =
      on_streamer-IsSafe p (push_audio p audio) σ k.0
        (push-IsBounded audio σ.turn.streamer k.1 v.bounded) v
  advance-IsSafe emptied σ k v =
      on_streamer-IsSafe p (clear_audio p) σ k (clear-IsBounded σ.turn.streamer v.bounded) v
  advance-IsSafe clear_requested σ k v =
      on_streamer-IsSafe p (request_playback_clear p) σ k v.bounded v
  advance-IsSafe ended σ k v =
      on_streamer-IsSafe p (λ s. record s { terminal_close = true }) σ k v.bounded v
  advance-IsSafe (answered done) σ k v =
      on_streamer-IsSafe p (λ s. record s { response_audio_done = done }) σ k v.bounded v

  run-IsSafe :
      (ms : List Move) (σ : System p) → AreAllowed p ms σ → IsSafe p σ → IsSafe p (run p ms σ)
  unfolding run
  run-IsSafe [] σ k v = v
  run-IsSafe (m ∷ ms) σ (k, ks) v = run-IsSafe ms (advance p m σ) ks (advance-IsSafe m σ k v)

  -- A session whose queue is valid, whose playback buffer has at least 32768 bytes, and whose teardown
  -- is not asked for, is between two turns. From there on the media thread and the WebSocket thread
  -- access the streamer in any order, where each turn has a frame with audio, no empty audio is queued,
  -- and the WebSocket thread does nothing behind a close of the connection that is for good. If the
  -- media thread has asked for the teardown, then the connection was closed for good, and no audio is
  -- left, neither in the queue nor in the playback buffer.
  pub run-drains :
      (ms : List Move) (tech : Private p) (s : Streamer p)
      → IsBounded p s
      → 32768 ≤ buffer.capacity tech.playback_buffer
      → tech.close_requested ≡ false
      → AreAllowed p ms (between_turns p tech s)
      → (run p ms (between_turns p tech s)).tech.close_requested ≡ true
      → let t = (run p ms (between_turns p tech s)).turn in
        (t.streamer.terminal_close ≡ true)
        × (t.streamer.queue.chunks ≡ [])
        × (buffer.contents t.buffer ≡ [])
  run-drains ms tech s v room stays k closed =
      let safe = run-IsSafe ms (between_turns p tech s) k (record {
        bounded = v;
        room = room;
        same_room = refl;
        in_phase = tt;
        drained = λ e. cc (stays, e);
      }) in
      let t = (run p ms (between_turns p tech s)).turn in
      let d = safe.drained closed in
      (
        d.0,
        d.1,
        empty_of_length (buffer.contents t.buffer) (sym (buffer.inuse-contents t.buffer) ∙ d.2),
      )
