-- ===== src/Session/Run/Live.antt =====
-- Every step of a session keeps its playback queue valid, and the sizes of its buffers.
use mod_openai_realtime.Base.{ℕ, ◌≡◌, sym, subst, Bool, arith, List, some}
use mod_openai_realtime.Services.{Platform}
use mod_openai_realtime.Queue.{AudioQueue, max_playback_queue_samples}
use mod_openai_realtime.Queue.Refine.{IsValid, pop, step-Fifo}
use mod_openai_realtime.Streamer.{
  Streamer, pop_audio, queue_limit, consume_playback_clear, openai_speech_started,
  openai_speech_stopped, notify,
}
use mod_openai_realtime.Private.{Private}
use mod_openai_realtime.Playback.{take_clear}
use mod_openai_realtime.Message.Bounded.{IsBounded, on_message-IsBounded}
use mod_openai_realtime.Session.Run.Captured.{SamePlayback}
use mod_openai_realtime.Session.Run.Invariant.{IsInvariant}
use mod_openai_realtime.Session.Run.Holds.{Holds}

-- Whatever the media thread is told of the session.
abbrev pub Anyway : Bool → Type 0
Anyway located = Unit

module _ (p : Platform) where
  -- A session with its streamer, a valid queue, and buffers of the given sizes.
  abbrev pub IsLive : ℕ → ℕ → Private p → Type 0
  IsLive = Holds p (IsBounded p)

  SamePlayback-IsBounded :
      (s s' : Streamer p) → SamePlayback p s s' → IsBounded p s → IsBounded p s'
  SamePlayback-IsBounded s s' same v =
      subst (λ k. IsValid (max_playback_queue_samples k.out_sample_rate) s'.queue)
        (sym same.converter)
        (subst (IsValid (max_playback_queue_samples s.converter.out_sample_rate)) (sym same.queue)
          v)

  take_clear-IsBounded :
      (located : Bool) (b : p.buffer.Buffer) (s : Streamer p)
      → Anyway located
      → IsBounded p s
      → IsBounded p (take_clear p located b s).streamer
  unfolding take_clear consume_playback_clear openai_speech_stopped notify
  take_clear-IsBounded located b s k v = ground arith

  popped-IsBounded :
      (s : Streamer p) (chunk : List ℕ) (rest : AudioQueue ℕ)
      → pop_audio p s ≡ some (chunk, rest)
      → IsBounded p s
      → IsBounded p (record s { queue = rest })
  unfolding pop_audio queue_limit
  popped-IsBounded s chunk rest e v =
      ground
        (arith, step-Fifo (max_playback_queue_samples s.converter.out_sample_rate) s.queue pop tt v)

  started-IsBounded :
      (located : Bool) (s : Streamer p)
      → IsBounded p s
      → IsBounded p (openai_speech_started p located s)
  unfolding openai_speech_started notify
  started-IsBounded located s v = ground arith

  stopped-IsBounded :
      (located : Bool) (s : Streamer p)
      → IsBounded p s
      → IsBounded p (openai_speech_stopped p located s)
  unfolding openai_speech_stopped notify
  stopped-IsBounded located s v = ground arith

  pub IsBounded-IsInvariant : IsInvariant p (IsBounded p) Anyway
  IsBounded-IsInvariant = record {
    same = SamePlayback-IsBounded;
    message = on_message-IsBounded p;
    clear = take_clear-IsBounded;
    popped = popped-IsBounded;
    started = λ located s k e v. started-IsBounded located s v;
    stopped = λ located s k e v. stopped-IsBounded located s v;
  }
