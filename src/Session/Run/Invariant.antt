-- ===== src/Session/Run/Invariant.antt =====
-- What a property of the streamer needs in order to hold through a session.
use mod_openai_realtime.Base.{
  ℕ, zero, suc, ◌≡◌, Bool, true, false, List, some, arith, Option-cases, inl, inr,
}
use mod_openai_realtime.Services.{Platform}
use mod_openai_realtime.Queue.{AudioQueue}
use mod_openai_realtime.Streamer.{Streamer, pop_audio, openai_speech_started, openai_speech_stopped}
use mod_openai_realtime.Playback.{Turn, take_clear, take_chunk, refill}
use mod_openai_realtime.Message.{WsMessage, on_message}
use mod_openai_realtime.Message.Files.{Env}
use mod_openai_realtime.Session.Run.Captured.{SamePlayback}

module _ (p : Platform) where
  -- It is kept by sending, by a message, and by each part of a turn of `write_frame`. `Located` holds
  -- for the answers to whether the session is found that the media thread may get.
  pub record IsInvariant (Q : Streamer p → Type 0) (Located : Bool → Type 0) : Type 0 where
    pub same : (s s' : Streamer p) → SamePlayback p s s' → Q s → Q s'
    pub message : (env : Env) (m : WsMessage) (s : Streamer p) → Q s → Q (on_message p env m s).0
    pub clear :
        (located : Bool) (b : p.buffer.Buffer) (s : Streamer p)
        → Located located
        → Q s
        → Q (take_clear p located b s).streamer
    pub popped :
        (s : Streamer p) (chunk : List ℕ) (rest : AudioQueue ℕ)
        → pop_audio p s ≡ some (chunk, rest)
        → Q s
        → Q (record s { queue = rest })
    pub started :
        (located : Bool) (s : Streamer p)
        → Located located
        → s.openai_speaking ≡ false
        → Q s
        → Q (openai_speech_started p located s)
    pub stopped :
        (located : Bool) (s : Streamer p)
        → Located located
        → s.openai_speaking ≡ true
        → Q s
        → Q (openai_speech_stopped p located s)

  module _ (Q : Streamer p → Type 0) (Located : Bool → Type 0) (law : IsInvariant Q Located) where
    take_chunk-holds :
        (chunk : List ℕ) (rest : AudioQueue ℕ) (t : Turn p)
        → pop_audio p t.streamer ≡ some (chunk, rest)
        → Q t.streamer
        → Q (take_chunk p chunk rest t).1.streamer
    unfolding take_chunk
    take_chunk-holds chunk rest t e v =
        let kept = law.popped t.streamer chunk rest e v in ground arith

    pub refill-holds :
        (fuel wanted : ℕ) (t : Turn p) → Q t.streamer → Q (refill p fuel wanted t).streamer
    unfolding refill
    refill-holds zero wanted t v = v
    refill-holds (suc fuel) wanted t v = elim (Option-cases (pop_audio p t.streamer)) [
      | inl e ↦ ground (arith, e)
      | inr ((chunk, rest), e) ↦
          let next = take_chunk-holds chunk rest t e v in
          ground (arith, refill-holds fuel wanted (take_chunk p chunk rest t).1)
    ]
