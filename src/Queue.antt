-- ===== src/Queue.antt =====
-- openai_audio_streamer_glue.cpp: the playback queue of AudioStreamer, `push_audio_queue`,
-- `pop_audio_queue` and `clear_audio_queue`. Each runs under the queue's mutex, so each is one step.
pub mod Chunks
pub mod Refine
use mod_openai_realtime.Base.{
  ℕ, zero, suc, ◌+◌, ◌-◌, ◌*◌, ◌/◌, min, Bool, true, false, ◌&&◌, List, [], ◌∷◌, ◌++◌, Option, none,
  some, ltb, leb, if◌then◌else◌, length, take, drop,
}

abbrev pub max_audio_chunk_samples : ℕ
max_audio_chunk_samples = 16384

abbrev pub max_playback_queue_seconds : ℕ
max_playback_queue_seconds = 180

-- `m_audio_queue`, its front first, `m_audio_queue_samples` and `m_queue_overflow_logged`.
pub record AudioQueue {ℓ} (A : Type ℓ) : Type ℓ where
  pub chunks : List (List A)
  pub samples : ℕ
  pub overflow_logged : Bool

unfoldable pub max_playback_queue_samples : ℕ → ℕ
max_playback_queue_samples out_sample_rate = out_sample_rate * max_playback_queue_seconds

unfoldable pub num_chunks : ℕ → ℕ
num_chunks total = (total + max_audio_chunk_samples - 1) / max_audio_chunk_samples

module _ {ℓ} {A : Type ℓ} where
  abbrev pub empty_queue : AudioQueue A
  empty_queue = record { chunks = []; samples = 0; overflow_logged = false }

  -- `audio_data[first, last)`
  abbrev pub slice : List A → ℕ → ℕ → List A
  slice audio first last = take (last - first) (drop first audio)

  -- The `for` loop over `offset`, for chunks of at most `size` samples, on fuel.
  pub chunk_loop : ℕ → ℕ → ℕ → List A → List (List A) → List (List A)
  chunk_loop zero size offset audio queue = queue
  chunk_loop (suc fuel) size offset audio queue =
      let last = min (offset + size) (length audio) in
      let rest =
        chunk_loop fuel size (offset + size) audio (queue ++ slice audio offset last ∷ []) in
      if ltb offset (length audio) then rest else queue

  -- The queue with audio appended in chunks.
  pub enqueue : List A → List (List A) → List (List A)
  unfolding chunk_loop num_chunks
  enqueue audio queue =
      if leb (length audio) max_audio_chunk_samples
      then queue ++ audio ∷ []
      else chunk_loop (num_chunks (length audio)) max_audio_chunk_samples 0 audio queue

  -- `limit` is `max_playback_queue_samples()`.
  unfoldable pub push_audio_queue : ℕ → List A → AudioQueue A → AudioQueue A
  push_audio_queue limit audio q =
      if ltb limit (q.samples + length audio)
      then record q { overflow_logged = true }
      else record q { chunks = enqueue audio q.chunks; samples = q.samples + length audio }

  -- A chunk and the rest of the queue; `none` is the return of false.
  unfoldable pub pop_chunk : ℕ → List (List A) → AudioQueue A → Option (List A × AudioQueue A)
  pop_chunk limit [] q = none
  pop_chunk limit (out ∷ rest) q =
      let left = q.samples - length out in
      some (
        out,
        record {
          chunks = rest;
          samples = left;
          overflow_logged =
              if q.overflow_logged && ltb left (limit / 2) then false else q.overflow_logged;
        },
      )

  unfoldable pub pop_audio_queue : ℕ → AudioQueue A → Option (List A × AudioQueue A)
  unfolding pop_chunk
  pop_audio_queue limit q = pop_chunk limit q.chunks q

  -- `while (!m_audio_queue.empty()) m_audio_queue.pop();`
  pub pop_all : List (List A) → List (List A)
  pop_all [] = []
  pop_all (out ∷ rest) = pop_all rest

  unfoldable pub clear_audio_queue : AudioQueue A → AudioQueue A
  unfolding pop_all
  clear_audio_queue q = record { chunks = pop_all q.chunks; samples = 0; overflow_logged = false }
