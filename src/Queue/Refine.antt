-- ===== src/Queue/Refine.antt =====
-- The queue as what it stands for: one bounded first-in-first-out line of samples.
use mod_openai_realtime.Base.{
  ◌-◌, ◌/◌, ◌&&◌, if◌then◌else◌, false, ℕ, ◌+◌, ◌≤◌, ◌<◌, ◌≡◌, refl, ap, subst, ◌⊎◌, inl, inr, List,
  [], ◌∷◌, ◌++◌, Option, none, some, arith, ltb, not_ltb→le, ltb→lt, Bool-cases, length,
  length-append, flatten, All,
}
use mod_openai_realtime.Queue.{
  AudioQueue, max_audio_chunk_samples, push_audio_queue, pop_chunk, pop_audio_queue, pop_all,
  clear_audio_queue,
}
use mod_openai_realtime.Queue.Chunks.{IsShort, enqueue-flatten, enqueue-IsShort}

pub data Op {ℓ} (A : Type ℓ) : Type ℓ where
  push : List A → Op A
  pop : Op A
  clear : Op A

module _ {ℓ} {A : Type ℓ} where
  abbrev pub contents : AudioQueue A → List A
  contents q = flatten q.chunks

  -- The counter is right, the backlog is within `limit`, and every chunk fits the playback buffer's room.
  pub record IsValid (limit : ℕ) (q : AudioQueue A) : Type ℓ where
    pub counted : q.samples ≡ length (contents q)
    pub bounded : q.samples ≤ limit
    pub short : All (IsShort max_audio_chunk_samples) q.chunks

  abbrev pop_result : AudioQueue A → Option (List A × AudioQueue A) → AudioQueue A × Option (List A)
  pop_result q none = (q, none)
  pop_result q (some (out, r)) = (r, some out)

  -- One call: the new queue, and what a pop hands out.
  abbrev pub step : ℕ → AudioQueue A → Op A → AudioQueue A × Option (List A)
  step limit q (push audio) = (push_audio_queue limit audio q, none)
  step limit q pop = pop_result q (pop_audio_queue limit q)
  step limit q clear = (clear_audio_queue q, none)

  -- What one call may do to the line of samples: a push is all or nothing, a pop takes from the front.
  abbrev pub Fifo : ℕ → Op A → Option (List A) → List A → List A → Type ℓ
  Fifo limit (push audio) out before after =
      ((length before + length audio ≤ limit) × (after ≡ before ++ audio))
      ⊎ ((limit < length before + length audio) × (after ≡ before))
  Fifo limit pop none before after = (before ≡ []) × (after ≡ [])
  Fifo limit pop (some out) before after =
      (before ≡ out ++ after) × (0 < length out) × (length out ≤ max_audio_chunk_samples)
  Fifo limit clear out before after = after ≡ []

  pub pop_all_lem : (cs : List (List A)) → pop_all cs ≡ []
  unfolding pop_all
  pop_all_lem [] = refl
  pop_all_lem (c ∷ cs) = pop_all_lem cs

  pub push-IsValid :
      (limit : ℕ) (audio : List A) (q : AudioQueue A)
      → 0 < length audio
      → IsValid limit q
      → IsValid limit (push_audio_queue limit audio q)
  unfolding push_audio_queue
  push-IsValid limit audio q pos v = elim (Bool-cases (ltb limit (q.samples + length audio))) [
    | inl e ↦ rw e (record { counted = v.counted; bounded = v.bounded; short = v.short })
    | inr e ↦ rw e (record {
      counted = omega (
        arith,
        v.counted,
        ap length (enqueue-flatten audio q.chunks),
        length-append (contents q) audio,
      );
      bounded = not_ltb→le _ _ e;
      short = enqueue-IsShort audio q.chunks pos v.short;
    })
  ]

  push-Fifo :
      (limit : ℕ) (audio : List A) (q : AudioQueue A)
      → IsValid limit q
      → Fifo limit (push audio) none (contents q) (contents (push_audio_queue limit audio q))
  unfolding push_audio_queue
  push-Fifo limit audio q v = elim (Bool-cases (ltb limit (q.samples + length audio))) [
    | inl e ↦ rw e (inr (rw v.counted at (ltb→lt _ _ e), refl))
    | inr e ↦ rw e (inl (rw v.counted at (not_ltb→le _ _ e), enqueue-flatten audio q.chunks))
  ]

  -- The front chunk leaves the line.
  pop_chunk-Fifo :
      (limit : ℕ) (cs : List (List A)) (q : AudioQueue A)
      → q.chunks ≡ cs
      → IsValid limit q
      → let r = pop_result q (pop_chunk limit cs q) in
        IsValid limit r.0 × Fifo limit pop r.1 (contents q) (contents r.0)
  unfolding pop_chunk
  pop_chunk-Fifo limit [] q e v = (v, (ap flatten e, ap flatten e))
  pop_chunk-Fifo limit (c ∷ cs) q e v =
      let short = subst (All (IsShort max_audio_chunk_samples)) e v.short in
      (
        record {
          counted =
              omega (arith, v.counted, ap length (ap flatten e), length-append c (flatten cs));
          bounded = omega (arith, v.bounded);
          short = short.1;
        },
        (ap flatten e, short.0.0, short.0.1),
      )

  -- A pop takes the front chunk.
  pub pop_audio_queue-cons :
      (limit : ℕ) (q : AudioQueue A) (c : List A) (cs : List (List A))
      → q.chunks ≡ c ∷ cs
      → (r : AudioQueue A) × (pop_audio_queue limit q ≡ some (c, r)) × (r.chunks ≡ cs)
  unfolding pop_audio_queue pop_chunk
  pop_audio_queue-cons limit q c cs e = (
    record {
      chunks = cs;
      samples = q.samples - length c;
      overflow_logged =
          if q.overflow_logged && ltb (q.samples - length c) (limit / 2)
          then false
          else q.overflow_logged;
    },
    rw (e, pop_chunk),
    refl,
  )

  pub pop_audio_queue-nil :
      (limit : ℕ) (q : AudioQueue A) → q.chunks ≡ [] → pop_audio_queue limit q ≡ none
  unfolding pop_audio_queue pop_chunk
  pop_audio_queue-nil limit q e = rw (e, pop_chunk)

  -- The callers push no empty audio.
  abbrev pub IsCall : Op A → Type 0
  IsCall (push audio) = 0 < length audio
  IsCall pop = Unit
  IsCall clear = Unit

  -- On a valid queue of at most `limit` samples, every push of some audio, pop and clear leaves a valid
  -- queue (the counter right, the bound kept, no chunk empty or above 16384 samples), and acts on the
  -- line of samples first in, first out: a push appends all of its audio exactly if that fits `limit`
  -- and changes nothing otherwise, a pop hands out the samples that it takes off the front or finds
  -- the line empty, and a clear empties it.
  pub step-Fifo :
      (limit : ℕ) (q : AudioQueue A) (op : Op A)
      → IsCall op
      → IsValid limit q
      → let r = step limit q op in IsValid limit r.0 × Fifo limit op r.1 (contents q) (contents r.0)
  unfolding pop_audio_queue clear_audio_queue
  step-Fifo limit q (push audio) pos v =
      (push-IsValid limit audio q pos v, push-Fifo limit audio q v)
  step-Fifo limit q pop pos v = pop_chunk-Fifo limit q.chunks q refl v
  step-Fifo limit q clear pos v =
      rw (pop_all_lem q.chunks) (record { counted = refl; bounded = omega arith; short = tt }, refl)
