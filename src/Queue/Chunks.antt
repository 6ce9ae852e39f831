-- ===== src/Queue/Chunks.antt =====
-- The chunks that a push cuts its audio into.
use mod_openai_realtime.Base.{
  ℕ, zero, suc, ◌+◌, ◌-◌, ◌*◌, ◌≤◌, ◌<◌, min, ◌≡◌, refl, sym, ap, ◌∙◌, inl, inr, List, [], ◌∷◌,
  ◌++◌, arith, ltb, leb, ltb→lt, not_ltb→le, leb→le, Bool-cases, length, drop, flatten, All,
  append-nil, append_assoc, flatten-append, All-append, length-take, length-drop, take-append-drop,
  take_all, drop_all, drop-nil,
}
use mod_openai_realtime.Queue.{max_audio_chunk_samples, slice, chunk_loop, num_chunks, enqueue}

module _ {ℓ} {A : Type ℓ} where
  pub drop-drop : (m n k : ℕ) (xs : List A) → k ≡ m + n → drop n (drop m xs) ≡ drop k xs
  drop-drop zero n k xs e = ap (λ j. drop j xs) (omega arith)
  drop-drop (suc m) n zero xs e = absurd (omega arith)
  drop-drop (suc m) n (suc k) [] e = drop-nil n
  drop-drop (suc m) n (suc k) (x ∷ xs) e = drop-drop m n k xs (omega arith)

  -- A slice and what stands behind it make up the list from the slice on.
  slice-drop :
      (audio : List A) (size offset : ℕ)
      → offset < length audio
      → slice audio offset (min (offset + size) (length audio)) ++ drop (offset + size) audio
        ≡ drop offset audio
  slice-drop audio size offset h = elim (Bool-cases (ltb (length audio) (offset + size))) [
    | inl e ↦
        let whole : min (offset + size) (length audio) - offset ≡ length audio - offset =
          ground arith in
        rw
          (
            whole,
            take_all (length audio - offset) (drop offset audio)
                (omega (arith, length-drop offset audio)),
            drop_all (offset + size) audio (ground arith),
          )
          (append-nil (drop offset audio))
    | inr e ↦
        let full : min (offset + size) (length audio) - offset ≡ size = ground arith in
        rw (full, ← drop-drop offset size (offset + size) audio refl)
          (take-append-drop size (drop offset audio))
  ]

  -- Not empty, and at most `size` samples.
  abbrev pub IsShort : ℕ → List A → Type 0
  IsShort size chunk = (0 < length chunk) × (length chunk ≤ size)

  slice-IsShort :
      (audio : List A) (size offset : ℕ)
      → 0 < size
      → offset < length audio
      → IsShort size (slice audio offset (min (offset + size) (length audio)))
  slice-IsShort audio size offset pos h = omega (
    arith,
    length-take (min (offset + size) (length audio) - offset) (drop offset audio),
    length-drop offset audio,
  )

  chunk_loop-flatten :
      (fuel size offset : ℕ) (audio : List A) (queue : List (List A))
      → length audio ≤ offset + fuel * size
      → flatten (chunk_loop fuel size offset audio queue) ≡ flatten queue ++ drop offset audio
  unfolding chunk_loop
  chunk_loop-flatten zero size offset audio queue le =
      rw (drop_all offset audio (omega arith)) (sym (append-nil (flatten queue)))
  chunk_loop-flatten (suc fuel) size offset audio queue le =
      elim (Bool-cases (ltb offset (length audio))) [
        | inl more ↦
            let chunk = slice audio offset (min (offset + size) (length audio)) in
            rw
              (
                more,
                chunk_loop-flatten fuel size (offset + size) audio (queue ++ chunk ∷ [])
                    (omega arith),
              )
              (rw (flatten-append queue (chunk ∷ []), append-nil chunk)
                (append_assoc (flatten queue) chunk (drop (offset + size) audio)
                  ∙ ap (◌++◌ (flatten queue)) (slice-drop audio size offset (ltb→lt _ _ more))))
        | inr done ↦
            rw (done, drop_all offset audio (not_ltb→le _ _ done))
              (sym (append-nil (flatten queue)))
      ]

  chunk_loop-IsShort :
      (fuel size offset : ℕ) (audio : List A) (queue : List (List A))
      → 0 < size
      → All (IsShort size) queue
      → All (IsShort size) (chunk_loop fuel size offset audio queue)
  unfolding chunk_loop
  chunk_loop-IsShort zero size offset audio queue pos all = all
  chunk_loop-IsShort (suc fuel) size offset audio queue pos all =
      elim (Bool-cases (ltb offset (length audio))) [
        | inl more ↦
            let chunk = slice audio offset (min (offset + size) (length audio)) in
            rw more (
              chunk_loop-IsShort fuel size (offset + size) audio (queue ++ chunk ∷ []) pos (
                All-append (IsShort size) queue (chunk ∷ []) all
                  (slice-IsShort audio size offset pos (ltb→lt _ _ more), tt)))
        | inr done ↦ rw done all
      ]

  -- The rounds that the code counts are enough, and no sample is lost, doubled or moved.
  pub enqueue-flatten :
      (audio : List A) (queue : List (List A))
      → flatten (enqueue audio queue) ≡ flatten queue ++ audio
  unfolding enqueue
  enqueue-flatten audio queue = elim (Bool-cases (leb (length audio) max_audio_chunk_samples)) [
    | inl e ↦ rw (e, flatten-append queue (audio ∷ []), append-nil audio)
    | inr e ↦ rw e (
        chunk_loop-flatten (num_chunks (length audio)) max_audio_chunk_samples 0 audio queue
          (omega arith))
  ]

  pub enqueue-IsShort :
      (audio : List A) (queue : List (List A))
      → 0 < length audio
      → All (IsShort max_audio_chunk_samples) queue
      → All (IsShort max_audio_chunk_samples) (enqueue audio queue)
  unfolding enqueue
  enqueue-IsShort audio queue pos all =
      elim (Bool-cases (leb (length audio) max_audio_chunk_samples)) [
        | inl e ↦ rw e (
            All-append (IsShort max_audio_chunk_samples) queue (audio ∷ []) all
              ((pos, leb→le _ _ e), tt))
        | inr e ↦ rw e (
            chunk_loop-IsShort (num_chunks (length audio)) max_audio_chunk_samples 0 audio queue
              (omega arith) all)
      ]
