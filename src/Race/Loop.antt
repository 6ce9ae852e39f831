-- ===== src/Race/Loop.antt =====
-- A round of the loop of `write_frame` that fills the playback buffer, by itself.
use mod_openai_realtime.Base.{
  ℕ, ◌≤◌, ◌<◌, ◌≡◌, ◌≢◌, refl, sym, subst, ap, ◌∙◌, Bool, false, List, [], ◌∷◌, none, some, arith,
  ◌⊎◌, ltb, ltb→lt, not_ltb→le, ◌==◌, if◌then◌else◌, length, Bool-cases, Option-cases, inl, inr,
  All,
}
use mod_openai_realtime.Services.{Platform}
use mod_openai_realtime.Queue.{AudioQueue, max_audio_chunk_samples}
use mod_openai_realtime.Queue.Chunks.{IsShort}
use mod_openai_realtime.Queue.Refine.{pop_audio_queue-cons, pop_audio_queue-nil}
use mod_openai_realtime.Pcm.{bytes_of}
use mod_openai_realtime.Streamer.{Streamer, pop_audio, queue_limit}
use mod_openai_realtime.Playback.{Frame, Turn, take_chunk}
use mod_openai_realtime.Playback.Refill.{length-bytes_of}
use mod_openai_realtime.Message.Bounded.{IsBounded}
use mod_openai_realtime.Session.Run.Plays.{IsPlayable}
use mod_openai_realtime.Session.Run.Live.{IsBounded-IsInvariant}
use mod_openai_realtime.Race.{filling, finishing, System, wanted, fill}
use mod_openai_realtime.Race.Safe.{InPhase, IsSafe}

module _ (p : Platform) where
  open p use {buffer}

  -- What taking a chunk does: it fits an empty buffer.
  pub record Took (t : Turn p) (rest : AudioQueue ℕ) (r : Bool × Turn p) : Type 0 where
    pub measured : r.1.inuse ≡ buffer.inuse r.1.buffer
    pub capacity : buffer.capacity r.1.buffer ≡ buffer.capacity t.buffer
    pub only_queue : r.1.streamer ≡ record (t.streamer) { queue = rest }
    pub refused : r.0 ≡ false → r.1.inuse ≢ 0

  take_chunk-Took :
      (chunk : List ℕ) (rest : AudioQueue ℕ) (t : Turn p)
      → 0 < length chunk
      → length chunk ≤ 16384
      → 32768 ≤ buffer.capacity t.buffer
      → t.inuse ≡ buffer.inuse t.buffer
      → Took t rest (take_chunk p chunk rest t)
  unfolding take_chunk
  take_chunk-Took chunk rest t some_audio short room measured =
      let xs = bytes_of chunk in
      let size = length-bytes_of chunk in
      let free = buffer.freespace-capacity t.buffer in
      let used = measured ∙ buffer.inuse-contents t.buffer in
      elim (Bool-cases (ltb (buffer.freespace t.buffer) (length xs))) [
        | inl full ↦
            let less = ltb→lt (buffer.freespace t.buffer) (length xs) full in
            rw (buffer.write_refused t.buffer xs less) (record {
              measured = measured;
              capacity = refl;
              only_queue = refl;
              refused = λ _ empty. omega (arith, less, free, used, size, room, short);
            })
        | inr fits ↦
            let more = not_ltb→le (buffer.freespace t.buffer) (length xs) fits in
            let n = (buffer.write_fits t.buffer xs more).1 in
            let written : ((buffer.write t.buffer xs).1 == 0) ≡ false = ground (arith, n, size) in
            rw written (record {
              measured = refl;
              capacity = buffer.write-capacity t.buffer xs;
              only_queue = refl;
              refused = λ e. cc e;
            })
      ]

  pop_audio-none :
      (s : Streamer p) (cs : List (List ℕ)) → s.queue.chunks ≡ cs → pop_audio p s ≡ none → cs ≡ []
  unfolding pop_audio queue_limit
  pop_audio-none s [] e h = refl
  pop_audio-none s (c ∷ cs) e h =
      let front = pop_audio_queue-cons (queue_limit p s) s.queue c cs e in cc (front.1, h)

  pop_audio-nil : (s : Streamer p) → s.queue.chunks ≡ [] → pop_audio p s ≡ none
  unfolding pop_audio
  pop_audio-nil s e = pop_audio_queue-nil (queue_limit p s) s.queue e

  chunks-pop_audio :
      (s : Streamer p) (cs : List (List ℕ)) (chunk : List ℕ) (rest : AudioQueue ℕ)
      → s.queue.chunks ≡ cs
      → pop_audio p s ≡ some (chunk, rest)
      → cs ≡ chunk ∷ rest.chunks
  unfolding pop_audio queue_limit
  chunks-pop_audio s [] chunk rest e h = cc (pop_audio_queue-nil (queue_limit p s) s.queue e, h)
  chunks-pop_audio s (c ∷ cs) chunk rest e h =
      let front = pop_audio_queue-cons (queue_limit p s) s.queue c cs e in cc (front.1, front.2, h)

  -- The chunk that a pop takes is the first one.
  pub pop_audio-eq-some :
      (s : Streamer p) (chunk : List ℕ) (rest : AudioQueue ℕ)
      → pop_audio p s ≡ some (chunk, rest)
      → s.queue.chunks ≡ chunk ∷ rest.chunks
  pop_audio-eq-some s chunk rest h = chunks-pop_audio s s.queue.chunks chunk rest refl h

  -- Behind a round of the loop that ended it.
  ends_loop :
      (frame : Frame) (ends : Bool) (t : Turn p)
      → InPhase p (filling frame ends) t
      → (t.inuse ≢ 0) ⊎ (t.streamer.queue.chunks ≡ [])
      → InPhase p (finishing frame ends) t
  ends_loop frame ends t h (inl some_audio) =
      (h.0, h.1, h.2, λ _ _ empty. absurd (some_audio empty))
  ends_loop frame ends t h (inr no_chunks) = (h.0, h.1, h.2, λ _ _ _. no_chunks)

  wanted-pos : (frame : Frame) → IsPlayable p frame → 0 < wanted p frame
  wanted-pos frame f = ground (arith, f.small, f.has_data, f.has_room)

  took-IsSafe :
      (frame : Frame) (ends : Bool) (σ : System p) (chunk : List ℕ) (rest : AudioQueue ℕ)
      → σ.phase ≡ filling frame ends
      → InPhase p (filling frame ends) σ.turn
      → IsSafe p σ
      → pop_audio p σ.turn.streamer ≡ some (chunk, rest)
      → let (more, t) = take_chunk p chunk rest σ.turn in
        IsSafe p
          (record σ { turn = t; phase = if more then filling frame ends else finishing frame ends })
  took-IsSafe frame ends σ chunk rest e h v popped =
      let (more, t) = take_chunk p chunk rest σ.turn in
      let front =
        (subst (All (IsShort max_audio_chunk_samples))
          (pop_audio-eq-some σ.turn.streamer chunk rest popped) v.bounded.short).0 in
      let k = take_chunk-Took chunk rest σ.turn front.0 front.1 v.room h.1 in
      let filled : InPhase p (filling frame ends) t = (
        h.0,
        k.measured,
        λ end. ap (λ (s : Streamer p). s.terminal_close) k.only_queue ∙ h.2 end,
      ) in
      record {
        bounded =
            subst (IsBounded p) (sym k.only_queue)
              ((IsBounded-IsInvariant p).popped σ.turn.streamer chunk rest popped v.bounded);
        room = omega (arith, k.capacity, v.room);
        same_room = k.capacity ∙ v.same_room;
        in_phase = elim (Bool-cases (take_chunk p chunk rest σ.turn).0) [
          | inl on ↦ rw on filled
          | inr off ↦ rw off (ends_loop frame ends t filled (inl (k.refused off)))
        ];
        drained = λ closed. cc (pop_audio-nil σ.turn.streamer (v.drained closed).1, popped);
      }

  stopped :
      (frame : Frame) (ends : Bool) (σ : System p)
      → InPhase p (finishing frame ends) σ.turn
      → IsSafe p σ
      → IsSafe p (record σ { phase = finishing frame ends })
  stopped frame ends σ h v = record {
    bounded = v.bounded;
    room = v.room;
    same_room = v.same_room;
    in_phase = h;
    drained = v.drained;
  }

  pub fill-IsSafe :
      (frame : Frame) (ends : Bool) (σ : System p)
      → σ.phase ≡ filling frame ends
      → IsSafe p σ
      → IsSafe p (fill p frame ends σ)
  unfolding fill
  fill-IsSafe frame ends σ e v =
      let h : InPhase p (filling frame ends) σ.turn =
        subst (λ f. InPhase p f σ.turn) e v.in_phase in
      let stops = λ (q : (σ.turn.inuse ≢ 0) ⊎ (σ.turn.streamer.queue.chunks ≡ [])).
        stopped frame ends σ (ends_loop frame ends σ.turn h q) v in
      elim (Bool-cases (ltb σ.turn.inuse (wanted p frame))) [
        | inr enough ↦
            let least = not_ltb→le σ.turn.inuse (wanted p frame) enough in
            let pos = wanted-pos frame h.0 in
            simp (fill, enough) (stops (inl (λ empty. omega (arith, least, pos, empty))))
        | inl few ↦ elim (Option-cases (pop_audio p σ.turn.streamer)) [
          | inl nothing ↦
              simp (fill, few, nothing)
                (stops
                  (inr (pop_audio-none σ.turn.streamer σ.turn.streamer.queue.chunks refl nothing)))
          | inr ((chunk, rest), popped) ↦
              simp (fill, few, popped) (took-IsSafe frame ends σ chunk rest e h v popped)
        ]
      ]
