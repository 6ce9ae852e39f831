-- ===== src/Playback/Refill.antt =====
-- The loop that moves audio from the queue to the playback buffer neither loses nor reorders any, and
-- stops for want of audio or because there is enough.
use mod_openai_realtime.Base.{
  ℕ, zero, suc, ◌+◌, ◌*◌, ◌≤◌, ◌<◌, ◌≡◌, refl, sym, ap, subst, ◌∙◌, ◌⊎◌, inl, inr, true, List, [],
  ◌∷◌, ◌++◌, arith, ltb, not_ltb→le, ltb→lt, Bool-cases, Bytes, length, length-append, flatten, All,
  append_assoc,
}
use mod_openai_realtime.Services.{Platform}
use mod_openai_realtime.Queue.{AudioQueue, max_audio_chunk_samples}
use mod_openai_realtime.Queue.Refine.{pop_audio_queue-cons, pop_audio_queue-nil}
use mod_openai_realtime.Queue.Chunks.{IsShort}
use mod_openai_realtime.Pcm.{bytes_of}
use mod_openai_realtime.Pcm.Aligned.{bytes_of-append}
use mod_openai_realtime.Streamer.{Streamer, pop_audio, queue_limit}
use mod_openai_realtime.Playback.{Turn, take_chunk, refill}

pub length-bytes_of : (xs : List ℕ) → length (bytes_of xs) ≡ 2 * length xs
unfolding bytes_of
length-bytes_of [] = refl
length-bytes_of (x ∷ xs) = omega (arith, length-bytes_of xs)

module _ (p : Platform) where
  open p use {buffer}

  -- The audio still to be played, in order.
  abbrev pub line : Turn p → Bytes
  line t = buffer.contents t.buffer ++ bytes_of (flatten t.streamer.queue.chunks)

  -- `inuse` is up to date, and the buffer has room for a chunk as long as fewer bytes than `wanted`
  -- are in use.
  pub record IsReady (wanted : ℕ) (t : Turn p) : Type 0 where
    pub measured : t.inuse ≡ length (buffer.contents t.buffer)
    pub room : wanted + 2 * max_audio_chunk_samples ≤ buffer.capacity t.buffer
    pub short : All (IsShort max_audio_chunk_samples) t.streamer.queue.chunks
    pub flagged : t.chunk_enqueued ≡ true → 0 < t.inuse

  pub record Refilled (wanted : ℕ) (t u : Turn p) : Type 0 where
    pub ready : IsReady wanted u
    pub same_line : line u ≡ line t
    pub only_queue : u.streamer ≡ record (t.streamer) { queue = u.streamer.queue }
    pub enough : (wanted ≤ u.inuse) ⊎ (u.streamer.queue.chunks ≡ [])

  -- A chunk always fits.
  take_chunk-fits :
      (wanted : ℕ) (chunk : List ℕ) (rest : AudioQueue ℕ) (t : Turn p)
      → IsReady wanted t
      → t.inuse < wanted
      → IsShort max_audio_chunk_samples chunk
      → let b = (buffer.write t.buffer (bytes_of chunk)).0 in
        (buffer.contents b ≡ buffer.contents t.buffer ++ bytes_of chunk)
        × (take_chunk p chunk rest t ≡ (
          true,
          record {
            buffer = b;
            streamer = record (t.streamer) { queue = rest };
            inuse = buffer.inuse b;
            chunk_enqueued = true;
          },
        ))
  unfolding take_chunk
  take_chunk-fits wanted chunk rest t v h short =
      let fits =
        buffer.write_fits t.buffer (bytes_of chunk)
          (omega (arith, buffer.freespace-capacity t.buffer, length-bytes_of chunk)) in
      (fits.0, ground (arith, fits.1, length-bytes_of chunk))

  Refilled-here :
      (wanted : ℕ) (t : Turn p)
      → IsReady wanted t
      → (wanted ≤ t.inuse) ⊎ (t.streamer.queue.chunks ≡ [])
      → Refilled wanted t t
  Refilled-here wanted t v h = record { ready = v; same_line = refl; only_queue = refl; enough = h }

  -- After one chunk the turn is ready again, and its line is the same.
  module _ (wanted : ℕ) (chunk : List ℕ) (cs : List (List ℕ)) (rest : AudioQueue ℕ) (t : Turn p)
      (v : IsReady wanted t) (few : t.inuse < wanted) (e : t.streamer.queue.chunks ≡ chunk ∷ cs)
      (left : rest.chunks ≡ cs) where
    short : All (IsShort max_audio_chunk_samples) (chunk ∷ cs)
    short = subst (All (IsShort max_audio_chunk_samples)) e v.short

    abbrev after : Turn p
    after = record {
      buffer = (buffer.write t.buffer (bytes_of chunk)).0;
      streamer = record (t.streamer) { queue = rest };
      inuse = buffer.inuse (buffer.write t.buffer (bytes_of chunk)).0;
      chunk_enqueued = true;
    }

    after-IsReady : IsReady wanted after
    after-IsReady =
        let fits = take_chunk-fits wanted chunk rest t v few short.0 in
        let used = buffer.inuse-contents (buffer.write t.buffer (bytes_of chunk)).0 in
        record {
          measured = used;
          room = omega (arith, v.room, buffer.write-capacity t.buffer (bytes_of chunk));
          short = subst (All (IsShort max_audio_chunk_samples)) (sym left) short.1;
          flagged = λ _. omega (
            arith,
            used,
            ap length fits.0,
            length-append (buffer.contents t.buffer) (bytes_of chunk),
            length-bytes_of chunk,
            short.0.0,
          );
        }

    line-after : line after ≡ line t
    line-after =
        let fits = take_chunk-fits wanted chunk rest t v few short.0 in
        rw (fits.0, left, e, bytes_of-append chunk (flatten cs))
          (append_assoc (buffer.contents t.buffer) (bytes_of chunk) (bytes_of (flatten cs)))

  Refilled-next :
      (wanted : ℕ) (t u : Turn p) (rest : AudioQueue ℕ) (w : Turn p)
      → w.streamer ≡ record (t.streamer) { queue = rest }
      → line w ≡ line t
      → Refilled wanted w u
      → Refilled wanted t u
  Refilled-next wanted t u rest w only same r = record {
    ready = r.ready;
    same_line = r.same_line ∙ same;
    only_queue = r.only_queue ∙ ap (λ (s : Streamer p). record s { queue = u.streamer.queue }) only;
    enough = r.enough;
  }

  pub refill-Refilled :
      (fuel wanted : ℕ) (t : Turn p) (cs : List (List ℕ))
      → t.streamer.queue.chunks ≡ cs
      → length cs < fuel
      → IsReady wanted t
      → Refilled wanted t (refill p fuel wanted t)
  unfolding refill pop_audio
  refill-Refilled zero wanted t cs e h v = absurd (omega arith)
  refill-Refilled (suc fuel) wanted t [] e h v = elim (Bool-cases (ltb t.inuse wanted)) [
    | inl few ↦
        rw (few, refill, pop_audio_queue-nil (queue_limit p t.streamer) t.streamer.queue e)
          (Refilled-here wanted t v (inr e))
    | inr many ↦ rw (many, refill) (Refilled-here wanted t v (inl (not_ltb→le _ _ many)))
  ]
  refill-Refilled (suc fuel) wanted t (chunk ∷ cs) e h v = elim (Bool-cases (ltb t.inuse wanted)) [
    | inl few ↦
        let (rest, popped, left) =
          pop_audio_queue-cons (queue_limit p t.streamer) t.streamer.queue chunk cs e in
        let lt = ltb→lt _ _ few in
        let w = after wanted chunk cs rest t v lt e left in
        let fits =
          take_chunk-fits wanted chunk rest t v lt (short wanted chunk cs rest t v lt e left).0 in
        rw (few, refill, popped, fits.1, fits.1)
          (Refilled-next wanted t (refill p fuel wanted w) rest w refl
            (line-after wanted chunk cs rest t v lt e left)
            (refill-Refilled fuel wanted w cs left (omega arith)
              (after-IsReady wanted chunk cs rest t v lt e left)))
    | inr many ↦ rw (many, refill) (Refilled-here wanted t v (inl (not_ltb→le _ _ many)))
  ]
