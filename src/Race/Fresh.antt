-- ===== src/Race/Fresh.antt =====
-- What one access of the streamer leaves of the audio that came before a barge-in: the bytes of the
-- queue and of the playback buffer, under any property of bytes that silence has.
use mod_openai_realtime.Base.{
  if-both, ℕ, ◌+◌, ◌≤◌, ◌<◌, ◌≡◌, sym, subst, Bool, false, List, some, arith, ◌⊎◌, ltb, not_ltb→le,
  ltb→lt, ◌==◌, length, Bool-cases, inl, inr, All, All-append, All-append_left, All-append_right,
  flatten,
}
use mod_openai_realtime.Services.{Platform}
use mod_openai_realtime.Queue.{AudioQueue, push_audio_queue, clear_audio_queue}
use mod_openai_realtime.Queue.Chunks.{enqueue-flatten}
use mod_openai_realtime.Queue.Refine.{pop_all_lem}
use mod_openai_realtime.Pcm.{bytes_of}
use mod_openai_realtime.Pcm.Aligned.{bytes_of-append}
use mod_openai_realtime.Streamer.{
  Streamer, push_audio, pop_audio, clear_audio, consume_playback_clear, openai_speech_stopped,
  notify,
}
use mod_openai_realtime.Playback.{Turn, take_clear, take_chunk}
use mod_openai_realtime.Race.Loop.{pop_audio-eq-some}

module _ (p : Platform) (P : ℕ → Type 0) where
  open p use {buffer}

  -- The bytes that wait in the queue.
  abbrev pub NewQueue : Streamer p → Type 0
  NewQueue s = All P (bytes_of (flatten s.queue.chunks))

  -- The bytes in the playback buffer.
  abbrev pub NewBuffer : Turn p → Type 0
  NewBuffer t = All P (buffer.contents t.buffer)

  -- The playback buffer is new, or will be cleared.
  abbrev pub IsPending : Turn p → Type 0
  IsPending t = (t.streamer.playback_clear_gen_seen < t.streamer.playback_clear_gen) ⊎ NewBuffer t

  pub push-NewQueue :
      (audio : List ℕ) (s : Streamer p)
      → All P (bytes_of audio)
      → NewQueue s
      → NewQueue (push_audio p audio s)
  unfolding push_audio push_audio_queue
  push-NewQueue audio s new q =
      if-both (λ (r : AudioQueue ℕ). All P (bytes_of (flatten r.chunks)))
        (ltb _ (s.queue.samples + length audio)) _ _ q
        (subst (λ l. All P (bytes_of l)) (sym (enqueue-flatten audio s.queue.chunks))
          (subst (All P) (sym (bytes_of-append (flatten s.queue.chunks) audio))
            (All-append P _ _ q new)))

  pub clear-NewQueue : (s : Streamer p) → NewQueue (clear_audio p s)
  unfolding clear_audio clear_audio_queue bytes_of
  clear-NewQueue s = rw (pop_all_lem s.queue.chunks) tt

  -- The chunk that is popped, and what stays in the queue.
  pub pop-NewQueue :
      (s : Streamer p) (chunk : List ℕ) (rest : AudioQueue ℕ)
      → pop_audio p s ≡ some (chunk, rest)
      → NewQueue s
      → All P (bytes_of chunk) × All P (bytes_of (flatten rest.chunks))
  pop-NewQueue s chunk rest e q =
      let split =
        subst (λ cs. All P (bytes_of (flatten cs))) (pop_audio-eq-some p s chunk rest e) q in
      let parts = subst (All P) (bytes_of-append chunk (flatten rest.chunks)) split in
      (All-append_left P _ _ parts, All-append_right P _ _ parts)

  -- A turn that begins has cleared the buffer if that was asked for.
  pub take_clear-New :
      (located : Bool) (t : Turn p)
      → t.streamer.playback_clear_gen_seen ≤ t.streamer.playback_clear_gen
      → IsPending t
      → NewBuffer (take_clear p located t.buffer t.streamer)
  unfolding take_clear consume_playback_clear
  take_clear-New located t seen (inr new) =
      if-both (λ (r : Turn p). NewBuffer r) (consume_playback_clear p t.streamer).0 _ _
        (subst (All P) (sym (buffer.zero-contents t.buffer)) tt) new
  take_clear-New located t seen (inl asked) =
      let differ : (t.streamer.playback_clear_gen == t.streamer.playback_clear_gen_seen) ≡ false =
        ground (arith, asked) in
      rw (differ, buffer.zero-contents t.buffer) tt

  pub record SameClear (s s' : Streamer p) : Type 0 where
    pub queue : s'.queue ≡ s.queue
    pub gen : s'.playback_clear_gen ≡ s.playback_clear_gen
    pub seen :
        (s'.playback_clear_gen_seen ≡ s.playback_clear_gen_seen)
        ⊎ (s'.playback_clear_gen_seen ≡ s.playback_clear_gen)

  pub take_clear-SameClear :
      (located : Bool) (b : buffer.Buffer) (s : Streamer p)
      → SameClear s (take_clear p located b s).streamer
  unfolding take_clear consume_playback_clear openai_speech_stopped notify
  take_clear-SameClear located b s = record {
    queue = ground arith;
    gen = ground arith;
    seen = elim (Bool-cases (s.playback_clear_gen == s.playback_clear_gen_seen)) [
      | inl e ↦ inl (ground (arith, e))
      | inr e ↦ inr (ground (arith, e))
    ];
  }

  -- A chunk goes into the buffer, or does not.
  pub take_chunk-New :
      (chunk : List ℕ) (rest : AudioQueue ℕ) (t : Turn p)
      → All P (bytes_of chunk)
      → NewBuffer t
      → NewBuffer (take_chunk p chunk rest t).1
  unfolding take_chunk
  take_chunk-New chunk rest t new old =
      let xs = bytes_of chunk in
      elim (Bool-cases (ltb (buffer.freespace t.buffer) (length xs))) [
        | inl full ↦
            rw
              (buffer.write_refused t.buffer xs
                (ltb→lt (buffer.freespace t.buffer) (length xs) full))
              old
        | inr fits ↦
            let more = not_ltb→le (buffer.freespace t.buffer) (length xs) fits in
            let written = (buffer.write_fits t.buffer xs more).0 in
            let all : All P (buffer.contents (buffer.write t.buffer xs).0) =
              subst (All P) (sym written) (All-append P _ _ old new) in
            if-both (λ (r : Bool × Turn p). NewBuffer r.1) ((buffer.write t.buffer xs).1 == 0) _ _
              all all
      ]

  pub take_chunk-streamer :
      (chunk : List ℕ) (rest : AudioQueue ℕ) (t : Turn p)
      → (take_chunk p chunk rest t).1.streamer ≡ record (t.streamer) { queue = rest }
  unfolding take_chunk
  take_chunk-streamer chunk rest t = ground arith
