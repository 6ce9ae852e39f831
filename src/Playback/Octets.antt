-- ===== src/Playback/Octets.antt =====
-- What `write_frame` may put in a frame: as many bytes as the frame has room for, each of eight bits.
use native.Mathlib.Nat.{div-eq-sub-div, div-mul-le_self, lt-div-mul-add}
use mod_openai_realtime.Base.{
  ◌+◌, ◌*◌, ◌/◌, if-both, Option-cases, ℕ, zero, suc, ◌-◌, ◌≤◌, ◌<◌, min, ◌≡◌, sym, ap, subst, ◌∙◌,
  inl, inr, Bool, true, not, ◌&&◌, ◌||◌, List, [], ◌∷◌, Option, none, some, arith, leb, ◌==◌,
  Bool-cases, Bytes, length, length-append, take, replicate, All, All-append, All-take, All-drop,
  All-replicate, length-take, length-replicate,
}
use mod_openai_realtime.Services.{Platform}
use mod_openai_realtime.Queue.{AudioQueue}
use mod_openai_realtime.Pcm.{bytes_of}
use mod_openai_realtime.Streamer.{Streamer, pop_audio, consume_playback_clear}
use mod_openai_realtime.Private.{Private}
use mod_openai_realtime.Playback.{
  Replaced, Frame, Turn, take_clear, take_chunk, refill, fall_silent, play, finish_turn, turn,
  write_frame, bytes_needed,
}

abbrev pub IsByte : ℕ → Type 0
IsByte c = c < 256

bytes_of-IsByte : (xs : List ℕ) → All IsByte (bytes_of xs)
unfolding bytes_of
bytes_of-IsByte [] = tt
bytes_of-IsByte (x ∷ xs) = (omega arith, (omega arith, bytes_of-IsByte xs))

-- A frame of at most as many samples as bytes has a byte for each sample.
width-pos : (samples datalen : ℕ) → 0 < samples → samples ≤ datalen → 0 < datalen / samples
width-pos samples datalen some_samples enough = omega (arith, div-eq-sub-div some_samples enough)

-- The frame that replaces `frame`, if any: its audio, and its samples, as many as its bytes are enough
-- for at the width of those of `frame`.
pub record Fits (frame : Frame) (out : Replaced) : Type 0 where
  pub filled : length out.audio ≡ out.datalen
  pub bytes : All IsByte out.audio
  pub within : out.datalen ≤ frame.buflen
  pub no_longer : out.datalen ≤ frame.datalen
  pub samples : ℕ
  pub counted : out.samples ≡ some samples
  pub whole : samples * (frame.datalen / frame.samples) ≤ out.datalen
  pub most : out.datalen < samples * (frame.datalen / frame.samples) + frame.datalen / frame.samples

abbrev pub FitsThen : Frame → Option Replaced → Type 0
FitsThen frame none = Unit
FitsThen frame (some out) = Fits frame out

module _ (p : Platform) where
  open p use {buffer}

  -- A playback buffer of bytes.
  abbrev pub HasBytes : buffer.Buffer → Type 0
  HasBytes b = All IsByte (buffer.contents b)

  abbrev pub Sound : Frame → Private p × Option Replaced → Type 0
  Sound frame r = HasBytes r.0.playback_buffer × FitsThen frame r.1

  record IsSound (t : Turn p) : Type 0 where
    pub bytes : HasBytes t.buffer
    pub measured : t.inuse ≡ length (buffer.contents t.buffer)

  zero-HasBytes : (b : buffer.Buffer) → HasBytes (buffer.zero b)
  zero-HasBytes b = subst (All IsByte) (sym (buffer.zero-contents b)) tt

  take_clear-IsSound :
      (located : Bool) (b : buffer.Buffer) (s : Streamer p)
      → HasBytes b
      → IsSound (take_clear p located b s)
  unfolding take_clear
  take_clear-IsSound located b s v =
      if-both IsSound (consume_playback_clear p s).0 _ _
        (record { bytes = zero-HasBytes b; measured = sym (ap length (buffer.zero-contents b)) })
        (record { bytes = v; measured = buffer.inuse-contents b })

  write-HasBytes :
      (b : buffer.Buffer) (xs : List ℕ) → HasBytes b → HasBytes (buffer.write b (bytes_of xs)).0
  write-HasBytes b xs v = elim (Bool-cases (leb (length (bytes_of xs)) (buffer.freespace b))) [
    | inl e ↦
        subst (All IsByte) (sym (buffer.write_fits b (bytes_of xs) (ground arith)).0)
          (All-append IsByte (buffer.contents b) (bytes_of xs) v (bytes_of-IsByte xs))
    | inr e ↦ rw (buffer.write_refused b (bytes_of xs) (ground arith)) v
  ]

  -- A write that takes nothing leaves what is in use.
  write_nothing :
      (b : buffer.Buffer) (xs : Bytes)
      → ((buffer.write b xs).1 == 0) ≡ true
      → length (buffer.contents (buffer.write b xs).0) ≡ length (buffer.contents b)
  write_nothing b xs h = elim (Bool-cases (leb (length xs) (buffer.freespace b))) [
    | inl e ↦
        let fits = buffer.write_fits b xs (ground arith) in
        ground (arith, fits.1, ap length fits.0, length-append (buffer.contents b) xs)
    | inr e ↦ ap (λ r. length (buffer.contents r.0)) (buffer.write_refused b xs (ground arith))
  ]

  take_chunk-IsSound :
      (chunk : List ℕ) (rest : AudioQueue ℕ) (t : Turn p)
      → IsSound t
      → IsSound (take_chunk p chunk rest t).1
  unfolding take_chunk
  take_chunk-IsSound chunk rest t v =
      let b = (buffer.write t.buffer (bytes_of chunk)).0 in
      let held = write-HasBytes t.buffer chunk v.bytes in
      elim (Bool-cases ((buffer.write t.buffer (bytes_of chunk)).1 == 0)) [
        | inl e ↦ rw e (record {
          bytes = held;
          measured = v.measured ∙ sym (write_nothing t.buffer (bytes_of chunk) e);
        })
        | inr e ↦ rw e (record { bytes = held; measured = buffer.inuse-contents b })
      ]

  refill-IsSound : (fuel wanted : ℕ) (t : Turn p) → IsSound t → IsSound (refill p fuel wanted t)
  unfolding refill
  refill-IsSound zero wanted t v = v
  refill-IsSound (suc fuel) wanted t v = elim (Option-cases (pop_audio p t.streamer)) [
    | inl e ↦ ground (arith, e)
    | inr ((chunk, rest), e) ↦
        let next = take_chunk-IsSound chunk rest t v in
        ground (arith, refill-IsSound fuel wanted (take_chunk p chunk rest t).1)
  ]

  play-Fits :
      (located : Bool) (tech : Private p) (t : Turn p) (frame : Frame)
      → 0 < frame.datalen / frame.samples
      → IsSound t
      → Fits frame (play p located (min t.inuse (bytes_needed p frame)) tech t frame).1
  unfolding play
  play-Fits located tech t frame wide v =
      let n = min t.inuse (bytes_needed p frame) in
      let held = buffer.contents t.buffer in
      let gap : Bytes = replicate (bytes_needed p frame - n) 0 in
      let read = (buffer.read-contents t.buffer n).1 in
      rw read (record {
        filled = ground (
          arith,
          length-append (take n held) gap,
          length-take n held,
          length-replicate {A = ℕ} (bytes_needed p frame - n) 0,
          v.measured,
        );
        bytes =
            All-append IsByte (take n held) gap (All-take IsByte n held v.bytes)
              (All-replicate IsByte (bytes_needed p frame - n) 0 (omega arith));
        within = ground arith;
        no_longer = ground arith;
        samples = bytes_needed p frame / (frame.datalen / frame.samples);
        counted = ground (arith, wide);
        whole = div-mul-le_self (bytes_needed p frame) (frame.datalen / frame.samples);
        most = lt-div-mul-add wide;
      })

  finish_turn-Sound :
      (located terminal_close : Bool) (tech : Private p) (t : Turn p) (frame : Frame)
      → 0 < frame.datalen / frame.samples
      → IsSound t
      → Sound frame (finish_turn p located terminal_close tech t frame)
  unfolding finish_turn fall_silent play
  finish_turn-Sound located terminal_close tech t frame wide v =
      let n = min t.inuse (bytes_needed p frame) in
      let left = All-drop IsByte n (buffer.contents t.buffer) v.bytes in
      if-both (Sound frame) (not t.chunk_enqueued && t.inuse == 0) _ _ (v.bytes, tt)
        (if-both (Sound frame) tech.openai_audio_muted _ _
          (subst (All IsByte) (sym (buffer.toss-contents t.buffer n)) left, tt)
          (
            subst (All IsByte) (sym (buffer.read-contents t.buffer n).0) left,
            play-Fits located tech t frame wide v,
          ))

  -- Whatever the state of the session, for a frame of at most as many samples as bytes: if the playback
  -- buffer holds bytes, it still does after `write_frame`, and a frame that is to replace the written one
  -- has exactly `datalen` bytes of audio, which fit the buffer of the written frame and are no more than it
  -- had; the number of its samples is found without a division by zero, and is as many as its bytes are
  -- enough for, at the written frame's bytes for a sample.
  pub write_frame-Sound :
      (located : Bool) (tech : Private p) (frame : Frame) (codec_ready : Bool)
      → HasBytes tech.playback_buffer
      → frame.samples ≤ frame.datalen
      → Sound frame (write_frame p located tech (some frame) codec_ready)
  unfolding write_frame turn
  write_frame-Sound located tech frame codec_ready v enough = elim (Option-cases tech.streamer) [
    | inl e ↦
        simp (write_frame, e)
          (if-both (Sound frame) (tech.audio_paused || not codec_ready) _ _ (v, tt) (v, tt))
    | inr (s, e) ↦
        let t = take_clear p located tech.playback_buffer s in
        let sound = refill-IsSound _ _ t (take_clear-IsSound located tech.playback_buffer s v) in
        simp (write_frame, e)
          (if-both (Sound frame) (tech.audio_paused || not codec_ready) _ _ (v, tt)
            (elim (Bool-cases (frame.samples == 0 || frame.datalen == 0)) [
              | inl h ↦ rw h (v, tt)
              | inr h ↦
                  let wide = width-pos frame.samples frame.datalen (ground (arith, h)) enough in
                  rw h (finish_turn-Sound located t.streamer.terminal_close tech _ frame wide sound)
            ]))
  ]
