-- ===== src/Pcm/Aligned.antt =====
-- Where the rates agree, the audio frames are segments of one stream of PCM16 bytes: how the stream
-- is cut into frames makes no difference.
use mod_openai_realtime.Base.{
  ℕ, suc, ◌-◌, ◌/◌, ◌%◌, ◌<◌, ◌≡◌, refl, sym, ap, ◌∙◌, inl, inr, List, [], ◌∷◌, ◌++◌, none, arith,
  ◌==◌, if◌then◌else◌, Bool-cases, Bytes, length, take, flatten, All, append_assoc, append-nil,
  All-append, All-append_left, All-append_right, take_all, length-take,
}
use mod_openai_realtime.Services.{Resampler}
use mod_openai_realtime.Pcm.{
  Converter, samples_of, bytes_of, last_or, stitch, carry, usable, resample, convert_raw_audio,
}

abbrev pub IsByte : ℕ → Type 0
IsByte b = b < 256

-- The byte carried over, as the bytes still owed to the stream.
abbrev pub pending : {R : Type 0} → Converter R → Bytes
pending c = if c.has_pending_raw_byte then c.pending_raw_byte ∷ [] else []

-- No resampler, and none needed.
pub record IsPlain {R : Type 0} (c : Converter R) : Type 0 where
  pub no_resampler : c.resampler ≡ none
  pub same_rate : c.in_sample_rate ≡ c.out_sample_rate
  pub pending_byte : All IsByte (pending c)

bytes_of-samples_of :
    (xs : Bytes) → length xs % 2 ≡ 0 → All IsByte xs → bytes_of (samples_of xs) ≡ xs
unfolding bytes_of samples_of
bytes_of-samples_of [] h all = refl
bytes_of-samples_of (lo ∷ []) h all = absurd (omega arith)
bytes_of-samples_of (lo ∷ hi ∷ rest) h (bl, (bh, all)) =
    ground (arith, bytes_of-samples_of rest (omega arith) all)

take-last :
    (c : ℕ) (xs : Bytes) (d : ℕ) → take (length xs) (c ∷ xs) ++ last_or (c ∷ xs) d ∷ [] ≡ c ∷ xs
take-last c [] d = refl
take-last c (x ∷ xs) d = ap (◌∷◌ c) (take-last x xs c)

-- The byte that does not make a sample.
abbrev odd_byte : Bytes → Bytes
odd_byte bytes = if length bytes % 2 == 0 then [] else last_or bytes 0 ∷ []

usable-odd_byte : (bytes : Bytes) → usable bytes ++ odd_byte bytes ≡ bytes
usable-odd_byte [] = refl
usable-odd_byte (c ∷ xs) = elim (Bool-cases (suc (length xs) % 2 == 0)) [
  | inl e ↦
      let whole : suc (length xs) - suc (length xs) % 2 ≡ suc (length xs) = ground arith in
      rw (e, whole) (append-nil _ ∙ take_all (suc (length xs)) (c ∷ xs) (omega arith))
  | inr e ↦
      let less : suc (length xs) - suc (length xs) % 2 ≡ length xs = ground arith in
      rw (e, less) (take-last c xs 0)
]

usable_even : (bytes : Bytes) → length (usable bytes) % 2 ≡ 0
usable_even bytes = omega (arith, length-take (length bytes - length bytes % 2) bytes)

module _ {R : Type 0} where
  stitch-pending : (c : Converter R) (input : Bytes) → stitch c input ≡ pending c ++ input
  unfolding stitch
  stitch-pending c input = ground arith

  pending-carry : (c : Converter R) (bytes : Bytes) → pending (carry c bytes) ≡ odd_byte bytes
  unfolding carry
  pending-carry c bytes = ground arith

  carry-IsPlain :
      (c : Converter R) (bytes : Bytes) → IsPlain c → All IsByte bytes → IsPlain (carry c bytes)
  unfolding carry
  carry-IsPlain c bytes v all = record {
    no_resampler = ground (arith, v.no_resampler);
    same_rate = ground (arith, v.same_rate);
    pending_byte =
        rw (pending-carry c bytes) (
          All-append_right IsByte (usable bytes) (odd_byte bytes) (rw (usable-odd_byte bytes) all));
  }

samples_of-nil : (xs : Bytes) → length xs ≡ 0 → samples_of xs ≡ []
unfolding samples_of
samples_of-nil [] h = refl
samples_of-nil (x ∷ xs) h = absurd (omega arith)

pub bytes_of-append : (xs ys : List ℕ) → bytes_of (xs ++ ys) ≡ bytes_of xs ++ bytes_of ys
unfolding bytes_of
bytes_of-append [] ys = refl
bytes_of-append (x ∷ xs) ys = ap (λ l. x % 256 ∷ x / 256 % 256 ∷ l) (bytes_of-append xs ys)

module _ (speex : Resampler) where
  open speex use {State}

  resample-plain :
      (c : Converter State) (samples : List ℕ)
      → IsPlain c
      → resample speex c.resampler c samples ≡ (c, samples)
  unfolding resample
  resample-plain c samples v = rw (v.no_resampler, resample) (ground (arith, v.same_rate))

  convert_raw_audio-eq :
      (c : Converter State) (input bytes : Bytes)
      → stitch c input ≡ bytes
      → IsPlain (carry c bytes)
      → convert_raw_audio speex c input ≡ (carry c bytes, samples_of (usable bytes))
  unfolding convert_raw_audio
  convert_raw_audio-eq c input bytes e v = elim (Bool-cases (length (usable bytes) == 0)) [
    | inl z ↦
        rw (e, z)
          (ap (λ xs. (carry c bytes, xs)) (sym (samples_of-nil (usable bytes) (ground arith))))
    | inr z ↦ rw (e, z) (resample-plain (carry c bytes) (samples_of (usable bytes)) v)
  ]

  -- One frame: the bytes that come out and the byte kept are the byte kept before and the frame.
  convert_raw_audio-IsPlain :
      (c : Converter State) (input : Bytes)
      → IsPlain c
      → All IsByte input
      → let r = convert_raw_audio speex c input in
        IsPlain r.0 × (bytes_of r.1 ++ pending r.0 ≡ pending c ++ input)
  convert_raw_audio-IsPlain c input v all =
      let bytes : Bytes = pending c ++ input in
      let all_bytes : All IsByte bytes = All-append IsByte (pending c) input v.pending_byte all in
      let v' : IsPlain (carry c bytes) = carry-IsPlain c bytes v all_bytes in
      rw (convert_raw_audio-eq c input bytes (stitch-pending c input) v') (
        v',
        rw
            (
              bytes_of-samples_of (usable bytes) (usable_even bytes) (
                  All-append_left IsByte (usable bytes) (odd_byte bytes)
                    (rw (usable-odd_byte bytes) all_bytes)),
              pending-carry c bytes,
            )
            (usable-odd_byte bytes),
      )

  -- A run over the frames as they arrive: the converter at the end, and all samples that came out.
  pub convert_all : Converter State → List Bytes → Converter State × List ℕ
  convert_all c [] = (c, [])
  convert_all c (input ∷ inputs) =
      let (c', out) = convert_raw_audio speex c input in
      let (c'', outs) = convert_all c' inputs in (c'', out ++ outs)

  -- With equal rates and no resampler, whatever the frames: the samples that come out, as bytes, with
  -- the odd byte still kept, are the bytes kept before and all frames in order. Nothing is lost,
  -- doubled or shifted by frames of odd length.
  pub convert_all-stream :
      (inputs : List Bytes) (c : Converter State)
      → IsPlain c
      → All IsByte (flatten inputs)
      → let r = convert_all c inputs in bytes_of r.1 ++ pending r.0 ≡ pending c ++ flatten inputs
  unfolding convert_all
  convert_all-stream [] c v all = unfold bytes_of in sym (append-nil (pending c))
  convert_all-stream (input ∷ inputs) c v all =
      let (c', out) = convert_raw_audio speex c input in
      let one =
        convert_raw_audio-IsPlain c input v (All-append_left IsByte input (flatten inputs) all) in
      let rest =
        convert_all-stream inputs c' one.0 (All-append_right IsByte input (flatten inputs) all) in
      rw (bytes_of-append out (convert_all c' inputs).1) (
        append_assoc (bytes_of out) _ _
        ∙ ap (◌++◌ (bytes_of out)) rest
        ∙ sym (append_assoc (bytes_of out) (pending c') (flatten inputs))
        ∙ ap (λ l. l ++ flatten inputs) one.1
        ∙ append_assoc (pending c) input (flatten inputs))
