-- ===== src/Pcm.antt =====
-- openai_audio_streamer_glue.cpp, `convertRawAudio` and `createWavFromRaw`: PCM16 bytes and samples
-- on a little-endian host. A sample is its 16-bit pattern.
pub mod Aligned
use mod_openai_realtime.Base.{
  ℕ, suc, ◌+◌, ◌-◌, ◌*◌, ◌/◌, ◌%◌, ◌^◌, Bool, true, false, not, ◌||◌, List, [], ◌∷◌, ◌++◌, Option,
  none, some, ltb, ◌==◌, if◌then◌else◌, Bytes, codes, length, take,
}
use mod_openai_realtime.Services.{Resampler}

-- `std::memcpy` between bytes and `int16_t`.
unfoldable pub samples_of : Bytes → List ℕ
samples_of [] = []
samples_of (lo ∷ []) = []
samples_of (lo ∷ hi ∷ rest) = (lo + 256 * hi) ∷ samples_of rest

unfoldable pub bytes_of : List ℕ → Bytes
bytes_of [] = []
bytes_of (s ∷ rest) = s % 256 ∷ s / 256 % 256 ∷ bytes_of rest

-- `data[i]`, for an index in range.
abbrev pub last_or : Bytes → ℕ → ℕ
last_or [] d = d
last_or (c ∷ rest) d = last_or rest c

-- What `convertRawAudio` reads and keeps of an AudioStreamer. `resampler` is `none` for null.
pub record Converter (R : Type 0) : Type 0 where
  pub in_sample_rate : ℕ
  pub out_sample_rate : ℕ
  pub resampler : Option R
  pub pending_raw_byte : ℕ
  pub has_pending_raw_byte : Bool

-- The whole samples of the bytes.
abbrev pub usable : Bytes → Bytes
usable bytes = take (length bytes - length bytes % 2) bytes

module _ {R : Type 0} where
  -- `data` and `size` once a byte carried over is put in front.
  unfoldable pub stitch : Converter R → Bytes → Bytes
  stitch c input = if c.has_pending_raw_byte then c.pending_raw_byte ∷ input else input

  -- The carry behind `stitch`: the last byte of an odd number.
  unfoldable pub carry : Converter R → Bytes → Converter R
  carry c bytes =
      if length bytes % 2 == 0
      then record c { has_pending_raw_byte = false }
      else record c { pending_raw_byte = last_or bytes 0; has_pending_raw_byte = true }

module _ (speex : Resampler) where
  open speex use {State, process, scaled}

  -- `UINT32_MAX`
  abbrev uint32_max : ℕ
  uint32_max = 2 ^ 32 - 1

  -- The call of the resampler, on a null or a working one.
  unfoldable pub resample : Option State → Converter State → List ℕ → Converter State × List ℕ
  resample none c samples =
      if not (c.in_sample_rate == c.out_sample_rate) then (c, []) else (c, samples)
  resample (some r) c samples =
      let room = scaled (length samples) c.out_sample_rate c.in_sample_rate + 1 in
      if ltb uint32_max (length samples) || ltb uint32_max room
      then (c, [])
      else let (r', result) = process r samples room in
        (record c { resampler = some r' }, elim result [ none ↦ [] | some (used, out) ↦ out ])

  unfoldable pub convert_raw_audio : Converter State → Bytes → Converter State × List ℕ
  convert_raw_audio c input =
      let bytes = stitch c input in
      let c' = carry c bytes in
      if length (usable bytes) == 0
      then (c', [])
      else resample c'.resampler c' (samples_of (usable bytes))
