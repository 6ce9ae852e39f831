-- ===== src/Message/Files/Wav.antt =====
-- `createWavFromRaw` read back, field by field.
use mod_openai_realtime.Base.{
  ℕ, ◌+◌, ◌*◌, ◌/◌, ◌%◌, ◌^◌, ◌<◌, ◌≡◌, refl, ap, ◌∙◌, [], ◌∷◌, ◌++◌, arith, Bytes, codes, length,
  take, drop, take_all,
}
use mod_openai_realtime.Message.Files.{le16, le32, create_wav_from_raw}

-- The little-endian number of four bytes at the front.
abbrev pub read32 : Bytes → ℕ
read32 (a ∷ b ∷ c ∷ d ∷ rest) = a + b * 256 + c * 65536 + d * 16777216
read32 _ = 0

-- The RIFF size is that of the file behind it, the rate and the data size are right, and the data is
-- the audio.
pub record IsWav (rate : ℕ) (audio wav : Bytes) : Type 0 where
  pub riff : take 4 wav ≡ codes "RIFF"
  pub riff_size : read32 (drop 4 wav) + 8 ≡ length wav
  pub rate_field : read32 (drop 24 wav) ≡ rate
  pub byte_rate : read32 (drop 28 wav) ≡ rate * 2
  pub data_size : read32 (drop 40 wav) ≡ length audio
  pub samples : drop 44 wav ≡ audio

read32-le32 : (n : ℕ) (rest : Bytes) → n < 2 ^ 32 → read32 (le32 n ++ rest) ≡ n
unfolding le32
read32-le32 n rest h = omega arith

-- For audio whose file is below 4 GiB and a rate that is computed without overflow: `create_wav_from_raw`
-- writes a header of 44 bytes whose sizes and rates read back as they are, then the audio unchanged.
pub create_wav_from_raw-IsWav :
    (rate : ℕ) (audio : Bytes)
    → rate * 16 < 2 ^ 31
    → 36 + length audio < 2 ^ 32
    → IsWav rate audio (create_wav_from_raw rate audio)
unfolding create_wav_from_raw le16 le32
create_wav_from_raw-IsWav rate audio small fits =
    let size : length audio % 2 ^ 32 ≡ length audio = ground arith in
    let all = take_all (length audio) audio (omega arith) in
    rw (size, all)
      (record {
        riff = refl;
        riff_size =
            ap (λ n. n + 8) (read32-le32 ((36 + length audio) % 2 ^ 32) [] (omega arith))
            ∙ ground arith;
        rate_field = read32-le32 rate [] (omega arith);
        byte_rate = read32-le32 (rate * 1 * 16 / 8) [] (omega arith) ∙ omega arith;
        data_size = read32-le32 (length audio) [] (omega arith);
        samples = refl;
      })
