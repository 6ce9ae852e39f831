-- ===== src/Message/Files.antt =====
-- openai_audio_streamer_glue.cpp, `createWavFromRaw` and `saveDebugAudioFile`.
pub mod Wav
use mod_openai_realtime.Base.{
  ℕ, ◌+◌, ◌*◌, ◌/◌, ◌%◌, ◌^◌, Bool, true, false, not, ◌&&◌, [], ◌∷◌, ◌++◌, none, some,
  if◌then◌else◌, Bytes, codes, length, take,
}
use mod_openai_realtime.Services.{Platform}
use mod_openai_realtime.Streamer.{Streamer, play, notify}
use mod_openai_realtime.Streamer.Sending.{add_string}

-- The bytes of an integer of 2 or 4 bytes, written from memory on a little-endian host.
unfoldable pub le16 : ℕ → Bytes
le16 n = n % 256 ∷ n / 256 % 256 ∷ []

unfoldable pub le32 : ℕ → Bytes
le32 n = n % 256 ∷ n / 256 % 256 ∷ n / 65536 % 256 ∷ n / 16777216 % 256 ∷ []

-- One channel of 16 bits; sizes are cut to 32 bits. The byte rate is an `int`, and the code does not
-- guard its product; rates are far below where it would overflow.
unfoldable pub create_wav_from_raw : ℕ → Bytes → Bytes
unfolding le16 le32
create_wav_from_raw in_sample_rate raw_audio =
    let data_size = length raw_audio % 2 ^ 32 in
    let chunk_size = (36 + data_size) % 2 ^ 32 in
    codes "RIFF"
    ++ (le32 chunk_size
        ++ (codes "WAVE"
            ++ (codes "fmt "
                ++ (le32 16
                    ++ (le16 1
                        ++ (le16 1
                            ++ (le32 in_sample_rate
                                ++ (le32 (in_sample_rate * 1 * 16 / 8)
                                    ++ (le16 (1 * 16 / 8)
                                        ++ (le16 16
                                            ++ (codes "data"
                                                ++ (le32 data_size
                                                    ++ take data_size raw_audio))))))))))))

-- What the system answers while a message is handled: the session is found under its id, the file
-- with a fresh name is created, all of it is written, or else its first `partial` bytes. `path` is the
-- file's name for a counter.
pub record Env : Type 0 where
  pub located : Bool
  pub created : Bool
  pub written : Bool
  pub partial : ℕ
  pub path : ℕ → Bytes

abbrev pub is_empty : Bytes → Bool
is_empty [] = true
is_empty (c ∷ cs) = false

module _ (p : Platform) where
  -- `EVENT_PLAY` with the file's name.
  unfoldable pub notify_file : Bytes → Streamer p → Streamer p
  notify_file file s = elim p.json.create_object [
    | none ↦ s
    | some payload ↦ elim (p.json.print_unformatted (add_string p payload (codes "file") file)) [
      | none ↦ s
      | some text ↦ notify p play (some text) s
    ]
  ]

  -- The path of the file, or an empty one on failure.
  unfoldable pub save_debug_audio_file : Env → Bool → Bytes → Streamer p → Streamer p × Bytes
  unfolding notify_file create_wav_from_raw
  save_debug_audio_file env notify_playback_event raw_audio s =
      let file = env.path s.play_file in
      let s1 : Streamer p = record s { play_file = s.play_file + 1 } in
      if not env.created
      then (s1, [])
      else (let wav = create_wav_from_raw s.converter.in_sample_rate raw_audio in
          let content = if env.written then wav else take env.partial wav in
          let s2 : Streamer p = record s1 { on_disk = s1.on_disk ++ (file, content) ∷ [] } in
          let s3 : Streamer p = record s2 { files = file ∷ s2.files } in
          if not env.written
          then (s3, [])
          else (if notify_playback_event && env.located then notify_file file s3 else s3, file))
