-- ===== src/Session/Run/Captured.antt =====
-- What sending and capturing leave alone: the playback queue, and the size of the capture buffer.
use mod_openai_realtime.Base.{
  ℕ, zero, suc, ◌≡◌, refl, ◌∙◌, List, [], ◌∷◌, arith, Bytes, length, take, drop, min,
}
use mod_openai_realtime.Services.{Platform}
use mod_openai_realtime.Streamer.{Streamer, is_connected}
use mod_openai_realtime.Streamer.Sending.{send_audio, record_send, write_binary, write_audio_delta}
use mod_openai_realtime.Capture.{
  flush_buffer, make_room, buffer_audio, Taking, send_or_buffer_audio, resample_round,
  resample_loop, CapturedFrame, take_frame, take_frames,
}

module _ (p : Platform) where
  open p use {buffer, speex}

  -- The same queue, converter, notifications and debug files.
  pub record SamePlayback (s s' : Streamer p) : Type 0 where
    pub queue : s'.queue ≡ s.queue
    pub converter : s'.converter ≡ s.converter
    pub events : s'.events ≡ s.events
    pub openai_speaking : s'.openai_speaking ≡ s.openai_speaking
    pub play_file : s'.play_file ≡ s.play_file
    pub files : s'.files ≡ s.files
    pub on_disk : s'.on_disk ≡ s.on_disk

  pub SamePlayback-refl : (s : Streamer p) → SamePlayback s s
  SamePlayback-refl s = record {
    queue = refl;
    converter = refl;
    events = refl;
    openai_speaking = refl;
    play_file = refl;
    files = refl;
    on_disk = refl;
  }

  pub send_audio-SamePlayback :
      (audio : Bytes) (s : Streamer p) → SamePlayback s (send_audio p audio s).0
  unfolding send_audio record_send write_binary write_audio_delta is_connected
  send_audio-SamePlayback audio s = ground arith

  SamePlayback-trans : (s t u : Streamer p) → SamePlayback s t → SamePlayback t u → SamePlayback s u
  SamePlayback-trans s t u a b = ground arith

  -- A buffer of the same size, and the playback as it was.
  abbrev pub Same : buffer.Buffer → Streamer p → buffer.Buffer → Streamer p → Type 0
  Same b s b' s' = (buffer.capacity b' ≡ buffer.capacity b) × SamePlayback s s'

  pub flush_buffer-Same :
      (b : buffer.Buffer) (s : Streamer p) → Same b s (flush_buffer p b s).0 (flush_buffer p b s).1
  unfolding flush_buffer
  flush_buffer-Same b s =
      let (b', residue) = buffer.read b (buffer.inuse b) in
      ground (
        arith,
        send_audio-SamePlayback residue s,
        buffer.zero-capacity b,
        buffer.zero-capacity b',
        buffer.read-capacity b (buffer.inuse b),
      )

  make_room-Same :
      (b : buffer.Buffer) (s : Streamer p) → Same b s (make_room p b s).0 (make_room p b s).1
  unfolding make_room
  make_room-Same b s = ground (arith, flush_buffer-Same b s)

  Same-trans :
      (b : buffer.Buffer) (s : Streamer p) (c : buffer.Buffer) (t : Streamer p) (d : buffer.Buffer)
      (u : Streamer p)
      → Same b s c t
      → Same c t d u
      → Same b s d u
  Same-trans b s c t d u x y = (y.0 ∙ x.0, SamePlayback-trans s t u x.1 y.1)

  buffer_audio-Same :
      (fuel : ℕ) (audio : Bytes) (b : buffer.Buffer) (s : Streamer p)
      → Same b s (buffer_audio p fuel audio b s).1 (buffer_audio p fuel audio b s).2
  unfolding buffer_audio
  buffer_audio-Same zero audio b s = (refl, SamePlayback-refl s)
  buffer_audio-Same (suc fuel) [] b s = (refl, SamePlayback-refl s)
  buffer_audio-Same (suc fuel) (c ∷ cs) b s =
      let (b1, s1) = make_room p b s in
      let write_len = min (length (c ∷ cs)) (buffer.freespace b1) in
      let (b2, n) = buffer.write b1 (take write_len (c ∷ cs)) in
      let (b3, s3) = make_room p b2 s1 in
      ground (
        arith,
        make_room-Same b s,
        buffer.write-capacity b1 (take write_len (c ∷ cs)),
        make_room-Same b2 s1,
        buffer_audio-Same fuel (drop write_len (c ∷ cs)) b3 s3,
      )

  abbrev SameTaking : Taking p → Taking p → Type 0
  SameTaking t u = Same t.sink t.streamer u.sink u.streamer

  send_or_buffer_audio-Same :
      (rtp_packets : ℕ) (audio : Bytes) (t : Taking p)
      → SameTaking t (send_or_buffer_audio p rtp_packets audio t).1
  unfolding send_or_buffer_audio
  send_or_buffer_audio-Same rtp_packets audio t = ground (
    arith,
    send_audio-SamePlayback audio t.streamer,
    buffer_audio-Same (length audio) audio t.sink t.streamer,
  )

  resample_round-Same :
      (channels rtp_packets room remaining : ℕ) (input : List ℕ) (t : Taking p) (r : speex.State)
      → SameTaking t (resample_round p channels rtp_packets room remaining input t r).2
  unfolding resample_round
  resample_round-Same channels rtp_packets room remaining input t r =
      grind (arith, send_or_buffer_audio-Same)

  resample_loop-Same :
      (fuel channels rtp_packets room remaining : ℕ) (input : List ℕ) (t : Taking p)
      → SameTaking t (resample_loop p fuel channels rtp_packets room remaining input t)
  unfolding resample_loop
  resample_loop-Same zero channels rtp_packets room remaining input t =
      (refl, SamePlayback-refl t.streamer)
  resample_loop-Same (suc fuel) channels rtp_packets room remaining input t =
      grind (arith, resample_round-Same, resample_loop-Same fuel)

  take_frame-Same :
      (channels rtp_packets : ℕ) (frame : CapturedFrame) (t : Taking p)
      → SameTaking t (take_frame p channels rtp_packets frame t).1
  unfolding take_frame
  take_frame-Same channels rtp_packets frame t =
      grind (arith, send_or_buffer_audio-Same, resample_loop-Same)

  pub take_frames-Same :
      (channels rtp_packets : ℕ) (frames : List CapturedFrame) (t : Taking p)
      → SameTaking t (take_frames p channels rtp_packets frames t)
  unfolding take_frames
  take_frames-Same channels rtp_packets [] t = (refl, SamePlayback-refl t.streamer)
  take_frames-Same channels rtp_packets (frame ∷ frames) t = ground (
    arith,
    take_frame-Same channels rtp_packets frame t,
    take_frames-Same channels rtp_packets frames (take_frame p channels rtp_packets frame t).1,
  )
