-- ===== src/Capture.antt =====
-- openai_audio_streamer_glue.cpp, `flush_capture_residue` and `stream_frame`: one turn of the media
-- thread that captures.
pub mod Conserve
pub mod Frames
pub mod Ends
use mod_openai_realtime.Base.{
  ℕ, zero, suc, ◌+◌, ◌-◌, ◌*◌, ◌/◌, ◌%◌, ◌^◌, min, Bool, true, false, not, ◌&&◌, ◌||◌, List, [],
  ◌∷◌, ◌++◌, Option, none, some, ltb, ◌==◌, if◌then◌else◌, Bytes, length, take, drop,
}
use mod_openai_realtime.Services.{Platform}
use mod_openai_realtime.Pcm.{bytes_of, samples_of}
use mod_openai_realtime.Streamer.{Streamer, is_connected, consume_capture_reset}
use mod_openai_realtime.Streamer.Sending.{send_audio}
use mod_openai_realtime.Private.{Private}

-- A frame read from the media bug: its bytes, `datalen` of them, and its samples for each channel.
pub record CapturedFrame : Type 0 where
  pub audio : Bytes
  pub samples : ℕ

module _ (p : Platform) where
  open p use {buffer, speex}

  -- `flush_capture_residue` with a streamer that is not null.
  unfoldable pub flush_buffer : buffer.Buffer → Streamer p → buffer.Buffer × Streamer p
  unfolding is_connected
  flush_buffer b s =
      if buffer.inuse b == 0
      then (b, s)
      else if is_connected p s
      then (let (b', residue) = buffer.read b (buffer.inuse b) in
          (buffer.zero b', (send_audio p residue s).0))
      else (buffer.zero b, s)

  unfoldable pub flush_capture_residue : Private p → Private p
  unfolding flush_buffer
  flush_capture_residue tech = elim tech.streamer [
    | none ↦
        (if buffer.inuse tech.sbuffer == 0
          then tech
          else record tech { sbuffer = buffer.zero tech.sbuffer })
    | some s ↦
        let (b, s') = flush_buffer tech.sbuffer s in record tech { sbuffer = b; streamer = some s' }
  ]

  -- The loop of `send_or_buffer_audio` that fills `sbuffer`, on fuel; false is its return of false.
  -- A round makes room if there is none, writes what fits, and flushes a full buffer.
  unfoldable pub make_room : buffer.Buffer → Streamer p → buffer.Buffer × Streamer p
  make_room b s = if buffer.freespace b == 0 then flush_buffer b s else (b, s)

  unfoldable pub buffer_audio :
      ℕ → Bytes → buffer.Buffer → Streamer p → Bool × buffer.Buffer × Streamer p
  buffer_audio zero audio b s = (length audio == 0, b, s)
  buffer_audio (suc fuel) [] b s = (true, b, s)
  buffer_audio (suc fuel) (c ∷ cs) b s =
      let (b1, s1) = make_room b s in
      let write_len = min (length (c ∷ cs)) (buffer.freespace b1) in
      let (b2, n) = buffer.write b1 (take write_len (c ∷ cs)) in
      let (b3, s3) = make_room b2 s1 in
      let rest = buffer_audio fuel (drop write_len (c ∷ cs)) b3 s3 in
      if buffer.freespace b1 == 0 then (false, b1, s1) else if n == 0 then (false, b2, s1) else rest

  -- What the turn works on: `sbuffer`, the streamer and the resampler.
  pub record Taking : Type 0 where
    pub sink : buffer.Buffer
    pub streamer : Streamer p
    pub resampler : Option speex.State

  unfoldable pub send_or_buffer_audio : ℕ → Bytes → Taking → Bool × Taking
  send_or_buffer_audio rtp_packets audio t =
      if rtp_packets == 1
      then (true, record t { streamer = (send_audio p audio t.streamer).0 })
      else let (done, b, s) = buffer_audio (length audio) audio t.sink t.streamer in
        (done, record t { sink = b; streamer = s })

  -- `output_capacity`: with the 64-bit sums and the cast to 32 bits.
  unfoldable pub output_capacity : ℕ → ℕ → ℕ → ℕ
  output_capacity samples input_rate output_rate =
      ((samples * output_rate + input_rate - 1) % 2 ^ 64 / input_rate + 1) % 2 ^ 32

  -- One call of the resampler, on the samples that remain, and what is done with its output: whether the
  -- loop goes on, and the samples that the call used. `channels` is 1 or 2, with the samples of a frame interleaved.
  unfoldable pub resample_round : ℕ → ℕ → ℕ → ℕ → List ℕ → Taking → speex.State → Bool × ℕ × Taking
  resample_round channels rtp_packets capacity remaining input t r =
      let (r', result) = speex.process r (take (remaining * channels) input) capacity in
      let t' = record t { resampler = some r' } in
      elim result [
        | none ↦ (false, 0, t')
        | some (used, out) ↦
            let (done, t'') = send_or_buffer_audio rtp_packets (bytes_of out) t' in
            if length out == 0 then (not (used == 0), used, t') else (done, used, t'')
      ]

  -- The inner loop over a frame's samples, on fuel.
  unfoldable pub resample_loop : ℕ → ℕ → ℕ → ℕ → ℕ → List ℕ → Taking → Taking
  resample_loop zero channels rtp_packets capacity remaining input t = t
  resample_loop (suc fuel) channels rtp_packets capacity remaining input t = elim (remaining == 0) [
    | true ↦ t
    | false ↦ elim t.resampler [
      | none ↦ t
      | some r ↦
          let (more, used, t') = resample_round channels rtp_packets capacity remaining input t r in
          elim more [
            | false ↦ t'
            | true ↦
                resample_loop fuel channels rtp_packets capacity (remaining - used)
                  (drop (used * channels) input) t'
          ]
    ]
  ]

  -- The body of the outer loop; false stops it.
  unfoldable pub take_frame : ℕ → ℕ → CapturedFrame → Taking → Bool × Taking
  take_frame channels rtp_packets frame t =
      if length frame.audio == 0 || frame.samples == 0 then (true, t) else elim t.resampler [
        | none ↦ send_or_buffer_audio rtp_packets frame.audio t
        | some r ↦
            let (input_rate, output_rate) = speex.rates r in
            if input_rate == 0 || output_rate == 0 then (true, t) else (
              true,
              resample_loop (2 * frame.samples + 2) channels rtp_packets
                  (output_capacity frame.samples input_rate output_rate) frame.samples
                  (samples_of frame.audio) t,
            )
      ]

  -- The outer loop, over the frames that the media bug has.
  unfoldable pub take_frames : ℕ → ℕ → List CapturedFrame → Taking → Taking
  take_frames channels rtp_packets [] t = t
  take_frames channels rtp_packets (frame ∷ frames) t =
      let (more, t') = take_frame channels rtp_packets frame t in
      elim more [ true ↦ take_frames channels rtp_packets frames t' | false ↦ t' ]

  -- The test of the two flags, which no mutex guards.
  abbrev pub may_capture : Private p → Bool
  may_capture tech = not (tech.audio_paused || tech.user_audio_muted)

  -- The turn of `stream_frame` behind that test. `passed` is the test's outcome, maybe in an earlier
  -- state of the session: another thread may come between it and the mutex. `acquired` is the outcome
  -- of `switch_mutex_trylock`.
  unfoldable pub stream_turn : Bool → Bool → List CapturedFrame → Private p → Private p
  unfolding is_connected
  stream_turn passed acquired frames tech =
      if not passed || not acquired then tech else elim tech.streamer [
        | none ↦ tech
        | some s ↦
            if is_connected p s
            then (let (reset, s') = consume_capture_reset p s in
                let t = take_frames tech.channels tech.rtp_packets frames (record {
                  sink = if reset then buffer.zero tech.sbuffer else tech.sbuffer;
                  streamer = s';
                  resampler = tech.resampler;
                }) in
                record tech {
                  sbuffer = t.sink;
                  streamer = some t.streamer;
                  resampler = t.resampler;
                })
            else tech
      ]

  -- The whole turn, if nothing comes between the test and the mutex.
  unfoldable pub stream_frame : Bool → List CapturedFrame → Private p → Private p
  unfolding stream_turn
  stream_frame acquired frames tech = stream_turn (may_capture tech) acquired frames tech
