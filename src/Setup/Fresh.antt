-- ===== src/Setup/Fresh.antt =====
-- What a session is when `stream_session_init` hands it over.
use mod_openai_realtime.Base.{
  ℕ, ◌*◌, ◌/◌, ◌%◌, ◌≤◌, ◌≡◌, refl, ap, ◌∙◌, false, ◌&&◌, [], Option, none, some, arith, guard,
  >>=-eq-some, guard-eq-some, Bytes, codes,
}
use mod_openai_realtime.Services.{Platform}
use mod_openai_realtime.Numeral.{strtol}
use mod_openai_realtime.Numeral.Exact.{whole_value-eq-some}
use mod_openai_realtime.Private.{Private}
use mod_openai_realtime.Setup.{
  Options, Memory, Variables, rtp_packets_of, packets, new_streamer, new_resampler, buflen,
  playback_buflen, stream_data_init,
}
use mod_openai_realtime.Setup.Init.{Request, stream_session_init, options_of, extra_headers_of}

packets_bounds :
    (o : Option ℕ)
    → ((v : ℕ) → o ≡ some v → (20 ≤ v) × (v ≤ 1000))
    → (1 ≤ packets o) × (packets o ≤ 50)
packets_bounds none h = omega arith
packets_bounds (some ms) h = let (low, high) = h ms refl in ground arith

-- Whatever the text: from 1 to 50 packets.
rtp_packets_of_bounds :
    (text : Option Bytes) → (1 ≤ rtp_packets_of text) × (rtp_packets_of text ≤ 50)
unfolding rtp_packets_of
rtp_packets_of_bounds none = omega arith
rtp_packets_of_bounds (some text) =
    packets_bounds _
      (λ v h. let (e, low, high) = whole_value-eq-some 20 1000 v (strtol text) h in (low, high))

-- The bytes of 20 ms of one channel.
abbrev pub packet_bytes : ℕ → ℕ
packet_bytes sampling = sampling / 50 * 2

buflen-packet_bytes :
    (p : Platform) (o : Options)
    → o.sampling % 8000 ≡ 0
    → buflen p o ≡ packet_bytes o.sampling * o.channels * o.rtp_packets
unfolding buflen
buflen-packet_bytes p o h =
    let one : 320 * o.sampling / 8000 ≡ o.sampling / 50 * 2 = omega arith in
    ap (λ n. n * o.channels * o.rtp_packets) one

module _ (p : Platform) where
  open p use {buffer}

  -- A context with a streamer that has nothing queued, and empty buffers: 128000 bytes for playback,
  -- and a whole number of packets, from 1 to 50, for the capture.
  pub record IsFresh (o : Options) (tech : Private p) : Type 0 where
    pub has_streamer : tech.streamer ≡ some (new_streamer p o)
    pub nothing_played : buffer.contents tech.playback_buffer ≡ []
    pub nothing_captured : buffer.contents tech.sbuffer ≡ []
    pub playback_capacity : buffer.capacity tech.playback_buffer ≡ 128000
    pub capture_capacity :
        buffer.capacity tech.sbuffer ≡ packet_bytes o.sampling * o.channels * o.rtp_packets
    pub same_packets : tech.rtp_packets ≡ o.rtp_packets
    pub same_rate : tech.sampling ≡ o.sampling
    pub muted : tech.user_audio_muted ≡ o.start_muted
    pub not_paused : tech.audio_paused ≡ false
    pub not_muted : tech.openai_audio_muted ≡ false
    pub stays_open : tech.close_requested ≡ false

  stream_data_init-IsFresh :
      (uuid : Bytes) (memory : Memory) (o : Options) (tech : Private p)
      → o.sampling % 8000 ≡ 0
      → stream_data_init p uuid memory o ≡ some tech
      → IsFresh o tech
  unfolding stream_data_init
  stream_data_init-IsFresh uuid memory o tech whole h =
      let (playback, e1, h1) = >>=-eq-some (buffer.create playback_buflen) _ h in
      let (streamer, e2, h2) =
        >>=-eq-some (guard (memory.objects && memory.mutex) (new_streamer p o)) _ h1 in
      let (sbuffer, e3, h3) = >>=-eq-some (buffer.create (buflen p o)) _ h2 in
      let (resampler, e4, h4) = >>=-eq-some (new_resampler p o) _ h3 in
      let (_, same) = guard-eq-some (memory.objects && memory.mutex) (new_streamer p o) e2 in
      let size = buflen-packet_bytes p o whole in
      let created = buffer.create-empty playback_buflen playback e1 in
      let created' = buffer.create-empty (buflen p o) sbuffer e3 in
      ground (arith, h4, same, size, created, created')

  -- For a sampling rate that is a multiple of 8000: a session that `stream_session_init` hands over,
  -- whatever the channel's variables, is fresh. It has a streamer with nothing queued, an empty
  -- playback buffer of 128000 bytes, and an empty capture buffer of a whole number of packets of 20 ms
  -- at the requested rate and channels, from 1 to 50 of them; it is not paused, its playback is not
  -- muted, and the caller is muted exactly if that was asked for.
  pub stream_session_init-IsFresh :
      (uuid : Bytes) (memory : Memory) (v : Variables) (r : Request) (tech : Private p)
      → r.sampling % 8000 ≡ 0
      → stream_session_init p uuid memory v r ≡ some tech
      → (headers : Option Bytes) × IsFresh (options_of p v r headers) tech
        × (buffer.capacity tech.sbuffer ≡ packet_bytes r.sampling * r.channels * tech.rtp_packets)
        × (1 ≤ tech.rtp_packets)
        × (tech.rtp_packets ≤ 50)
        × (tech.user_audio_muted ≡ r.start_muted)
  unfolding stream_session_init options_of
  stream_session_init-IsFresh uuid memory v r tech whole h =
      let (headers, e1, h1) = >>=-eq-some (extra_headers_of p v) _ h in
      let (o, e2, h2) = >>=-eq-some (guard memory.context (options_of p v r headers)) _ h1 in
      let (_, same) = guard-eq-some memory.context (options_of p v r headers) e2 in
      let fresh =
        stream_data_init-IsFresh uuid memory (options_of p v r headers) tech whole
          (ap (stream_data_init p uuid memory) same ∙ h2) in
      let few = rtp_packets_of_bounds (v.get (codes "STREAM_BUFFER_SIZE")) in
      (
        headers,
        fresh,
        ground (arith, fresh),
        ground (arith, fresh, few),
        ground (arith, fresh, few),
        fresh.muted,
      )
