-- ===== src/Capture/Frames.antt =====
-- A whole turn of `stream_frame` on a session without a resampler.
use mod_openai_realtime.Base.{
  ℕ, ◌<◌, ◌≡◌, refl, sym, ap, ◌∙◌, inl, inr, Bool, true, false, ◌||◌, List, [], ◌∷◌, ◌++◌, some,
  none, arith, ◌==◌, if◌then◌else◌, Bool-cases, Bytes, length, flatten, append-nil, append_assoc,
  map,
}
use mod_openai_realtime.Services.{Platform}
use mod_openai_realtime.Streamer.{Streamer, is_connected, consume_capture_reset}
use mod_openai_realtime.Private.{Private}
use mod_openai_realtime.Capture.{
  Taking, send_or_buffer_audio, CapturedFrame, take_frame, take_frames, stream_frame,
}
use mod_openai_realtime.Capture.Conserve.{
  Accepts, IsRaw, captured, send_audio-IsRaw, buffer_audio-Keeps,
}

-- The audio of a frame, if it is not skipped.
abbrev pub kept : CapturedFrame → Bytes
kept frame = if length frame.audio == 0 || frame.samples == 0 then [] else frame.audio

module _ (p : Platform) (accepts : Accepts p) where
  open p use {buffer}

  -- Room to aggregate, and with one packet for each send nothing waiting.
  record IsReady (rtp_packets : ℕ) (t : Taking p) : Type 0 where
    raw : IsRaw p t.streamer
    capacity : 0 < buffer.capacity t.sink
    no_resampler : t.resampler ≡ none
    idle : rtp_packets ≡ 1 → buffer.contents t.sink ≡ []

  record Takes (rtp_packets : ℕ) (t : Taking p) (more : Bytes) (t' : Taking p) : Type 0 where
    ready : IsReady rtp_packets t'
    audio : captured p t'.sink t'.streamer ≡ captured p t.sink t.streamer ++ more

  Takes-refl : (rtp_packets : ℕ) (t : Taking p) → IsReady rtp_packets t → Takes rtp_packets t [] t
  Takes-refl rtp_packets t v = record { ready = v; audio = sym (append-nil _) }

  abbrev Sends : ℕ → Taking p → Bytes → Bool × Taking p → Type 0
  Sends rtp_packets t audio r = (r.0 ≡ true) × Takes rtp_packets t audio r.1

  send_or_buffer_audio-Sends :
      (rtp_packets : ℕ) (audio : Bytes) (t : Taking p)
      → IsReady rtp_packets t
      → Sends rtp_packets t audio (send_or_buffer_audio p rtp_packets audio t)
  unfolding send_or_buffer_audio
  send_or_buffer_audio-Sends rtp_packets audio t v = elim (Bool-cases (rtp_packets == 1)) [
    | inl e ↦
        let (raw, sent) = send_audio-IsRaw p accepts audio t.streamer v.raw in
        let one : rtp_packets ≡ 1 = ground arith in
        rw e (
          refl,
          record {
            ready = record {
              raw = raw;
              capacity = v.capacity;
              no_resampler = v.no_resampler;
              idle = v.idle;
            };
            audio =
                rw (v.idle one, sent) (append-nil _ ∙ ap (λ x. x ++ audio) (sym (append-nil _)));
          },
        )
    | inr e ↦
        let (done, k) =
          buffer_audio-Keeps p accepts (length audio) audio t.sink t.streamer (omega arith) v.raw
            v.capacity in
        rw e (
          done,
          record {
            ready = record {
              raw = k.raw;
              capacity = omega (arith, k.capacity, v.capacity);
              no_resampler = v.no_resampler;
              idle = λ one. absurd (ground arith);
            };
            audio = k.audio;
          },
        )
  ]

  take_frame-kept :
      (channels rtp_packets : ℕ) (frame : CapturedFrame) (t : Taking p)
      → t.resampler ≡ none
      → (length frame.audio == 0 || frame.samples == 0) ≡ false
      → take_frame p channels rtp_packets frame t ≡ send_or_buffer_audio p rtp_packets frame.audio t
  unfolding take_frame
  take_frame-kept channels rtp_packets frame t n e = ground arith

  take_frame-skipped :
      (channels rtp_packets : ℕ) (frame : CapturedFrame) (t : Taking p)
      → (length frame.audio == 0 || frame.samples == 0) ≡ true
      → take_frame p channels rtp_packets frame t ≡ (true, t)
  unfolding take_frame
  take_frame-skipped channels rtp_packets frame t e = rw e

  take_frame-Sends :
      (channels rtp_packets : ℕ) (frame : CapturedFrame) (t : Taking p)
      → IsReady rtp_packets t
      → Sends rtp_packets t (kept frame) (take_frame p channels rtp_packets frame t)
  take_frame-Sends channels rtp_packets frame t v =
      elim (Bool-cases (length frame.audio == 0 || frame.samples == 0)) [
        | inl e ↦
            rw (take_frame-skipped channels rtp_packets frame t e, e)
              (refl, Takes-refl rtp_packets t v)
        | inr e ↦
            rw (take_frame-kept channels rtp_packets frame t v.no_resampler e, e)
              (send_or_buffer_audio-Sends rtp_packets frame.audio t v)
      ]

  take_frames-Takes :
      (channels rtp_packets : ℕ) (frames : List CapturedFrame) (t : Taking p)
      → IsReady rtp_packets t
      → Takes rtp_packets t
          (flatten (map kept frames))
          (take_frames p channels rtp_packets frames t)
  unfolding take_frames
  take_frames-Takes channels rtp_packets [] t v = Takes-refl rtp_packets t v
  take_frames-Takes channels rtp_packets (frame ∷ frames) t v =
      let (more, one) = take_frame-Sends channels rtp_packets frame t v in
      let t' = (take_frame p channels rtp_packets frame t).1 in
      let rest = take_frames-Takes channels rtp_packets frames t' one.ready in
      rw (more, take_frames)
        (record {
          ready = rest.ready;
          audio =
              rest.audio
              ∙ ap (λ x. x ++ flatten (map kept frames)) one.audio
              ∙ append_assoc (captured p t.sink t.streamer) (kept frame)
                  (flatten (map kept frames));
        })

  -- What waits to be sent when the turn starts: nothing, after a dropped connection.
  abbrev pub waiting : Private p → Streamer p → Bytes
  waiting tech s = if s.capture_reset_pending then [] else buffer.contents tech.sbuffer

  -- A session that captures without resampling.
  pub record CanCapture (tech : Private p) (s : Streamer p) : Type 0 where
    pub has_streamer : tech.streamer ≡ some s
    pub not_paused : tech.audio_paused ≡ false
    pub not_muted : tech.user_audio_muted ≡ false
    pub raw : IsRaw p s
    pub capacity : 0 < buffer.capacity tech.sbuffer
    pub no_resampler : tech.resampler ≡ none
    pub idle : tech.rtp_packets ≡ 1 → buffer.contents tech.sbuffer ≡ []

  -- The turn's variables when its loop starts.
  abbrev start : Private p → Streamer p → Taking p
  start tech s = record {
    sink = if s.capture_reset_pending then buffer.zero tech.sbuffer else tech.sbuffer;
    streamer = record s { capture_reset_pending = false };
    resampler = tech.resampler;
  }

  contents-start :
      (tech : Private p) (s : Streamer p) → buffer.contents (start tech s).sink ≡ waiting tech s
  contents-start tech s = elim (Bool-cases s.capture_reset_pending) [
    | inl e ↦ rw e (buffer.zero-contents tech.sbuffer)
    | inr e ↦ rw e
  ]

  start-IsReady :
      (tech : Private p) (s : Streamer p)
      → CanCapture tech s
      → IsReady tech.rtp_packets (start tech s)
  start-IsReady tech s c = record {
    raw = record { raw = c.raw.raw; open_socket = c.raw.open_socket };
    capacity = ground (arith, c.capacity, buffer.zero-capacity tech.sbuffer);
    no_resampler = c.no_resampler;
    idle = λ one. ground (arith, c.idle one, buffer.zero-contents tech.sbuffer);
  }

  -- On a connected raw session whose socket accepts what it is given, with no resampler: after
  -- `stream_frame`, all that was sent and then what waits in `sbuffer` is what was sent and waited
  -- before (less the residue of a dropped connection), followed by the audio of all frames in order.
  -- No byte is lost, doubled or moved, whatever the aggregation.
  pub stream_frame-captures :
      (frames : List CapturedFrame) (tech : Private p) (s : Streamer p)
      → CanCapture tech s
      → (s' : Streamer p) × ((stream_frame p true frames tech).streamer ≡ some s')
        × (captured p (stream_frame p true frames tech).sbuffer s'
            ≡ (flatten s.sent_audio ++ waiting tech s) ++ flatten (map kept frames))
  unfolding stream_frame is_connected consume_capture_reset
  stream_frame-captures frames tech s c =
      let t = start tech s in
      let run =
        take_frames-Takes tech.channels tech.rtp_packets frames t (start-IsReady tech s c) in
      (
        (take_frames p tech.channels tech.rtp_packets frames t).streamer,
        rw (c.not_paused, c.not_muted, c.has_streamer, c.raw.open_socket),
        rw (c.not_paused, c.not_muted, c.has_streamer, c.raw.open_socket)
            (run.audio
              ∙ ap (λ x. (flatten s.sent_audio ++ x) ++ flatten (map kept frames))
                  (contents-start tech s)),
      )
