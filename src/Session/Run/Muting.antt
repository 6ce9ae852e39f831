-- ===== src/Session/Run/Muting.antt =====
-- The muting of a caller, and what is sent until the unmuting.
use mod_openai_realtime.Base.{
  if-both, ◌≡◌, refl, ap, ◌∙◌, Bool, true, false, All, length, List, ◌∷◌, some, arith,
}
use mod_openai_realtime.Services.{Platform}
use mod_openai_realtime.Streamer.{Streamer, is_connected}
use mod_openai_realtime.Streamer.Sending.{send_audio}
use mod_openai_realtime.Private.{Private}
use mod_openai_realtime.Capture.{flush_buffer, flush_capture_residue}
use mod_openai_realtime.Session.{set_user_mute, send_silence, silence}
use mod_openai_realtime.Session.Run.{user_muted, act, Moment, acted, Capturing, proceed, run}
use mod_openai_realtime.Session.Run.Silent.{StaysMutedThen, IsSilent, IsQuiet, run-IsQuiet}

module _ (p : Platform) where
  open p use {buffer}

  -- A session with a streamer, whose caller is muted and has nothing waiting.
  record IsMuted (tech : Private p) : Type 0 where
    streamer : Streamer p
    has_streamer : tech.streamer ≡ some streamer
    muted : tech.user_audio_muted ≡ true
    nothing_waits : buffer.inuse tech.sbuffer ≡ 0

  zero-inuse : (b : buffer.Buffer) → buffer.inuse (buffer.zero b) ≡ 0
  zero-inuse b = buffer.inuse-contents (buffer.zero b) ∙ ap length (buffer.zero-contents b)

  flush_buffer-inuse :
      (b : buffer.Buffer) (s : Streamer p) → buffer.inuse (flush_buffer p b s).0 ≡ 0
  unfolding flush_buffer
  flush_buffer-inuse b s =
      ground (arith, zero-inuse b, zero-inuse (buffer.read b (buffer.inuse b)).0)

  flush-IsMuted :
      (tech : Private p) (s : Streamer p)
      → tech.streamer ≡ some s
      → tech.user_audio_muted ≡ true
      → IsMuted (flush_capture_residue p tech)
  unfolding flush_capture_residue
  flush-IsMuted tech s e m =
      simp (flush_capture_residue, e)
        (record {
          streamer = (flush_buffer p tech.sbuffer s).1;
          has_streamer = refl;
          muted = m;
          nothing_waits = flush_buffer-inuse tech.sbuffer s;
        })

  send_silence-IsMuted : (tech : Private p) → IsMuted tech → IsMuted (send_silence p tech).0
  unfolding send_silence
  send_silence-IsMuted tech q =
      simp (send_silence, q.has_streamer)
        (if-both (λ (r : Private p × Bool). IsMuted r.0) (is_connected p q.streamer) _ _
          (record {
            streamer = (send_audio p (silence p tech) q.streamer).0;
            has_streamer = refl;
            muted = q.muted;
            nothing_waits = q.nothing_waits;
          })
          q)

  set_user_mute-IsMuted :
      (tech : Private p) (s : Streamer p)
      → tech.streamer ≡ some s
      → tech.user_audio_muted ≡ false
      → IsMuted (set_user_mute p true tech).0
  unfolding set_user_mute
  set_user_mute-IsMuted tech s e m =
      let tech' : Private p = record tech { user_audio_muted = true } in
      rw (set_user_mute, m)
        (send_silence-IsMuted (flush_capture_residue p tech') (flush-IsMuted tech' s e refl))

  -- When a caller who is not muted is muted, on a session with a streamer and while no capture turn has
  -- passed the test of its flags without having ended, and until the caller is unmuted again, whatever
  -- WebSocket messages, playback turns, API calls and parts of capture turns there are, in whatever order:
  -- no more audio is sent than when the muting was done, the caller stays muted, and nothing waits to be
  -- sent.
  pub run-IsSilent :
      (moments : List Moment) (σ : Capturing p) (s : Streamer p)
      → σ.tech.streamer ≡ some s
      → σ.tech.user_audio_muted ≡ false
      → σ.passed ≡ false
      → All StaysMutedThen moments
      → (s' : Streamer p) × ((act p (user_muted true) σ.tech).streamer ≡ some s')
        × IsSilent p s'.sent_audio (run p (acted (user_muted true) ∷ moments) σ).tech
  unfolding run proceed act
  run-IsSilent moments σ s e m idle k =
      let q = set_user_mute-IsMuted σ.tech s e m in
      let quiet : IsQuiet p q.streamer.sent_audio (proceed p (acted (user_muted true)) σ) = record {
        silent = record {
          streamer = q.streamer;
          has_streamer = q.has_streamer;
          same_sent = refl;
          muted = q.muted;
          nothing_waits = q.nothing_waits;
        };
        not_passed = idle;
      } in
      let rest =
        run-IsQuiet p q.streamer.sent_audio moments (proceed p (acted (user_muted true)) σ) k
          quiet in
      (q.streamer, q.has_streamer, rest.silent)
