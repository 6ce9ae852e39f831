-- ===== src/Session/Mute.antt =====
-- Muting the caller on a connected raw stream.
use mod_openai_realtime.Base.{
  ◌≡◌, refl, sym, ap, ◌∙◌, Bool, true, false, [], ◌++◌, some, Bytes, flatten, append-nil,
}
use mod_openai_realtime.Services.{Platform}
use mod_openai_realtime.Streamer.{Streamer, is_connected}
use mod_openai_realtime.Streamer.Sending.{send_audio, record_send, write_binary}
use mod_openai_realtime.Private.{Private}
use mod_openai_realtime.Capture.{flush_buffer, flush_capture_residue}
use mod_openai_realtime.Capture.Conserve.{Accepts, IsRaw, send_audio-IsRaw, flush_buffer-Keeps}
use mod_openai_realtime.Session.{silence, send_silence, set_user_mute}

module _ (p : Platform) (accepts : Accepts p) where
  open p use {buffer}

  send_audio-success :
      (audio : Bytes) (s : Streamer p) → IsRaw p s → (send_audio p audio s).1 ≡ true
  unfolding send_audio record_send write_binary is_connected
  send_audio-success audio s r =
      rw (r.raw, r.open_socket) (accepts.accepted s.socket audio r.open_socket)

  -- What the call leaves: a muted session, a success, nothing waiting, and all of the audio sent.
  pub record Muted (tech : Private p) (s : Streamer p) (r : Private p × Bool) : Type 0 where
    pub muted : r.0.user_audio_muted ≡ true
    pub succeeds : r.1 ≡ true
    pub streamer : Streamer p
    pub has_streamer : r.0.streamer ≡ some streamer
    pub none_waiting : buffer.contents r.0.sbuffer ≡ []
    pub sent :
        flatten streamer.sent_audio
        ≡ (flatten s.sent_audio ++ buffer.contents tech.sbuffer) ++ silence p tech

  send_silence-Muted :
      (tech : Private p) (s : Streamer p)
      → IsRaw p s
      → let (b, s') = flush_buffer p tech.sbuffer s in
        Muted tech s (
          record tech {
            user_audio_muted = true;
            sbuffer = b;
            streamer = some (send_audio p (silence p tech) s').0;
          },
          (send_audio p (silence p tech) s').1,
        )
  send_silence-Muted tech s r =
      let (k, empty) = flush_buffer-Keeps p accepts tech.sbuffer s r in
      let s' = (flush_buffer p tech.sbuffer s).1 in
      let send = send_audio-IsRaw p accepts (silence p tech) s' k.raw in
      record {
        muted = refl;
        succeeds = send_audio-success (silence p tech) s' k.raw;
        streamer = (send_audio p (silence p tech) s').0;
        has_streamer = refl;
        none_waiting = empty;
        sent =
            send.1
            ∙ ap (λ x. x ++ silence p tech)
                (sym (append-nil _)
                  ∙ ap (◌++◌ (flatten s'.sent_audio)) (sym empty)
                  ∙ k.audio
                  ∙ append-nil _);
      }

  -- Muting a caller who is not muted, on a connected raw stream whose socket accepts what it is given:
  -- the call succeeds, and the audio sent is what was sent before, then the aggregated audio that was
  -- waiting, then one second of silence, with nothing left waiting.
  pub set_user_mute-Muted :
      (tech : Private p) (s : Streamer p)
      → tech.streamer ≡ some s
      → tech.user_audio_muted ≡ false
      → IsRaw p s
      → Muted tech s (set_user_mute p true tech)
  unfolding set_user_mute send_silence flush_capture_residue silence is_connected
  set_user_mute-Muted tech s some_streamer unmuted r =
      let k = (flush_buffer-Keeps p accepts tech.sbuffer s r).0 in
      simp (unmuted, some_streamer, k.raw.open_socket) (send_silence-Muted tech s r)
