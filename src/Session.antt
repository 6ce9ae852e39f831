-- ===== src/Session.antt =====
-- openai_audio_streamer_glue.cpp: the API's calls on a running session, `stream_session_send_json`,
-- `stream_session_pauseresume`, `stream_session_set_user_mute`, `stream_session_set_openai_mute`, and
-- the part of `stream_session_cleanup` before the media bug is removed. A session without a media bug
-- or without user data is `none`; `switch_core_media_bug_flush` is FreeSWITCH's and left out.
pub mod Mute
pub mod Wire
pub mod Run
use mod_openai_realtime.Base.{
  ℕ, ◌*◌, Bool, true, false, not, ◌||◌, [], ◌∷◌, Option, none, some, ltb, ◌==◌, if◌then◌else◌,
  Bytes, replicate,
}
use mod_openai_realtime.Services.{Platform}
use mod_openai_realtime.Streamer.{Streamer, is_connected}
use mod_openai_realtime.Streamer.Sending.{write_text, send_audio}
use mod_openai_realtime.Private.{Private}
use mod_openai_realtime.Capture.{flush_capture_residue}
use mod_openai_realtime.Message.{c_str}
use mod_openai_realtime.Message.Files.{is_empty}

-- Equality of Booleans, the code's comparison of two flags of 0 or 1.
abbrev pub same_flag : Bool → Bool → Bool
same_flag true b = b
same_flag false b = not b

module _ (p : Platform) where
  -- The session and whether the status is a success.
  abbrev pub Answer : Type 0
  Answer = Option (Private p) × Bool

  -- The JSON behind its decoding and parsing.
  unfoldable pub send_value : Private p → Streamer p → p.json.Value → Private p × Bool
  send_value tech s value = elim (p.json.print_unformatted value) [
    | none ↦ (tech, false)
    | some printed ↦
        let (s', sent) = write_text p printed s in (record tech { streamer = some s' }, sent)
  ]

  unfoldable pub send_decoded : Private p → Streamer p → Bytes → Private p × Bool
  unfolding send_value
  send_decoded tech s decoded =
      if is_empty decoded then (tech, false) else elim (p.json.parse (c_str decoded)) [
        | none ↦ (tech, false)
        | some value ↦ send_value tech s value
      ]

  -- A null input is `none`.
  unfoldable pub send_json : Option Bytes → Private p → Private p × Bool
  unfolding send_decoded
  send_json none tech = (tech, false)
  send_json (some input) tech = elim tech.streamer [
    | none ↦ (tech, false)
    | some s ↦ if is_empty input then (tech, false) else elim (p.base64.decode input) [
      | none ↦ (tech, false)
      | some decoded ↦ send_decoded tech s decoded
    ]
  ]

  unfoldable pub pause_resume : Bool → Private p → Private p × Bool
  pause_resume pause tech = (record tech { audio_paused = pause }, true)

  unfoldable pub set_openai_mute : Bool → Private p → Private p × Bool
  set_openai_mute mute tech = (record tech { openai_audio_muted = mute }, true)

  -- One second of silence.
  unfoldable pub silence : Private p → Bytes
  silence tech =
      let channels = if ltb 0 tech.channels then tech.channels else 1 in
      let sample_rate = if ltb 0 tech.sampling then tech.sampling else 24000 in
      replicate (channels * sample_rate * 2) 0

  unfoldable pub send_silence : Private p → Private p × Bool
  unfolding silence is_connected
  send_silence tech = elim tech.streamer [
    | none ↦ (tech, false)
    | some s ↦
        if is_connected p s
        then (let (s', sent) = send_audio p (silence tech) s in
            (record tech { streamer = some s' }, sent))
        else (tech, false)
  ]

  unfoldable pub set_user_mute : Bool → Private p → Private p × Bool
  unfolding send_silence
  set_user_mute mute tech =
      let last = tech.user_audio_muted in
      let tech' : Private p = record tech { user_audio_muted = mute } in
      if same_flag last mute || not mute
      then (tech', true)
      else send_silence (flush_capture_residue p tech')

  -- `stream_session_cleanup` up to the final JSON; an empty `text` sends none.
  unfoldable pub flush_and_send : Option Bytes → Private p → Private p × Bool
  unfolding send_json
  flush_and_send none tech = (flush_capture_residue p tech, true)
  flush_and_send (some input) tech =
      let tech' = flush_capture_residue p tech in
      if is_empty input then (tech', true) else send_json (some input) tech'

  -- A call on a session that may have no media bug.
  unfoldable pub on_session : (Private p → Private p × Bool) → Option (Private p) → Answer
  on_session call none = (none, false)
  on_session call (some tech) = let (tech', success) = call tech in (some tech', success)
