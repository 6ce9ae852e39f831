-- ===== src/Command/Execute.antt =====
-- mod_openai_audio_stream.c, `stream_api_execute` and the calls of its commands.
use mod_openai_realtime.Base.{
  Bool, true, false, not, ◌&&◌, ◌||◌, List, [], ◌∷◌, ◌++◌, Option, none, some, if◌then◌else◌, Bytes,
  codes,
}
use mod_openai_realtime.Services.{Platform}
use mod_openai_realtime.Protocol.Utf8.{is_valid_utf8}
use mod_openai_realtime.Private.{Private}
use mod_openai_realtime.Message.Files.{is_empty}
use mod_openai_realtime.Session
use mod_openai_realtime.Lifecycle.{Channel, Media, stream_session_cleanup, start_capture}
use mod_openai_realtime.Command.{
  StreamCommand, unknown, start, stop, send_json, pause, resume, mute, unmute, str_case_eq,
  stream_command_from_string, parse_mix_type, parse_start_options, parse_start,
}

-- What is written to the caller.
pub data Reply : Type 0 where
  syntax success failure : Reply

abbrev pub is_none : {A : Type 0} → Option A → Bool
is_none none = true
is_none (some a) = false

-- A start prints the syntax if the URI or the mix type is missing, or if there is one argument too
-- many behind a good mix type.
unfoldable pub start_syntax : List Bytes → List Reply
start_syntax (uri ∷ mix ∷ args) =
    if not (is_none (parse_mix_type mix)) && is_none (parse_start_options args)
    then syntax ∷ []
    else []
start_syntax _ = syntax ∷ []

unfoldable pub command_syntax : StreamCommand → List Bytes → List Reply
unfolding start_syntax
command_syntax start args = start_syntax args
command_syntax _ args = []

abbrev pub reply_of : Bool → Reply
reply_of true = success
reply_of false = failure

module _ (p : Platform) where
  abbrev pub Outcome : Type 0
  Outcome = Channel p × Bool

  -- A call on the context behind the media bug; without a bug it fails.
  unfoldable pub on_bug : (Private p → Private p × Bool) → Channel p → Outcome
  on_bug call ch =
      let (bug, status) = Session.on_session p call ch.bug in (record ch { bug = bug }, status)

  -- Both calls are made.
  unfoldable pub mute_both : Bool → Private p → Private p × Bool
  mute_both muted tech =
      let (tech1, user_status) = Session.set_user_mute p muted tech in
      let (tech2, openai_status) = Session.set_openai_mute p muted tech1 in
      (tech2, user_status && openai_status)

  unfoldable pub do_audio_mute : Bytes → Bool → Channel p → Outcome
  unfolding on_bug mute_both
  do_audio_mute target muted ch =
      let which = if is_empty target then codes "user" else target in
      if str_case_eq which (codes "user")
      then on_bug (Session.set_user_mute p muted) ch
      else if str_case_eq which (codes "openai")
      then on_bug (Session.set_openai_mute p muted) ch
      else if str_case_eq which (codes "all") || str_case_eq which (codes "both")
      then on_bug (mute_both muted) ch
      else (ch, false)

  unfoldable pub run_stop : Media → List Bytes → Channel p → Outcome
  run_stop m [] ch = stream_session_cleanup p m.lockable m.removable none false ch
  run_stop m (final ∷ []) ch =
      if is_valid_utf8 (some final)
      then stream_session_cleanup p m.lockable m.removable (some final) false ch
      else (ch, false)
  run_stop m _ ch = (ch, false)

  unfoldable pub run_pause : Bool → List Bytes → Channel p → Outcome
  unfolding on_bug
  run_pause paused [] ch = on_bug (Session.pause_resume p paused) ch
  run_pause paused _ ch = (ch, false)

  unfoldable pub run_send_json : List Bytes → Channel p → Outcome
  unfolding on_bug
  run_send_json (json ∷ []) ch = on_bug (Session.send_json p (some json)) ch
  run_send_json _ ch = (ch, false)

  unfoldable pub run_mute : Bool → List Bytes → Channel p → Outcome
  unfolding do_audio_mute
  run_mute muted [] ch = do_audio_mute (codes "user") muted ch
  run_mute muted (target ∷ []) ch = do_audio_mute target muted ch
  run_mute muted _ ch = (ch, false)

  unfoldable pub run_start : Media → Bool → List Bytes → Channel p → Outcome
  run_start m force_raw (uri ∷ mix ∷ args) ch = elim (parse_start force_raw uri mix args) [
    | none ↦ (ch, false)
    | some a ↦ start_capture p m a ch
  ]
  run_start m force_raw _ ch = (ch, false)

  -- The `switch` on the command, with the arguments behind it.
  unfoldable pub run_command : Media → Bool → StreamCommand → List Bytes → Channel p → Outcome
  unfolding run_stop run_pause run_send_json run_mute run_start
  run_command m force_raw stop args ch = run_stop m args ch
  run_command m force_raw pause args ch = run_pause true args ch
  run_command m force_raw resume args ch = run_pause false args ch
  run_command m force_raw send_json args ch = run_send_json args ch
  run_command m force_raw start args ch = run_start m force_raw args ch
  run_command m force_raw mute args ch = run_mute true args ch
  run_command m force_raw unmute args ch = run_mute false args ch
  run_command m force_raw unknown args ch = (ch, false)

  -- `located` says that the session is found by its id, `locked` that its lifecycle lock was acquired.
  -- A command of fewer than two words is only answered by the syntax.
  unfoldable pub stream_api_execute :
      Media → Bool → Bool → Bool → List Bytes → Channel p → Channel p × List Reply
  unfolding run_command command_syntax
  stream_api_execute m force_raw located locked (uuid ∷ name ∷ args) ch =
      let command = stream_command_from_string name in
      if located && locked
      then (let (ch', status) = run_command m force_raw command args ch in
          (ch', command_syntax command args ++ reply_of status ∷ []))
      else (ch, failure ∷ [])
  stream_api_execute m force_raw located locked words ch = (ch, syntax ∷ [])
