-- ===== src/Command/Refused.antt =====
-- The commands that change nothing.
use mod_openai_realtime.Base.{
  if-both, not, Option, ◌≡◌, ◌≢◌, refl, ◌⊎◌, inl, inr, Bool, true, false, List, [], ◌∷◌, ◌++◌, none,
  some, arith, Bool-cases, Option-cases, Bytes, codes,
}
use mod_openai_realtime.Services.{Platform}
use mod_openai_realtime.Protocol.Utf8.{is_valid_utf8}
use mod_openai_realtime.Private.{Private}
use mod_openai_realtime.Message.Files.{is_empty}
use mod_openai_realtime.Session
use mod_openai_realtime.Lifecycle.{
  Channel, Media, Start, stream_session_cleanup, locked_cleanup, start_capture,
}
use mod_openai_realtime.Command.{
  StreamCommand, unknown, start, stop, send_json, pause, resume, mute, unmute, str_case_eq,
  stream_command_from_string, parse_start,
}
use mod_openai_realtime.Command.Start.{IsStart}
use mod_openai_realtime.Command.Start.Exact.{parse_start-IsStart}
use mod_openai_realtime.Command.Execute.{
  failure, command_syntax, on_bug, mute_both, do_audio_mute, run_stop, run_pause, run_send_json,
  run_mute, run_start, run_command, stream_api_execute,
}

-- The targets of a mute; an empty one is the user.
abbrev pub IsTarget : Bytes → Type 0
IsTarget target =
    (is_empty target ≡ true)
    ⊎ (str_case_eq target (codes "user") ≡ true)
    ⊎ (str_case_eq target (codes "openai") ≡ true)
    ⊎ (str_case_eq target (codes "all") ≡ true)
    ⊎ (str_case_eq target (codes "both") ≡ true)

-- The arguments that a command takes.
abbrev pub IsAccepted : Bool → StreamCommand → List Bytes → Type 0
IsAccepted force_raw stop [] = Unit
IsAccepted force_raw stop (final ∷ []) = is_valid_utf8 (some final) ≡ true
IsAccepted force_raw pause [] = Unit
IsAccepted force_raw resume [] = Unit
IsAccepted force_raw send_json (json ∷ []) = Unit
IsAccepted force_raw mute [] = Unit
IsAccepted force_raw mute (target ∷ []) = IsTarget target
IsAccepted force_raw unmute [] = Unit
IsAccepted force_raw unmute (target ∷ []) = IsTarget target
IsAccepted force_raw start (uri ∷ mix ∷ args) = (s : Start) × IsStart force_raw uri mix args s
IsAccepted force_raw _ _ = ⊥

not_true : (b : Bool) → ¬ (b ≡ true) → b ≡ false
not_true true h = absurd (h refl)
not_true false h = refl

module _ (p : Platform) where
  -- Why a command is refused: its arguments, no session for it, or a session already.
  pub data IsRefused (force_raw : Bool) (command : StreamCommand) (args : List Bytes)
      (ch : Channel p) : Type 0 where
    malformed : ¬ IsAccepted force_raw command args → IsRefused force_raw command args ch
    no_session : ch.bug ≡ none → command ≢ start → IsRefused force_raw command args ch
    started :
        (tech : Private p)
        → ch.bug ≡ some tech
        → command ≡ start
        → IsRefused force_raw command args ch

  do_audio_mute_malformed :
      (target : Bytes) (muted : Bool) (ch : Channel p)
      → ¬ IsTarget target
      → do_audio_mute p target muted ch ≡ (ch, false)
  unfolding do_audio_mute
  do_audio_mute_malformed target muted ch h =
      let given = not_true (is_empty target) (λ e. h (inl e)) in
      let user = not_true (str_case_eq target (codes "user")) (λ e. h (inr (inl e))) in
      let openai = not_true (str_case_eq target (codes "openai")) (λ e. h (inr (inr (inl e)))) in
      let all = not_true (str_case_eq target (codes "all")) (λ e. h (inr (inr (inr (inl e))))) in
      let both = not_true (str_case_eq target (codes "both")) (λ e. h (inr (inr (inr (inr e))))) in
      rw (given, user, openai, all, both) refl

  run_command_malformed :
      (m : Media) (raw : Bool) (command : StreamCommand) (args : List Bytes) (ch : Channel p)
      → ¬ IsAccepted raw command args
      → run_command p m raw command args ch ≡ (ch, false)
  unfolding run_command run_stop run_pause run_send_json run_mute run_start
  run_command_malformed m raw stop [] ch h = absurd (h tt)
  run_command_malformed m raw stop (final ∷ []) ch h =
      elim (Bool-cases (is_valid_utf8 (some final))) [ inl e ↦ absurd (h e) | inr e ↦ ground arith ]
  run_command_malformed m raw stop (final ∷ more ∷ args) ch h = refl
  run_command_malformed m raw start [] ch h = refl
  run_command_malformed m raw start (uri ∷ []) ch h = refl
  run_command_malformed m raw start (uri ∷ mix ∷ args) ch h =
      elim (Option-cases (parse_start raw uri mix args)) [
        | inl e ↦ ground arith
        | inr (s, e) ↦ absurd (h (s, (parse_start-IsStart raw uri mix args s).0 e))
      ]
  run_command_malformed m raw pause [] ch h = absurd (h tt)
  run_command_malformed m raw pause (arg ∷ args) ch h = refl
  run_command_malformed m raw resume [] ch h = absurd (h tt)
  run_command_malformed m raw resume (arg ∷ args) ch h = refl
  run_command_malformed m raw send_json [] ch h = refl
  run_command_malformed m raw send_json (json ∷ []) ch h = absurd (h tt)
  run_command_malformed m raw send_json (json ∷ arg ∷ args) ch h = refl
  run_command_malformed m raw mute [] ch h = absurd (h tt)
  run_command_malformed m raw mute (target ∷ []) ch h = do_audio_mute_malformed target true ch h
  run_command_malformed m raw mute (target ∷ arg ∷ args) ch h = refl
  run_command_malformed m raw unmute [] ch h = absurd (h tt)
  run_command_malformed m raw unmute (target ∷ []) ch h = do_audio_mute_malformed target false ch h
  run_command_malformed m raw unmute (target ∷ arg ∷ args) ch h = refl
  run_command_malformed m raw unknown args ch h = refl

  on_bug-none :
      (call : Private p → Private p × Bool) (ch : Channel p)
      → ch.bug ≡ none
      → on_bug p call ch ≡ (ch, false)
  unfolding on_bug Session.on_session
  on_bug-none call ch e = ground arith

  do_audio_mute-none :
      (target : Bytes) (muted : Bool) (ch : Channel p)
      → ch.bug ≡ none
      → do_audio_mute p target muted ch ≡ (ch, false)
  unfolding do_audio_mute
  do_audio_mute-none target muted ch e = grind (
    arith,
    on_bug-none (Session.set_user_mute p muted) ch e,
    on_bug-none (Session.set_openai_mute p muted) ch e,
    on_bug-none (mute_both p muted) ch e,
  )

  cleanup-none :
      (lockable removable : Bool) (text : Option Bytes) (ch : Channel p)
      → ch.bug ≡ none
      → stream_session_cleanup p lockable removable text false ch ≡ (ch, false)
  unfolding stream_session_cleanup locked_cleanup
  cleanup-none lockable removable text ch e =
      if-both (λ r. r ≡ (ch, false)) (not lockable) _ _ refl (simp (locked_cleanup, e) refl)

  run_command-none :
      (m : Media) (raw : Bool) (command : StreamCommand) (args : List Bytes) (ch : Channel p)
      → ch.bug ≡ none
      → command ≢ start
      → run_command p m raw command args ch ≡ (ch, false)
  unfolding run_command run_stop run_pause run_send_json run_mute
  run_command-none m raw stop [] ch e n = cleanup-none m.lockable m.removable none ch e
  run_command-none m raw stop (final ∷ []) ch e n = elim (Bool-cases (is_valid_utf8 (some final))) [
    | inl valid ↦ rw valid (cleanup-none m.lockable m.removable (some final) ch e)
    | inr invalid ↦ rw invalid refl
  ]
  run_command-none m raw stop (final ∷ more ∷ args) ch e n = refl
  run_command-none m raw start args ch e n = absurd (n refl)
  run_command-none m raw pause [] ch e n = on_bug-none _ ch e
  run_command-none m raw pause (arg ∷ args) ch e n = refl
  run_command-none m raw resume [] ch e n = on_bug-none _ ch e
  run_command-none m raw resume (arg ∷ args) ch e n = refl
  run_command-none m raw send_json [] ch e n = refl
  run_command-none m raw send_json (json ∷ []) ch e n = on_bug-none _ ch e
  run_command-none m raw send_json (json ∷ arg ∷ args) ch e n = refl
  run_command-none m raw mute [] ch e n = do_audio_mute-none (codes "user") true ch e
  run_command-none m raw mute (target ∷ []) ch e n = do_audio_mute-none target true ch e
  run_command-none m raw mute (target ∷ arg ∷ args) ch e n = refl
  run_command-none m raw unmute [] ch e n = do_audio_mute-none (codes "user") false ch e
  run_command-none m raw unmute (target ∷ []) ch e n = do_audio_mute-none target false ch e
  run_command-none m raw unmute (target ∷ arg ∷ args) ch e n = refl
  run_command-none m raw unknown args ch e n = refl

  start_twice :
      (m : Media) (raw : Bool) (args : List Bytes) (ch : Channel p) (tech : Private p)
      → ch.bug ≡ some tech
      → run_command p m raw start args ch ≡ (ch, false)
  unfolding run_command run_start start_capture
  start_twice m raw [] ch tech e = refl
  start_twice m raw (uri ∷ []) ch tech e = refl
  start_twice m raw (uri ∷ mix ∷ args) ch tech e = ground arith

  run_command_refused :
      (m : Media) (raw : Bool) (command : StreamCommand) (args : List Bytes) (ch : Channel p)
      → IsRefused raw command args ch
      → run_command p m raw command args ch ≡ (ch, false)
  run_command_refused m raw command args ch (malformed h) =
      run_command_malformed m raw command args ch h
  run_command_refused m raw command args ch (no_session e n) =
      run_command-none m raw command args ch e n
  run_command_refused m raw command args ch (started tech e c) =
      rw c (start_twice m raw args ch tech e)

  -- A command whose arguments are not of its grammar, or that needs a session where none is attached, or
  -- a start where one is attached already: the channel is left as it is, and the caller is answered by
  -- the failure, behind the syntax if that is due.
  pub stream_api_execute-IsRefused :
      (m : Media) (force_raw : Bool) (uuid name : Bytes) (args : List Bytes) (ch : Channel p)
      → IsRefused force_raw (stream_command_from_string name) args ch
      → stream_api_execute p m force_raw true true (uuid ∷ name ∷ args) ch
        ≡ (ch, command_syntax (stream_command_from_string name) args ++ failure ∷ [])
  unfolding stream_api_execute
  stream_api_execute-IsRefused m force_raw uuid name args ch r =
      simp (run_command_refused m force_raw (stream_command_from_string name) args ch r) refl
