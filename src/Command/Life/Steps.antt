-- ===== src/Command/Life/Steps.antt =====
-- Every event of a channel's life keeps an invariant of the streamer, and the accounts of the channel.
use mod_openai_realtime.Base.{
  if-both, ℕ, ◌%◌, ◌≡◌, refl, Bool, true, false, ◌&&◌, ◌||◌, All, List, [], ◌∷◌, none, some, arith,
  if◌then◌else◌, >>=-eq-some, Bytes, codes, Option-cases, inl, inr, ℤ, pos, negsuc,
}
use mod_openai_realtime.Services.{Platform}
use mod_openai_realtime.Streamer.{Streamer}
use mod_openai_realtime.Protocol.Utf8.{is_valid_utf8}
use mod_openai_realtime.Protocol.Uri.{validate_ws_uri}
use mod_openai_realtime.Private.{Private}
use mod_openai_realtime.Message.{WsMessage, receive}
use mod_openai_realtime.Message.Files.{Env, is_empty}
use mod_openai_realtime.Session
use mod_openai_realtime.Session.Run.{
  Action, received, paused, user_muted, openai_muted, json_sent, act,
}
use mod_openai_realtime.Session.Run.Invariant.{IsInvariant}
use mod_openai_realtime.Session.Run.Holds.{Holds, Permits, act-Holds}
use mod_openai_realtime.Setup.{Options, new_streamer}
use mod_openai_realtime.Lifecycle.{Channel, Media, Start}
use mod_openai_realtime.Lifecycle.Accounts.{
  IsAccounted, PermitsCallback, replace-IsAccounted, bug-IsSession, cleanup-IsAccounted,
  start_capture-IsAccounted, capture_callback-IsAccounted,
}
use mod_openai_realtime.Command.{
  StreamCommand, unknown, start, stop, send_json, pause, resume, mute, unmute, str_case_eq,
  stream_command_from_string, parse_mix_type, parse_start_options, parse_start, check_rate,
  max_ws_uri,
}
use mod_openai_realtime.Command.Execute.{
  on_bug, mute_both, do_audio_mute, run_stop, run_pause, run_send_json, run_mute, run_start,
  run_command, stream_api_execute, Reply,
}
use mod_openai_realtime.Command.Life.{
  Event, commanded, called_back, delivered, deliver, step, live, new_channel,
}

check_rate-whole : (rate : ℤ) (v : ℕ) → check_rate rate ≡ some v → v % 8000 ≡ 0
unfolding check_rate
check_rate-whole (pos n) v h = grind arith
check_rate-whole (negsuc n) v h = grind arith

parse_start-whole :
    (raw : Bool) (uri mix : Bytes) (args : List Bytes) (s : Start)
    → parse_start raw uri mix args ≡ some s
    → s.sampling % 8000 ≡ 0
unfolding parse_start
parse_start-whole raw uri mix args s h =
    let (mix_type, e1, h1) = >>=-eq-some (parse_mix_type mix) _ h in
    let ((sampling, playback_sampling, muted), e2, h2) =
      >>=-eq-some (parse_start_options args) _ h1 in
    let (ws_uri, e3, h3) = >>=-eq-some (validate_ws_uri (some uri) true max_ws_uri) _ h2 in
    let (send_rate, e4, h4) = >>=-eq-some (check_rate sampling) _ h3 in
    let (playback_rate, e5, h5) = >>=-eq-some (check_rate playback_sampling) _ h4 in
    let whole = check_rate-whole sampling send_rate e4 in ground (arith, h5, whole)

-- What the media thread may be told of the session in an event.
abbrev pub PermitsEvent : (Bool → Type 0) → Event → Type 0
PermitsEvent Located (called_back callback) = PermitsCallback Located callback
PermitsEvent Located _ = Unit

module _ (p : Platform) (Q : Streamer p → Type 0) (Located : Bool → Type 0)
    (law : IsInvariant p Q Located) (fresh : (o : Options) → Q (new_streamer p o)) where
  abbrev Kept : Channel p × Bool → Type 0
  Kept r = IsAccounted p Q r.0

  act-kept :
      (action : Action)
      → Permits Located action
      → (room : ℕ) (tech : Private p) → Holds p Q 128000 room tech
      → Holds p Q 128000 room (act p action tech)
  act-kept action k room tech l = act-Holds p Q Located law 128000 room action tech k l

  -- A call on the session behind the bug keeps the accounts if it keeps a session.
  on_bug-IsAccounted :
      (call : Private p → Private p × Bool) (ch : Channel p)
      → ((room : ℕ) (tech : Private p)
          → Holds p Q 128000 room tech
          → Holds p Q 128000 room (call tech).0)
      → IsAccounted p Q ch
      → Kept (on_bug p call ch)
  unfolding on_bug Session.on_session
  on_bug-IsAccounted call ch keeps a = elim (Option-cases ch.bug) [
    | inl e ↦
        simp (on_bug, e)
          (record { balance = grind (arith, a.balance, e); released = a.released; sessions = tt })
    | inr (tech, e) ↦
        let (room, l) = bug-IsSession p Q ch tech e a in
        simp (on_bug, e)
          (replace-IsAccounted p Q ch tech (call tech).0 e (room, keeps room tech l) a)
  ]

  mute_both-Holds :
      (muted : Bool) (room : ℕ) (tech : Private p)
      → Holds p Q 128000 room tech
      → Holds p Q 128000 room (mute_both p muted tech).0
  unfolding mute_both act
  mute_both-Holds muted room tech l =
      act-kept (openai_muted muted) tt room (act p (user_muted muted) tech)
        (act-kept (user_muted muted) tt room tech l)

  do_audio_mute-IsAccounted :
      (target : Bytes) (muted : Bool) (ch : Channel p)
      → IsAccounted p Q ch
      → Kept (do_audio_mute p target muted ch)
  unfolding do_audio_mute act
  do_audio_mute-IsAccounted target muted ch a =
      let which = if is_empty target then codes "user" else target in
      if-both Kept (str_case_eq which (codes "user")) _ _
        (on_bug-IsAccounted (Session.set_user_mute p muted) ch (act-kept (user_muted muted) tt) a)
        (if-both Kept (str_case_eq which (codes "openai")) _ _
          (on_bug-IsAccounted (Session.set_openai_mute p muted) ch
            (act-kept (openai_muted muted) tt) a)
          (if-both Kept (str_case_eq which (codes "all") || str_case_eq which (codes "both")) _ _
            (on_bug-IsAccounted (mute_both p muted) ch (mute_both-Holds muted) a) a))

  run_stop-IsAccounted :
      (m : Media) (args : List Bytes) (ch : Channel p)
      → IsAccounted p Q ch
      → Kept (run_stop p m args ch)
  unfolding run_stop
  run_stop-IsAccounted m [] ch a =
      cleanup-IsAccounted p Q Located law fresh m.lockable m.removable none false ch a
  run_stop-IsAccounted m (final ∷ []) ch a =
      if-both Kept (is_valid_utf8 (some final)) _ _
        (cleanup-IsAccounted p Q Located law fresh m.lockable m.removable (some final) false ch a) a
  run_stop-IsAccounted m (final ∷ more ∷ args) ch a = a

  run_start-IsAccounted :
      (m : Media) (raw : Bool) (args : List Bytes) (ch : Channel p)
      → IsAccounted p Q ch
      → Kept (run_start p m raw args ch)
  unfolding run_start
  run_start-IsAccounted m raw [] ch a = a
  run_start-IsAccounted m raw (uri ∷ []) ch a = a
  run_start-IsAccounted m raw (uri ∷ mix ∷ args) ch a =
      elim (Option-cases (parse_start raw uri mix args)) [
        | inl e ↦ simp (run_start, e) a
        | inr (s, e) ↦
            simp (run_start, e)
              (start_capture-IsAccounted p Q Located law fresh m s ch
                (parse_start-whole raw uri mix args s e) a)
      ]

  run_command-IsAccounted :
      (m : Media) (raw : Bool) (command : StreamCommand) (args : List Bytes) (ch : Channel p)
      → IsAccounted p Q ch
      → Kept (run_command p m raw command args ch)
  unfolding run_command run_pause run_send_json run_mute act
  run_command-IsAccounted m raw stop args ch a = run_stop-IsAccounted m args ch a
  run_command-IsAccounted m raw start args ch a = run_start-IsAccounted m raw args ch a
  run_command-IsAccounted m raw pause [] ch a =
      on_bug-IsAccounted (Session.pause_resume p true) ch (act-kept (paused true) tt) a
  run_command-IsAccounted m raw pause (arg ∷ args) ch a = a
  run_command-IsAccounted m raw resume [] ch a =
      on_bug-IsAccounted (Session.pause_resume p false) ch (act-kept (paused false) tt) a
  run_command-IsAccounted m raw resume (arg ∷ args) ch a = a
  run_command-IsAccounted m raw send_json [] ch a = a
  run_command-IsAccounted m raw send_json (json ∷ []) ch a =
      on_bug-IsAccounted (Session.send_json p (some json)) ch (act-kept (json_sent (some json)) tt)
        a
  run_command-IsAccounted m raw send_json (json ∷ arg ∷ args) ch a = a
  run_command-IsAccounted m raw mute [] ch a = do_audio_mute-IsAccounted (codes "user") true ch a
  run_command-IsAccounted m raw mute (target ∷ []) ch a = do_audio_mute-IsAccounted target true ch a
  run_command-IsAccounted m raw mute (target ∷ arg ∷ args) ch a = a
  run_command-IsAccounted m raw unmute [] ch a = do_audio_mute-IsAccounted (codes "user") false ch a
  run_command-IsAccounted m raw unmute (target ∷ []) ch a =
      do_audio_mute-IsAccounted target false ch a
  run_command-IsAccounted m raw unmute (target ∷ arg ∷ args) ch a = a
  run_command-IsAccounted m raw unknown args ch a = a

  deliver-IsAccounted :
      (env : Env) (message : WsMessage) (ch : Channel p)
      → IsAccounted p Q ch
      → IsAccounted p Q (deliver p env message ch)
  unfolding deliver act
  deliver-IsAccounted env message ch a = elim (Option-cases ch.bug) [
    | inl e ↦ simp (deliver, e) a
    | inr (tech, e) ↦
        let (room, l) = bug-IsSession p Q ch tech e a in
        simp (deliver, e)
          (replace-IsAccounted p Q ch tech (receive p env message tech) e
            (room, act-kept (received env message) tt room tech l) a)
  ]

  step-IsAccounted :
      (event : Event) (ch : Channel p)
      → PermitsEvent Located event
      → IsAccounted p Q ch
      → IsAccounted p Q (step p event ch)
  unfolding step stream_api_execute
  step-IsAccounted (commanded m raw located locked []) ch k a = a
  step-IsAccounted (commanded m raw located locked (word ∷ [])) ch k a = a
  step-IsAccounted (commanded m raw located locked (uuid ∷ name ∷ args)) ch k a =
      if-both (λ (r : Channel p × List Reply). IsAccounted p Q r.0) (located && locked) _ _
        (run_command-IsAccounted m raw (stream_command_from_string name) args ch a) a
  step-IsAccounted (called_back callback) ch k a =
      capture_callback-IsAccounted p Q Located law fresh callback ch k a
  step-IsAccounted (delivered env message) ch k a = deliver-IsAccounted env message ch a

  live-IsAccounted :
      (events : List Event) (ch : Channel p)
      → All (PermitsEvent Located) events
      → IsAccounted p Q ch
      → IsAccounted p Q (live p events ch)
  unfolding live
  live-IsAccounted [] ch k a = a
  live-IsAccounted (event ∷ events) ch (k, ks) a =
      live-IsAccounted events (step p event ch) ks (step-IsAccounted event ch k a)

  new_channel-IsAccounted : IsAccounted p Q (new_channel p)
  new_channel-IsAccounted = record { balance = refl; released = tt; sessions = tt }

  -- From a channel without a session on, the accounts hold with the invariant.
  pub live-Accounted :
      (events : List Event)
      → All (PermitsEvent Located) events
      → IsAccounted p Q (live p events (new_channel p))
  live-Accounted events k = live-IsAccounted events (new_channel p) k new_channel-IsAccounted
