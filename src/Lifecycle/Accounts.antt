-- ===== src/Lifecycle/Accounts.antt =====
-- Every context that is handed over is destroyed once, or is the one behind the media bug.
use mod_openai_realtime.Base.{
  if-both, option-both, ℕ, ◌+◌, ◌%◌, ◌≡◌, refl, sym, subst, Bool, true, false, not, ◌&&◌, All,
  length, Option, none, some, arith, Bytes, Option-cases, inl, inr,
}
use mod_openai_realtime.Services.{Platform}
use mod_openai_realtime.Streamer.{Streamer}
use mod_openai_realtime.Private.{Private}
use mod_openai_realtime.Session.{flush_and_send}
use mod_openai_realtime.Session.Run.{played, act}
use mod_openai_realtime.Session.Run.Captured.{SamePlayback, SamePlayback-refl}
use mod_openai_realtime.Session.Run.Invariant.{IsInvariant}
use mod_openai_realtime.Session.Run.Holds.{
  Holds, act-Holds, stream_turn-Holds, replaced-Holds, flush_and_send-Holds, IsFresh-Holds,
}
use mod_openai_realtime.Setup.{Options, new_streamer}
use mod_openai_realtime.Setup.Init.{stream_session_init}
use mod_openai_realtime.Setup.Fresh.{stream_session_init-IsFresh}
use mod_openai_realtime.Lifecycle.{
  Channel, Media, Start, Callback, init, close, other, read, write_replace, start, teardown,
  release, stream_session_cleanup, stream_session_start, attach, request, create, start_capture,
  media_callback, on_media, capture_callback, locked_cleanup,
}

-- What the media thread may be told of the session in a callback.
abbrev pub PermitsCallback : (Bool → Type 0) → Callback → Type 0
PermitsCallback Located (write_replace located frame codec_ready) = Located located
PermitsCallback Located _ = Unit

module _ (p : Platform) where
  -- Nothing is left in a context that was destroyed.
  abbrev pub IsReleased : Private p → Type 0
  IsReleased tech = (tech.streamer ≡ none) × (tech.resampler ≡ none)

module _ (p : Platform) (Q : Streamer p → Type 0) where
  abbrev pub attached : Option (Private p) → ℕ
  attached none = 0
  attached (some tech) = 1

  -- A context whose playback buffer has 128000 bytes, with its streamer and an invariant of it.
  abbrev pub IsSession : Private p → Type 0
  IsSession tech = (room : ℕ) × Holds p Q 128000 room tech

  abbrev pub AreSessions : Option (Private p) → Type 0
  AreSessions none = Unit
  AreSessions (some tech) = IsSession tech

  pub record IsAccounted (ch : Channel p) : Type 0 where
    pub balance : ch.created ≡ length ch.destroyed + attached ch.bug
    pub released : All (IsReleased p) ch.destroyed
    pub sessions : AreSessions ch.bug

  abbrev IsAccountedThen : {B : Type 0} → Channel p × B → Type 0
  IsAccountedThen r = IsAccounted r.0

  -- The channel with another context behind the bug that it has.
  pub replace-IsAccounted :
      (ch : Channel p) (tech tech' : Private p)
      → ch.bug ≡ some tech
      → IsSession tech'
      → IsAccounted ch
      → IsAccounted (record ch { bug = some tech' })
  replace-IsAccounted ch tech tech' e l a = record {
    balance = ground (arith, a.balance);
    released = a.released;
    sessions = l;
  }

  pub bug-IsSession :
      (ch : Channel p) (tech : Private p) → ch.bug ≡ some tech → IsAccounted ch → IsSession tech
  bug-IsSession ch tech e a = subst AreSessions e a.sessions

  module _ (Located : Bool → Type 0) (law : IsInvariant p Q Located)
      (fresh : (o : Options) → Q (new_streamer p o)) where
    locked_cleanup-IsAccounted :
        (removable : Bool) (text : Option Bytes) (closing : Bool) (ch : Channel p)
        → IsAccounted ch
        → IsAccountedThen (locked_cleanup p removable text closing ch)
    unfolding locked_cleanup
    locked_cleanup-IsAccounted removable text closing ch a = elim (Option-cases ch.bug) [
      | inl e ↦ simp (locked_cleanup, e) a
      | inr (tech, e) ↦
          let (room, l) = bug-IsSession ch tech e a in
          simp (locked_cleanup, e)
            (if-both IsAccountedThen (not closing && not removable) _ _
              (replace-IsAccounted ch tech (flush_and_send p text tech).0 e
                (room, flush_and_send-Holds p Q Located law 128000 room text tech l) a)
              (record {
                balance = ground (arith, a.balance);
                released = ((refl, refl), a.released);
                sessions = tt;
              }))
    ]

    pub cleanup-IsAccounted :
        (lockable removable : Bool) (text : Option Bytes) (closing : Bool) (ch : Channel p)
        → IsAccounted ch
        → IsAccountedThen (stream_session_cleanup p lockable removable text closing ch)
    unfolding stream_session_cleanup
    cleanup-IsAccounted lockable removable text closing ch a =
        if-both IsAccountedThen (not lockable) _ _ a
          (locked_cleanup-IsAccounted removable text closing ch a)

    started-SamePlayback :
        (w : p.socket.State) (s : Streamer p)
        → SamePlayback p s (record s { socket = w; started = true })
    started-SamePlayback w s = ground arith

    stream_session_start-IsSession :
        (tech : Private p) → IsSession tech → IsSession (stream_session_start p tech).0
    unfolding stream_session_start start
    stream_session_start-IsSession tech (room, l) =
        simp (stream_session_start, l.has_streamer)
          (option-both (λ (r : Streamer p × Bool). IsSession (record tech { streamer = some r.0 }))
            (p.socket.start l.streamer.socket) _ _
            (
              room,
              replaced-Holds p Q Located law 128000 room tech _ l l.streamer refl
                  (SamePlayback-refl p l.streamer) refl refl,
            )
            (λ w. (
              room,
              replaced-Holds p Q Located law 128000 room tech _ l
                  (record l.streamer { socket = w; started = true }) refl
                  (started-SamePlayback w l.streamer) refl refl,
            )))

    attach-IsAccounted :
        (m : Media) (tech : Private p) (ch : Channel p)
        → IsSession tech
        → IsAccounted ch
        → ch.bug ≡ none
        → IsAccountedThen (attach p m tech (record ch { created = ch.created + 1 }))
    unfolding attach
    attach-IsAccounted m tech ch l a e =
        let ch' : Channel p = record ch {
          bug = some (stream_session_start p tech).0;
          created = ch.created + 1;
        } in
        let a' : IsAccounted ch' = record {
          balance = ground (arith, a.balance);
          released = a.released;
          sessions = stream_session_start-IsSession tech l;
        } in
        if-both IsAccountedThen (not m.bug_added) _ _
          (record {
            balance = ground (arith, a.balance);
            released = ((refl, refl), a.released);
            sessions = subst AreSessions (sym e) tt;
          })
          (if-both IsAccountedThen (stream_session_start p tech).1 _ _ a'
            (cleanup-IsAccounted m.lockable m.removable none false ch' a'))

    create-IsAccounted :
        (m : Media) (s : Start) (rate : ℕ) (ch : Channel p)
        → s.sampling % 8000 ≡ 0
        → IsAccounted ch
        → ch.bug ≡ none
        → IsAccountedThen (create p m s rate ch)
    unfolding create
    create-IsAccounted m s rate ch whole a e =
        elim (Option-cases
          (stream_session_init p m.uuid m.memory m.variables (request p m s rate))) [
            | inl h ↦ simp (create, h) a
            | inr (tech, h) ↦
                let started =
                  stream_session_init-IsFresh p m.uuid m.memory m.variables (request p m s rate)
                    tech whole h in
                simp (create, h)
                  (attach-IsAccounted m tech ch (_, IsFresh-Holds p Q fresh _ tech started.1) a e)
          ]

    pub start_capture-IsAccounted :
        (m : Media) (s : Start) (ch : Channel p)
        → s.sampling % 8000 ≡ 0
        → IsAccounted ch
        → IsAccountedThen (start_capture p m s ch)
    unfolding start_capture
    start_capture-IsAccounted m s ch whole a = elim (Option-cases ch.bug) [
      | inr (tech, e) ↦ simp (start_capture, e) a
      | inl e ↦
          simp (start_capture, e)
            (if-both IsAccountedThen m.pre_answer _ _
              (option-both IsAccountedThen m.read_rate _ _ a
                (λ rate. create-IsAccounted m s rate ch whole a e))
              a)
    ]

    media_callback-IsSession :
        (callback : Callback) (tech : Private p)
        → PermitsCallback Located callback
        → IsSession tech
        → IsSession (media_callback p callback tech).0
    unfolding media_callback act
    media_callback-IsSession (read passed acquired frames) tech k (room, l) =
        if-both (λ (r : Private p × Bool). IsSession r.0) tech.close_requested _ _ (room, l)
          (room, stream_turn-Holds p Q Located law 128000 room passed acquired frames tech l)
    media_callback-IsSession (write_replace located frame ready) tech k (room, l) =
        if-both (λ (r : Private p × Bool). IsSession r.0) tech.close_requested _ _ (room, l)
          (room, act-Holds p Q Located law 128000 room (played located frame ready) tech k l)
    media_callback-IsSession init tech k l = l
    media_callback-IsSession (close lockable) tech k l = l
    media_callback-IsSession other tech k l = l

    on_media-IsAccounted :
        (callback : Callback) (ch : Channel p)
        → PermitsCallback Located callback
        → IsAccounted ch
        → IsAccountedThen (on_media p callback ch)
    unfolding on_media
    on_media-IsAccounted callback ch k a = elim (Option-cases ch.bug) [
      | inl e ↦ simp (on_media, e) a
      | inr (tech, e) ↦
          simp (on_media, e)
            (replace-IsAccounted ch tech (media_callback p callback tech).0 e
              (media_callback-IsSession callback tech k (bug-IsSession ch tech e a)) a)
    ]

    pub capture_callback-IsAccounted :
        (callback : Callback) (ch : Channel p)
        → PermitsCallback Located callback
        → IsAccounted ch
        → IsAccountedThen (capture_callback p callback ch)
    unfolding capture_callback
    capture_callback-IsAccounted (close lockable) ch k a =
        cleanup-IsAccounted lockable true none true ch a
    capture_callback-IsAccounted init ch k a = on_media-IsAccounted init ch k a
    capture_callback-IsAccounted other ch k a = on_media-IsAccounted other ch k a
    capture_callback-IsAccounted (read passed acquired frames) ch k a =
        on_media-IsAccounted (read passed acquired frames) ch k a
    capture_callback-IsAccounted (write_replace located frame ready) ch k a =
        on_media-IsAccounted (write_replace located frame ready) ch k a

module _ (p : Platform) where
  -- A channel that closes, and gets the lock, removes its bug whatever FreeSWITCH says.
  pub cleanup-closed :
      (removable : Bool) (text : Option Bytes) (ch : Channel p)
      → (stream_session_cleanup p true removable text true ch).0.bug ≡ none
  unfolding stream_session_cleanup locked_cleanup teardown release
  cleanup-closed removable text ch = grind arith
