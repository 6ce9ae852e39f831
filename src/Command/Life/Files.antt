-- ===== src/Command/Life/Files.antt =====
-- The debug files of a channel's life.
use mathlib.Core.List.Memᴰ
use mathlib.Core.List.{Memᴰ}
use mod_openai_realtime.Base.{
  ◌<◌, ◌≡◌, refl, sym, subst, List, [], ◌∷◌, Option, some, false, true, Bool, ◌&&◌, ◌||◌, not, All,
  arith, ltb, lt→ltb, length, Bytes, ℕ,
}
use mod_openai_realtime.Services.{Platform}
use mod_openai_realtime.Streamer.{Streamer}
use mod_openai_realtime.Private.{Private}
use mod_openai_realtime.Setup.{Options, new_streamer}
use mod_openai_realtime.Session.Run.Live.{Anyway}
use mod_openai_realtime.Session.Run.Holds.{Holds, flush_and_send-Holds}
use mod_openai_realtime.Session.Run.Tracked.{IsTracked, IsTracked-IsInvariant}
use mod_openai_realtime.Lifecycle.{
  Channel, stream_session_cleanup, locked_cleanup, finish, delete_files, disconnect,
}
use mod_openai_realtime.Lifecycle.Accounts.{bug-IsSession}
use mod_openai_realtime.Command.Life.{Event, live, new_channel}
use mod_openai_realtime.Command.Life.Steps.{live-Accounted}
use mod_openai_realtime.Command.Life.Kept.{Permits-Anyway}

length-pos : {A : Type 0} {a : A} {xs : List A} → Memᴰ a xs → 0 < length xs
length-pos (Memᴰ.head e) = omega arith
length-pos (Memᴰ.tail m) = omega arith

All-of_mem : {A : Type 0} (P : A → Type 0) (xs : List A) → ((a : A) → Memᴰ a xs → P a) → All P xs
All-of_mem P [] h = tt
All-of_mem P (x ∷ xs) h = (h x (Memᴰ.head refl), All-of_mem P xs (λ a m. h a (Memᴰ.tail m)))

module _ (p : Platform) where
  new_streamer-IsTracked : (o : Options) → IsTracked p [] (new_streamer p o)
  unfolding new_streamer
  new_streamer-IsTracked o = record {
    listed = λ file wav m. absurd (Memᴰ.not-nil m);
    kept = λ file m. m;
    counted = omega arith;
  }

  -- A listed file makes the counter positive, so all of them are removed.
  delete_files-all :
      (before : List Bytes) (s : Streamer p) (file : Bytes)
      → IsTracked p before s
      → Memᴰ file s.files
      → Memᴰ file (delete_files p (disconnect p s))
  unfolding delete_files disconnect
  delete_files-all before s file v m =
      let positive : ltb 0 s.play_file ≡ true =
        lt→ltb 0 s.play_file (omega (arith, v.counted, length-pos m)) in
      let all : delete_files p (disconnect p s) ≡ s.files = ground arith in
      subst (Memᴰ file) (sym all) m

  -- A cleanup that succeeds, on a session that holds some files.
  cleanup-deletes :
      (removable : Bool) (text : Option Bytes) (closing : Bool) (ch : Channel p) (tech : Private p)
      (before : List Bytes) (room capture : ℕ) (file : Bytes)
      → (closing || removable) ≡ true
      → ch.bug ≡ some tech
      → Holds p (IsTracked p before) room capture tech
      → Memᴰ file before
      → Memᴰ file (stream_session_cleanup p true removable text closing ch).0.deleted
  unfolding stream_session_cleanup locked_cleanup finish
  cleanup-deletes removable text closing ch tech before room capture file goes e l m =
      let flushed =
        flush_and_send-Holds p (IsTracked p before) Anyway (IsTracked-IsInvariant p before) room
          capture text tech l in
      let gone : (not closing && not removable) ≡ false = ground arith in
      simp (stream_session_cleanup, locked_cleanup, e, gone, finish, flushed.has_streamer)
        (Memᴰ.append_right ch.deleted
          (delete_files-all before flushed.streamer file flushed.holds (flushed.holds.kept file m)))

  -- Whatever API commands, callbacks of the media bug and WebSocket messages a channel has seen since
  -- it had no session: when its session is cleaned up, the lifecycle lock can be acquired, and the
  -- channel is closing or its media bug can be removed, then every debug file that the session created on
  -- the disk is removed, also one whose writing failed, and so is every file in the session's list.
  pub live-deletes :
      (events : List Event) (tech : Private p) (s : Streamer p) (removable : Bool)
      (text : Option Bytes) (closing : Bool)
      → (live p events (new_channel p)).bug ≡ some tech
      → tech.streamer ≡ some s
      → (closing || removable) ≡ true
      → let ch = live p events (new_channel p) in
        let deleted = (stream_session_cleanup p true removable text closing ch).0.deleted in
        All (λ file. Memᴰ file deleted) s.files × All (λ created. Memᴰ created.0 deleted) s.on_disk
  live-deletes events tech s removable text closing e has_streamer goes =
      let ch = live p events (new_channel p) in
      let (room, l) = bug-IsSession p (IsTracked p []) ch tech e (
        live-Accounted p (IsTracked p []) Anyway (IsTracked-IsInvariant p []) new_streamer-IsTracked
          events (Permits-Anyway events)) in
      let same : l.streamer ≡ s = cc (l.has_streamer, has_streamer) in
      let tracked = subst (IsTracked p []) same l.holds in
      let listed : Holds p (IsTracked p s.files) 128000 room tech = record {
        streamer = s;
        has_streamer = has_streamer;
        holds = record { listed = tracked.listed; kept = λ f m. m; counted = tracked.counted };
        playback_capacity = l.playback_capacity;
        capture_capacity = l.capture_capacity;
      } in
      let removed = λ (file : Bytes) (m : Memᴰ file s.files).
        cleanup-deletes removable text closing ch tech s.files 128000 room file goes e listed m in
      (
        All-of_mem _ s.files removed,
        All-of_mem _ s.on_disk (λ f m. removed f.0 (tracked.listed f.0 f.1 m)),
      )
