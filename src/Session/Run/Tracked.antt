-- ===== src/Session/Run/Tracked.antt =====
-- The debug files of a session: every file is known to the streamer that wrote it.
use mathlib.Core.List.Memᴰ
use mathlib.Core.List.{Memᴰ}
use mod_openai_realtime.Base.{
  ◌+◌, ◌≤◌, ◌≡◌, refl, ap, sym, subst, Bool, List, [], ◌∷◌, ◌++◌, Option, arith, inl, inr, Bytes,
  length,
}
use mod_openai_realtime.Services.{Platform}
use mod_openai_realtime.Streamer.{
  Streamer, EventName, notify, push_audio, clear_audio, convert, request_playback_clear,
  request_capture_reset, consume_playback_clear, openai_speech_started, openai_speech_stopped,
}
use mod_openai_realtime.Playback.{take_clear}
use mod_openai_realtime.Message.Keeps.{IsKept, on_message-keeps}
use mod_openai_realtime.Session.Run.Invariant.{IsInvariant}
use mod_openai_realtime.Session.Run.Live.{Anyway}

module _ (p : Platform) (before : List Bytes) where
  -- A file that the session created on the disk is in the list, as are those listed before, and the counter counts
  -- at least those listed.
  pub record IsTracked (s : Streamer p) : Type 0 where
    pub listed : (file wav : Bytes) → Memᴰ (file, wav) s.on_disk → Memᴰ file s.files
    pub kept : (file : Bytes) → Memᴰ file before → Memᴰ file s.files
    pub counted : length s.files ≤ s.play_file

  -- Another streamer with the same files.
  same_files :
      (s s' : Streamer p)
      → s'.on_disk ≡ s.on_disk
      → s'.files ≡ s.files
      → s'.play_file ≡ s.play_file
      → IsTracked s
      → IsTracked s'
  same_files s s' saved files play_file v = record {
    listed = λ file wav m.
        subst (Memᴰ file) (sym files) (v.listed file wav (subst (Memᴰ (file, wav)) saved m));
    kept = λ file m. subst (Memᴰ file) (sym files) (v.kept file m);
    counted = omega (arith, v.counted, ap length files, play_file);
  }

  created-IsTracked :
      (file wav : Bytes) (s : Streamer p)
      → IsTracked s
      → IsTracked (record s {
        play_file = s.play_file + 1;
        files = file ∷ s.files;
        on_disk = s.on_disk ++ (file, wav) ∷ [];
      })
  created-IsTracked file wav s v = record {
    listed = λ f w m. elim (Memᴰ.append_cases s.on_disk m) [
      | inl old ↦ Memᴰ.tail (v.listed f w old)
      | inr new ↦ Memᴰ.head (ap (λ (q : Bytes × Bytes). q.0) (Memᴰ.eq_of_singleton new))
    ];
    kept = λ f m. Memᴰ.tail (v.kept f m);
    counted = omega (arith, v.counted);
  }

  notify-IsTracked :
      (name : EventName) (body : Option Bytes) (s : Streamer p)
      → IsTracked s
      → IsTracked (notify p name body s)
  unfolding notify
  notify-IsTracked name body s v = same_files s _ refl refl refl v

  convert-IsTracked :
      (input : Bytes) (s : Streamer p) → IsTracked s → IsTracked (convert p input s).0
  unfolding convert
  convert-IsTracked input s v = same_files s _ refl refl refl v

  IsTracked-IsKept : IsKept p IsTracked
  unfolding push_audio clear_audio request_playback_clear request_capture_reset
  IsTracked-IsKept = record {
    notified = λ name body s e v. notify-IsTracked name body s v;
    converted = convert-IsTracked;
    pushed = λ x xs s v. same_files s _ refl refl refl v;
    cleared = λ s v. same_files s _ refl refl refl v;
    counted =
        λ s v. record { listed = v.listed; kept = v.kept; counted = omega (arith, v.counted) };
    created = created-IsTracked;
    response_done = λ b s v. same_files s _ refl refl refl v;
    ended = λ s v. same_files s _ refl refl refl v;
    dropped = λ s v. same_files s _ refl refl refl v;
    reopened = λ s v. same_files s _ refl refl refl v;
  }

  started-IsTracked :
      (located : Bool) (s : Streamer p)
      → IsTracked s
      → IsTracked (openai_speech_started p located s)
  unfolding openai_speech_started notify
  started-IsTracked located s v = same_files s _ (ground arith) (ground arith) (ground arith) v

  stopped-IsTracked :
      (located : Bool) (s : Streamer p)
      → IsTracked s
      → IsTracked (openai_speech_stopped p located s)
  unfolding openai_speech_stopped notify
  stopped-IsTracked located s v = same_files s _ (ground arith) (ground arith) (ground arith) v

  take_clear-IsTracked :
      (located : Bool) (b : p.buffer.Buffer) (s : Streamer p)
      → IsTracked s
      → IsTracked (take_clear p located b s).streamer
  unfolding take_clear consume_playback_clear openai_speech_stopped notify
  take_clear-IsTracked located b s v = same_files s _ (ground arith) (ground arith) (ground arith) v

  pub IsTracked-IsInvariant : IsInvariant p IsTracked Anyway
  IsTracked-IsInvariant = record {
    same = λ s s' same v. same_files s s' same.on_disk same.files same.play_file v;
    message = on_message-keeps p IsTracked IsTracked-IsKept;
    clear = λ located b s k v. take_clear-IsTracked located b s v;
    popped = λ s chunk rest e v. same_files s _ refl refl refl v;
    started = λ located s k e v. started-IsTracked located s v;
    stopped = λ located s k e v. stopped-IsTracked located s v;
  }
