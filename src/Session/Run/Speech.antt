-- ===== src/Session/Run/Speech.antt =====
-- The speech events of a session, which the media thread raises.
use mod_openai_realtime.Base.{
  ℕ, ◌≡◌, refl, ap, ◌∙◌, Bool, true, false, List, [], ◌∷◌, ◌++◌, Option, none, some, arith, Bytes,
}
use mod_openai_realtime.Services.{Platform}
use mod_openai_realtime.Queue.{AudioQueue}
use mod_openai_realtime.Streamer.{
  Streamer, Event, EventName, openai_speech_start, openai_speech_stop, notify, push_audio,
  pop_audio, clear_audio, convert, request_playback_clear, request_capture_reset,
  consume_playback_clear, openai_speech_started, openai_speech_stopped,
}
use mod_openai_realtime.Playback.{take_clear}
use mod_openai_realtime.Message.Keeps.{IsKept, is_speech, on_message-keeps}
use mod_openai_realtime.Session.Run.Captured.{SamePlayback}
use mod_openai_realtime.Session.Run.Invariant.{IsInvariant}

-- One more event for a listener that knows whether OpenAI speaks; `none` for a start while it
-- speaks, or a stop while it does not.
abbrev pub hear : EventName → Option Bool → Option Bool
hear openai_speech_start (some false) = some true
hear openai_speech_start _ = none
hear openai_speech_stop (some true) = some false
hear openai_speech_stop _ = none
hear _ heard = heard

unfoldable pub hear_all : Option Bool → List Event → Option Bool
hear_all heard [] = heard
hear_all heard (e ∷ es) = hear_all (hear e.name heard) es

hear_all-snoc :
    (heard : Option Bool) (es : List Event) (e : Event)
    → hear_all heard (es ++ e ∷ []) ≡ hear e.name (hear_all heard es)
unfolding hear_all
hear_all-snoc heard [] e = refl
hear_all-snoc heard (x ∷ es) e = hear_all-snoc (hear x.name heard) es e

hear_other :
    (name : EventName) (heard : Option Bool) → is_speech name ≡ false → hear name heard ≡ heard
hear_other openai_speech_start heard e = cc e
hear_other openai_speech_stop heard e = cc e
hear_other _ heard e = refl

-- The media thread finds its session.
abbrev pub IsLocated : Bool → Type 0
IsLocated located = located ≡ true

module _ (p : Platform) where
  -- The events so far alternate, and the last of them says whether OpenAI speaks.
  abbrev pub Alternates : Streamer p → Type 0
  Alternates s = hear_all (some false) s.events ≡ some s.openai_speaking

  notify-Alternates :
      (name : EventName) (body : Option Bytes) (s : Streamer p)
      → is_speech name ≡ false
      → Alternates s
      → Alternates (notify p name body s)
  unfolding notify
  notify-Alternates name body s e v =
      hear_all-snoc (some false) s.events (record { name = name; body = body })
      ∙ hear_other name _ e
      ∙ v

  started-Alternates :
      (located : Bool) (s : Streamer p)
      → IsLocated located
      → s.openai_speaking ≡ false
      → Alternates s
      → Alternates (openai_speech_started p located s)
  unfolding openai_speech_started notify
  started-Alternates located s k e v =
      rw k (hear_all-snoc (some false) s.events _ ∙ ap (hear openai_speech_start) (v ∙ ap some e))

  stopped-Alternates :
      (located : Bool) (s : Streamer p)
      → IsLocated located
      → s.openai_speaking ≡ true
      → Alternates s
      → Alternates (openai_speech_stopped p located s)
  unfolding openai_speech_stopped notify
  stopped-Alternates located s k e v =
      rw k (hear_all-snoc (some false) s.events _ ∙ ap (hear openai_speech_stop) (v ∙ ap some e))

  take_clear-Alternates :
      (located : Bool) (b : p.buffer.Buffer) (s : Streamer p)
      → IsLocated located
      → Alternates s
      → Alternates (take_clear p located b s).streamer
  unfolding take_clear consume_playback_clear
  take_clear-Alternates located b s k v =
      let stopped = stopped-Alternates located (consume_playback_clear p s).1 k in ground arith

  popped-Alternates :
      (s : Streamer p) (chunk : List ℕ) (rest : AudioQueue ℕ)
      → pop_audio p s ≡ some (chunk, rest)
      → Alternates s
      → Alternates (record s { queue = rest })
  popped-Alternates s chunk rest e v = v

  convert-Alternates :
      (input : Bytes) (s : Streamer p) → Alternates s → Alternates (convert p input s).0
  unfolding convert
  convert-Alternates input s v = v

  Alternates-IsKept : IsKept p Alternates
  unfolding push_audio clear_audio request_playback_clear request_capture_reset
  Alternates-IsKept = record {
    notified = notify-Alternates;
    converted = convert-Alternates;
    pushed = λ x xs s v. v;
    cleared = λ s v. v;
    counted = λ s v. v;
    created = λ file content s v. v;
    response_done = λ b s v. v;
    ended = λ s v. v;
    dropped = λ s v. v;
    reopened = λ s v. v;
  }

  same-Alternates : (s s' : Streamer p) → SamePlayback p s s' → Alternates s → Alternates s'
  same-Alternates s s' same v = cc

  pub Alternates-IsInvariant : IsInvariant p Alternates IsLocated
  Alternates-IsInvariant = record {
    same = same-Alternates;
    message = on_message-keeps p Alternates Alternates-IsKept;
    clear = take_clear-Alternates;
    popped = popped-Alternates;
    started = started-Alternates;
    stopped = stopped-Alternates;
  }
