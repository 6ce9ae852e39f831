-- ===== src/Race/Safe.antt =====
-- What holds of the session at every point between two accesses of its streamer.
use mod_openai_realtime.Base.{◌≤◌, ◌<◌, ◌≡◌, true, false, List, [], ◌∷◌, length}
use mod_openai_realtime.Services.{Platform}
use mod_openai_realtime.Streamer.{Streamer}
use mod_openai_realtime.Playback.{Turn}
use mod_openai_realtime.Message.Bounded.{IsBounded}
use mod_openai_realtime.Session.Run.Plays.{IsPlayable}
use mod_openai_realtime.Race.{
  TurnPhase, resting, clearing, snapping, filling, finishing, System, Move, media, pushed,
  on_streamer, advance,
}

module _ (p : Platform) where
  open p use {buffer}

  -- A turn has a frame with audio; behind the close of a connection that will not come back, the
  -- WebSocket thread does nothing any more, and it queues no empty audio.
  abbrev pub Allowed : Move → System p → Type 0
  Allowed (media located frame) σ = IsPlayable p frame
  Allowed (pushed audio) σ = (σ.turn.streamer.terminal_close ≡ false) × (0 < length audio)
  Allowed _ σ = σ.turn.streamer.terminal_close ≡ false

  abbrev pub AreAllowed : List Move → System p → Type 0
  AreAllowed [] σ = Unit
  AreAllowed (m ∷ ms) σ = Allowed m σ × AreAllowed ms (advance p m σ)

  -- Nothing is left to be played, and nothing will come.
  abbrev pub IsDrained : Turn p → Type 0
  IsDrained t =
      (t.streamer.terminal_close ≡ true)
      × (t.streamer.queue.chunks ≡ [])
      × (buffer.inuse t.buffer ≡ 0)

  -- A turn that has seen the end and ends without audio has found the queue empty since.
  abbrev pub InPhase : TurnPhase → Turn p → Type 0
  InPhase resting t = Unit
  InPhase (clearing frame) t = IsPlayable p frame
  InPhase (snapping frame) t = IsPlayable p frame × (t.inuse ≡ buffer.inuse t.buffer)
  InPhase (filling frame ends) t =
      IsPlayable p frame
      × (t.inuse ≡ buffer.inuse t.buffer)
      × (ends ≡ true → t.streamer.terminal_close ≡ true)
  InPhase (finishing frame ends) t =
      IsPlayable p frame
      × (t.inuse ≡ buffer.inuse t.buffer)
      × (ends ≡ true → t.streamer.terminal_close ≡ true)
      × (ends ≡ true → t.chunk_enqueued ≡ false → t.inuse ≡ 0 → t.streamer.queue.chunks ≡ [])

  pub record IsSafe (σ : System p) : Type 0 where
    pub bounded : IsBounded p σ.turn.streamer
    pub room : 32768 ≤ buffer.capacity σ.turn.buffer
    pub same_room : buffer.capacity σ.turn.buffer ≡ buffer.capacity σ.tech.playback_buffer
    pub in_phase : InPhase σ.phase σ.turn
    pub drained : σ.tech.close_requested ≡ true → IsDrained σ.turn

  -- A change that the WebSocket thread makes while there is no end.
  pub on_streamer-IsSafe :
      (call : Streamer p → Streamer p) (σ : System p)
      → σ.turn.streamer.terminal_close ≡ false
      → IsBounded p (call σ.turn.streamer)
      → IsSafe σ
      → IsSafe (on_streamer p call σ)
  unfolding on_streamer
  on_streamer-IsSafe call σ open_still b v = record {
    bounded = b;
    room = v.room;
    same_room = v.same_room;
    in_phase = kept σ.phase v.in_phase;
    drained = λ closed. cc (open_still, (v.drained closed).0);
  }
    where
      kept :
          (f : TurnPhase)
          → InPhase f σ.turn
          → InPhase f (record (σ.turn) { streamer = call σ.turn.streamer })
      kept resting h = tt
      kept (clearing frame) h = h
      kept (snapping frame) h = h
      kept (filling frame ends) h = (h.0, h.1, λ e. cc (open_still, h.2 e))
      kept (finishing frame ends) h =
          (h.0, h.1, (λ e. cc (open_still, h.2 e)), λ e. cc (open_still, h.2 e))
