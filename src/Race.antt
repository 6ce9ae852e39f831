-- ===== src/Race.antt =====
-- openai_audio_streamer_glue.cpp: `write_frame` on the media thread against the WebSocket thread, one
-- atomic or mutex-guarded access of the shared streamer at a time. The API's calls are left out here.
pub mod Safe
pub mod Loop
pub mod Steps
pub mod Closing
pub mod Fresh
pub mod News
pub mod Barge
use mod_openai_realtime.Base.{
  ℕ, zero, suc, ◌*◌, ◌%◌, ◌^◌, Bool, true, false, ◌||◌, List, [], ◌∷◌, ◌++◌, Option, none, some,
  ltb, ◌==◌, if◌then◌else◌,
}
use mod_openai_realtime.Services.{Platform}
use mod_openai_realtime.Streamer.{
  Streamer, push_audio, pop_audio, clear_audio, request_playback_clear,
}
use mod_openai_realtime.Private.{Private}
use mod_openai_realtime.Playback.{
  Replaced, Frame, Turn, take_clear, take_chunk, bytes_needed, finish_turn,
}

-- How far the media thread is in its turn: between turns, before the test for a clear, before the
-- snapshot of the terminal close, in the loop, and behind it; the last two with the snapshot.
pub data TurnPhase : Type 0 where
  resting : TurnPhase
  clearing snapping : Frame → TurnPhase
  filling finishing : Frame → Bool → TurnPhase

-- The session, the variables of the turn with the streamer and the playback buffer as they are, and the
-- frames that were handed out.
pub record System (p : Platform) : Type 0 where
  pub tech : Private p
  pub turn : Turn p
  pub phase : TurnPhase
  pub played : List Replaced

-- One access, by the media thread (with whether the session is found, and the frame if a turn begins)
-- or by the WebSocket thread.
pub data Move : Type 0 where
  media : Bool → Frame → Move
  pushed : List ℕ → Move
  emptied clear_requested ended : Move
  answered : Bool → Move

module _ (p : Platform) where
  abbrev pub wanted : Frame → ℕ
  wanted frame = bytes_needed p frame * 2 % 2 ^ 32

  -- A system between two turns.
  abbrev pub between_turns : Private p → Streamer p → System p
  between_turns tech s = record {
    tech = tech;
    turn = record {
      buffer = tech.playback_buffer;
      streamer = s;
      inuse = 0;
      chunk_enqueued = false;
    };
    phase = resting;
    played = [];
  }

  abbrev streamer_or : Option (Streamer p) → Streamer p → Streamer p
  streamer_or none s = s
  streamer_or (some s') s = s'

  abbrev pub handed_out : Option Replaced → List Replaced
  handed_out none = []
  handed_out (some frame) = frame ∷ []

  -- The end of a turn.
  unfoldable pub settle : Private p × Option Replaced → System p → System p
  settle (tech, out) σ = record {
    tech = tech;
    turn = record (σ.turn) {
      buffer = tech.playback_buffer;
      streamer = streamer_or tech.streamer σ.turn.streamer;
    };
    phase = resting;
    played = σ.played ++ handed_out out;
  }

  -- A round of the loop.
  unfoldable pub fill : Frame → Bool → System p → System p
  fill frame terminal_close σ = elim (ltb σ.turn.inuse (wanted frame)) [
    | false ↦ record σ { phase = finishing frame terminal_close }
    | true ↦ elim (pop_audio p σ.turn.streamer) [
      | none ↦ record σ { phase = finishing frame terminal_close }
      | some (chunk, rest) ↦
          let (more, t) = take_chunk p chunk rest σ.turn in
          record σ {
            turn = t;
            phase = if more then filling frame terminal_close else finishing frame terminal_close;
          }
    ]
  ]

  unfoldable pub media_step : Bool → Frame → TurnPhase → System p → System p
  unfolding fill settle
  media_step located frame resting σ =
      if σ.tech.audio_paused || (frame.samples == 0 || frame.datalen == 0)
      then σ
      else record σ { phase = clearing frame }
  media_step located _ (clearing frame) σ = record σ {
    turn = take_clear p located σ.turn.buffer σ.turn.streamer;
    phase = snapping frame;
  }
  media_step located _ (snapping frame) σ = record σ {
    phase = filling frame σ.turn.streamer.terminal_close;
  }
  media_step located _ (filling frame terminal_close) σ = fill frame terminal_close σ
  media_step located _ (finishing frame terminal_close) σ =
      settle (finish_turn p located terminal_close σ.tech σ.turn frame) σ

  -- A call of the WebSocket thread on the streamer.
  unfoldable pub on_streamer : (Streamer p → Streamer p) → System p → System p
  on_streamer call σ = record σ { turn = record (σ.turn) { streamer = call σ.turn.streamer } }

  unfoldable pub advance : Move → System p → System p
  unfolding media_step on_streamer
  advance (media located frame) σ = media_step located frame σ.phase σ
  advance (pushed audio) σ = on_streamer (push_audio p audio) σ
  advance emptied σ = on_streamer (clear_audio p) σ
  advance clear_requested σ = on_streamer (request_playback_clear p) σ
  advance ended σ = on_streamer (λ s. record s { terminal_close = true }) σ
  advance (answered done) σ = on_streamer (λ s. record s { response_audio_done = done }) σ

  unfoldable pub run : List Move → System p → System p
  unfolding advance
  run [] σ = σ
  run (m ∷ ms) σ = run ms (advance m σ)
