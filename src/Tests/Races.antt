-- ===== src/Tests/Races.antt =====
-- The theorems on a turn against the WebSocket thread, at concrete inputs.
use mod_openai_realtime.Base.{ℕ, zero, suc, ◌<◌, ◌≡◌, refl, true, List, [], ◌∷◌, arith, replicate}
use mod_openai_realtime.Message.Bounded.{IsBounded}
use mod_openai_realtime.Queue.{max_playback_queue_samples, pop_audio_queue, clear_audio_queue}
use mod_openai_realtime.Pcm.{bytes_of}
use mod_openai_realtime.Streamer.{
  consume_playback_clear, request_playback_clear, clear_audio, pop_audio, openai_speech_started,
}
use mod_openai_realtime.Playback.{take_clear, take_chunk, finish_turn, play, fall_silent}
use mod_openai_realtime.Race.{
  System, Move, media, pushed, ended, resting, between_turns, advance, run,
}
use mod_openai_realtime.Race.Safe.{AreAllowed}
use mod_openai_realtime.Race.Closing.{run-drains}
use mod_openai_realtime.Race.News.{Plays}
use mod_openai_realtime.Race.Barge.{next_turn, run-Plays_new}
use mod_openai_realtime.Tests.Sample.{sample_platform, sample_streamer, sample_private}
use mod_openai_realtime.Tests.Commands.{sample_frame, sample_frame-IsPlayable}

abbrev turns : ℕ → List Move
turns n = replicate n (media true sample_frame)

abbrev sample_system : System sample_platform
sample_system = between_turns sample_platform sample_private sample_streamer

sample_streamer-IsBounded : IsBounded sample_platform sample_streamer
unfolding max_playback_queue_samples
sample_streamer-IsBounded = record {
  counted = refl;
  bounded = omega arith;
  short = ((omega arith, omega arith), tt);
}

turns-AreAllowed : (n : ℕ) (σ : System sample_platform) → AreAllowed sample_platform (turns n) σ
turns-AreAllowed zero σ = tt
turns-AreAllowed (suc n) σ = (
  sample_frame-IsPlayable,
  turns-AreAllowed n (advance sample_platform (media true sample_frame) σ),
)

-- The connection ends for good; two turns play what is left, and the third asks for the teardown.
abbrev last_moves : List Move
last_moves = ended ∷ turns 16

last_moves-close : (run sample_platform last_moves sample_system).tech.close_requested ≡ true
unfolding run take_clear consume_playback_clear pop_audio pop_audio_queue take_chunk bytes_of
    finish_turn play openai_speech_started fall_silent
last_moves-close = refl

run-drains_example :
    let t = (run sample_platform last_moves sample_system).turn in
    (t.streamer.terminal_close ≡ true)
    × (t.streamer.queue.chunks ≡ [])
    × (sample_platform.buffer.contents t.buffer ≡ [])
run-drains_example =
    run-drains sample_platform last_moves sample_private sample_streamer sample_streamer-IsBounded
      (omega arith) refl (refl, turns-AreAllowed 16 (advance sample_platform ended sample_system))
      last_moves-close

-- The turn is under way when the queue is emptied, and one more turn plays a new sample.
abbrev IsSmall : ℕ → Type 0
IsSmall byte = byte < 6

flight-rests : (next_turn sample_platform sample_system (turns 1) (turns 4)).phase ≡ resting
unfolding run take_clear consume_playback_clear request_playback_clear clear_audio pop_audio
    pop_audio_queue clear_audio_queue finish_turn take_chunk fall_silent
flight-rests = refl

run-Plays_new_example :
    let σ = next_turn sample_platform sample_system (turns 1) (turns 4) in
    Plays sample_platform IsSmall σ (run sample_platform (pushed (5 ∷ []) ∷ turns 6) σ)
unfolding bytes_of
run-Plays_new_example =
    run-Plays_new sample_platform IsSmall sample_system (turns 1) (turns 4)
      (pushed (5 ∷ []) ∷ turns 6) (omega arith) (tt, tt) (tt, (tt, (tt, (tt, tt))))
      ((omega arith, (omega arith, tt)), (tt, (tt, (tt, (tt, (tt, (tt, tt))))))) (omega arith)
      (omega arith) flight-rests
