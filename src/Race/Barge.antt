-- ===== src/Race/Barge.antt =====
-- A barge-in against a turn that is under way: from the next turn on, no audio from before it is played.
use mod_openai_realtime.Base.{
  ℕ, ◌+◌, ◌^◌, ◌≤◌, ◌<◌, ◌≡◌, refl, sym, subst, true, List, [], ◌∷◌, arith, inl, inr, All,
}
use mod_openai_realtime.Services.{Platform}
use mod_openai_realtime.Pcm.{bytes_of}
use mod_openai_realtime.Streamer.{Streamer, push_audio, clear_audio, request_playback_clear}
use mod_openai_realtime.Playback.{Turn}
use mod_openai_realtime.Race.{
  TurnPhase, resting, clearing, snapping, filling, finishing, System, Move, media, pushed, emptied,
  clear_requested, ended, answered, on_streamer, advance, run,
}
use mod_openai_realtime.Race.Fresh.{IsPending, push-NewQueue, clear-NewQueue}
use mod_openai_realtime.Race.News.{
  IsNew, InPhase, Plays, no_frames, Plays-trans, media_step-IsNew, media_step-IsPending,
  media_step-InPhase, media_step-Plays,
}

-- The media thread's moves.
abbrev pub IsMedia : Move → Type 0
IsMedia (media located frame) = Unit
IsMedia _ = ⊥

-- The clears that are asked for.
abbrev pub cost : Move → ℕ
cost clear_requested = 1
cost _ = 0

abbrev pub requests : List Move → ℕ
requests [] = 0
requests (m ∷ ms) = cost m + requests ms

module _ (p : Platform) (σ : System p) (before flight : List Move) where
  -- The session behind a barge-in, and then behind the turn that was under way.
  abbrev pub after_barge_in : System p
  after_barge_in = advance p clear_requested (run p before (advance p emptied σ))

  abbrev pub next_turn : System p
  next_turn = run p flight after_barge_in

module _ (p : Platform) (P : ℕ → Type 0) where
  open p use {buffer}

  -- Only audio with the property is queued.
  abbrev pub Adds : Move → Type 0
  Adds (pushed audio) = All P (bytes_of audio)
  Adds _ = Unit

  advance-IsNew :
      (m : Move) (n : ℕ) (σ : System p)
      → Adds m
      → IsNew p P (cost m + n) σ.turn.streamer
      → IsNew p P n (advance p m σ).turn.streamer
  unfolding advance on_streamer request_playback_clear clear_audio push_audio
  advance-IsNew (media located frame) n σ k v =
      media_step-IsNew p P located frame σ σ.phase n
        (record { queue = v.queue; seen = v.seen; left = omega (arith, v.left) })
  advance-IsNew (pushed audio) n σ k v = record {
    queue = push-NewQueue p P audio σ.turn.streamer k v.queue;
    seen = v.seen;
    left = omega (arith, v.left);
  }
  advance-IsNew emptied n σ k v = record {
    queue = clear-NewQueue p P σ.turn.streamer;
    seen = v.seen;
    left = omega (arith, v.left);
  }
  advance-IsNew clear_requested n σ k v = record {
    queue = v.queue;
    seen = omega (arith, v.seen, v.left);
    left = omega (arith, v.left);
  }
  advance-IsNew ended n σ k v = record {
    queue = v.queue;
    seen = v.seen;
    left = omega (arith, v.left);
  }
  advance-IsNew (answered done) n σ k v = record {
    queue = v.queue;
    seen = v.seen;
    left = omega (arith, v.left);
  }

  advance-IsPending :
      (m : Move) (n : ℕ) (σ : System p)
      → IsNew p P (cost m + n) σ.turn.streamer
      → IsPending p P σ.turn
      → IsPending p P (advance p m σ).turn
  unfolding advance on_streamer request_playback_clear clear_audio push_audio
  advance-IsPending (media located frame) n σ v q =
      media_step-IsPending p P located frame σ σ.phase (0 + n) v q
  advance-IsPending clear_requested n σ v (inl asked) = inl (omega (arith, asked, v.left))
  advance-IsPending clear_requested n σ v (inr new) = inr new
  advance-IsPending (pushed audio) n σ v q = q
  advance-IsPending emptied n σ v q = q
  advance-IsPending ended n σ v q = q
  advance-IsPending (answered done) n σ v q = q

  on_streamer-InPhase :
      (call : Streamer p → Streamer p) (f : TurnPhase) (t : Turn p)
      → InPhase p P f t
      → InPhase p P f (record t { streamer = call t.streamer })
  on_streamer-InPhase call resting t h = h
  on_streamer-InPhase call (clearing frame) t h = h
  on_streamer-InPhase call (snapping frame) t h = h
  on_streamer-InPhase call (filling frame ends) t h = h
  on_streamer-InPhase call (finishing frame ends) t h = h

  advance-InPhase :
      (m : Move) (n : ℕ) (σ : System p)
      → IsNew p P (cost m + n) σ.turn.streamer
      → IsPending p P σ.turn
      → InPhase p P σ.phase σ.turn
      → let σ' = advance p m σ in InPhase p P σ'.phase σ'.turn
  unfolding advance on_streamer
  advance-InPhase (media located frame) n σ v q h =
      media_step-InPhase p P located frame σ σ.phase (0 + n) refl v q h
  advance-InPhase (pushed audio) n σ v q h =
      on_streamer-InPhase (push_audio p audio) σ.phase σ.turn h
  advance-InPhase emptied n σ v q h = on_streamer-InPhase (clear_audio p) σ.phase σ.turn h
  advance-InPhase clear_requested n σ v q h =
      on_streamer-InPhase (request_playback_clear p) σ.phase σ.turn h
  advance-InPhase ended n σ v q h =
      on_streamer-InPhase (λ s. record s { terminal_close = true }) σ.phase σ.turn h
  advance-InPhase (answered done) n σ v q h =
      on_streamer-InPhase (λ s. record s { response_audio_done = done }) σ.phase σ.turn h

  advance-Plays :
      (m : Move) (σ : System p) → P 0 → InPhase p P σ.phase σ.turn → Plays p P σ (advance p m σ)
  unfolding advance on_streamer
  advance-Plays (media located frame) σ silent h =
      media_step-Plays p P located frame σ σ.phase silent h
  advance-Plays (pushed audio) σ silent h = no_frames p P σ.played
  advance-Plays emptied σ silent h = no_frames p P σ.played
  advance-Plays clear_requested σ silent h = no_frames p P σ.played
  advance-Plays ended σ silent h = no_frames p P σ.played
  advance-Plays (answered done) σ silent h = no_frames p P σ.played

  budget-IsNew : (m n : ℕ) (s : Streamer p) → n ≤ m → IsNew p P m s → IsNew p P n s
  budget-IsNew m n s less v = record {
    queue = v.queue;
    seen = v.seen;
    left = omega (arith, less, v.left);
  }

  run-IsNew :
      (ms : List Move) (n : ℕ) (σ : System p)
      → All Adds ms
      → IsNew p P (requests ms + n) σ.turn.streamer
      → IsNew p P n (run p ms σ).turn.streamer
  unfolding run
  run-IsNew [] n σ k v = budget-IsNew (0 + n) n σ.turn.streamer (omega arith) v
  run-IsNew (m ∷ ms) n σ (k, ks) v = run-IsNew ms n (advance p m σ) ks (
      advance-IsNew m (requests ms + n) σ k
        (budget-IsNew _ (cost m + (requests ms + n)) σ.turn.streamer (omega arith) v))

  run-IsPending :
      (ms : List Move) (σ : System p)
      → All Adds ms
      → IsNew p P (requests ms) σ.turn.streamer
      → IsPending p P σ.turn
      → IsPending p P (run p ms σ).turn
  unfolding run
  run-IsPending [] σ k v q = q
  run-IsPending (m ∷ ms) σ (k, ks) v q =
      run-IsPending ms (advance p m σ) ks (advance-IsNew m (requests ms) σ k v)
        (advance-IsPending m (requests ms) σ v q)

  run-Plays :
      (ms : List Move) (σ : System p)
      → P 0
      → All Adds ms
      → IsNew p P (requests ms) σ.turn.streamer
      → IsPending p P σ.turn
      → InPhase p P σ.phase σ.turn
      → Plays p P σ (run p ms σ)
  unfolding run
  run-Plays [] σ silent k v q h = no_frames p P σ.played
  run-Plays (m ∷ ms) σ silent (k, ks) v q h =
      Plays-trans p P σ (advance p m σ) (run p ms (advance p m σ)) (advance-Plays m σ silent h) (
        run-Plays ms (advance p m σ) silent ks (advance-IsNew m (requests ms) σ k v)
          (advance-IsPending m (requests ms) σ v q) (advance-InPhase m (requests ms) σ v q h))

  IsMedia-Adds : (ms : List Move) → All IsMedia ms → All Adds ms
  IsMedia-Adds [] h = tt
  IsMedia-Adds (media located frame ∷ ms) (h, hs) = (tt, IsMedia-Adds ms hs)
  IsMedia-Adds (pushed audio ∷ ms) (h, hs) = absurd h
  IsMedia-Adds (emptied ∷ ms) (h, hs) = absurd h
  IsMedia-Adds (clear_requested ∷ ms) (h, hs) = absurd h
  IsMedia-Adds (ended ∷ ms) (h, hs) = absurd h
  IsMedia-Adds (answered done ∷ ms) (h, hs) = absurd h

  IsMedia-requests : (ms : List Move) → All IsMedia ms → requests ms ≡ 0
  IsMedia-requests [] h = refl
  IsMedia-requests (media located frame ∷ ms) (h, hs) = omega (arith, IsMedia-requests ms hs)
  IsMedia-requests (pushed audio ∷ ms) (h, hs) = absurd h
  IsMedia-requests (emptied ∷ ms) (h, hs) = absurd h
  IsMedia-requests (clear_requested ∷ ms) (h, hs) = absurd h
  IsMedia-requests (ended ∷ ms) (h, hs) = absurd h
  IsMedia-requests (answered done ∷ ms) (h, hs) = absurd h

  emptied-IsNew :
      (n : ℕ) (σ : System p)
      → σ.turn.streamer.playback_clear_gen_seen ≤ σ.turn.streamer.playback_clear_gen
      → σ.turn.streamer.playback_clear_gen + n < 2 ^ 64
      → IsNew p P n (advance p emptied σ).turn.streamer
  unfolding advance on_streamer clear_audio
  emptied-IsNew n σ seen left = record {
    queue = clear-NewQueue p P σ.turn.streamer;
    seen = seen;
    left = left;
  }

  asked-IsPending :
      (n : ℕ) (σ : System p)
      → IsNew p P (1 + n) σ.turn.streamer
      → IsPending p P (advance p clear_requested σ).turn
  unfolding advance on_streamer request_playback_clear
  asked-IsPending n σ v = inl (omega (arith, v.seen, v.left))

  -- The WebSocket thread empties the queue and then asks for a clear, with nothing but moves of the media
  -- thread in between; both threads go on in any order until the turn that may have been under way
  -- has ended, and then in any order again. For every property of bytes that silence has: if
  -- all audio that is queued behind the barge-in has it, then all audio of the frames that are handed
  -- out from then on has it, whatever the queue and the playback buffer held, and wherever the media
  -- thread was in its turn. The condition on the generations is that 2 ^ 64 clears are not asked for.
  pub run-Plays_new :
      (σ : System p) (before flight later : List Move)
      → P 0
      → All IsMedia before
      → All Adds flight
      → All Adds later
      → σ.turn.streamer.playback_clear_gen_seen ≤ σ.turn.streamer.playback_clear_gen
      → σ.turn.streamer.playback_clear_gen + (1 + requests flight + requests later) < 2 ^ 64
      → (next_turn p σ before flight).phase ≡ resting
      → Plays p P (next_turn p σ before flight) (run p later (next_turn p σ before flight))
  run-Plays_new σ before flight later silent quiet k l seen left rests =
      let n = requests flight + requests later in
      let emptied_σ = advance p emptied σ in
      let before_σ = run p before emptied_σ in
      let none_before = IsMedia-requests before quiet in
      let emptied_new = emptied-IsNew (1 + n) σ seen (omega (arith, left)) in
      let before_new = run-IsNew before (1 + n) emptied_σ (IsMedia-Adds before quiet) (
        budget-IsNew (1 + n) (requests before + (1 + n)) emptied_σ.turn.streamer
          (omega (arith, none_before)) emptied_new) in
      let asked = advance-IsNew clear_requested n before_σ tt before_new in
      let pending = asked-IsPending n before_σ before_new in
      let next_new = run-IsNew flight (requests later) (after_barge_in p σ before flight) k asked in
      let next_pending =
        run-IsPending flight (after_barge_in p σ before flight) k
          (budget-IsNew n (requests flight) _ (omega arith) asked) pending in
      run-Plays later (next_turn p σ before flight) silent l next_new next_pending
        (subst (λ f. InPhase p P f (next_turn p σ before flight).turn) (sym rests) tt)
