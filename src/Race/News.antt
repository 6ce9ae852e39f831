-- ===== src/Race/News.antt =====
-- What a step of the media thread leaves of the audio that came before a barge-in.
use mod_openai_realtime.Base.{
  if-both, ℕ, ◌+◌, ◌-◌, ◌^◌, ◌≤◌, ◌<◌, ◌≡◌, refl, sym, subst, ap, ◌∙◌, Bool, ◌||◌, ◌&&◌, not, List,
  [], ◌++◌, Option, some, arith, ltb, ◌==◌, if◌then◌else◌, Bool-cases, Option-cases, inl, inr, All,
  All-append, All-drop, All-take, All-replicate, min, flatten, append-nil, append_assoc,
}
use mod_openai_realtime.Services.{Platform}
use mod_openai_realtime.Queue.{AudioQueue}
use mod_openai_realtime.Pcm.{bytes_of}
use mod_openai_realtime.Streamer.{
  Streamer, pop_audio, openai_speech_started, openai_speech_stopped, notify,
}
use mod_openai_realtime.Private.{Private}
use mod_openai_realtime.Playback.{
  Replaced, Frame, Turn, take_chunk, bytes_needed, finish_turn, fall_silent, play,
}
use mod_openai_realtime.Race.{
  TurnPhase, resting, clearing, snapping, filling, finishing, System, wanted, settle, fill,
  handed_out, media_step,
}
use mod_openai_realtime.Race.Fresh.{
  NewQueue, NewBuffer, IsPending, pop-NewQueue, take_clear-New, SameClear, take_clear-SameClear,
  take_chunk-New, take_chunk-streamer,
}

module _ (p : Platform) (P : ℕ → Type 0) where
  open p use {buffer}

  -- The queue is new, and the generation is not exhausted by `budget` more clears.
  pub record IsNew (budget : ℕ) (s : Streamer p) : Type 0 where
    pub queue : NewQueue p P s
    pub seen : s.playback_clear_gen_seen ≤ s.playback_clear_gen
    pub left : s.playback_clear_gen + budget < 2 ^ 64

  abbrev pub InPhase : TurnPhase → Turn p → Type 0
  InPhase resting t = Unit
  InPhase (clearing frame) t = Unit
  InPhase (snapping frame) t = NewBuffer p P t
  InPhase (filling frame ends) t = NewBuffer p P t
  InPhase (finishing frame ends) t = NewBuffer p P t

  SameClear-IsNew : (n : ℕ) (s s' : Streamer p) → SameClear p P s s' → IsNew n s → IsNew n s'
  SameClear-IsNew n s s' same v = record {
    queue = subst (λ q. All P (bytes_of (flatten q.chunks))) (sym same.queue) v.queue;
    seen = ground (arith, same.gen, same.seen, v.seen);
    left = omega (arith, same.gen, v.left);
  }

  -- What a round of the loop leaves, if each of its outcomes has it.
  fill-both :
      (R : System p → Type 0) (frame : Frame) (ends : Bool) (σ : System p)
      → R (record σ { phase = finishing frame ends })
      → ((chunk : List ℕ) (rest : AudioQueue ℕ)
          → pop_audio p σ.turn.streamer ≡ some (chunk, rest)
          → let (more, t) = take_chunk p chunk rest σ.turn in
            R (record σ {
              turn = t;
              phase = if more then filling frame ends else finishing frame ends;
            }))
      → R (fill p frame ends σ)
  unfolding fill
  fill-both R frame ends σ done taken = elim (Bool-cases (ltb σ.turn.inuse (wanted p frame))) [
    | inr enough ↦ simp (fill, enough) done
    | inl few ↦ elim (Option-cases (pop_audio p σ.turn.streamer)) [
      | inl nothing ↦ simp (fill, few, nothing) done
      | inr ((chunk, rest), popped) ↦ simp (fill, few, popped) (taken chunk rest popped)
    ]
  ]

  -- The end of a turn, and the frames that it hands out.
  end_turn : Bool → Bool → Frame → System p → System p
  end_turn located ends frame σ = settle p (finish_turn p located ends σ.tech σ.turn frame) σ

  end_turn-streamer :
      (located ends : Bool) (frame : Frame) (σ : System p)
      → let s' = (end_turn located ends frame σ).turn.streamer in
        (s'.queue ≡ σ.turn.streamer.queue)
        × (s'.playback_clear_gen ≡ σ.turn.streamer.playback_clear_gen)
        × (s'.playback_clear_gen_seen ≡ σ.turn.streamer.playback_clear_gen_seen)
  unfolding end_turn settle finish_turn fall_silent play openai_speech_started openai_speech_stopped
      notify
  end_turn-streamer located ends frame σ = ground arith

  end_turn-New :
      (located ends : Bool) (frame : Frame) (σ : System p)
      → NewBuffer p P σ.turn
      → NewBuffer p P (end_turn located ends frame σ).turn
  unfolding end_turn settle finish_turn fall_silent play
  end_turn-New located ends frame σ new =
      let n = min σ.turn.inuse (bytes_needed p frame) in
      let kept = All-drop P n (buffer.contents σ.turn.buffer) new in
      if-both (λ (r : Private p × Option Replaced). All P (buffer.contents r.0.playback_buffer))
        (not σ.turn.chunk_enqueued && σ.turn.inuse == 0) _ _ new
        (if-both (λ (r : Private p × Option Replaced). All P (buffer.contents r.0.playback_buffer))
          σ.tech.openai_audio_muted _ _
          (subst (All P) (sym (buffer.toss-contents σ.turn.buffer n)) kept)
          (subst (All P) (sym (buffer.read-contents σ.turn.buffer n).0) kept))

  -- The frames handed out on the way from one point to another have the property.
  abbrev pub Plays : System p → System p → Type 0
  Plays σ σ' =
      (new : List Replaced) × (σ'.played ≡ σ.played ++ new) × All (λ frame. All P frame.audio) new

  pub no_frames :
      (xs : List Replaced)
      → (new : List Replaced) × (xs ≡ xs ++ new) × All (λ (frame : Replaced). All P frame.audio) new
  no_frames xs = ([], sym (append-nil xs), tt)

  pub Plays-trans : (σ τ υ : System p) → Plays σ τ → Plays τ υ → Plays σ υ
  Plays-trans σ τ υ (xs, e, h) (ys, e', h') =
      (xs ++ ys, e' ∙ ap (λ l. l ++ ys) e ∙ append_assoc σ.played xs ys, All-append _ xs ys h h')

  handed_out-All :
      (located ends : Bool) (frame : Frame) (σ : System p)
      → P 0
      → NewBuffer p P σ.turn
      → All (λ f. All P f.audio) (handed_out p (finish_turn p located ends σ.tech σ.turn frame).1)
  unfolding finish_turn play
  handed_out-All located ends frame σ silent new =
      let n = min σ.turn.inuse (bytes_needed p frame) in
      let Out = λ (r : Private p × Option Replaced). All (λ f. All P f.audio) (handed_out p r.1) in
      let audio =
        subst (All P) (sym (buffer.read-contents σ.turn.buffer n).1)
          (All-take P n (buffer.contents σ.turn.buffer) new) in
      if-both Out (not σ.turn.chunk_enqueued && σ.turn.inuse == 0) _ _ tt (
        if-both Out σ.tech.openai_audio_muted _ _ tt
          (All-append P _ _ audio (All-replicate P (bytes_needed p frame - n) 0 silent), tt))

  end_turn-Plays :
      (located ends : Bool) (frame : Frame) (σ : System p)
      → P 0
      → NewBuffer p P σ.turn
      → Plays σ (end_turn located ends frame σ)
  unfolding end_turn settle finish_turn play
  end_turn-Plays located ends frame σ silent new =
      let r = finish_turn p located ends σ.tech σ.turn frame in
      (handed_out p r.1, refl, handed_out-All located ends frame σ silent new)

  took-IsPending :
      (chunk : List ℕ) (rest : AudioQueue ℕ) (t : Turn p)
      → All P (bytes_of chunk)
      → IsPending p P t
      → IsPending p P (take_chunk p chunk rest t).1
  took-IsPending chunk rest t new (inr old) = inr (take_chunk-New p P chunk rest t new old)
  took-IsPending chunk rest t new (inl asked) =
      inl (rw (take_chunk-streamer p P chunk rest t) asked)

  -- The parts of a step of the media thread.
  pub media_step-IsNew :
      (located : Bool) (frame : Frame) (σ : System p) (f : TurnPhase) (n : ℕ)
      → IsNew n σ.turn.streamer
      → IsNew n (media_step p located frame f σ).turn.streamer
  unfolding media_step end_turn
  media_step-IsNew located frame σ resting n v =
      if-both (λ (r : System p). IsNew n r.turn.streamer)
        (σ.tech.audio_paused || (frame.samples == 0 || frame.datalen == 0)) _ _ v v
  media_step-IsNew located frame σ (clearing g) n v =
      SameClear-IsNew n σ.turn.streamer _
        (take_clear-SameClear p P located σ.turn.buffer σ.turn.streamer) v
  media_step-IsNew located frame σ (snapping g) n v = v
  media_step-IsNew located frame σ (filling g ends) n v =
      fill-both (λ r. IsNew n r.turn.streamer) g ends σ v
        (λ chunk rest popped.
          subst (IsNew n) (sym (take_chunk-streamer p P chunk rest σ.turn)) (record {
            queue = (pop-NewQueue p P σ.turn.streamer chunk rest popped v.queue).1;
            seen = v.seen;
            left = v.left;
          }))
  media_step-IsNew located frame σ (finishing g ends) n v =
      let same = end_turn-streamer located ends g σ in
      SameClear-IsNew n σ.turn.streamer _
        (record { queue = same.0; gen = same.1; seen = inl same.2 }) v

  pub media_step-IsPending :
      (located : Bool) (frame : Frame) (σ : System p) (f : TurnPhase) (n : ℕ)
      → IsNew n σ.turn.streamer
      → IsPending p P σ.turn
      → IsPending p P (media_step p located frame f σ).turn
  unfolding media_step end_turn
  media_step-IsPending located frame σ resting n v q =
      if-both (λ (r : System p). IsPending p P r.turn)
        (σ.tech.audio_paused || (frame.samples == 0 || frame.datalen == 0)) _ _ q q
  media_step-IsPending located frame σ (clearing g) n v q =
      inr (take_clear-New p P located σ.turn v.seen q)
  media_step-IsPending located frame σ (snapping g) n v q = q
  media_step-IsPending located frame σ (filling g ends) n v q =
      fill-both (λ r. IsPending p P r.turn) g ends σ q
        (λ chunk rest popped.
          took-IsPending chunk rest σ.turn
            (pop-NewQueue p P σ.turn.streamer chunk rest popped v.queue).0 q)
  media_step-IsPending located frame σ (finishing g ends) n v (inr new) =
      inr (end_turn-New located ends g σ new)
  media_step-IsPending located frame σ (finishing g ends) n v (inl asked) =
      let same = end_turn-streamer located ends g σ in inl (omega (arith, same.1, same.2, asked))

  pub media_step-InPhase :
      (located : Bool) (frame : Frame) (σ : System p) (f : TurnPhase) (n : ℕ)
      → σ.phase ≡ f
      → IsNew n σ.turn.streamer
      → IsPending p P σ.turn
      → InPhase f σ.turn
      → let σ' = media_step p located frame f σ in InPhase σ'.phase σ'.turn
  unfolding media_step
  media_step-InPhase located frame σ resting n e v q h =
      if-both (λ (r : System p). InPhase r.phase r.turn)
        (σ.tech.audio_paused || (frame.samples == 0 || frame.datalen == 0)) _ _
        (subst (λ f. InPhase f σ.turn) (sym e) tt) tt
  media_step-InPhase located frame σ (clearing g) n e v q h =
      take_clear-New p P located σ.turn v.seen q
  media_step-InPhase located frame σ (snapping g) n e v q h = h
  media_step-InPhase located frame σ (filling g ends) n e v q h =
      fill-both (λ r. InPhase r.phase r.turn) g ends σ h
        (λ chunk rest popped.
          let new =
            take_chunk-New p P chunk rest σ.turn
              (pop-NewQueue p P σ.turn.streamer chunk rest popped v.queue).0 h in
          if-both (λ (f : TurnPhase). InPhase f (take_chunk p chunk rest σ.turn).1)
            (take_chunk p chunk rest σ.turn).0 _ _ new new)
  media_step-InPhase located frame σ (finishing g ends) n e v q h = tt

  pub media_step-Plays :
      (located : Bool) (frame : Frame) (σ : System p) (f : TurnPhase)
      → P 0
      → InPhase f σ.turn
      → Plays σ (media_step p located frame f σ)
  unfolding media_step end_turn
  media_step-Plays located frame σ resting silent h =
      if-both (Plays σ) (σ.tech.audio_paused || (frame.samples == 0 || frame.datalen == 0)) _ _
        (no_frames σ.played) (no_frames σ.played)
  media_step-Plays located frame σ (clearing g) silent h = no_frames σ.played
  media_step-Plays located frame σ (snapping g) silent h = no_frames σ.played
  media_step-Plays located frame σ (filling g ends) silent h =
      fill-both (Plays σ) g ends σ (no_frames σ.played) (λ chunk rest popped. no_frames σ.played)
  media_step-Plays located frame σ (finishing g ends) silent h =
      end_turn-Plays located ends g σ silent h
