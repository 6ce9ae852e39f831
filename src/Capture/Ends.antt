-- ===== src/Capture/Ends.antt =====
-- The resampling loop of `stream_frame` takes a whole frame in one call of the resampler.
use mod_openai_realtime.Base.{
  ℕ, ◌+◌, ◌-◌, ◌*◌, ◌/◌, ◌^◌, ◌≤◌, ◌<◌, ◌≡◌, Bool, true, List, some, length,
}
use mod_openai_realtime.Services.{Platform}
use mod_openai_realtime.Capture.{Taking, output_capacity, resample_round}

module _ (p : Platform) (channels : ℕ) where
  open p use {speex}

  -- What the Speex resampler does in a state without pending output: a call uses no more than the input,
  -- and gives at most as many frames as the rates make of what it used, rounded up; and a call that has
  -- room left has used all of the input, and leaves no output pending.
  pub record IsPaced (Drained : speex.State → Type 0) : Type 0 where
    pub bounded :
        (r r' : speex.State) (input out : List ℕ) (room used : ℕ)
        → speex.process r input room ≡ (r', some (used, out))
        → used * channels ≤ length input
    pub paced :
        (r r' : speex.State) (input out : List ℕ) (room used : ℕ)
        → Drained r
        → speex.process r input room ≡ (r', some (used, out))
        → (frames : ℕ) × (length out ≡ frames * channels)
          × (frames * (speex.rates r).0 < used * (speex.rates r).1 + (speex.rates r).0)
    pub drains :
        (r r' : speex.State) (input out : List ℕ) (room used : ℕ)
        → Drained r
        → speex.process r input room ≡ (r', some (used, out))
        → length out < room * channels
        → (used * channels ≡ length input) × Drained r'

  -- Sizes that the 64-bit and 32-bit casts of `output_capacity` leave alone.
  pub record IsSmall (samples input_rate output_rate : ℕ) : Type 0 where
    pub wide : samples * output_rate + input_rate - 1 < 2 ^ 64
    pub narrow : (samples * output_rate + input_rate - 1) / input_rate + 1 < 2 ^ 32

  module _ (Drained : speex.State → Type 0) (law : IsPaced Drained) (pos : 0 < channels)
      (samples : ℕ) (input : List ℕ) (r r' : speex.State) (out : List ℕ) (used : ℕ)
      (whole : length input ≡ samples * channels) (drained : Drained r)
      (rated : 0 < (speex.rates r).0) (small : IsSmall samples (speex.rates r).0 (speex.rates r).1)
      (call : speex.process r input (output_capacity p samples (speex.rates r).0 (speex.rates r).1)
        ≡ (r', some (used, out))) where
    abbrev room : ℕ
    room = output_capacity p samples (speex.rates r).0 (speex.rates r).1

  -- A round that goes on has used all of the frame, and leaves a resampler without pending output.
  abbrev pub UsesAll : (speex.State → Type 0) → ℕ → Bool × ℕ × Taking p → Type 0
  UsesAll Drained samples (more, used, t) =
      more ≡ true → (used ≡ samples) × ((r' : speex.State) × (t.resampler ≡ some r') × Drained r')

  module _ (Drained : speex.State → Type 0) (law : IsPaced Drained) (pos : 0 < channels)
      (rtp_packets samples : ℕ) (input : List ℕ) (t : Taking p) (r : speex.State)
      (whole : length input ≡ samples * channels) (drained : Drained r)
      (rated : 0 < (speex.rates r).0)
      (small : IsSmall samples (speex.rates r).0 (speex.rates r).1) where
    abbrev capacity : ℕ
    capacity = output_capacity p samples (speex.rates r).0 (speex.rates r).1

    abbrev only_round : Bool × ℕ × Taking p
    only_round = resample_round p channels rtp_packets capacity samples input t r
