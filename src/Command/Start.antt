-- ===== src/Command/Start.antt =====
-- The grammar of the start command.
pub mod Options
pub mod Mix
pub mod Exact
use mod_openai_realtime.Base.{
  ℕ, ◌<◌, ◌≡◌, ◌≢◌, refl, sym, subst, ap, ◌∙◌, ◌↔◌, Bool, true, false, List, [], ◌∷◌, ◌++◌, some,
  arith, >>=-eq-some, guard-eq-some, Bool-cases, inl, inr, ℤ, pos, Bytes, codes, length, str_eq,
  str_eq_iff,
}
use mathlib.Core.Option.{some-injective}
use mod_openai_realtime.Protocol.Uri.{validate_ws_uri}
use mod_openai_realtime.Protocol.Uri.Grammar.{IsWsUri}
use mod_openai_realtime.Protocol.Uri.Grammar.Exact.{validate_ws_uri-IsWsUri}
use mod_openai_realtime.Lifecycle.{Start}
use mod_openai_realtime.Command.{
  max_ws_uri, check_rate, parse_sampling_rate, MixType, mono, mixed, stereo, parse_mix_type,
  is_stereo, is_mute_user, take_playback_rate, take_rates, take_mute_user, is_last,
  parse_start_options, parse_start,
}
use mod_openai_realtime.Command.Rates.{IsRate, parse_sampling_rate-IsRate}

abbrev pub mix_name : MixType → Bytes
mix_name mono = codes "mono"
mix_name mixed = codes "mixed"
mix_name stereo = codes "stereo"

-- Nothing, or the flag alone.
abbrev pub IsFlag : List Bytes → Bool → Type 0
IsFlag [] muted = muted ≡ false
IsFlag (word ∷ []) muted = (is_mute_user word ≡ true) × (muted ≡ true)
IsFlag _ muted = ⊥

abbrev pub IsRateWord : Bytes → ℕ → Type 0
IsRateWord word v = (is_mute_user word ≡ false) × IsRate word v

-- At most two rates, 24000 for one that is not given.
abbrev pub AreRates : List Bytes → ℕ → ℕ → Type 0
AreRates [] send playback = (send ≡ 24000) × (playback ≡ 24000)
AreRates (a ∷ []) send playback = IsRateWord a send × (playback ≡ 24000)
AreRates (a ∷ b ∷ []) send playback = IsRateWord a send × IsRateWord b playback
AreRates _ send playback = ⊥

pub record IsStartArgs (args : List Bytes) (send playback : ℕ) (muted : Bool) : Type 0 where
  pub rates : List Bytes
  pub flag : List Bytes
  pub splits : args ≡ rates ++ flag
  pub are_rates : AreRates rates send playback
  pub is_flag : IsFlag flag muted

-- A start command of the grammar, and the arguments of its `start_capture`.
pub record IsStart (force_raw : Bool) (uri mix : Bytes) (args : List Bytes) (s : Start)
    : Type 0 where
  pub mix_type : MixType
  pub named : mix ≡ mix_name mix_type
  pub same_channels : s.stereo ≡ is_stereo mix_type
  pub start_args : IsStartArgs args s.sampling s.playback_sampling s.start_muted
  pub is_uri : IsWsUri uri
  pub short : length uri < 4096
  pub same_uri : s.uri ≡ uri
  pub same_mode : s.force_raw_audio_mode ≡ force_raw
