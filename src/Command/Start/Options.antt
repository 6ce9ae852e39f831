-- ===== src/Command/Start/Options.antt =====
-- The words behind the mix type: how they are parsed, against their grammar.
use mod_openai_realtime.Base.{
  ℕ, ◌≡◌, refl, subst, Bool, true, List, [], ◌∷◌, ◌++◌, some, arith, guard-eq-some, Bool-cases, inl,
  inr, ℤ, pos, Bytes,
}
use mod_openai_realtime.Command.{
  check_rate, parse_sampling_rate, is_mute_user, take_playback_rate, take_rates, take_mute_user,
  is_last, parse_start_options,
}
use mod_openai_realtime.Command.Rates.{parse_sampling_rate-IsRate}
use mod_openai_realtime.Command.Start.{IsFlag, AreRates, IsStartArgs}

-- The flag is all that is left.
take_mute_user-IsFlag :
    (rest : List Bytes)
    → is_last (take_mute_user rest).1 ≡ true
    → IsFlag rest (take_mute_user rest).0
unfolding take_mute_user
take_mute_user-IsFlag [] h = refl
take_mute_user-IsFlag (word ∷ []) h = ground arith
take_mute_user-IsFlag (word ∷ more ∷ rest) h = ground arith

IsFlag-take_mute_user :
    (rest : List Bytes) (muted : Bool)
    → IsFlag rest muted
    → (is_last (take_mute_user rest).1 ≡ true) × ((take_mute_user rest).0 ≡ muted)
unfolding take_mute_user
IsFlag-take_mute_user [] muted h = (refl, ground arith)
IsFlag-take_mute_user (word ∷ []) muted h = ground arith
IsFlag-take_mute_user (word ∷ more ∷ rest) muted h = elim h [ ]

default_rate : (v : ℕ) → check_rate (pos 24000) ≡ some v → v ≡ 24000
unfolding check_rate
default_rate v h = cc

-- The rates that are taken off the front, and what is left.
record Taken (args : List Bytes) (send playback : ℕ) : Type 0 where
  rates : List Bytes
  splits : args ≡ rates ++ (take_rates args).2
  are_rates : AreRates rates send playback

take_rates-Taken :
    (args : List Bytes) (send playback : ℕ)
    → check_rate (take_rates args).0 ≡ some send
    → check_rate (take_rates args).1 ≡ some playback
    → Taken args send playback
unfolding take_rates take_playback_rate
take_rates-Taken [] send playback h k = record {
  rates = [];
  splits = refl;
  are_rates = (default_rate send h, default_rate playback k);
}
take_rates-Taken (a ∷ []) send playback h k = elim (Bool-cases (is_mute_user a)) [
  | inl e ↦ record {
    rates = [];
    splits = ground arith;
    are_rates = (default_rate send (ground arith), default_rate playback (ground arith));
  }
  | inr e ↦ record {
    rates = a ∷ [];
    splits = ground arith;
    are_rates = (
      (e, (parse_sampling_rate-IsRate a send).0 (ground arith)),
      default_rate playback (ground arith),
    );
  }
]
take_rates-Taken (a ∷ b ∷ rest) send playback h k = elim (Bool-cases (is_mute_user a)) [
  | inl e ↦ record {
    rates = [];
    splits = ground arith;
    are_rates = (default_rate send (ground arith), default_rate playback (ground arith));
  }
  | inr e ↦ elim (Bool-cases (is_mute_user b)) [
    | inl e' ↦ record {
      rates = a ∷ [];
      splits = ground arith;
      are_rates = (
        (e, (parse_sampling_rate-IsRate a send).0 (ground arith)),
        default_rate playback (ground arith),
      );
    }
    | inr e' ↦ record {
      rates = a ∷ b ∷ [];
      splits = ground arith;
      are_rates = (
        (e, (parse_sampling_rate-IsRate a send).0 (ground arith)),
        (e', (parse_sampling_rate-IsRate b playback).0 (ground arith)),
      );
    }
  ]
]

pub parse_start_options-IsStartArgs :
    (args : List Bytes) (x y : ℤ) (muted : Bool) (send playback : ℕ)
    → parse_start_options args ≡ some (x, y, muted)
    → check_rate x ≡ some send
    → check_rate y ≡ some playback
    → IsStartArgs args send playback muted
unfolding parse_start_options
parse_start_options-IsStartArgs args x y muted send playback h hx hy =
    let rest = (take_rates args).2 in
    let (last, same) = guard-eq-some (is_last (take_mute_user rest).1) _ h in
    let t = take_rates-Taken args send playback (ground (arith, same)) (ground (arith, same)) in
    record {
      rates = t.rates;
      flag = rest;
      splits = t.splits;
      are_rates = t.are_rates;
      is_flag = subst (IsFlag rest) (ground (arith, same)) (take_mute_user-IsFlag rest last);
    }

-- What the options are for arguments of the grammar.
pub record Parses (args : List Bytes) (send playback : ℕ) (muted : Bool) : Type 0 where
  pub sampling : ℤ
  pub playback_sampling : ℤ
  pub parsed : parse_start_options args ≡ some (sampling, playback_sampling, muted)
  pub checked : check_rate sampling ≡ some send
  pub playback_checked : check_rate playback_sampling ≡ some playback

pub IsStartArgs-Parses :
    (rates flag : List Bytes) (send playback : ℕ) (muted : Bool)
    → AreRates rates send playback
    → IsFlag flag muted
    → Parses (rates ++ flag) send playback muted
unfolding parse_start_options take_rates take_playback_rate take_mute_user check_rate
IsStartArgs-Parses [] [] send playback muted (s, q) f = record {
  sampling = pos 24000;
  playback_sampling = pos 24000;
  parsed = ground arith;
  checked = ground arith;
  playback_checked = ground arith;
}
IsStartArgs-Parses [] (word ∷ []) send playback muted (s, q) f = record {
  sampling = pos 24000;
  playback_sampling = pos 24000;
  parsed = ground arith;
  checked = ground arith;
  playback_checked = ground arith;
}
IsStartArgs-Parses (a ∷ []) [] send playback muted ((e, r), q) f = record {
  sampling = parse_sampling_rate a;
  playback_sampling = pos 24000;
  parsed = ground arith;
  checked = (parse_sampling_rate-IsRate a send).1 r;
  playback_checked = ground arith;
}
IsStartArgs-Parses (a ∷ []) (word ∷ []) send playback muted ((e, r), q) f = record {
  sampling = parse_sampling_rate a;
  playback_sampling = pos 24000;
  parsed = ground arith;
  checked = (parse_sampling_rate-IsRate a send).1 r;
  playback_checked = ground arith;
}
IsStartArgs-Parses (a ∷ b ∷ []) flag send playback muted ((e, r), (e', r')) f =
    let (last, same) = IsFlag-take_mute_user flag muted f in
    record {
      sampling = parse_sampling_rate a;
      playback_sampling = parse_sampling_rate b;
      parsed = ground arith;
      checked = (parse_sampling_rate-IsRate a send).1 r;
      playback_checked = (parse_sampling_rate-IsRate b playback).1 r';
    }
IsStartArgs-Parses [] (word ∷ more ∷ flag) send playback muted r f = elim f [ ]
IsStartArgs-Parses (a ∷ []) (word ∷ more ∷ flag) send playback muted r f = elim f [ ]
IsStartArgs-Parses (a ∷ b ∷ c ∷ rates) flag send playback muted r f = elim r [ ]
