-- ===== src/Command/Start/Exact.antt =====
-- Which start commands are accepted, and with which arguments the session is started.
use mod_openai_realtime.Base.{
  ◌≡◌, refl, sym, subst, ap, ◌↔◌, Bool, true, List, some, arith, >>=-eq-some, Bytes,
}
use mathlib.Core.Option.{some-injective}
use mod_openai_realtime.Protocol.Uri.{validate_ws_uri}
use mod_openai_realtime.Protocol.Uri.Grammar.Exact.{validate_ws_uri-IsWsUri}
use mod_openai_realtime.Lifecycle.{Start}
use mod_openai_realtime.Command.{
  max_ws_uri, check_rate, parse_mix_type, parse_start_options, parse_start,
}
use mod_openai_realtime.Command.Start.{IsStart}
use mod_openai_realtime.Command.Start.Options.{
  Parses, parse_start_options-IsStartArgs, IsStartArgs-Parses,
}
use mod_openai_realtime.Command.Start.Mix.{parse_mix_type_iff}

parse_start_lem :
    (force_raw : Bool) (uri mix : Bytes) (args : List Bytes) (s : Start)
    → parse_start force_raw uri mix args ≡ some s
    → IsStart force_raw uri mix args s
unfolding parse_start
parse_start_lem force_raw uri mix args s h =
    let (mix_type, e1, h1) = >>=-eq-some (parse_mix_type mix) _ h in
    let ((x, y, muted), e2, h2) = >>=-eq-some (parse_start_options args) _ h1 in
    let (ws_uri, e3, h3) = >>=-eq-some (validate_ws_uri (some uri) true max_ws_uri) _ h2 in
    let (send_rate, e4, h4) = >>=-eq-some (check_rate x) _ h3 in
    let (playback_rate, e5, h5) = >>=-eq-some (check_rate y) _ h4 in
    let (same, is_uri, short) = (validate_ws_uri-IsWsUri uri ws_uri max_ws_uri).0 e3 in
    subst (IsStart force_raw uri mix args) (some-injective _ _ h5) (record {
      mix_type = mix_type;
      named = (parse_mix_type_iff mix mix_type).0 e1;
      same_channels = refl;
      start_args = parse_start_options-IsStartArgs args x y muted send_rate playback_rate e2 e4 e5;
      is_uri = is_uri;
      short = short;
      same_uri = same;
      same_mode = refl;
    })

IsStart-parse_start :
    (force_raw : Bool) (uri mix : Bytes) (args : List Bytes) (s : Start)
    → IsStart force_raw uri mix args s
    → parse_start force_raw uri mix args ≡ some s
unfolding parse_start
IsStart-parse_start force_raw uri mix args s i =
    let a = i.start_args in
    let o =
      subst (λ args. Parses args s.sampling s.playback_sampling s.start_muted) (sym a.splits)
        (IsStartArgs-Parses a.rates a.flag s.sampling s.playback_sampling s.start_muted a.are_rates
          a.is_flag) in
    let e1 = (parse_mix_type_iff mix i.mix_type).1 i.named in
    let e3 = (validate_ws_uri-IsWsUri uri uri max_ws_uri).1 (refl, i.is_uri, i.short) in
    rw (e1, o.parsed, e3, o.checked, o.playback_checked)
      (ap some (ground (arith, i.same_channels, i.same_uri, i.same_mode)))

-- The words behind `start` begin a session with the arguments `s` exactly when they are of the
-- grammar: a WebSocket URI of less than 4096 bytes, which is the session's; mono, mixed or stereo, which
-- is two channels; at most two rates, each a shortcut or a numeral of a multiple of 8000 from 8000 to
-- 48000, and 24000 for one that is not given; then the flag for a muted caller or nothing.
pub parse_start-IsStart :
    (force_raw : Bool) (uri mix : Bytes) (args : List Bytes) (s : Start)
    → (parse_start force_raw uri mix args ≡ some s) ↔ IsStart force_raw uri mix args s
parse_start-IsStart force_raw uri mix args s =
    (parse_start_lem force_raw uri mix args s, IsStart-parse_start force_raw uri mix args s)
