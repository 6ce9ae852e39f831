-- ===== src/Command.antt =====
-- mod_openai_audio_stream.c: the API commands, from the arguments on. `switch_separate_string` is
-- FreeSWITCH's, so a command is given by its arguments, at most 8 of them.
pub mod Execute
pub mod Rates
pub mod Life
pub mod Refused
pub mod Start
use mod_openai_realtime.Base.{
  ℕ, ◌-◌, ◌+◌, ◌%◌, Bool, true, false, not, ◌&&◌, ◌||◌, List, [], ◌∷◌, Option, none, some, ltb, leb,
  ◌==◌, if◌then◌else◌, ◌>>=◌, guard, ℤ, pos, negsuc, Bytes, codes, str_eq, map,
}
use mod_openai_realtime.Numeral.{strtol, whole_value}
use mod_openai_realtime.Protocol.Uri.{validate_ws_uri}
use mod_openai_realtime.Protocol.Utf8.{is_valid_utf8}
use mod_openai_realtime.Lifecycle

abbrev pub max_ws_uri : ℕ
max_ws_uri = 4096

abbrev pub stream_min_sampling : ℕ
stream_min_sampling = 8000

abbrev pub stream_max_sampling : ℕ
stream_max_sampling = 48000

abbrev pub to_lower : ℕ → ℕ
to_lower c = if leb b'A' c && leb c b'Z' then c + 32 else c

-- `strcasecmp(a, b) == 0` in the C locale.
abbrev pub str_case_eq : Bytes → Bytes → Bool
str_case_eq a b = str_eq (map to_lower a) (map to_lower b)

pub data StreamCommand : Type 0 where
  unknown start stop send_json pause resume mute unmute : StreamCommand

unfoldable pub stream_command_from_string : Bytes → StreamCommand
stream_command_from_string name =
    if str_case_eq name (codes "start")
    then start
    else if str_case_eq name (codes "stop")
    then stop
    else if str_case_eq name (codes "send_json")
    then send_json
    else if str_case_eq name (codes "pause")
    then pause
    else if str_case_eq name (codes "resume")
    then resume
    else if str_case_eq name (codes "mute")
    then mute
    else if str_case_eq name (codes "unmute")
    then unmute
    else unknown

abbrev pub or_minus_one : Option ℕ → ℤ
or_minus_one none = negsuc 0
or_minus_one (some v) = pos v

unfoldable pub parse_sampling_rate : Bytes → ℤ
parse_sampling_rate str =
    if str_eq str (codes "16k")
    then pos 16000
    else if str_eq str (codes "8k")
    then pos 8000
    else if str_eq str (codes "24k")
    then pos 24000
    else or_minus_one (whole_value 1 stream_max_sampling (strtol str))

-- The check of a rate, which hands over a good one.
unfoldable pub check_rate : ℤ → Option ℕ
check_rate (pos v) =
    if leb stream_min_sampling v && leb v stream_max_sampling && v % 8000 == 0 then some v else none
check_rate (negsuc n) = none

pub data MixType : Type 0 where
  mono mixed stereo : MixType

unfoldable pub parse_mix_type : Bytes → Option MixType
parse_mix_type name =
    if str_eq name (codes "mixed")
    then some mixed
    else if str_eq name (codes "stereo")
    then some stereo
    else if str_eq name (codes "mono")
    then some mono
    else none

abbrev pub is_stereo : MixType → Bool
is_stereo stereo = true
is_stereo _ = false

abbrev pub is_mute_user : Bytes → Bool
is_mute_user arg = str_case_eq arg (codes "mute_user")

-- Both rates, and the arguments behind them.
abbrev pub Rates : Type 0
Rates = ℤ × ℤ × List Bytes

unfoldable pub take_playback_rate : ℤ → List Bytes → Rates
take_playback_rate sampling [] = (sampling, pos 24000, [])
take_playback_rate sampling (arg ∷ args) =
    if is_mute_user arg
    then (sampling, pos 24000, arg ∷ args)
    else (sampling, parse_sampling_rate arg, args)

unfoldable pub take_rates : List Bytes → Rates
unfolding take_playback_rate
take_rates [] = (pos 24000, pos 24000, [])
take_rates (arg ∷ args) =
    if is_mute_user arg
    then (pos 24000, pos 24000, arg ∷ args)
    else take_playback_rate (parse_sampling_rate arg) args

-- Whether the caller starts muted, and the arguments behind the flag.
unfoldable pub take_mute_user : List Bytes → Bool × List Bytes
take_mute_user [] = (false, [])
take_mute_user (arg ∷ args) = if is_mute_user arg then (true, args) else (false, arg ∷ args)

abbrev pub is_last : List Bytes → Bool
is_last [] = true
is_last (arg ∷ args) = false

-- The arguments behind the mix type: both rates, unchecked, and the flag; `none` for one too many.
unfoldable pub parse_start_options : List Bytes → Option (ℤ × ℤ × Bool)
unfolding take_rates take_mute_user
parse_start_options args =
    let (sampling, playback_sampling, rest) = take_rates args in
    let (start_muted, unexpected) = take_mute_user rest in
    guard (is_last unexpected) (sampling, playback_sampling, start_muted)

-- The arguments of `start_capture`, or `none` for a failure.
unfoldable pub parse_start : Bool → Bytes → Bytes → List Bytes → Option Lifecycle.Start
unfolding parse_mix_type parse_start_options check_rate
parse_start force_raw_audio_mode uri mix args = do
  mix_type ← parse_mix_type mix
  (sampling, playback_sampling, start_muted) ← parse_start_options args
  ws_uri ← validate_ws_uri (some uri) true max_ws_uri
  send_rate ← check_rate sampling
  playback_rate ← check_rate playback_sampling
  some (record {
    uri = ws_uri;
    stereo = is_stereo mix_type;
    sampling = send_rate;
    playback_sampling = playback_rate;
    start_muted = start_muted;
    force_raw_audio_mode = force_raw_audio_mode;
  })
