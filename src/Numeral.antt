-- ===== src/Numeral.antt =====
-- `strtol` of the C library in base 10 with a 64-bit `long`, which the sampling rates of
-- mod_openai_audio_stream.c and the channel variables of openai_audio_streamer_glue.cpp are read by.
pub mod Exact
use mod_openai_realtime.Base.{
  ℕ, zero, suc, ◌+◌, ◌-◌, ◌*◌, ◌^◌, min, Bool, true, false, ◌||◌, ◌&&◌, [], ◌∷◌, Option, none, some,
  leb, ◌==◌, if◌then◌else◌, ℤ, pos, negsuc, Bytes,
}
use mod_openai_realtime.Protocol.Uri.{is_digit}

-- `isspace` in the C locale.
abbrev pub is_space : ℕ → Bool
is_space c = c == b' ' || (leb 9 c && leb c 13)

pub skip_spaces : Bytes → Bytes
skip_spaces [] = []
skip_spaces (c ∷ cs) = elim (is_space c) [ true ↦ skip_spaces cs | false ↦ c ∷ cs ]

-- The number of the digits at the front, after `acc`, and what follows them.
pub read_digits : ℕ → Bytes → ℕ × Bytes
read_digits acc [] = (acc, [])
read_digits acc (c ∷ cs) = elim (is_digit c) [
  | true ↦ read_digits (acc * 10 + (c - b'0')) cs
  | false ↦ (acc, c ∷ cs)
]

-- A value outside of `long` becomes the nearest one inside.
abbrev pub positive : ℕ × Bytes → ℤ × Bytes
positive (v, rest) = (pos (min v (2 ^ 63 - 1)), rest)

abbrev pub minus : ℕ → ℤ
minus zero = pos 0
minus (suc n) = negsuc (min n (2 ^ 63 - 1))

abbrev pub negative : ℕ × Bytes → ℤ × Bytes
negative (v, rest) = (minus v, rest)

-- `none` where there is no digit, for which `strtol` leaves `endptr` at the start.
pub convert_digits : (ℕ × Bytes → ℤ × Bytes) → Bytes → Option (ℤ × Bytes)
unfolding read_digits
convert_digits sign [] = none
convert_digits sign (c ∷ cs) = if is_digit c then some (sign (read_digits 0 (c ∷ cs))) else none

pub after_spaces : Bytes → Option (ℤ × Bytes)
unfolding convert_digits
after_spaces [] = none
after_spaces (c ∷ cs) =
    if c == b'-'
    then convert_digits negative cs
    else if c == b'+'
    then convert_digits positive cs
    else convert_digits positive (c ∷ cs)

-- The value and what `endptr` points at.
unfoldable pub strtol : Bytes → Option (ℤ × Bytes)
unfolding skip_spaces after_spaces
strtol text = after_spaces (skip_spaces text)

-- The value of a text that `strtol` reads to its end, from `low` to `high`.
unfoldable pub whole_value : ℕ → ℕ → Option (ℤ × Bytes) → Option ℕ
whole_value low high (some (pos v, [])) = if leb low v && leb v high then some v else none
whole_value low high _ = none
