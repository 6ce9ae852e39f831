-- ===== src/Protocol/Utf8.antt =====
-- stream_protocol.cpp, `is_valid_utf8`.
pub mod Encoding
pub mod Sound
use mod_openai_realtime.Base.{
  ℕ, zero, suc, ◌*◌, ◌/◌, ◌%◌, Bool, true, false, not, ◌&&◌, ◌||◌, [], ◌∷◌, Option, none, some, ltb,
  leb, ◌==◌, if◌then◌else◌, Bytes,
}

-- `bytes[i]` for the bytes from `bytes` on: the terminator is 0.
abbrev pub byte_at : Bytes → ℕ → ℕ
byte_at [] i = 0
byte_at (c ∷ rest) zero = c
byte_at (c ∷ rest) (suc i) = byte_at rest i

-- `(b & 0xC0) != 0x80`
unfoldable pub not_continuation : ℕ → Bool
not_continuation b = not (b / 64 % 4 * 64 == 0x80)

-- One turn of the loop at `lead`, with what stands behind it: how many bytes `bytes` moves on past
-- `lead`, or `none` for `return false`.
pub sequence : ℕ → Bytes → Option ℕ
sequence lead rest =
    let second = byte_at rest 0 in
    if leb lead 0x7F
    then some 0
    else if leb 0xC2 lead && leb lead 0xDF
    then (if not_continuation second then none else some 1)
    else if leb 0xE0 lead && leb lead 0xEF
    then (if not_continuation second
          || not_continuation (byte_at rest 1)
          || (lead == 0xE0 && ltb second 0xA0)
          || (lead == 0xED && ltb 0x9F second)
        then none
        else some 2)
    else if leb 0xF0 lead && leb lead 0xF4
    then (if not_continuation second
          || not_continuation (byte_at rest 1)
          || not_continuation (byte_at rest 2)
          || (lead == 0xF0 && ltb second 0x90)
          || (lead == 0xF4 && ltb 0x8F second)
        then none
        else some 3)
    else none

-- The loop, with the bytes that `bytes` still moves past.
pub scan : ℕ → Bytes → Bool
unfolding sequence
scan k [] = true
scan (suc k) (c ∷ rest) = scan k rest
scan zero (lead ∷ rest) = elim (sequence lead rest) [ none ↦ false | some k ↦ scan k rest ]

unfoldable pub is_valid_utf8 : Option Bytes → Bool
unfolding scan
is_valid_utf8 none = false
is_valid_utf8 (some text) = scan 0 text
