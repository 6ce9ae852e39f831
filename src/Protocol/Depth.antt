-- ===== src/Protocol/Depth.antt =====
-- stream_protocol.cpp, `json_depth_exceeded`: the guard in front of the recursive JSON parser.
pub mod Nesting
use mod_openai_realtime.Base.{
  ℕ, zero, suc, ◌+◌, ◌-◌, Bool, true, false, not, ◌&&◌, ◌||◌, List, [], ◌∷◌, Option, none, some,
  ltb, ◌==◌, if◌then◌else◌, ℤ, pos, negsuc, Bytes,
}

-- What the loop does at one byte: `exceeded` is `return true`, `advance k s d` goes on with
-- `in_string` and `depth`, with the pointer moved `k` bytes more than the loop's own step.
pub data Action : Type 0 where
  exceeded : Action
  advance : ℕ → Bool → ℕ → Action

-- `json[1]` is not the terminator.
abbrev pub has_next : Bytes → Bool
has_next [] = false
has_next (c ∷ rest) = true

pub at_byte : ℕ → Bool → ℕ → ℕ → Bytes → Action
at_byte max_depth true depth c rest =
    if c == b'\\' && has_next rest
    then advance 1 true depth
    else if c == b'"'
    then advance 0 false depth
    else advance 0 true depth
at_byte max_depth false depth c rest =
    if c == b'"'
    then advance 0 true depth
    else if c == b'{' || c == b'['
    then (if ltb max_depth (depth + 1) then exceeded else advance 0 false (depth + 1))
    else if c == b'}' || c == b']'
    then advance 0 false (if ltb 0 depth then depth - 1 else depth)
    else advance 0 false depth

-- The loop, with the bytes still to be passed over, `in_string`, `depth`, and what `json` points at.
pub scan : ℕ → ℕ → Bool → ℕ → Bytes → Bool
unfolding at_byte
scan max_depth k in_string depth [] = false
scan max_depth (suc k) in_string depth (c ∷ rest) = scan max_depth k in_string depth rest
scan max_depth zero in_string depth (c ∷ rest) = elim (at_byte max_depth in_string depth c rest) [
  | exceeded ↦ true
  | advance k s d ↦ scan max_depth k s d rest
]

unfoldable pub json_depth_exceeded : Option Bytes → ℤ → Bool
unfolding scan
json_depth_exceeded none max_depth = true
json_depth_exceeded (some json) (negsuc n) = true
json_depth_exceeded (some json) (pos max_depth) = scan max_depth 0 false 0 json
