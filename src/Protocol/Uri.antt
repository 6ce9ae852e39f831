-- ===== src/Protocol/Uri.antt =====
-- stream_protocol.cpp, `validate_ws_uri`. Each loop returns the bytes from where its pointer stops,
-- or `none` for `return false`. `isalnum`, `isxdigit` and `isdigit` are those of the C locale.
pub mod Grammar
use mod_openai_realtime.Base.{
  ℕ, ◌+◌, ◌-◌, ◌*◌, Bool, true, false, not, ◌&&◌, ◌||◌, [], ◌∷◌, Option, none, some, ltb, leb, ◌==◌,
  if◌then◌else◌, Bytes, codes, starts_with, length, drop, ◌>>=◌, guard,
}

abbrev pub is_digit : ℕ → Bool
is_digit c = leb b'0' c && leb c b'9'

abbrev pub is_xdigit : ℕ → Bool
is_xdigit c = is_digit c || (leb b'a' c && leb c b'f') || (leb b'A' c && leb c b'F')

abbrev pub is_alnum : ℕ → Bool
is_alnum c = is_digit c || (leb b'a' c && leb c b'z') || (leb b'A' c && leb c b'Z')

unfoldable pub bracket_byte : ℕ → Bool
bracket_byte c = is_xdigit c || c == b':' || c == b'.'

unfoldable pub host_byte : ℕ → Bool
host_byte c = is_alnum c || c == b'-' || c == b'.'

-- `host_start`, behind the scheme.
pub strip_scheme : Bytes → Option Bytes
strip_scheme url =
    if starts_with (codes "ws://") url
    then some (drop 5 url)
    else if starts_with (codes "wss://") url
    then some (drop 6 url)
    else none

-- The loop over a bracketed host, which must end at `]`; `seen` says that the host is not empty.
pub scan_bracket : Bool → Bytes → Option Bytes
scan_bracket seen [] = none
scan_bracket seen (c ∷ rest) = elim (c == b']') [
  | true ↦ (if seen then some rest else none)
  | false ↦ elim (bracket_byte c) [ true ↦ scan_bracket true rest | false ↦ none ]
]

-- The loop over any other host.
pub scan_host : Bool → Bytes → Option Bytes
scan_host seen [] = if seen then some [] else none
scan_host seen (c ∷ rest) = elim (c == b':' || c == b'/' || c == b'?') [
  | true ↦ (if seen then some (c ∷ rest) else none)
  | false ↦ elim (host_byte c) [ true ↦ scan_host true rest | false ↦ none ]
]

pub strip_host : Bytes → Option Bytes
unfolding scan_bracket scan_host
strip_host [] = scan_host false []
strip_host (c ∷ rest) = if c == b'[' then scan_bracket false rest else scan_host false (c ∷ rest)

-- The loop over the port's digits, with `port` so far, and the checks behind it.
pub scan_port : Bool → ℕ → Bytes → Option Bytes
scan_port seen port [] = if not seen || port == 0 then none else some []
scan_port seen port (c ∷ rest) = elim (c == b'/' || c == b'?') [
  | true ↦ (if not seen || port == 0 then none else some (c ∷ rest))
  | false ↦ elim (is_digit c) [
    | true ↦ elim (ltb 65535 (port * 10 + (c - b'0'))) [
      | true ↦ none
      | false ↦ scan_port true (port * 10 + (c - b'0')) rest
    ]
    | false ↦ none
  ]
]

pub strip_port : Bytes → Option Bytes
unfolding scan_port
strip_port [] = some []
strip_port (c ∷ rest) = if c == b':' then scan_port false 0 rest else some (c ∷ rest)

pub ends_authority : Bytes → Bool
ends_authority [] = true
ends_authority (c ∷ rest) = c == b'/' || c == b'?'

-- What is left of the URL behind scheme, host and port, if those and the byte after them pass.
pub strip_authority : Bytes → Option Bytes
unfolding strip_scheme strip_host strip_port ends_authority
strip_authority url = do
  from_host ← strip_scheme url
  from_port ← strip_host from_host
  tail ← strip_port from_port
  guard (ends_authority tail) tail

-- What is copied to `destination`, or `none` for `return false`. `has_destination` says that the
-- pointer is not null.
unfoldable pub validate_ws_uri : Option Bytes → Bool → ℕ → Option Bytes
unfolding strip_authority
validate_ws_uri none has_destination destination_size = none
validate_ws_uri (some url) has_destination destination_size =
    if not has_destination || destination_size == 0
    then none
    else do tail ← strip_authority url; guard (ltb (length url) destination_size) url
