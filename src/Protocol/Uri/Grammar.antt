-- ===== src/Protocol/Uri/Grammar.antt =====
-- The URLs that `validate_ws_uri` means to accept, as a grammar; and what its loops read.
pub mod Loops
pub mod Exact
use mod_openai_realtime.Base.{
  ℕ, ◌+◌, ◌-◌, ◌*◌, ◌≤◌, ◌<◌, ◌≡◌, ◌≢◌, ◌⊎◌, Bool, true, ◌&&◌, [], ◌∷◌, ◌++◌, Bytes, codes,
}
use mod_openai_realtime.Protocol.Uri.{is_digit, bracket_byte, host_byte, ends_authority}

abbrev pub all_of : (ℕ → Bool) → Bytes → Bool
all_of p [] = true
all_of p (c ∷ cs) = p c && all_of p cs

-- The number that decimal digits stand for, after `acc`.
abbrev pub value_from : ℕ → Bytes → ℕ
value_from acc [] = acc
value_from acc (c ∷ cs) = value_from (acc * 10 + (c - b'0')) cs

abbrev pub IsScheme : Bytes → Type 0
IsScheme s = (s ≡ codes "ws://") ⊎ (s ≡ codes "wss://")

-- A name of letters, digits, `-` and `.`, or an address of hex digits, `:` and `.` in brackets.
pub data IsHost : Bytes → Type 0 where
  name : (h : Bytes) → h ≢ [] → all_of host_byte h ≡ true → IsHost h
  address : (h : Bytes) → h ≢ [] → all_of bracket_byte h ≡ true → IsHost (b'[' ∷ (h ++ b']' ∷ []))

-- Nothing, or a colon and a decimal number from 1 to 65535.
pub data IsPort : Bytes → Type 0 where
  absent : IsPort []
  number :
      (ds : Bytes)
      → ds ≢ []
      → all_of is_digit ds ≡ true
      → 0 < value_from 0 ds
      → value_from 0 ds ≤ 65535
      → IsPort (b':' ∷ ds)

-- Scheme, host, optional port, and a tail that is empty or begins with `/` or `?`.
pub record IsWsUri (url : Bytes) : Type 0 where
  pub scheme : Bytes
  pub host : Bytes
  pub port : Bytes
  pub tail : Bytes
  pub splits : url ≡ scheme ++ (host ++ (port ++ tail))
  pub is_scheme : IsScheme scheme
  pub is_host : IsHost host
  pub is_port : IsPort port
  pub is_tail : ends_authority tail ≡ true
