-- ===== src/Protocol/Uri/Grammar/Loops.antt =====
-- What each loop of `validate_ws_uri` reads: it returns `some rest` exactly on the words it is for.
use mod_openai_realtime.Base.{
  ℕ, ◌+◌, ◌-◌, ◌*◌, ◌≤◌, ◌<◌, ◌≡◌, ◌≢◌, refl, ap, ◌⊎◌, inl, inr, Bool, true, ◌||◌, [], ◌∷◌, ◌++◌,
  some, arith, ◌==◌, Bool-cases, Bytes,
}
use mod_openai_realtime.Protocol.Uri.{
  is_digit, bracket_byte, host_byte, scan_bracket, scan_host, scan_port, ends_authority,
}
use mod_openai_realtime.Protocol.Uri.Grammar.{all_of, value_from}

abbrev pub Some : Bool → Bytes → Type 0
Some seen h = (seen ≡ true) ⊎ (h ≢ [])

cons-ne-nil : (c : ℕ) (h : Bytes) → (c ∷ h) ≢ []
cons-ne-nil c h e = cc

pub record Reads (p : ℕ → Bool) (seen : Bool) (text rest : Bytes) : Type 0 where
  pub word : Bytes
  pub splits : text ≡ word ++ rest
  pub all_word : all_of p word ≡ true
  pub not_empty : Some seen word

Reads-cons :
    (p : ℕ → Bool) (seen : Bool) (c : ℕ) {text rest : Bytes}
    → p c ≡ true
    → Reads p true text rest
    → Reads p seen (c ∷ text) rest
Reads-cons p seen c h r = record {
  word = c ∷ r.word;
  splits = ap (◌∷◌ c) r.splits;
  all_word = ground (arith, r.all_word);
  not_empty = inr (cons-ne-nil c r.word);
}

Reads-stop :
    (p : ℕ → Bool) (seen : Bool) (text rest : Bytes)
    → text ≡ rest
    → seen ≡ true
    → Reads p seen text rest
Reads-stop p seen text rest e h = record {
  word = [];
  splits = e;
  all_word = refl;
  not_empty = inl h;
}

pub scan_bracket-Reads :
    (seen : Bool) (text : Bytes) {rest : Bytes}
    → scan_bracket seen text ≡ some rest
    → Reads bracket_byte seen text (b']' ∷ rest)
unfolding scan_bracket
scan_bracket-Reads seen [] h = cc
scan_bracket-Reads seen (c ∷ cs) {rest} h = elim (Bool-cases (c == b']')) [
  | inl e ↦ Reads-stop bracket_byte seen _ _ (ground arith) (ground arith)
  | inr e ↦ elim (Bool-cases (bracket_byte c)) [
    | inl f ↦ Reads-cons bracket_byte seen c f (scan_bracket-Reads true cs (ground arith))
    | inr f ↦ absurd (ground arith)
  ]
]

-- The brackets' own bytes are no `]`, so the loop stops at the first.
pub scan_bracket_all :
    (seen : Bool) (h rest : Bytes)
    → all_of bracket_byte h ≡ true
    → Some seen h
    → scan_bracket seen (h ++ b']' ∷ rest) ≡ some rest
unfolding scan_bracket bracket_byte
scan_bracket_all seen [] rest all s = ground arith
scan_bracket_all seen (c ∷ cs) rest all s = ground (arith, scan_bracket_all true cs rest)

-- The bytes at which the loop over a host stops.
abbrev pub stops_host : Bytes → Bool
stops_host [] = true
stops_host (c ∷ rest) = c == b':' || c == b'/' || c == b'?'

pub scan_host-Reads :
    (seen : Bool) (text : Bytes) {rest : Bytes}
    → scan_host seen text ≡ some rest
    → Reads host_byte seen text rest
unfolding scan_host
scan_host-Reads seen [] {rest} h = Reads-stop host_byte seen _ _ (ground arith) (ground arith)
scan_host-Reads seen (c ∷ cs) {rest} h = elim (Bool-cases (c == b':' || c == b'/' || c == b'?')) [
  | inl e ↦ Reads-stop host_byte seen _ _ (ground arith) (ground arith)
  | inr e ↦ elim (Bool-cases (host_byte c)) [
    | inl f ↦ Reads-cons host_byte seen c f (scan_host-Reads true cs (ground arith))
    | inr f ↦ absurd (ground arith)
  ]
]

pub scan_host_all :
    (seen : Bool) (h rest : Bytes)
    → all_of host_byte h ≡ true
    → Some seen h
    → stops_host rest ≡ true
    → scan_host seen (h ++ rest) ≡ some rest
unfolding scan_host host_byte
scan_host_all seen [] [] all s stop = ground arith
scan_host_all seen [] (c ∷ rest) all s stop = ground arith
scan_host_all seen (c ∷ cs) rest all s stop = ground (arith, scan_host_all true cs rest)

value_from_mono : (acc : ℕ) (ds : Bytes) → acc ≤ value_from acc ds
value_from_mono acc [] = omega arith
value_from_mono acc (c ∷ cs) = omega (arith, value_from_mono (acc * 10 + (c - b'0')) cs)

pub record ReadsPort (seen : Bool) (port : ℕ) (text rest : Bytes) : Type 0 where
  pub digits : Bytes
  pub splits : text ≡ digits ++ rest
  pub all_digits : all_of is_digit digits ≡ true
  pub not_empty : Some seen digits
  pub not_zero : 0 < value_from port digits
  pub in_range : value_from port digits ≤ 65535

ReadsPort-cons :
    (seen : Bool) (port c : ℕ) {text rest : Bytes}
    → is_digit c ≡ true
    → ReadsPort true (port * 10 + (c - b'0')) text rest
    → ReadsPort seen port (c ∷ text) rest
ReadsPort-cons seen port c h r = record {
  digits = c ∷ r.digits;
  splits = ap (◌∷◌ c) r.splits;
  all_digits = ground (arith, r.all_digits);
  not_empty = inr (cons-ne-nil c r.digits);
  not_zero = r.not_zero;
  in_range = r.in_range;
}

ReadsPort-stop :
    (seen : Bool) (port : ℕ) (text rest : Bytes)
    → text ≡ rest
    → seen ≡ true
    → 0 < port
    → port ≤ 65535
    → ReadsPort seen port text rest
ReadsPort-stop seen port text rest e s h k = record {
  digits = [];
  splits = e;
  all_digits = refl;
  not_empty = inl s;
  not_zero = h;
  in_range = k;
}

pub scan_port-ReadsPort :
    (seen : Bool) (port : ℕ) (text : Bytes) {rest : Bytes}
    → port ≤ 65535
    → scan_port seen port text ≡ some rest
    → ReadsPort seen port text rest
unfolding scan_port
scan_port-ReadsPort seen port [] {rest} le h =
    ReadsPort-stop seen port [] rest (ground arith) (ground arith) (ground arith) le
scan_port-ReadsPort seen port (c ∷ cs) {rest} le h = elim (Bool-cases (c == b'/' || c == b'?')) [
  | inl e ↦ ReadsPort-stop seen port (c ∷ cs) rest (ground arith) (ground arith) (ground arith) le
  | inr e ↦ elim (Bool-cases (is_digit c)) [
    | inl f ↦
        ReadsPort-cons seen port c f
          (scan_port-ReadsPort true (port * 10 + (c - b'0')) cs (ground arith) (ground arith))
    | inr f ↦ absurd (ground arith)
  ]
]

pub scan_port_all :
    (seen : Bool) (port : ℕ) (ds rest : Bytes)
    → all_of is_digit ds ≡ true
    → Some seen ds
    → 0 < value_from port ds
    → value_from port ds ≤ 65535
    → ends_authority rest ≡ true
    → scan_port seen port (ds ++ rest) ≡ some rest
unfolding scan_port ends_authority
scan_port_all seen port [] [] all s pos le stop = ground arith
scan_port_all seen port [] (c ∷ rest) all s pos le stop = ground arith
scan_port_all seen port (c ∷ cs) rest all s pos le stop = ground (
  arith,
  value_from_mono (port * 10 + (c - b'0')) cs,
  scan_port_all true (port * 10 + (c - b'0')) cs rest,
)
