-- ===== src/Protocol/Utf8/Encoding.antt =====
-- UTF-8 as the Unicode standard defines it, and that the loop accepts all of it.
use mod_openai_realtime.Base.{
  ℕ, ◌+◌, ◌/◌, ◌%◌, ◌≤◌, ◌<◌, ◌≡◌, refl, ◌∙◌, ◌⊎◌, true, [], ◌∷◌, ◌++◌, List, arith, ltb,
  if◌then◌else◌, All, Bytes,
}
use mod_openai_realtime.Protocol.Utf8.{not_continuation, scan}

-- A Unicode scalar value other than NUL, which ends a C string.
pub record IsScalar (u : ℕ) : Type 0 where
  pub not_nul : 0 < u
  pub in_range : u < 0x110000
  pub not_surrogate : (u < 0xD800) ⊎ (0xE000 ≤ u)

abbrev pub encode2 : ℕ → Bytes
encode2 u = (0xC0 + u / 64) ∷ (0x80 + u % 64) ∷ []

abbrev pub encode3 : ℕ → Bytes
encode3 u = (0xE0 + u / 4096) ∷ (0x80 + u / 64 % 64) ∷ (0x80 + u % 64) ∷ []

abbrev pub encode4 : ℕ → Bytes
encode4 u =
    (0xF0 + u / 262144) ∷ (0x80 + u / 4096 % 64) ∷ (0x80 + u / 64 % 64) ∷ (0x80 + u % 64) ∷ []

abbrev pub encode : ℕ → Bytes
encode u =
    if ltb u 0x80
    then u ∷ []
    else if ltb u 0x800
    then encode2 u
    else if ltb u 0x10000
    then encode3 u
    else encode4 u

abbrev pub encode_all : List ℕ → Bytes
encode_all [] = []
encode_all (u ∷ us) = encode u ++ encode_all us

scan1 : (u : ℕ) (rest : Bytes) → u < 0x80 → scan 0 (u ∷ rest) ≡ scan 0 rest
unfolding scan
scan1 u rest h = ground arith

scan2 : (u : ℕ) (rest : Bytes) → 0x80 ≤ u → u < 0x800 → scan 0 (encode2 u ++ rest) ≡ scan 0 rest
unfolding scan not_continuation
scan2 u rest h k = ground arith

scan3 :
    (u : ℕ) (rest : Bytes)
    → 0x800 ≤ u
    → u < 0x10000
    → (u < 0xD800) ⊎ (0xE000 ≤ u)
    → scan 0 (encode3 u ++ rest) ≡ scan 0 rest
unfolding scan not_continuation
scan3 u rest h k s = ground arith

scan4 :
    (u : ℕ) (rest : Bytes) → 0x10000 ≤ u → u < 0x110000 → scan 0 (encode4 u ++ rest) ≡ scan 0 rest
unfolding scan not_continuation
scan4 u rest h k = ground arith

scan-encode : (u : ℕ) (rest : Bytes) → IsScalar u → scan 0 (encode u ++ rest) ≡ scan 0 rest
scan-encode u rest s = ground (arith, scan1 u rest, scan2 u rest, scan3 u rest, scan4 u rest)

pub scan-encode_all : (us : List ℕ) → All IsScalar us → scan 0 (encode_all us) ≡ true
unfolding scan
scan-encode_all [] h = refl
scan-encode_all (u ∷ us) h = scan-encode u (encode_all us) h.0 ∙ scan-encode_all us h.1
