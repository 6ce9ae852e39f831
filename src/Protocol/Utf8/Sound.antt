-- ===== src/Protocol/Utf8/Sound.antt =====
-- That `is_valid_utf8` accepts nothing but UTF-8, and with it what the function decides.
use mod_openai_realtime.Base.{
  ℕ, zero, suc, ◌+◌, ◌-◌, ◌*◌, ◌≤◌, ◌<◌, ◌≡◌, refl, ◌∙◌, ap, sym, ◌≢◌, ◌⊎◌, inl, inr, ◌↔◌, true,
  false, List, [], ◌∷◌, ◌++◌, some, arith, All, Bytes, length, length-drop, drop, All-drop,
  Option-cases,
}
use mod_openai_realtime.Protocol.Utf8.{byte_at, not_continuation, sequence, scan, is_valid_utf8}
use mod_openai_realtime.Protocol.Utf8.Encoding.{IsScalar, encode, encode_all, scan-encode_all}

-- A byte of a C string.
abbrev pub IsByte : ℕ → Type 0
IsByte b = (0 < b) × (b < 256)

abbrev IsContinuation : ℕ → Type 0
IsContinuation b = (0x80 ≤ b) × (b < 0xC0)

-- `text` begins with the encoding of a scalar value, and `k` bytes follow its lead.
abbrev Decodes : Bytes → Bytes → Type 0
Decodes text tail = (u : ℕ) × IsScalar u × (text ≡ encode u ++ tail)

decodes1 : (a : ℕ) (tail : Bytes) → 0 < a → a < 0x80 → Decodes (a ∷ tail) tail
decodes1 a tail h k = (a, omega arith, ground arith)

decodes2 :
    (a b : ℕ) (tail : Bytes) → 0xC2 ≤ a → a ≤ 0xDF → IsContinuation b → Decodes (a ∷ b ∷ tail) tail
decodes2 a b tail h k c = ((a - 0xC0) * 64 + (b - 0x80), omega arith, ground arith)

decodes3 :
    (a b c : ℕ) (tail : Bytes)
    → 0xE0 ≤ a
    → a ≤ 0xEF
    → IsContinuation b
    → IsContinuation c
    → (0xE0 < a) ⊎ (0xA0 ≤ b)
    → (a ≢ 0xED) ⊎ (b ≤ 0x9F)
    → Decodes (a ∷ b ∷ c ∷ tail) tail
decodes3 a b c tail h k hb hc low high =
    ((a - 0xE0) * 4096 + (b - 0x80) * 64 + (c - 0x80), grind arith, ground arith)

decodes4 :
    (a b c d : ℕ) (tail : Bytes)
    → 0xF0 ≤ a
    → a ≤ 0xF4
    → IsContinuation b
    → IsContinuation c
    → IsContinuation d
    → (0xF0 < a) ⊎ (0x90 ≤ b)
    → (a < 0xF4) ⊎ (b ≤ 0x8F)
    → Decodes (a ∷ b ∷ c ∷ d ∷ tail) tail
decodes4 a b c d tail h k hb hc hd low high = (
  (a - 0xF0) * 262144 + (b - 0x80) * 4096 + (c - 0x80) * 64 + (d - 0x80),
  grind arith,
  ground arith,
)

scan-drop : (k : ℕ) (text : Bytes) → scan k text ≡ scan 0 (drop k text)
unfolding scan
scan-drop zero text = refl
scan-drop (suc k) [] = refl
scan-drop (suc k) (c ∷ rest) = scan-drop k rest

continuation : (b : ℕ) → b < 256 → not_continuation b ≡ false → IsContinuation b
unfolding not_continuation
continuation b h e = ground arith

not_continuation_nul : not_continuation 0 ≡ true
unfolding not_continuation
not_continuation_nul = refl

-- What `sequence` lets through, by the length of the sequence.
abbrev Accepts : ℕ → Bytes → ℕ → Type 0
Accepts a rest k =
    ((k ≡ 0) × (a < 0x80))
    ⊎ ((k ≡ 1) × (0xC2 ≤ a) × (a ≤ 0xDF) × (not_continuation (byte_at rest 0) ≡ false))
    ⊎ ((k ≡ 2)
        × (0xE0 ≤ a)
        × (a ≤ 0xEF)
        × (not_continuation (byte_at rest 0) ≡ false)
        × (not_continuation (byte_at rest 1) ≡ false)
        × ((0xE0 < a) ⊎ (0xA0 ≤ byte_at rest 0))
        × ((a ≢ 0xED) ⊎ (byte_at rest 0 ≤ 0x9F)))
    ⊎ ((k ≡ 3)
        × (0xF0 ≤ a)
        × (a ≤ 0xF4)
        × (not_continuation (byte_at rest 0) ≡ false)
        × (not_continuation (byte_at rest 1) ≡ false)
        × (not_continuation (byte_at rest 2) ≡ false)
        × ((0xF0 < a) ⊎ (0x90 ≤ byte_at rest 0))
        × ((a < 0xF4) ⊎ (byte_at rest 0 ≤ 0x8F)))

sequence-Accepts : (a : ℕ) (rest : Bytes) (k : ℕ) → sequence a rest ≡ some k → Accepts a rest k
unfolding sequence
sequence-Accepts a rest k e = ground arith

after1 :
    (a : ℕ) (rest : Bytes)
    → 0xC2 ≤ a
    → a ≤ 0xDF
    → All IsByte rest
    → not_continuation (byte_at rest 0) ≡ false
    → Decodes (a ∷ rest) (drop 1 rest)
after1 a [] h k all e = cc not_continuation_nul
after1 a (b ∷ tail) h k all e = decodes2 a b tail h k (continuation b all.0.1 e)

after2 :
    (a : ℕ) (rest : Bytes)
    → 0xE0 ≤ a
    → a ≤ 0xEF
    → All IsByte rest
    → not_continuation (byte_at rest 0) ≡ false
    → not_continuation (byte_at rest 1) ≡ false
    → (0xE0 < a) ⊎ (0xA0 ≤ byte_at rest 0)
    → (a ≢ 0xED) ⊎ (byte_at rest 0 ≤ 0x9F)
    → Decodes (a ∷ rest) (drop 2 rest)
after2 a [] h k all e f low high = cc not_continuation_nul
after2 a (b ∷ []) h k all e f low high = cc not_continuation_nul
after2 a (b ∷ c ∷ tail) h k all e f low high =
    decodes3 a b c tail h k (continuation b all.0.1 e) (continuation c all.1.0.1 f) low high

after3 :
    (a : ℕ) (rest : Bytes)
    → 0xF0 ≤ a
    → a ≤ 0xF4
    → All IsByte rest
    → not_continuation (byte_at rest 0) ≡ false
    → not_continuation (byte_at rest 1) ≡ false
    → not_continuation (byte_at rest 2) ≡ false
    → (0xF0 < a) ⊎ (0x90 ≤ byte_at rest 0)
    → (a < 0xF4) ⊎ (byte_at rest 0 ≤ 0x8F)
    → Decodes (a ∷ rest) (drop 3 rest)
after3 a [] h k all e f g low high = cc not_continuation_nul
after3 a (b ∷ []) h k all e f g low high = cc not_continuation_nul
after3 a (b ∷ c ∷ []) h k all e f g low high = cc not_continuation_nul
after3 a (b ∷ c ∷ d ∷ tail) h k all e f g low high =
    decodes4 a b c d tail h k (continuation b all.0.1 e) (continuation c all.1.0.1 f)
      (continuation d all.1.1.0.1 g) low high

Accepts-Decodes :
    (a : ℕ) (rest : Bytes) (k : ℕ)
    → IsByte a
    → All IsByte rest
    → Accepts a rest k
    → Decodes (a ∷ rest) (drop k rest)
Accepts-Decodes a rest k ha all (inl (e, h)) = rw e (decodes1 a rest ha.0 h)
Accepts-Decodes a rest k ha all (inr (inl (e, lo, hi, b))) = rw e (after1 a rest lo hi all b)
Accepts-Decodes a rest k ha all (inr (inr (inl (e, lo, hi, b, c, x, y)))) =
    rw e (after2 a rest lo hi all b c x y)
Accepts-Decodes a rest k ha all (inr (inr (inr (e, lo, hi, b, c, d, x, y)))) =
    rw e (after3 a rest lo hi all b c d x y)

-- `text` encodes some sequence of scalar values.
pub record IsUtf8 (text : Bytes) : Type 0 where
  pub scalars : List ℕ
  pub all_scalars : All IsScalar scalars
  pub encoded : text ≡ encode_all scalars

IsUtf8-append : (text tail : Bytes) → Decodes text tail → IsUtf8 tail → IsUtf8 text
IsUtf8-append text tail (u, hu, e) t = record {
  scalars = u ∷ t.scalars;
  all_scalars = (hu, t.all_scalars);
  encoded = e ∙ ap (◌++◌ (encode u)) t.encoded;
}

scan-IsUtf8 :
    (n : ℕ) (text : Bytes) → length text ≤ n → All IsByte text → scan 0 text ≡ true → IsUtf8 text
unfolding scan
scan-IsUtf8 n [] le all h = record { scalars = []; all_scalars = tt; encoded = refl }
scan-IsUtf8 zero (a ∷ rest) le all h = absurd (omega arith)
scan-IsUtf8 (suc n) (a ∷ rest) le all h = elim (Option-cases (sequence a rest)) [
  | inl e ↦ let impossible : false ≡ true = rw (e, scan) at h in cc impossible
  | inr (k, e) ↦
      let next : scan k rest ≡ true = rw (e, scan) at h in
      IsUtf8-append (a ∷ rest) (drop k rest)
        (Accepts-Decodes a rest k all.0 all.1 (sequence-Accepts a rest k e))
        (scan-IsUtf8 n (drop k rest) (omega (arith, length-drop k rest))
          (All-drop IsByte k rest all.1) (sym (scan-drop k rest) ∙ next))
]

-- For any C string, `is_valid_utf8` returns true exactly when its bytes are the UTF-8 encoding of a
-- sequence of Unicode scalar values: overlong forms, surrogates, values above 0x10FFFF and sequences
-- that the terminator cuts short are refused, and all else is accepted.
pub is_valid_utf8-IsUtf8 :
    (text : Bytes) → All IsByte text → (is_valid_utf8 (some text) ≡ true) ↔ IsUtf8 text
unfolding is_valid_utf8
is_valid_utf8-IsUtf8 text all = (
  scan-IsUtf8 (length text) text (omega arith) all,
  λ u. ap (scan 0) u.encoded ∙ scan-encode_all u.scalars u.all_scalars,
)
