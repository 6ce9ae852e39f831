-- ===== src/Numeral/Exact.antt =====
-- Which texts `strtol` reads to their end, and as what.
use mod_openai_realtime.Base.{
  ℕ, ◌+◌, ◌-◌, ◌*◌, ◌^◌, ◌≤◌, ◌<◌, ◌≡◌, ◌≢◌, refl, ap, ◌∙◌, ◌⊎◌, inl, inr, ◌↔◌, true, [], ◌∷◌, ◌++◌,
  Option, none, some, arith, ◌==◌, Bool-cases, ℤ, pos, negsuc, Bytes,
}
use mod_openai_realtime.Protocol.Uri.{is_digit}
use mod_openai_realtime.Protocol.Uri.Grammar.{all_of, value_from}
use mod_openai_realtime.Numeral.{
  is_space, skip_spaces, read_digits, positive, minus, negative, convert_digits, after_spaces,
  strtol, whole_value,
}

-- Blanks, a plus sign or none, and the decimal digits of `v`.
pub record IsNumeral (text : Bytes) (v : ℕ) : Type 0 where
  pub blanks : Bytes
  pub sign : Bytes
  pub digits : Bytes
  pub splits : text ≡ blanks ++ (sign ++ digits)
  pub all_blanks : all_of is_space blanks ≡ true
  pub is_sign : (sign ≡ []) ⊎ (sign ≡ b'+' ∷ [])
  pub some_digits : digits ≢ []
  pub all_digits : all_of is_digit digits ≡ true
  pub value : value_from 0 digits ≡ v

read_digits-value_from :
    (acc : ℕ) (ds : Bytes)
    → all_of is_digit ds ≡ true
    → read_digits acc ds ≡ (value_from acc ds, [])
unfolding read_digits
read_digits-value_from acc [] h = refl
read_digits-value_from acc (c ∷ cs) h =
    ground (arith, read_digits-value_from (acc * 10 + (c - b'0')) cs)

read_digits_end :
    (acc : ℕ) (ds : Bytes)
    → (read_digits acc ds).1 ≡ []
    → (all_of is_digit ds ≡ true) × ((read_digits acc ds).0 ≡ value_from acc ds)
unfolding read_digits
read_digits_end acc [] h = (refl, refl)
read_digits_end acc (c ∷ cs) h = ground (arith, read_digits_end (acc * 10 + (c - b'0')) cs)

-- What is left behind the blanks.
record Skips (text : Bytes) : Type 0 where
  blanks : Bytes
  splits : text ≡ blanks ++ skip_spaces text
  all_blanks : all_of is_space blanks ≡ true

skip_spaces-Skips : (text : Bytes) → Skips text
unfolding skip_spaces
skip_spaces-Skips [] = record { blanks = []; splits = refl; all_blanks = refl }
skip_spaces-Skips (c ∷ cs) = elim (Bool-cases (is_space c)) [
  | inl e ↦
      let s = skip_spaces-Skips cs in
      record {
        blanks = c ∷ s.blanks;
        splits = ground (arith, s.splits);
        all_blanks = ground (arith, s.all_blanks);
      }
  | inr e ↦ record { blanks = []; splits = ground arith; all_blanks = refl }
]

skip_spaces-append :
    (blanks rest : Bytes)
    → all_of is_space blanks ≡ true
    → skip_spaces (blanks ++ rest) ≡ skip_spaces rest
unfolding skip_spaces
skip_spaces-append [] rest h = refl
skip_spaces-append (c ∷ cs) rest h = ground (arith, skip_spaces-append cs rest)

convert_digits-positive :
    (ds : Bytes) (v : ℕ)
    → v < 2 ^ 63 - 1
    → convert_digits positive ds ≡ some (pos v, [])
    → (ds ≢ []) × (all_of is_digit ds ≡ true) × (value_from 0 ds ≡ v)
unfolding convert_digits
convert_digits-positive [] v lt h = cc
convert_digits-positive (c ∷ cs) v lt h = ground (arith, read_digits_end 0 (c ∷ cs))

convert_digits-value_from :
    (ds : Bytes) (v : ℕ)
    → v < 2 ^ 63 - 1
    → ds ≢ []
    → all_of is_digit ds ≡ true
    → value_from 0 ds ≡ v
    → convert_digits positive ds ≡ some (pos v, [])
unfolding convert_digits
convert_digits-value_from [] v lt some_digits all e = absurd (some_digits refl)
convert_digits-value_from (c ∷ cs) v lt some_digits all e =
    ground (arith, read_digits-value_from 0 (c ∷ cs) all)

-- A minus sign gives nothing above 0.
minus_zero : (n v : ℕ) → minus n ≡ pos v → v ≡ 0
minus_zero n v h = ground arith

convert_digits-negative :
    (ds : Bytes) (v : ℕ) (rest : Bytes) → convert_digits negative ds ≡ some (pos v, rest) → v ≡ 0
unfolding convert_digits
convert_digits-negative [] v rest h = cc
convert_digits-negative (c ∷ cs) v rest h = ground (arith, minus_zero (read_digits 0 (c ∷ cs)).0 v)

-- A sign or none, and the digits.
record Signed (text : Bytes) (v : ℕ) : Type 0 where
  sign : Bytes
  digits : Bytes
  splits : text ≡ sign ++ digits
  is_sign : (sign ≡ []) ⊎ (sign ≡ b'+' ∷ [])
  some_digits : digits ≢ []
  all_digits : all_of is_digit digits ≡ true
  value : value_from 0 digits ≡ v

after_spaces-Signed :
    (text : Bytes) (v : ℕ)
    → 0 < v
    → v < 2 ^ 63 - 1
    → after_spaces text ≡ some (pos v, [])
    → Signed text v
unfolding after_spaces
after_spaces-Signed [] v some_value lt h = cc
after_spaces-Signed (c ∷ cs) v some_value lt h = elim (Bool-cases (c == b'-')) [
  | inl e ↦ absurd (ground (arith, convert_digits-negative cs v []))
  | inr e ↦ elim (Bool-cases (c == b'+')) [
    | inl plus ↦
        let (some_digits, all_digits, value) = convert_digits-positive cs v lt (ground arith) in
        record {
          sign = b'+' ∷ [];
          digits = cs;
          splits = ground arith;
          is_sign = inr refl;
          some_digits = some_digits;
          all_digits = all_digits;
          value = value;
        }
    | inr no_sign ↦
        let (some_digits, all_digits, value) =
          convert_digits-positive (c ∷ cs) v lt (ground arith) in
        record {
          sign = [];
          digits = c ∷ cs;
          splits = refl;
          is_sign = inl refl;
          some_digits = some_digits;
          all_digits = all_digits;
          value = value;
        }
  ]
]

strtol-IsNumeral :
    (text : Bytes) (v : ℕ)
    → 0 < v
    → v < 2 ^ 63 - 1
    → strtol text ≡ some (pos v, [])
    → IsNumeral text v
unfolding strtol
strtol-IsNumeral text v some_value lt h =
    let b = skip_spaces-Skips text in
    let s = after_spaces-Signed (skip_spaces text) v some_value lt h in
    record {
      blanks = b.blanks;
      sign = s.sign;
      digits = s.digits;
      splits = b.splits ∙ ap (◌++◌ b.blanks) s.splits;
      all_blanks = b.all_blanks;
      is_sign = s.is_sign;
      some_digits = s.some_digits;
      all_digits = s.all_digits;
      value = s.value;
    }

-- Digits stand behind no blank and are no sign.
strtol-digits :
    (ds : Bytes) (v : ℕ)
    → v < 2 ^ 63 - 1
    → ds ≢ []
    → all_of is_digit ds ≡ true
    → value_from 0 ds ≡ v
    → (after_spaces (skip_spaces ds) ≡ some (pos v, []))
      × (after_spaces (skip_spaces (b'+' ∷ ds)) ≡ some (pos v, []))
unfolding after_spaces skip_spaces
strtol-digits [] v lt some_digits all e = absurd (some_digits refl)
strtol-digits (c ∷ cs) v lt some_digits all e =
    ground (arith, convert_digits-value_from (c ∷ cs) v lt some_digits all e)

pub IsNumeral-strtol :
    (text : Bytes) (v : ℕ) → v < 2 ^ 63 - 1 → IsNumeral text v → strtol text ≡ some (pos v, [])
unfolding strtol
IsNumeral-strtol text v lt n =
    let (plain, plus) = strtol-digits n.digits v lt n.some_digits n.all_digits n.value in
    rw (n.splits, skip_spaces-append n.blanks (n.sign ++ n.digits) n.all_blanks)
      (elim n.is_sign [ inl e ↦ rw e plain | inr e ↦ rw e plus ])

pub whole_value-eq-some :
    (low high v : ℕ) (r : Option (ℤ × Bytes))
    → whole_value low high r ≡ some v
    → (r ≡ some (pos v, [])) × (low ≤ v) × (v ≤ high)
unfolding whole_value
whole_value-eq-some low high v none h = cc
whole_value-eq-some low high v (some (pos n, [])) h = ground arith
whole_value-eq-some low high v (some (pos n, c ∷ cs)) h = cc
whole_value-eq-some low high v (some (negsuc n, rest)) h = cc

-- A text has a whole value from `low` to `high`, both above 0 and below what a `long` holds, exactly
-- when it is a numeral of that value.
pub whole_value-IsNumeral :
    (low high v : ℕ) (text : Bytes)
    → 0 < low
    → high < 2 ^ 63 - 1
    → (whole_value low high (strtol text) ≡ some v) ↔ (IsNumeral text v × (low ≤ v) × (v ≤ high))
unfolding whole_value
whole_value-IsNumeral low high v text above below = (
  λ h.
      let (e, l, u) = whole_value-eq-some low high v (strtol text) h in
      (strtol-IsNumeral text v (omega arith) (omega arith) e, l, u),
  λ (n, l, u). rw (IsNumeral-strtol text v (omega arith) n) (ground arith),
)
