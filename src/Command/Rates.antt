-- ===== src/Command/Rates.antt =====
-- Which sampling rates the start command accepts.
use mod_openai_realtime.Base.{
  ℕ, ◌-◌, ◌%◌, ◌^◌, ◌≤◌, ◌<◌, ◌≡◌, refl, sym, ap, ◌∙◌, ◌⊎◌, inl, inr, ◌↔◌, false, Option, none,
  some, arith, Bool-cases, pos, Bytes, codes, str_eq, str_eq_iff,
}
use mod_openai_realtime.Numeral.{strtol, whole_value}
use mod_openai_realtime.Numeral.Exact.{IsNumeral, whole_value-IsNumeral, IsNumeral-strtol}
use mod_openai_realtime.Command.{parse_sampling_rate, or_minus_one, check_rate}

-- The three shortcuts.
pub data Shortcut : Bytes → ℕ → Type 0 where
  rate_8k : (text : Bytes) (v : ℕ) → text ≡ codes "8k" → v ≡ 8000 → Shortcut text v
  rate_16k : (text : Bytes) (v : ℕ) → text ≡ codes "16k" → v ≡ 16000 → Shortcut text v
  rate_24k : (text : Bytes) (v : ℕ) → text ≡ codes "24k" → v ≡ 24000 → Shortcut text v

-- A multiple of 8000 from 8000 to 48000.
pub record IsMultiple (v : ℕ) : Type 0 where
  pub at_least : 8000 ≤ v
  pub at_most : v ≤ 48000
  pub whole : v % 8000 ≡ 0

check_rate-or_minus_one :
    (o : Option ℕ) (v : ℕ) → (check_rate (or_minus_one o) ≡ some v) ↔ ((o ≡ some v) × IsMultiple v)
unfolding check_rate
check_rate-or_minus_one none v = (λ h. cc, λ h. cc)
check_rate-or_minus_one (some n) v = (λ h. (ground arith, ground arith), λ (e, m). ground arith)

-- No shortcut is read to its end.
not-IsNumeral-k :
    (text : Bytes) (v : ℕ) → Shortcut text v → (w : ℕ) → w < 2 ^ 63 - 1 → ¬ IsNumeral text w
unfolding strtol
not-IsNumeral-k text v (rate_8k _ _ e _) w lt n =
    cc (ap strtol (sym e) ∙ IsNumeral-strtol text w lt n)
not-IsNumeral-k text v (rate_16k _ _ e _) w lt n =
    cc (ap strtol (sym e) ∙ IsNumeral-strtol text w lt n)
not-IsNumeral-k text v (rate_24k _ _ e _) w lt n =
    cc (ap strtol (sym e) ∙ IsNumeral-strtol text w lt n)

-- What a start takes as a rate: a shortcut, or a numeral whose value is a multiple of 8000 in range.
abbrev pub IsRate : Bytes → ℕ → Type 0
IsRate text v = Shortcut text v ⊎ (IsNumeral text v × IsMultiple v)

plain-IsRate :
    (text : Bytes) (v : ℕ)
    → (check_rate (or_minus_one (whole_value 1 48000 (strtol text))) ≡ some v)
      ↔ (IsNumeral text v × IsMultiple v)
plain-IsRate text v =
    let checked = check_rate-or_minus_one (whole_value 1 48000 (strtol text)) v in
    let read = whole_value-IsNumeral 1 48000 v text (omega arith) (omega arith) in
    (
      λ h. let (e, m) = checked.0 h in ((read.0 e).0, m),
      λ (n, m). checked.1 (read.1 (n, omega (arith, m.at_least), m.at_most), m),
    )

Shortcut-IsRate :
    (text : Bytes) (n v : ℕ)
    → ((w : ℕ) → w ≡ n → Shortcut text w)
    → ((w : ℕ) → Shortcut text w → w ≡ n)
    → IsMultiple n
    → (check_rate (pos n) ≡ some v) ↔ IsRate text v
unfolding check_rate
Shortcut-IsRate text n v make only m = (
  λ h. inl (make v (ground arith)),
  λ r. elim r [
    | inl k ↦ let e = only v k in ground arith
    | inr (numeral, in_range) ↦
        absurd (not-IsNumeral-k text n (make n refl) v (omega (arith, in_range.at_most)) numeral)
  ],
)

only_16k : (text : Bytes) → text ≡ codes "16k" → (w : ℕ) → Shortcut text w → w ≡ 16000
only_16k text e w (rate_8k _ _ h v) = ground arith
only_16k text e w (rate_16k _ _ h v) = v
only_16k text e w (rate_24k _ _ h v) = ground arith

only_8k : (text : Bytes) → text ≡ codes "8k" → (w : ℕ) → Shortcut text w → w ≡ 8000
only_8k text e w (rate_8k _ _ h v) = v
only_8k text e w (rate_16k _ _ h v) = ground arith
only_8k text e w (rate_24k _ _ h v) = ground arith

only_24k : (text : Bytes) → text ≡ codes "24k" → (w : ℕ) → Shortcut text w → w ≡ 24000
only_24k text e w (rate_8k _ _ h v) = ground arith
only_24k text e w (rate_16k _ _ h v) = ground arith
only_24k text e w (rate_24k _ _ h v) = v

no-Shortcut :
    (text : Bytes) (v : ℕ)
    → str_eq text (codes "16k") ≡ false
    → str_eq text (codes "8k") ≡ false
    → str_eq text (codes "24k") ≡ false
    → ¬ Shortcut text v
no-Shortcut text v a b c (rate_8k _ _ e _) = cc (sym b ∙ (str_eq_iff text (codes "8k")).1 e)
no-Shortcut text v a b c (rate_16k _ _ e _) = cc (sym a ∙ (str_eq_iff text (codes "16k")).1 e)
no-Shortcut text v a b c (rate_24k _ _ e _) = cc (sym c ∙ (str_eq_iff text (codes "24k")).1 e)

-- The start command takes a text as the rate `v`, through `parse_sampling_rate` and the check behind
-- it, exactly when the text is the shortcut 8k, 16k or 24k for `v`, or a decimal numeral (blanks in
-- front and a plus sign allowed) whose value `v` is a multiple of 8000 from 8000 to 48000.
pub parse_sampling_rate-IsRate :
    (text : Bytes) (v : ℕ) → (check_rate (parse_sampling_rate text) ≡ some v) ↔ IsRate text v
unfolding parse_sampling_rate
parse_sampling_rate-IsRate text v = elim (Bool-cases (str_eq text (codes "16k"))) [
  | inl a ↦
      let e = (str_eq_iff text (codes "16k")).0 a in
      rw a (Shortcut-IsRate text 16000 v (λ w. rate_16k text w e) (only_16k text e) (omega arith))
  | inr a ↦ elim (Bool-cases (str_eq text (codes "8k"))) [
    | inl b ↦
        let e = (str_eq_iff text (codes "8k")).0 b in
        rw (a, b)
          (Shortcut-IsRate text 8000 v (λ w. rate_8k text w e) (only_8k text e) (omega arith))
    | inr b ↦ elim (Bool-cases (str_eq text (codes "24k"))) [
      | inl c ↦
          let e = (str_eq_iff text (codes "24k")).0 c in
          rw (a, b, c)
            (Shortcut-IsRate text 24000 v (λ w. rate_24k text w e) (only_24k text e) (omega arith))
      | inr c ↦
          let plain = plain-IsRate text v in
          rw (a, b, c)
            (
              λ h. inr (plain.0 h),
              λ r. elim r [ inl k ↦ absurd (no-Shortcut text v a b c k) | inr n ↦ plain.1 n ],
            )
    ]
  ]
]
