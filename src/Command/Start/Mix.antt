-- ===== src/Command/Start/Mix.antt =====
-- The three mix types.
use mod_openai_realtime.Base.{
  ◌≡◌, ◌≢◌, refl, sym, ap, ◌∙◌, ◌↔◌, false, some, Bool-cases, inl, inr, Bytes, codes, str_eq,
  str_eq_iff,
}
use mathlib.Core.Option.{some-injective}
use mod_openai_realtime.Command.{MixType, mono, mixed, stereo, parse_mix_type}
use mod_openai_realtime.Command.Start.{mix_name}

mix_name_same : (n m : MixType) → mix_name n ≡ mix_name m → some n ≡ some m
mix_name_same mono mono e = refl
mix_name_same mixed mixed e = refl
mix_name_same stereo stereo e = refl
mix_name_same mono mixed e = cc
mix_name_same mono stereo e = cc
mix_name_same mixed mono e = cc
mix_name_same mixed stereo e = cc
mix_name_same stereo mono e = cc
mix_name_same stereo mixed e = cc

unnamed :
    (name : Bytes) (m : MixType)
    → str_eq name (codes "mixed") ≡ false
    → str_eq name (codes "stereo") ≡ false
    → str_eq name (codes "mono") ≡ false
    → name ≢ mix_name m
unnamed name mixed a b c e = cc (sym a ∙ (str_eq_iff name (codes "mixed")).1 e)
unnamed name stereo a b c e = cc (sym b ∙ (str_eq_iff name (codes "stereo")).1 e)
unnamed name mono a b c e = cc (sym c ∙ (str_eq_iff name (codes "mono")).1 e)

mix_name_only :
    (m n : MixType) (name : Bytes) → name ≡ mix_name n → (some n ≡ some m) ↔ (name ≡ mix_name m)
mix_name_only m n name e =
    (λ h. e ∙ ap mix_name (some-injective n m h), λ h. mix_name_same n m (sym e ∙ h))

pub parse_mix_type_iff :
    (name : Bytes) (m : MixType) → (parse_mix_type name ≡ some m) ↔ (name ≡ mix_name m)
unfolding parse_mix_type
parse_mix_type_iff name m = elim (Bool-cases (str_eq name (codes "mixed"))) [
  | inl a ↦ let e = (str_eq_iff name (codes "mixed")).0 a in rw a (mix_name_only m mixed name e)
  | inr a ↦ elim (Bool-cases (str_eq name (codes "stereo"))) [
    | inl b ↦
        let e = (str_eq_iff name (codes "stereo")).0 b in rw (a, b) (mix_name_only m stereo name e)
    | inr b ↦ elim (Bool-cases (str_eq name (codes "mono"))) [
      | inl c ↦
          let e = (str_eq_iff name (codes "mono")).0 c in rw (a, b, c) (mix_name_only m mono name e)
      | inr c ↦ rw (a, b, c) (λ h. cc, λ e. absurd (unnamed name m a b c e))
    ]
  ]
]
