-- ===== src/Base/Options.antt =====
-- Optional values: splits that keep the equation, and chains of steps that may fail.
use mathlib.Core.Path.{◌≡◌, refl}
use mathlib.Core.Logic.{◌⊎◌, inl, inr}
use mathlib.Core.Bool.{Bool, true, false}
use mathlib.Core.Option.{Option, none, some}

pub Option-cases {ℓ} : {A : Type ℓ} (o : Option A) → (o ≡ none) ⊎ ((a : A) × (o ≡ some a))
Option-cases none = inl refl
Option-cases (some a) = inr (a, refl)

infixl 5 ◌>>=◌
abbrev pub ◌>>=◌ {ℓ κ} : {A : Type ℓ} {B : Type κ} → Option A → (A → Option B) → Option B
none >>= f = none
some a >>= f = f a

abbrev pub guard {ℓ} : {A : Type ℓ} → Bool → A → Option A
guard true a = some a
guard false a = none

pub >>=-eq-some {ℓ κ} :
    {A : Type ℓ} {B : Type κ} (m : Option A) (f : A → Option B) {b : B}
    → (m >>= f) ≡ some b
    → (a : A) × (m ≡ some a) × (f a ≡ some b)
>>=-eq-some none f h = cc
>>=-eq-some (some a) f h = (a, refl, h)

pub guard-eq-some {ℓ} :
    {A : Type ℓ} (t : Bool) (a : A) {b : A} → guard t a ≡ some b → (t ≡ true) × (a ≡ b)
guard-eq-some true a h = (refl, cc)
guard-eq-some false a h = cc

-- What holds in both cases.
pub option-both {ℓ κ} :
    {A : Type ℓ} {B : Type 0} (P : A → Type κ) (o : Option B) (x : A) (f : B → A)
    → P x
    → ((b : B) → P (f b))
    → P (elim o [ none ↦ x | some b ↦ f b ])
option-both P none x f px pf = px
option-both P (some b) x f px pf = pf b
