-- ===== src/Lock/Entries.antt =====
-- The handles of a mutex, and the entries of the registry.
use mathlib.Core.List.Memᴰ
use mathlib.Core.List.{Memᴰ}
use mod_openai_realtime.Base.{
  ℕ, ◌+◌, ◌≤◌, ◌≡◌, ◌≢◌, refl, ap, ◌⊎◌, inl, inr, true, List, [], ◌∷◌, ◌++◌, some, arith, Bytes,
  str_eq_iff,
}
use mod_openai_realtime.Lock.{
  holding, Handle, Registry, find, erase, assign, use_count, lock_weak, is_free,
}

abbrev pub Is : Handle → List Handle → Type 0
Is h handles = Memᴰ h handles

-- A member of a list with one handle in the middle is that one or another.
pub split_mem :
    (before after : List Handle) (h g : Handle)
    → Is g (before ++ h ∷ after)
    → (g ≡ h) ⊎ Is g (before ++ after)
split_mem [] after h g m = Memᴰ.cases_cons m
split_mem (b ∷ before) after h g m = elim (Memᴰ.cases_cons m) [
  | inl e ↦ inr (Memᴰ.head e)
  | inr m' ↦ elim (split_mem before after h g m') [ inl e ↦ inl e | inr n ↦ inr (Memᴰ.tail n) ]
]

pub join_mem :
    (before after : List Handle) (h g : Handle)
    → Is g (before ++ after)
    → Is g (before ++ h ∷ after)
join_mem [] after h g m = Memᴰ.tail m
join_mem (b ∷ before) after h g m = elim (Memᴰ.cases_cons m) [
  | inl e ↦ Memᴰ.head e
  | inr m' ↦ Memᴰ.tail (join_mem before after h g m')
]

pub middle_mem : (before after : List Handle) (h : Handle) → Is h (before ++ h ∷ after)
middle_mem [] after h = Memᴰ.head refl
middle_mem (b ∷ before) after h = Memᴰ.tail (middle_mem before after h)

pub use_count-member :
    (h : Handle) (handles : List Handle) → Is h handles → 1 ≤ use_count h.mutex handles
unfolding use_count
use_count-member h [] m = absurd (elim m [ ])
use_count-member h (g ∷ handles) m = elim (Memᴰ.cases_cons m) [
  | inl e ↦ ground (arith, ap (λ (k : Handle). k.mutex) e)
  | inr m' ↦ ground (arith, use_count-member h handles m')
]

pub use_count-middle :
    (before after : List Handle) (h : Handle)
    → use_count h.mutex (before ++ h ∷ after) ≡ use_count h.mutex (before ++ after) + 1
unfolding use_count
use_count-middle [] after h = ground arith
use_count-middle (b ∷ before) after h = ground (arith, use_count-middle before after h)

pub find-erase :
    (uuid other : Bytes) (entries : List (Bytes × ℕ))
    → uuid ≢ other
    → find other (erase uuid entries) ≡ find other entries
unfolding find erase
find-erase uuid other [] n = refl
find-erase uuid other ((name, mutex) ∷ entries) n =
    grind
      (arith, find-erase uuid other entries n, (str_eq_iff name uuid).0, (str_eq_iff name other).0)

pub find-assign :
    (uuid : Bytes) (mutex : ℕ) (entries : List (Bytes × ℕ))
    → find uuid (assign uuid mutex entries) ≡ some mutex
unfolding find
find-assign uuid mutex entries = ground (arith, (str_eq_iff uuid uuid).1 refl)

pub find-assign_other :
    (uuid other : Bytes) (mutex : ℕ) (entries : List (Bytes × ℕ))
    → uuid ≢ other
    → find other (assign uuid mutex entries) ≡ find other entries
unfolding find
find-assign_other uuid other mutex entries n =
    grind (arith, find-erase uuid other entries n, (str_eq_iff uuid other).0)

pub is_free-holding :
    (thread mutex : ℕ) (handles : List Handle) (g : Handle)
    → is_free thread mutex handles ≡ true
    → Is g handles
    → g.phase ≡ holding
    → g.mutex ≡ mutex
    → g.owner ≡ thread
unfolding is_free
is_free-holding thread mutex [] g free m held same = absurd (elim m [ ])
is_free-holding thread mutex (h ∷ handles) g free m held same = elim (Memᴰ.cases_cons m) [
  | inl e ↦
      let phase = ap (λ (k : Handle). k.phase) e in
      let mutex = ap (λ (k : Handle). k.mutex) e in
      let owner = ap (λ (k : Handle). k.owner) e in ground arith
  | inr m' ↦ is_free-holding thread mutex handles g (ground arith) m' held same
]

-- A registered handle keeps its mutex alive.
pub lock_weak-registered :
    (h : Handle) (r : Registry)
    → Is h r.handles
    → find h.session_id r.entries ≡ some h.mutex
    → lock_weak h.session_id r ≡ some h.mutex
unfolding lock_weak
lock_weak-registered h r m e = ground (arith, use_count-member h r.handles m)

pub lock_weak-find :
    (uuid : Bytes) (r : Registry) (mutex : ℕ)
    → lock_weak uuid r ≡ some mutex
    → find uuid r.entries ≡ some mutex
unfolding lock_weak
lock_weak-find uuid r mutex e = grind arith
