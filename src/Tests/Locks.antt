-- ===== src/Tests/Locks.antt =====
-- The lifecycle locks in concrete runs.
use mathlib.Core.List.{Memᴰ}
use mod_openai_realtime.Base.{ℕ, ◌≡◌, ◌≢◌, refl, List, [], ◌∷◌, none, some, codes}
use mod_openai_realtime.Lock.{
  Phase, waiting, holding, unlocked, checked, Handle, Registry, Step, entering, taking, unlocking,
  checking, deleting, Reachable, initial, then_step, empty_registry, acquire_lifecycle_lock, find,
  lock_weak, is_free, check_entry, erase,
}
use mod_openai_realtime.Lock.Exclusion.{Reachable-exclusive}
use mod_openai_realtime.Lock.Separate.{Reachable-separate}

abbrev handle : ℕ → Phase → Handle
handle thread phase = record { session_id = codes "id"; mutex = 0; owner = thread; phase = phase }

abbrev registry : List Handle → Registry
registry handles = record { entries = (codes "id", 0) ∷ []; handles = handles; next = 1 }

entered : Step empty_registry (registry (handle 1 waiting ∷ []))
unfolding acquire_lifecycle_lock erase
entered = entering 1 (codes "id")

taken : Step (registry (handle 1 waiting ∷ [])) (registry (handle 1 holding ∷ []))
unfolding is_free
taken = taking [] [] (handle 1 waiting) refl refl refl

held-Reachable : Reachable (registry (handle 1 holding ∷ []))
held-Reachable = then_step (then_step initial entered) taken

entered_again :
    (thread : ℕ)
    → Step
        (registry (handle 1 holding ∷ []))
        (registry (handle thread waiting ∷ handle 1 holding ∷ []))
unfolding acquire_lifecycle_lock
entered_again thread = entering thread (codes "id")

-- A command's lock, and the one that the cleanup takes inside.
nested-Reachable : Reachable (registry (handle 1 holding ∷ handle 1 holding ∷ []))
unfolding is_free
nested-Reachable =
    then_step (then_step held-Reachable (entered_again 1))
      (taking [] (handle 1 holding ∷ []) (handle 1 waiting) refl refl refl)

Reachable-exclusive_example : (handle 1 holding).owner ≡ (handle 1 holding).owner
Reachable-exclusive_example =
    Reachable-exclusive (registry (handle 1 holding ∷ handle 1 holding ∷ [])) (handle 1 holding)
      (handle 1 holding) nested-Reachable (Memᴰ.head refl) (Memᴰ.tail (Memᴰ.head refl)) refl refl
      refl

-- Two threads that release the lock at the same time: no handle is left, but the entry is.
two-unlocked : Reachable (registry (handle 2 unlocked ∷ handle 1 unlocked ∷ []))
unfolding is_free
two-unlocked =
    then_step
      (then_step
        (then_step (then_step held-Reachable (entered_again 2))
          (unlocking (handle 2 waiting ∷ []) [] (handle 1 holding) refl refl))
        (taking [] (handle 1 unlocked ∷ []) (handle 2 waiting) refl refl refl))
      (unlocking [] (handle 1 unlocked ∷ []) (handle 2 holding) refl refl)

two-checked : Reachable (registry (handle 2 checked ∷ handle 1 checked ∷ []))
unfolding check_entry
two-checked =
    then_step
      (then_step two-unlocked (checking (handle 2 unlocked ∷ []) [] (handle 1 unlocked) refl refl))
      (checking [] (handle 1 checked ∷ []) (handle 2 unlocked) refl refl)

left-Reachable : Reachable (registry [])
left-Reachable =
    then_step
      (then_step two-checked (deleting [] (handle 1 checked ∷ []) (handle 2 checked) refl refl))
      (deleting [] [] (handle 1 checked) refl refl)

left_entry :
    (find (codes "id") (registry []).entries ≡ some 0)
    × (lock_weak (codes "id") (registry []) ≡ none)
unfolding find lock_weak
left_entry = (refl, refl)

abbrev other_handle : Handle
other_handle = record { session_id = codes "other"; mutex = 1; owner = 2; phase = waiting }

abbrev two_sessions : Registry
two_sessions = record {
  entries = (codes "other", 1) ∷ (codes "id", 0) ∷ [];
  handles = other_handle ∷ handle 1 holding ∷ [];
  next = 2;
}

two_sessions-Reachable : Reachable two_sessions
unfolding acquire_lifecycle_lock erase
two_sessions-Reachable = then_step held-Reachable (entering 2 (codes "other"))

Reachable-separate_example : other_handle.mutex ≢ (handle 1 holding).mutex
Reachable-separate_example =
    Reachable-separate two_sessions other_handle (handle 1 holding) two_sessions-Reachable
      (Memᴰ.head refl) (Memᴰ.tail (Memᴰ.head refl)) (λ e. cc e)
