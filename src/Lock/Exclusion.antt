-- ===== src/Lock/Exclusion.antt =====
-- At most one thread holds the lifecycle lock of a session.
use mathlib.Core.List.Memᴰ
use mathlib.Core.Option.{some-injective}
use mathlib.Core.List.{Memᴰ}
use mod_openai_realtime.Base.{
  ℕ, ◌+◌, ◌≤◌, ◌≡◌, ◌≢◌, refl, sym, subst, ap, ◌∙◌, inl, inr, true, List, ◌∷◌, ◌++◌, some, arith,
  Bytes, str_eq, str_eq_iff, Bool-cases, Option-cases,
}
use mod_openai_realtime.Lock.{
  Phase, waiting, holding, unlocked, checked, Handle, Registry, find, assign, use_count, lock_weak,
  acquire_lifecycle_lock, is_free, check_entry, set_phase, Step, entering, taking, unlocking,
  checking, deleting, Reachable, initial, then_step, new_handle,
}
use mod_openai_realtime.Lock.Entries.{
  Is, split_mem, join_mem, middle_mem, use_count-member, use_count-middle, find-erase, find-assign,
  find-assign_other, is_free-holding, lock_weak-registered, lock_weak-find,
}

-- A handle that has not left the registry behind has the mutex that is registered for its session.
abbrev Registered : List (Bytes × ℕ) → Handle → Type 0
Registered entries h = h.phase ≢ checked → find h.session_id entries ≡ some h.mutex

abbrev Exclusive : List Handle → Type 0
Exclusive handles =
    (g h : Handle)
    → Is g handles
    → Is h handles
    → g.phase ≡ holding
    → h.phase ≡ holding
    → g.mutex ≡ h.mutex
    → g.owner ≡ h.owner

record IsSound (r : Registry) : Type 0 where
  registered : (h : Handle) → Is h r.handles → Registered r.entries h
  exclusive : Exclusive r.handles

-- The handle in the middle in another phase, and in its entries.
replaced-IsSound :
    (r : Registry) (entries : List (Bytes × ℕ)) (before after : List Handle) (h : Handle)
    (phase : Phase)
    → r.handles ≡ before ++ h ∷ after
    → ((g : Handle) → Is g (before ++ after) → Registered entries g)
    → (phase ≢ checked → find h.session_id entries ≡ some h.mutex)
    → (phase ≡ holding → is_free h.owner h.mutex (before ++ after) ≡ true)
    → IsSound r
    → IsSound (set_phase (record r { entries = entries }) before h phase after)
replaced-IsSound r entries before after h phase e others same free s =
    let h' : Handle = record h { phase = phase } in
    let old : (g : Handle) → Is g (before ++ after) → Is g r.handles =
      λ g m. subst (Is g) (sym e) (join_mem before after h g m) in
    record {
      registered = λ g m. elim (split_mem before after h' g m) [
        | inl same_handle ↦ subst (Registered entries) (sym same_handle) same
        | inr other ↦ others g other
      ];
      exclusive = λ g k mg mk hg hk sm. elim (split_mem before after h' g mg) [
        | inl eg ↦ elim (split_mem before after h' k mk) [
          | inl ek ↦ ap (λ (x : Handle). x.owner) (eg ∙ sym ek)
          | inr ok ↦
              let held = sym (ap (λ (x : Handle). x.phase) eg) ∙ hg in
              ap (λ (x : Handle). x.owner) eg
              ∙ sym (
                  is_free-holding h.owner h.mutex (before ++ after) k (free held) ok hk
                    (sym sm ∙ ap (λ (x : Handle). x.mutex) eg))
        ]
        | inr og ↦ elim (split_mem before after h' k mk) [
          | inl ek ↦
              let held = sym (ap (λ (x : Handle). x.phase) ek) ∙ hk in
              is_free-holding h.owner h.mutex (before ++ after) g (free held) og hg
                (sm ∙ ap (λ (x : Handle). x.mutex) ek)
              ∙ sym (ap (λ (x : Handle). x.owner) ek)
          | inr ok ↦ s.exclusive g k (old g og) (old k ok) hg hk sm
        ]
      ];
    }

-- A new handle, which waits.
added-IsSound :
    (entries : List (Bytes × ℕ)) (next : ℕ) (r : Registry) (h : Handle)
    → ((g : Handle) → Is g r.handles → Registered entries g)
    → Registered entries h
    → h.phase ≡ waiting
    → IsSound r
    → IsSound (record { entries = entries; handles = h ∷ r.handles; next = next })
added-IsSound entries next r h others own w s = record {
  registered = λ g m. elim (Memᴰ.cases_cons m) [
    | inl e ↦ subst (Registered entries) (sym e) own
    | inr m' ↦ others g m'
  ];
  exclusive = λ g k mg mk hg hk sm. elim (Memᴰ.cases_cons mg) [
    | inl e ↦ cc (sym w ∙ sym (ap (λ (x : Handle). x.phase) e) ∙ hg)
    | inr mg' ↦ elim (Memᴰ.cases_cons mk) [
      | inl e ↦ cc (sym w ∙ sym (ap (λ (x : Handle). x.phase) e) ∙ hk)
      | inr mk' ↦ s.exclusive g k mg' mk' hg hk sm
    ]
  ];
}

-- Erasing the entry of the last handle of its mutex takes it from no other handle.
check_entry-others :
    (r : Registry) (before after : List Handle) (h g : Handle)
    → r.handles ≡ before ++ h ∷ after
    → Is g (before ++ after)
    → Registered r.entries h
    → h.phase ≡ unlocked
    → Registered r.entries g
    → Registered (check_entry h r) g
unfolding check_entry
check_entry-others r before after h g e m rh u rg active =
    let mine = rh (λ c. cc (sym u ∙ c)) in
    let own = rg active in
    elim (Bool-cases (str_eq h.session_id g.session_id)) [
      | inl same ↦
          let one = some-injective h.mutex g.mutex (
            sym mine
            ∙ ap (λ n. find n r.entries) ((str_eq_iff h.session_id g.session_id).0 same)
            ∙ own) in
          let two =
            subst (λ n. 1 ≤ use_count n (before ++ after)) (sym one)
              (use_count-member g (before ++ after) m) in
          let three = ap (use_count h.mutex) e ∙ use_count-middle before after h in ground arith
      | inr other ↦ grind (
        arith,
        own,
        find-erase h.session_id g.session_id r.entries
            (λ e'. cc (sym other ∙ (str_eq_iff h.session_id g.session_id).1 e')),
      )
    ]

acquire-IsSound :
    (thread : ℕ) (uuid : Bytes) (r : Registry)
    → IsSound r
    → IsSound (acquire_lifecycle_lock thread uuid r)
unfolding acquire_lifecycle_lock
acquire-IsSound thread uuid r s = elim (Option-cases (lock_weak uuid r)) [
  | inl e ↦
      simp (acquire_lifecycle_lock, e)
        (added-IsSound (assign uuid r.next r.entries) (r.next + 1) r (new_handle thread uuid r.next)
          (λ g m active.
            find-assign_other uuid g.session_id r.next r.entries (λ same. cc (
              sym e
              ∙ ap (λ n. lock_weak n r) same
              ∙ lock_weak-registered g r m (s.registered g m active)))
            ∙ s.registered g m active)
          (λ active. find-assign uuid r.next r.entries) refl s)
  | inr (mutex, e) ↦
      simp (acquire_lifecycle_lock, e)
        (added-IsSound r.entries r.next r (new_handle thread uuid mutex) s.registered
          (λ active. lock_weak-find uuid r mutex e) refl s)
]

Step-IsSound : (r r' : Registry) → Step r r' → IsSound r → IsSound r'
Step-IsSound r _ (entering thread uuid) s = acquire-IsSound thread uuid r s
Step-IsSound r _ (taking before after h e w free) s =
    replaced-IsSound r r.entries before after h holding e
      (λ g m. s.registered g (subst (Is g) (sym e) (join_mem before after h g m)))
      (λ active.
        s.registered h (subst (Is h) (sym e) (middle_mem before after h)) (λ c. cc (sym w ∙ c)))
      (λ held. free) s
Step-IsSound r _ (unlocking before after h e w) s =
    replaced-IsSound r r.entries before after h unlocked e
      (λ g m. s.registered g (subst (Is g) (sym e) (join_mem before after h g m)))
      (λ active.
        s.registered h (subst (Is h) (sym e) (middle_mem before after h)) (λ c. cc (sym w ∙ c)))
      (λ held. cc held) s
Step-IsSound r _ (checking before after h e w) s =
    replaced-IsSound r (check_entry h r) before after h checked e
      (λ g m.
        check_entry-others r before after h g e m
          (s.registered h (subst (Is h) (sym e) (middle_mem before after h))) w
          (s.registered g (subst (Is g) (sym e) (join_mem before after h g m))))
      (λ active. absurd (active refl)) (λ held. cc held) s
Step-IsSound r _ (deleting before after h e w) s =
    let old : (g : Handle) → Is g (before ++ after) → Is g r.handles =
      λ g m. subst (Is g) (sym e) (join_mem before after h g m) in
    record {
      registered = λ g m. s.registered g (old g m);
      exclusive = λ g k mg mk. s.exclusive g k (old g mg) (old k mk);
    }

Reachable-IsSound : (r : Registry) → Reachable r → IsSound r
Reachable-IsSound r initial = record {
  registered = λ h m. absurd (elim m [ ]);
  exclusive = λ g h mg. absurd (elim mg [ ]);
}
Reachable-IsSound r (then_step before step) = Step-IsSound _ r step (Reachable-IsSound _ before)

-- However the threads interleave, from an empty registry on: two handles of one session that hold
-- their lock belong to the same thread.
pub Reachable-exclusive :
    (r : Registry) (g h : Handle)
    → Reachable r
    → Memᴰ g r.handles
    → Memᴰ h r.handles
    → g.session_id ≡ h.session_id
    → g.phase ≡ holding
    → h.phase ≡ holding
    → g.owner ≡ h.owner
Reachable-exclusive r g h reached mg mh same hg hh =
    let s = Reachable-IsSound r reached in
    let eg = s.registered g mg (λ c. cc (sym hg ∙ c)) in
    let eh = s.registered h mh (λ c. cc (sym hh ∙ c)) in
    s.exclusive g h mg mh hg hh
      (some-injective g.mutex h.mutex (sym eg ∙ ap (λ n. find n r.entries) same ∙ eh))
