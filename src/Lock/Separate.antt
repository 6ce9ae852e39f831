-- ===== src/Lock/Separate.antt =====
-- Sessions do not wait for one another's locks.
use mathlib.Core.List.Memᴰ
use mathlib.Core.List.{Memᴰ}
use mathlib.Core.Option.{some-injective}
use mod_openai_realtime.Base.{
  ℕ, ◌+◌, ◌<◌, ◌≡◌, ◌≢◌, refl, sym, subst, ap, ◌∙◌, ◌⊎◌, inl, inr, List, [], ◌∷◌, ◌++◌, none, some,
  arith, Bytes, str_eq, str_eq_iff, Bool-cases, Option-cases,
}
use mod_openai_realtime.Lock.{
  Phase, holding, unlocked, checked, Handle, Registry, find, erase, assign, lock_weak,
  acquire_lifecycle_lock, check_entry, Step, entering, taking, unlocking, checking, deleting,
  Reachable, initial, then_step, new_handle,
}
use mod_openai_realtime.Lock.Entries.{
  Is, split_mem, join_mem, middle_mem, find-assign, find-assign_other, find-erase, lock_weak-find,
}

-- What an entry says is of its session only, and a mutex that is not used again is above all.
record IsSeparate (r : Registry) : Type 0 where
  below : (h : Handle) → Is h r.handles → h.mutex < r.next
  entry_below : (uuid : Bytes) (m : ℕ) → find uuid r.entries ≡ some m → m < r.next
  same_session :
      (g h : Handle)
      → Is g r.handles
      → Is h r.handles
      → g.mutex ≡ h.mutex
      → g.session_id ≡ h.session_id
  of_session :
      (uuid : Bytes) (h : Handle)
      → find uuid r.entries ≡ some h.mutex
      → Is h r.handles
      → h.session_id ≡ uuid
  one_entry : (a b : Bytes) (m : ℕ) → find a r.entries ≡ some m → find b r.entries ≡ some m → a ≡ b

-- Fewer entries, and the same handles up to their phases.
fewer-IsSeparate :
    (r : Registry) (entries : List (Bytes × ℕ)) (handles : List Handle)
    → ((uuid : Bytes) (m : ℕ) → find uuid entries ≡ some m → find uuid r.entries ≡ some m)
    → ((h : Handle)
        → Is h handles
        → (g : Handle) × Is g r.handles × (h.mutex ≡ g.mutex) × (h.session_id ≡ g.session_id))
    → IsSeparate r
    → IsSeparate (record r { entries = entries; handles = handles })
fewer-IsSeparate r entries handles old known s = record {
  below = λ h m. let (g, n, e, i) = known h m in subst (λ k. k < r.next) (sym e) (s.below g n);
  entry_below = λ uuid m e. s.entry_below uuid m (old uuid m e);
  same_session = λ g h mg mh e.
      let (g', ng, eg, ig) = known g mg in
      let (h', nh, eh, ih) = known h mh in
      ig ∙ s.same_session g' h' ng nh (sym eg ∙ e ∙ eh) ∙ sym ih;
  of_session = λ uuid h e m.
      let (g, n, e', i) = known h m in i ∙ s.of_session uuid g (old uuid h.mutex e ∙ ap some e') n;
  one_entry = λ a b m ea eb. s.one_entry a b m (old a m ea) (old b m eb);
}

find-erase_same :
    (uuid : Bytes) (entries : List (Bytes × ℕ)) → find uuid (erase uuid entries) ≡ none
unfolding find erase
find-erase_same uuid [] = refl
find-erase_same uuid ((name, mutex) ∷ entries) = grind (arith, find-erase_same uuid entries)

find-erase_old :
    (uuid other : Bytes) (entries : List (Bytes × ℕ)) (m : ℕ)
    → find other (erase uuid entries) ≡ some m
    → find other entries ≡ some m
find-erase_old uuid other entries m e = elim (Bool-cases (str_eq uuid other)) [
  | inl same ↦
      let e' = (str_eq_iff uuid other).0 same in
      cc (sym (find-erase_same uuid entries) ∙ ap (λ n. find n (erase uuid entries)) e' ∙ e)
  | inr differ ↦
      sym (find-erase uuid other entries (λ e'. cc (sym differ ∙ (str_eq_iff uuid other).1 e'))) ∙ e
]

check_entry-old :
    (h : Handle) (r : Registry) (uuid : Bytes) (m : ℕ)
    → find uuid (check_entry h r) ≡ some m
    → find uuid r.entries ≡ some m
unfolding check_entry
check_entry-old h r uuid m e = grind (arith, e, find-erase_old h.session_id uuid r.entries m)

-- The handle in the middle is known whatever its phase.
phase-known :
    (r : Registry) (before after : List Handle) (h : Handle) (phase : Phase) (g : Handle)
    → r.handles ≡ before ++ h ∷ after
    → Is g (before ++ record h { phase = phase } ∷ after)
    → (k : Handle) × Is k r.handles × (g.mutex ≡ k.mutex) × (g.session_id ≡ k.session_id)
phase-known r before after h phase g e m =
    elim (split_mem before after (record h { phase = phase }) g m) [
      | inl same ↦ (
        h,
        subst (Is h) (sym e) (middle_mem before after h),
        ap (λ (x : Handle). x.mutex) same,
        ap (λ (x : Handle). x.session_id) same,
      )
      | inr other ↦ (g, subst (Is g) (sym e) (join_mem before after h g other), refl, refl)
    ]

assign-cases :
    (uuid other : Bytes) (n m : ℕ) (entries : List (Bytes × ℕ))
    → find other (assign uuid n entries) ≡ some m
    → ((other ≡ uuid) × (m ≡ n)) ⊎ (find other entries ≡ some m)
assign-cases uuid other n m entries e = elim (Bool-cases (str_eq uuid other)) [
  | inl same ↦
      let e' = (str_eq_iff uuid other).0 same in
      inl (
        sym e',
        some-injective m n (
            sym e ∙ ap (λ u. find u (assign uuid n entries)) (sym e') ∙ find-assign uuid n entries),
      )
  | inr differ ↦ inr (
      sym (
        find-assign_other uuid other n entries
          (λ e'. cc (sym differ ∙ (str_eq_iff uuid other).1 e')))
      ∙ e)
]

-- A handle of a mutex that was never used.
added_new-IsSeparate :
    (thread : ℕ) (uuid : Bytes) (r : Registry)
    → IsSeparate r
    → IsSeparate (record {
      entries = assign uuid r.next r.entries;
      handles = new_handle thread uuid r.next ∷ r.handles;
      next = r.next + 1;
    })
added_new-IsSeparate thread uuid r s =
    let unused : (h : Handle) → Is h r.handles → h.mutex ≢ r.next =
      λ h m e. absurd (omega (arith, s.below h m, e)) in
    record {
      below = λ h m. elim (Memᴰ.cases_cons m) [
        | inl e ↦ let e' = ap (λ (x : Handle). x.mutex) e in omega (arith, e')
        | inr m' ↦ omega (arith, s.below h m')
      ];
      entry_below = λ u m e. elim (assign-cases uuid u r.next m r.entries e) [
        | inl (_, e') ↦ omega (arith, e')
        | inr old ↦ omega (arith, s.entry_below u m old)
      ];
      same_session = λ g h mg mh e. elim (Memᴰ.cases_cons mg) [
        | inl eg ↦ elim (Memᴰ.cases_cons mh) [
          | inl eh ↦ ap (λ (x : Handle). x.session_id) (eg ∙ sym eh)
          | inr mh' ↦ absurd (unused h mh' (sym e ∙ ap (λ (x : Handle). x.mutex) eg))
        ]
        | inr mg' ↦ elim (Memᴰ.cases_cons mh) [
          | inl eh ↦ absurd (unused g mg' (e ∙ ap (λ (x : Handle). x.mutex) eh))
          | inr mh' ↦ s.same_session g h mg' mh' e
        ]
      ];
      of_session = λ u h e m. elim (Memᴰ.cases_cons m) [
        | inl eh ↦ elim (assign-cases uuid u r.next h.mutex r.entries e) [
          | inl (same, _) ↦ ap (λ (x : Handle). x.session_id) eh ∙ sym same
          | inr old ↦
              let e' = ap (λ (x : Handle). x.mutex) eh in
              absurd (omega (arith, s.entry_below u h.mutex old, e'))
        ]
        | inr m' ↦ elim (assign-cases uuid u r.next h.mutex r.entries e) [
          | inl (_, e') ↦ absurd (unused h m' e')
          | inr old ↦ s.of_session u h old m'
        ]
      ];
      one_entry = λ a b m ea eb. elim (assign-cases uuid a r.next m r.entries ea) [
        | inl (sa, na) ↦ elim (assign-cases uuid b r.next m r.entries eb) [
          | inl (sb, nb) ↦ sa ∙ sym sb
          | inr ob ↦ absurd (omega (arith, s.entry_below b m ob, na))
        ]
        | inr oa ↦ elim (assign-cases uuid b r.next m r.entries eb) [
          | inl (sb, nb) ↦ absurd (omega (arith, s.entry_below a m oa, nb))
          | inr ob ↦ s.one_entry a b m oa ob
        ]
      ];
    }

-- A handle of the mutex that is registered.
added_old-IsSeparate :
    (thread : ℕ) (uuid : Bytes) (mutex : ℕ) (r : Registry)
    → find uuid r.entries ≡ some mutex
    → IsSeparate r
    → IsSeparate (record r { handles = new_handle thread uuid mutex ∷ r.handles })
added_old-IsSeparate thread uuid mutex r found s =
    let alike : (g h : Handle)
        → g ≡ new_handle thread uuid mutex
        → Is h r.handles
        → g.mutex ≡ h.mutex
        → h.session_id ≡ g.session_id =
      λ g h eg mh e.
        s.of_session uuid h (found ∙ ap some (sym (ap (λ (x : Handle). x.mutex) eg) ∙ e)) mh
        ∙ sym (ap (λ (x : Handle). x.session_id) eg) in
    record {
      below = λ h m. elim (Memᴰ.cases_cons m) [
        | inl e ↦
            let e' = ap (λ (x : Handle). x.mutex) e in
            omega (arith, s.entry_below uuid mutex found, e')
        | inr m' ↦ s.below h m'
      ];
      entry_below = s.entry_below;
      same_session = λ g h mg mh e. elim (Memᴰ.cases_cons mg) [
        | inl eg ↦ elim (Memᴰ.cases_cons mh) [
          | inl eh ↦ ap (λ (x : Handle). x.session_id) (eg ∙ sym eh)
          | inr mh' ↦ sym (alike g h eg mh' e)
        ]
        | inr mg' ↦ elim (Memᴰ.cases_cons mh) [
          | inl eh ↦ alike h g eh mg' (sym e)
          | inr mh' ↦ s.same_session g h mg' mh' e
        ]
      ];
      of_session = λ u h e m. elim (Memᴰ.cases_cons m) [
        | inl eh ↦
            ap (λ (x : Handle). x.session_id) eh
            ∙ s.one_entry uuid u mutex found (e ∙ ap some (ap (λ (x : Handle). x.mutex) eh))
        | inr m' ↦ s.of_session u h e m'
      ];
      one_entry = s.one_entry;
    }

Step-IsSeparate : (r r' : Registry) → Step r r' → IsSeparate r → IsSeparate r'
unfolding acquire_lifecycle_lock
Step-IsSeparate r _ (entering thread uuid) s = elim (Option-cases (lock_weak uuid r)) [
  | inl e ↦ simp (acquire_lifecycle_lock, e) (added_new-IsSeparate thread uuid r s)
  | inr (mutex, e) ↦
      simp (acquire_lifecycle_lock, e)
        (added_old-IsSeparate thread uuid mutex r (lock_weak-find uuid r mutex e) s)
]
Step-IsSeparate r _ (taking before after h e w free) s =
    fewer-IsSeparate r r.entries _ (λ u m o. o) (λ g. phase-known r before after h holding g e) s
Step-IsSeparate r _ (unlocking before after h e w) s =
    fewer-IsSeparate r r.entries _ (λ u m o. o) (λ g. phase-known r before after h unlocked g e) s
Step-IsSeparate r _ (checking before after h e w) s =
    fewer-IsSeparate r (check_entry h r) _ (check_entry-old h r)
      (λ g. phase-known r before after h checked g e) s
Step-IsSeparate r _ (deleting before after h e w) s =
    fewer-IsSeparate r r.entries _ (λ u m o. o)
      (λ g m. (g, subst (Is g) (sym e) (join_mem before after h g m), refl, refl)) s

Reachable-IsSeparate : (r : Registry) → Reachable r → IsSeparate r
unfolding find
Reachable-IsSeparate r initial = record {
  below = λ h m. absurd (elim m [ ]);
  entry_below = λ u m e. cc e;
  same_session = λ g h mg. absurd (elim mg [ ]);
  of_session = λ u h e. cc e;
  one_entry = λ a b m e. cc e;
}
Reachable-IsSeparate r (then_step before step) =
    Step-IsSeparate _ r step (Reachable-IsSeparate _ before)

-- However the threads interleave, from an empty registry on: handles of different sessions have
-- different mutexes, so that no session waits for the lock of another.
pub Reachable-separate :
    (r : Registry) (g h : Handle)
    → Reachable r
    → Memᴰ g r.handles
    → Memᴰ h r.handles
    → g.session_id ≢ h.session_id
    → g.mutex ≢ h.mutex
Reachable-separate r g h reached mg mh differ same =
    differ ((Reachable-IsSeparate r reached).same_session g h mg mh same)
