-- ===== src/Module/Load.antt =====
-- Loading the module takes all its event subclasses or none, and a shutdown gives them back.
use mod_openai_realtime.Base.{
  ◌≡◌, ◌≢◌, refl, sym, ap, ◌∙◌, Bool, true, false, ◌||◌, List, [], ◌∷◌, ◌++◌, if◌then◌else◌,
  Bool-cases, inl, inr, subst,
}
use mod_openai_realtime.Streamer.{
  EventName, connect, disconnect, error, json, play, openai_speech_start, openai_speech_stop,
}
use mod_openai_realtime.Module.{
  Owner, nobody, this_module, another, freed, same_name, EventRegistry, Loading, stream_api_config,
  raw_stream_api_config, free_all, free_event_subclasses, reserve_all, reserved_subclasses, load,
  shutdown,
}

same_name-eq : (e x : EventName) → same_name e x ≡ true → e ≡ x
same_name-eq connect connect h = refl
same_name-eq disconnect disconnect h = refl
same_name-eq error error h = refl
same_name-eq json json h = refl
same_name-eq play play h = refl
same_name-eq openai_speech_start openai_speech_start h = refl
same_name-eq openai_speech_stop openai_speech_stop h = refl
same_name-eq _ _ h = cc h

freed-other : (o : Owner) → o ≢ this_module → freed o ≡ o
freed-other nobody h = refl
freed-other this_module h = absurd (h refl)
freed-other another h = refl

if-or :
    (a b : Bool) (p q : Owner)
    → p ≡ (if a then this_module else q)
    → (if b then this_module else p) ≡ (if a || b then this_module else q)
if-or true true p q h = refl
if-or true false p q h = h
if-or false true p q h = refl
if-or false false p q h = h

module _ (r : EventRegistry) where
  -- Every name is among those freed.
  free_event_subclasses-owner :
      (x : EventName) (t : r.Table) → r.owner (free_event_subclasses r t) x ≡ freed (r.owner t x)
  unfolding free_event_subclasses free_all
  free_event_subclasses-owner connect t = simp r.free-owner
  free_event_subclasses-owner disconnect t = simp r.free-owner
  free_event_subclasses-owner error t = simp r.free-owner
  free_event_subclasses-owner json t = simp r.free-owner
  free_event_subclasses-owner play t = simp r.free-owner
  free_event_subclasses-owner openai_speech_start t = simp r.free-owner
  free_event_subclasses-owner openai_speech_stop t = simp r.free-owner

  reserve-freed :
      (e x : EventName) (t : r.Table) → freed (r.owner (r.reserve e t).0 x) ≡ freed (r.owner t x)
  reserve-freed e x t = elim (Bool-cases (r.reserve e t).1) [
    | inr refused ↦ ap freed (r.reserve_refused e x t refused)
    | inl reserved ↦ elim (Bool-cases (same_name e x)) [
      | inr other ↦ rw (r.reserve-owner e x t reserved, other) refl
      | inl same ↦
          let e_free = r.reserve_free e t reserved in
          let x_free : r.owner t x ≡ nobody =
            subst (λ y. r.owner t y ≡ nobody) (same_name-eq e x same) e_free in
          rw (r.reserve-owner e x t reserved, same, x_free) refl
    ]
  ]

  -- Whatever was reserved, to free it gives it back.
  reserve_all-freed :
      (es : List EventName) (x : EventName) (t : r.Table)
      → freed (r.owner (reserve_all r es t).0 x) ≡ freed (r.owner t x)
  unfolding reserve_all
  reserve_all-freed [] x t = refl
  reserve_all-freed (e ∷ es) x t = elim (Bool-cases (r.reserve e t).1) [
    | inl reserved ↦ rw reserved (reserve_all-freed es x (r.reserve e t).0 ∙ reserve-freed e x t)
    | inr refused ↦ rw refused (reserve-freed e x t)
  ]

  abbrev named : EventName → List EventName → Bool
  named x [] = false
  named x (e ∷ es) = same_name e x || named x es

  all_named : (x : EventName) → named x reserved_subclasses ≡ true
  all_named connect = refl
  all_named disconnect = refl
  all_named error = refl
  all_named json = refl
  all_named play = refl
  all_named openai_speech_start = refl
  all_named openai_speech_stop = refl

  reserve_all-owner :
      (es : List EventName) (x : EventName) (t : r.Table)
      → (reserve_all r es t).1 ≡ true
      → r.owner (reserve_all r es t).0 x ≡ (if named x es then this_module else r.owner t x)
  unfolding reserve_all
  reserve_all-owner [] x t h = refl
  reserve_all-owner (e ∷ es) x t h = elim (Bool-cases (r.reserve e t).1) [
    | inr refused ↦ cc (rw refused at h)
    | inl reserved ↦ rw reserved (
        reserve_all-owner es x (r.reserve e t).0 (rw reserved at h)
        ∙ if-or (same_name e x) (named x es) _ _ (r.reserve-owner e x t reserved))
  ]

  -- The registry that a load leaves: all subclasses are this module's and were nobody's before, and both
  -- API functions are added; or the load fails and everything is as it was.
  abbrev pub IsLoaded : Loading r → EventName → Loading r × Bool → Type 0
  IsLoaded l x (l', true) =
      (r.owner l'.table x ≡ this_module)
      × (r.owner l.table x ≡ nobody)
      × (l'.apis ≡ l.apis ++ stream_api_config ∷ raw_stream_api_config ∷ [])
  IsLoaded l x (l', false) =
      (r.owner l'.table x ≡ r.owner l.table x) × (l'.apis ≡ l.apis) × (l'.consoles ≡ l.consoles)

  -- Before a load that succeeds, nobody held a subclass that this module did not hold.
  free_before :
      (x : EventName) (t : r.Table)
      → r.owner t x ≢ this_module
      → (reserve_all r reserved_subclasses t).1 ≡ true
      → r.owner t x ≡ nobody
  free_before x t ours h =
      let held = reserve_all-owner reserved_subclasses x t h in
      let given_back = reserve_all-freed reserved_subclasses x t in
      let name = all_named x in
      sym (freed-other (r.owner t x) ours) ∙ sym given_back ∙ ap freed (rw name at held)

  loaded :
      (l : Loading r) (x : EventName)
      → r.owner l.table x ≢ this_module
      → (reserve_all r reserved_subclasses l.table).1 ≡ true
      → IsLoaded l x (load r l)
  unfolding load
  loaded l x ours h =
      let held = reserve_all-owner reserved_subclasses x l.table h in
      let name = all_named x in rw h (rw name at held, free_before x l.table ours h, refl)

  rolled_back :
      (l : Loading r) (x : EventName)
      → r.owner l.table x ≢ this_module
      → (reserve_all r reserved_subclasses l.table).1 ≡ false
      → IsLoaded l x (load r l)
  unfolding load
  rolled_back l x ours h = rw h (
    free_event_subclasses-owner x (reserve_all r reserved_subclasses l.table).0
        ∙ reserve_all-freed reserved_subclasses x l.table
        ∙ freed-other (r.owner l.table x) ours,
    refl,
    refl,
  )

  -- The module is loaded while it holds no event subclass. If the load succeeds, each of the seven
  -- subclasses is this module's, was nobody's before, and both API functions are added; if it fails,
  -- each subclass has the owner it had before, and no API function and no completion is added.
  pub load-IsLoaded :
      (l : Loading r) (x : EventName) → r.owner l.table x ≢ this_module → IsLoaded l x (load r l)
  load-IsLoaded l x ours = elim (Bool-cases (reserve_all r reserved_subclasses l.table).1) [
    | inl h ↦ loaded l x ours h
    | inr h ↦ rolled_back l x ours h
  ]

  -- The module is loaded while it holds no event subclass, and shut down, whether or not the load
  -- succeeded: each subclass has the owner it had before.
  pub shutdown-load :
      (l : Loading r) (x : EventName)
      → r.owner l.table x ≢ this_module
      → r.owner (shutdown r (load r l).0.table) x ≡ r.owner l.table x
  unfolding load shutdown
  shutdown-load l x ours =
      let t = (reserve_all r reserved_subclasses l.table).0 in
      let back =
        reserve_all-freed reserved_subclasses x l.table ∙ freed-other (r.owner l.table x) ours in
      elim (Bool-cases (reserve_all r reserved_subclasses l.table).1) [
        | inl h ↦ rw h (free_event_subclasses-owner x t ∙ back)
        | inr h ↦ rw h (
            free_event_subclasses-owner x (free_event_subclasses r t)
            ∙ ap freed (free_event_subclasses-owner x t ∙ back)
            ∙ freed-other (r.owner l.table x) ours)
      ]
