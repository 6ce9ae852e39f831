-- ===== src/Tests/Registry.antt =====
-- The theorems on loading the module, on a concrete registry.
use mod_openai_realtime.Base.{
  ◌≡◌, refl, Bool, true, false, [], if◌then◌else◌, arith, Bool-cases, inl, inr,
}
use mod_openai_realtime.Streamer.{EventName, play}
use mod_openai_realtime.Module.{
  Owner, nobody, this_module, another, freed, same_name, EventRegistry, Loading, load, shutdown,
}
use mod_openai_realtime.Module.Load.{IsLoaded, load-IsLoaded, shutdown-load}

abbrev Owners : Type 0
Owners = EventName → Owner

abbrev is_free : Owner → Bool
is_free nobody = true
is_free _ = false

abbrev owners_set : EventName → Owner → Owners → Owners
owners_set e o t x = if same_name e x then o else t x

abbrev owners_reserve : EventName → Owners → Owners × Bool
owners_reserve e t = if is_free (t e) then (owners_set e this_module t, true) else (t, false)

is_free-nobody : (o : Owner) → is_free o ≡ true → o ≡ nobody
is_free-nobody nobody h = refl
is_free-nobody this_module h = cc h
is_free-nobody another h = cc h

reserve_free : (e : EventName) (t : Owners) → (owners_reserve e t).1 ≡ true → t e ≡ nobody
reserve_free e t h = ground (arith, is_free-nobody (t e))

reserve-owner :
    (e x : EventName) (t : Owners)
    → (owners_reserve e t).1 ≡ true
    → (owners_reserve e t).0 x ≡ (if same_name e x then this_module else t x)
reserve-owner e x t h = elim (Bool-cases (is_free (t e))) [
  | inl free ↦ rw free refl
  | inr held ↦ cc (rw held at h)
]

reserve_refused :
    (e x : EventName) (t : Owners) → (owners_reserve e t).1 ≡ false → (owners_reserve e t).0 x ≡ t x
reserve_refused e x t h = elim (Bool-cases (is_free (t e))) [
  | inl free ↦ cc (rw free at h)
  | inr held ↦ rw held refl
]

abbrev owners_registry : EventRegistry
owners_registry = record {
  Table = Owners;
  owner = λ t x. t x;
  reserve = owners_reserve;
  free = λ e t. owners_set e (freed (t e)) t;
  reserve_free = reserve_free;
  reserve-owner = reserve-owner;
  reserve_refused = reserve_refused;
  free-owner = λ e x t. refl;
}

abbrev unloaded : Loading owners_registry
unloaded = record { table = λ x. nobody; apis = []; consoles = [] }

-- Another module holds one of the subclasses.
abbrev play_taken : Loading owners_registry
play_taken = record { table = owners_set play another (λ x. nobody); apis = []; consoles = [] }

load-IsLoaded_example : IsLoaded owners_registry unloaded play (load owners_registry unloaded)
load-IsLoaded_example = load-IsLoaded owners_registry unloaded play (λ e. cc e)

unloaded-loads : (load owners_registry unloaded).1 ≡ true
unfolding load
unloaded-loads = refl

shutdown-load_example :
    shutdown owners_registry (load owners_registry play_taken).0.table play ≡ another
shutdown-load_example = shutdown-load owners_registry play_taken play (λ e. cc e)

play_taken-refused : (load owners_registry play_taken).1 ≡ false
unfolding load
play_taken-refused = refl
