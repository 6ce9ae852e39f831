-- ===== src/Lock.antt =====
-- openai_audio_streamer_glue.cpp: `LifecycleLockHandle`, `acquire_lifecycle_lock` and
-- `release_lifecycle_lock`, as steps of threads that interleave. A block under
-- `lifecycle_registry_mutex` is one step. A mutex is a number that is not used again; a weak pointer
-- to it is alive while a handle that is not deleted refers to it.
pub mod Entries
pub mod Exclusion
pub mod Separate
use mod_openai_realtime.Base.{
  ℕ, ◌+◌, ◌≡◌, Bool, true, false, not, ◌&&◌, List, [], ◌∷◌, ◌++◌, Option, none, some, ◌==◌,
  if◌then◌else◌, Bytes, str_eq,
}

-- A thread waits in the constructor of `unique_lock`, owns the lock, has unlocked it, or has left the
-- registry behind it and will delete the handle.
pub data Phase : Type 0 where
  waiting holding unlocked checked : Phase

-- A handle, with the thread that has it.
pub record Handle : Type 0 where
  pub session_id : Bytes
  pub mutex : ℕ
  pub owner : ℕ
  pub phase : Phase

-- `lifecycle_mutexes`, and all handles that are not deleted.
pub record Registry : Type 0 where
  pub entries : List (Bytes × ℕ)
  pub handles : List Handle
  pub next : ℕ

unfoldable pub find : Bytes → List (Bytes × ℕ) → Option ℕ
find uuid [] = none
find uuid ((name, mutex) ∷ entries) = if str_eq name uuid then some mutex else find uuid entries

unfoldable pub erase : Bytes → List (Bytes × ℕ) → List (Bytes × ℕ)
erase uuid [] = []
erase uuid ((name, mutex) ∷ entries) =
    let rest = erase uuid entries in if str_eq name uuid then rest else (name, mutex) ∷ rest

-- The entry is there once, with the new mutex.
abbrev pub assign : Bytes → ℕ → List (Bytes × ℕ) → List (Bytes × ℕ)
assign uuid mutex entries = (uuid, mutex) ∷ erase uuid entries

unfoldable pub use_count : ℕ → List Handle → ℕ
use_count mutex [] = 0
use_count mutex (h ∷ handles) =
    let rest = use_count mutex handles in if h.mutex == mutex then rest + 1 else rest

-- `weak_mutex.lock()`
unfoldable pub lock_weak : Bytes → Registry → Option ℕ
unfolding find use_count
lock_weak uuid r = elim (find uuid r.entries) [
  | none ↦ none
  | some mutex ↦ if use_count mutex r.handles == 0 then none else some mutex
]

abbrev pub new_handle : ℕ → Bytes → ℕ → Handle
new_handle thread uuid mutex = record {
  session_id = uuid;
  mutex = mutex;
  owner = thread;
  phase = waiting;
}

-- The block of `acquire_lifecycle_lock` under the registry's mutex.
unfoldable pub acquire_lifecycle_lock : ℕ → Bytes → Registry → Registry
unfolding lock_weak
acquire_lifecycle_lock thread uuid r = elim (lock_weak uuid r) [
  | none ↦ record {
    entries = assign uuid r.next r.entries;
    handles = new_handle thread uuid r.next ∷ r.handles;
    next = r.next + 1;
  }
  | some mutex ↦ record r { handles = new_handle thread uuid mutex ∷ r.handles }
]

abbrev pub is_holding : Phase → Bool
is_holding holding = true
is_holding _ = false

-- A recursive mutex is free for a thread if no other thread owns it.
unfoldable pub is_free : ℕ → ℕ → List Handle → Bool
is_free thread mutex [] = true
is_free thread mutex (h ∷ handles) =
    not (is_holding h.phase && h.mutex == mutex && not (h.owner == thread))
    && is_free thread mutex handles

abbrev pub same_mutex : Option ℕ → ℕ → Bool
same_mutex none mutex = false
same_mutex (some found) mutex = found == mutex

-- The block of `release_lifecycle_lock` under the registry's mutex: the entry is erased if this handle
-- is the last of its mutex.
unfoldable pub check_entry : Handle → Registry → List (Bytes × ℕ)
unfolding lock_weak use_count erase
check_entry h r =
    if use_count h.mutex r.handles == 1 && same_mutex (lock_weak h.session_id r) h.mutex
    then erase h.session_id r.entries
    else r.entries

-- The registry with the handle between `before` and `after` in another phase.
abbrev pub set_phase : Registry → List Handle → Handle → Phase → List Handle → Registry
set_phase r before h phase after = record r {
  handles = before ++ record h { phase = phase } ∷ after;
}

pub data Step (r : Registry) : Registry → Type 0 where
  entering : (thread : ℕ) (uuid : Bytes) → Step r (acquire_lifecycle_lock thread uuid r)
  taking :
      (before after : List Handle) (h : Handle)
      → r.handles ≡ before ++ h ∷ after
      → h.phase ≡ waiting
      → is_free h.owner h.mutex (before ++ after) ≡ true
      → Step r (set_phase r before h holding after)
  unlocking :
      (before after : List Handle) (h : Handle)
      → r.handles ≡ before ++ h ∷ after
      → h.phase ≡ holding
      → Step r (set_phase r before h unlocked after)
  checking :
      (before after : List Handle) (h : Handle)
      → r.handles ≡ before ++ h ∷ after
      → h.phase ≡ unlocked
      → Step r (set_phase (record r { entries = check_entry h r }) before h checked after)
  deleting :
      (before after : List Handle) (h : Handle)
      → r.handles ≡ before ++ h ∷ after
      → h.phase ≡ checked
      → Step r (record r { handles = before ++ after })

abbrev pub empty_registry : Registry
empty_registry = record { entries = []; handles = []; next = 0 }

pub data Reachable : Registry → Type 0 where
  initial : Reachable empty_registry
  then_step : {r r' : Registry} → Reachable r → Step r r' → Reachable r'
