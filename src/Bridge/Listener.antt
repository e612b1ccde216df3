-- ===== src/Bridge/Listener.antt =====
-- The event listener of lib.go under `eventListenerMu`, as steps: calls of `sendMessage`, which hold the lock for
-- reading while they use the reference of the listener, and of `setEventListener`, which change it under the lock
-- for writing and release the old one after. The lock is sync.RWMutex: one writer, or any number of readers.
pub mod Released
mod Tests
use libmihomo_android.Base.{
  ℕ, suc, List, [], ◌∷◌, ◌++◌, Bool, true, false, ◌||◌, Option, none, some, ◌≡◌, eqb,
}

-- A call of `setEventListener` before its lock, under it with the old reference, and past it.
pub data Setter : Type 0 where
  wants : Option ℕ → Setter
  holds : Option ℕ → Setter
  owes : ℕ → Setter

abbrev pub member : ℕ → List ℕ → Bool
member r [] = false
member r (x ∷ xs) = eqb x r || member r xs

-- `listener` is `eventListener`; `readers` has the reference of each `sendMessage` that holds the lock, and
-- `writing` is whether a `setEventListener` holds it. The references that the host makes are `0` up to `made`.
pub record Shared : Type 0 where
  pub listener : Option ℕ
  pub readers : List ℕ
  pub writing : Bool
  pub setters : List Setter
  pub made : ℕ
  pub released : List ℕ
  pub misused : Bool

abbrev pub no_listener : Shared
no_listener = record {
  listener = none;
  readers = [];
  writing = false;
  setters = [];
  made = 0;
  released = [];
  misused = false;
}

-- What follows the unlock: the release, where there was a listener.
abbrev pub past : Option ℕ → List Setter
past none = []
past (some r) = owes r ∷ []

pub data Step (s : Shared) : Shared → Type 0 where
  -- `setEventListener`, with a new reference or with nil
  set : Step s (record s { setters = wants (some s.made) ∷ s.setters; made = suc s.made })
  unset : Step s (record s { setters = wants none ∷ s.setters })
  lock :
      (before after : List Setter) (new : Option ℕ)
      → s.setters ≡ before ++ (wants new ∷ after)
      → s.writing ≡ false
      → s.readers ≡ []
      → Step s (record s {
        listener = new;
        writing = true;
        setters = before ++ (holds s.listener ∷ after);
      })
  unlock :
      (before after : List Setter) (old : Option ℕ)
      → s.setters ≡ before ++ (holds old ∷ after)
      → Step s (record s { writing = false; setters = before ++ (past old ++ after) })
  release :
      (before after : List Setter) (old : ℕ)
      → s.setters ≡ before ++ (owes old ∷ after)
      → Step s (record s { released = old ∷ s.released; setters = before ++ after })
  -- `sendMessage`, where there is a listener: its lock, its call of the host, and its unlock.
  read :
      (r : ℕ)
      → s.writing ≡ false
      → s.listener ≡ some r
      → Step s (record s { readers = r ∷ s.readers })
  use_listener :
      (before after : List ℕ) (r : ℕ)
      → s.readers ≡ before ++ (r ∷ after)
      → Step s (record s { misused = s.misused || member r s.released })
  leave :
      (before after : List ℕ) (r : ℕ)
      → s.readers ≡ before ++ (r ∷ after)
      → Step s (record s { readers = before ++ after })

pub data Steps (s : Shared) : Shared → Type 0 where
  here : Steps s s
  next : {t u : Shared} → Steps s t → Step t u → Steps s u
