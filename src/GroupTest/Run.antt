-- ===== src/GroupTest/Run.antt =====
-- `Run` of grouptest/grouptest.go: one goroutine for each group of the order, as interleavings.
pub mod Names
pub mod Invariant
pub mod Progress
use Prim.Native.Nat.{min}
use native.Mathlib.Decide.{ℕ_discrete}
use mathlib.Core.Logic.{ite}
use libmihomo_android.Base.{
  ℕ, zero, suc, ◌<◌, String, ◌==◌, List, [], ◌∷◌, ◌++◌, ◌≡◌, Bool, true, false, Option, none, some,
  if◌then◌else◌, contains, length, get_or, ltb,
}

-- `index`: of two groups of one name the later one's place stays in the map.
unfoldable pub index : List String → String → Option ℕ
index [] c = none
index (x ∷ xs) c = elim (index xs c) [
  | some j ↦ some (suc j)
  | none ↦ if x == c then some 0 else none
]

abbrev pub name_at : List String → ℕ → String
name_at order i = get_or order i ""

-- What a goroutine has left: the children whose `await` has not returned (`run` may wait for several
-- at once), or nothing after its deferred calls.
pub data Goroutine : Type 0 where
  running : List String → Goroutine
  finished : Goroutine

-- `closed` holds the names whose channel `done[name]` is closed.
pub record System : Type 0 where
  pub procs : ℕ → Goroutine
  pub closed : List String

abbrev pub update : (ℕ → Goroutine) → ℕ → Goroutine → ℕ → Goroutine
update f i g j = ite (ℕ_discrete i j) g (f j)

-- Whether `await(child)` of goroutine `i` goes on: it blocks only on a group earlier in the order
-- whose channel is open.
unfoldable pub clear : List String → System → ℕ → String → Bool
clear order s i child = elim (index order child) [
  | none ↦ true
  | some j ↦ if ltb j i then contains s.closed child else true
]

-- One step of some goroutine: an `await` returns, or the run is over and its channel is closed.
pub data Step (order : List String) (s : System) : System → Type 0 where
  pass :
      (i : ℕ) (xs ys : List String) (child : String)
      → i < length order
      → s.procs i ≡ running (xs ++ child ∷ ys)
      → clear order s i child ≡ true
      → Step order s (record s { procs = update s.procs i (running (xs ++ ys)) })
  finish :
      (i : ℕ)
      → i < length order
      → s.procs i ≡ running []
      → Step order s
          (record { procs = update s.procs i finished; closed = name_at order i ∷ s.closed })

-- The goroutines as the loop starts them: `awaits name` are the children that `run` waits for.
unfoldable pub launch : List String → (String → List String) → System
launch order awaits = record { procs = λ i. running (awaits (name_at order i)); closed = [] }

-- The states that `n` steps lead to.
pub data Steps (order : List String) (s : System) : ℕ → System → Type 0 where
  here : Steps order s zero s
  next : {n : ℕ} {t u : System} → Steps order s n t → Step order t u → Steps order s (suc n) u
