-- ===== src/GroupTest/Run/Progress.antt =====
-- `Run` ends: it never deadlocks, and the number of its steps is known.
use native.Mathlib.Decide.{dec_lt}
use libmihomo_android.Base.{
  ℕ, zero, suc, ◌+◌, ◌<◌, ◌≤◌, String, List, [], ◌∷◌, ◌++◌, ◌≡◌, refl, true, length, ap, IsNodup,
  arith, ◌⊎◌, inl, inr, length-append, Option-cases,
}
use libmihomo_android.GroupTest.Run.{
  index, Goroutine, running, finished, System, update, clear, Step, pass, finish, launch, Steps,
  here, next,
}
use libmihomo_android.GroupTest.Run.Names.{index_lem}
use libmihomo_android.GroupTest.Run.Invariant.{IsSound, Steps-IsSound}

-- The steps that a goroutine has left.
abbrev pub cost : Goroutine → ℕ
cost (running cs) = suc (length cs)
cost finished = 0

-- The steps that the first `n` goroutines have left.
abbrev pub work : ℕ → (ℕ → Goroutine) → ℕ
work zero f = 0
work (suc n) f = cost (f n) + work n f

work-update_of_le :
    (n i : ℕ) (f : ℕ → Goroutine) (g : Goroutine) → n ≤ i → work n (update f i g) ≡ work n f
work-update_of_le zero i f g h = refl
work-update_of_le (suc n) i f g h = ground (arith, work-update_of_le n i f g)

work-update :
    (n i : ℕ) (f : ℕ → Goroutine) (g : Goroutine)
    → i < n
    → work n (update f i g) + cost (f i) ≡ work n f + cost g
work-update zero i f g h = absurd (omega arith)
work-update (suc n) i f g h = elim (dec_lt i n) [
  | yes p ↦ ground (arith, work-update n i f g p)
  | no p ↦ ground (arith, work-update_of_le n i f g)
]

work_of_finished : (n : ℕ) (f : ℕ → Goroutine) → ((i : ℕ) → i < n → f i ≡ finished) → work n f ≡ 0
work_of_finished zero f h = refl
work_of_finished (suc n) f h =
    omega (arith, ap cost (h n (omega arith)), work_of_finished n f (λ i l. h i (omega arith)))

module _ (order : List String) (awaits : String → List String) where
  Step-work :
      {s t : System}
      → Step order s t
      → suc (work (length order) t.procs) ≡ work (length order) s.procs
  Step-work {s} (pass i xs ys child lt e ok) = ground (
    arith,
    work-update (length order) i s.procs (running (xs ++ ys)),
    length-append xs ys,
    length-append xs (child ∷ ys),
  )
  Step-work {s} (finish i lt e) = ground (arith, work-update (length order) i s.procs finished)

  -- Every run makes as many steps as there are awaits and goroutines, less those that are left.
  pub Steps-work :
      {n : ℕ} {s : System}
      → Steps order (launch order awaits) n s
      → n + work (length order) s.procs ≡ work (length order) (launch order awaits).procs
  Steps-work here = omega arith
  Steps-work (next r st) = omega (arith, Steps-work r, Step-work st)

  abbrev pub AllFinished : ℕ → System → Type 0
  AllFinished k s = (i : ℕ) → i < k → s.procs i ≡ finished

  clear_below :
      (s : System)
      → IsSound order awaits s
      → (k : ℕ) (c : String) → k ≤ length order
      → AllFinished k s
      → clear order s k c ≡ true
  unfolding clear
  clear_below s v k c h all = elim (Option-cases (index order c)) [
    | inl e ↦ rw (e, clear)
    | inr (j, e) ↦ ground (arith, index_lem order c j e, v.shut j, all j)
  ]

  -- Among the first `k` goroutines one can go on, or all are finished.
  first_able :
      (s : System)
      → IsSound order awaits s
      → (k : ℕ) → k ≤ length order
      → AllFinished k s ⊎ ((t : System) × Step order s t)
  first_able s v zero h = inl (λ i l. absurd (omega arith))
  first_able s v (suc k) h = elim (first_able s v k (omega arith)) [
    | inr can ↦ inr can
    | inl all ↦ able (s.procs k) refl all
  ]
    where
      able :
          (g : Goroutine)
          → s.procs k ≡ g
          → AllFinished k s
          → AllFinished (suc k) s ⊎ ((t : System) × Step order s t)
      able (running []) e all = inr (_, finish k h e)
      able (running (c ∷ cs)) e all =
          inr (_, pass k [] cs c h e (clear_below s v k c (omega arith) all))
      able finished e all = inl (λ i l. elim (dec_lt i k) [
        | yes p ↦ all i p
        | no p ↦ rw (let p : i ≡ k = omega arith in p) e
      ])

  -- No deadlock: in every state that `Run` reaches, every goroutine is finished or one can go on.
  pub run_progress :
      IsNodup order
      → {n : ℕ} {s : System} → Steps order (launch order awaits) n s
      → AllFinished (length order) s ⊎ ((t : System) × Step order s t)
  run_progress u {s = s} r =
      first_able s (Steps-IsSound order awaits u r) (length order) (omega arith)

  -- A run that cannot go on is over: all goroutines are finished, after exactly one step for each
  -- goroutine and one for each `await`, whatever the schedule.
  pub run_ends :
      IsNodup order
      → {n : ℕ} {s : System} → Steps order (launch order awaits) n s
      → ((t : System) → ¬ Step order s t)
      → AllFinished (length order) s × (n ≡ work (length order) (launch order awaits).procs)
  run_ends u {n} {s} r stuck = elim (run_progress u r) [
    | inl all ↦ (all, omega (arith, Steps-work r, work_of_finished (length order) s.procs all))
    | inr (t, st) ↦ absurd (stuck t st)
  ]
