-- ===== src/GroupTest/Run/Invariant.antt =====
-- What holds in every state of the goroutines.
use libmihomo_android.Base.{
  ℕ, ◌<◌, String, List, [], ◌∷◌, ◌≡◌, true, false, some, contains, length, IsNodup, arith, eq_iff,
  ◌⊎◌, inl, ◌↔◌, contains-append,
}
use libmihomo_android.GroupTest.Run.{
  index, name_at, Goroutine, running, finished, System, clear, Step, pass, finish, launch, Steps,
  here, next,
}
use libmihomo_android.GroupTest.Run.Names.{index_lem, name_at-injective}

abbrev pub left : Goroutine → List String
left (running cs) = cs
left finished = []

module _ (order : List String) (awaits : String → List String) where
  pub record IsSound (s : System) : Type 0 where
    pub shut :
        (j : ℕ)
        → j < length order
        → (contains s.closed (name_at order j) ≡ true) ↔ (s.procs j ≡ finished)
    pub waited :
        (i j : ℕ) (c : String)
        → i < length order
        → contains (awaits (name_at order i)) c ≡ true
        → index order c ≡ some j
        → j < i
        → (contains (left (s.procs i)) c ≡ true) ⊎ (contains s.closed c ≡ true)

  clear-closed :
      (s : System) (i j : ℕ) (c : String)
      → clear order s i c ≡ true
      → index order c ≡ some j
      → j < i
      → contains s.closed c ≡ true
  unfolding clear
  clear-closed s i j c ok ix l = ground arith

  launch-IsSound : IsSound (launch order awaits)
  unfolding launch
  launch-IsSound = record { shut = λ j h. ground arith; waited = λ i j c h k e l. inl k }

  Step-IsSound : IsNodup order → {s t : System} → Step order s t → IsSound s → IsSound t
  Step-IsSound u {s} (pass i xs ys child lt e ok) v = record {
    shut = λ j h. ground (arith, v.shut j h);
    waited = λ k j c h a ix l. ground (
      arith,
      v.waited k j c h a ix l,
      contains-append xs (child ∷ ys) c,
      contains-append xs ys c,
      eq_iff child c,
      clear-closed s k j c,
    );
  }
  Step-IsSound u {s} (finish i lt e) v = record {
    shut = λ j h. ground (
      arith,
      v.shut j h,
      name_at-injective order u i j lt h,
      eq_iff (name_at order i) (name_at order j),
    );
    waited = λ k j c h a ix l. ground (arith, v.waited k j c h a ix l);
  }

  pub Steps-IsSound :
      IsNodup order → {n : ℕ} {s : System} → Steps order (launch order awaits) n s → IsSound s
  Steps-IsSound u here = launch-IsSound
  Steps-IsSound u (next r st) = Step-IsSound u st (Steps-IsSound u r)

  module _ (u : IsNodup order) {n : ℕ} {s : System}
      (r : Steps order (launch order awaits) n s) where
    -- Once `await(c)` has returned in goroutine `i`, the run of the group `c` is over, if `c` stands
    -- earlier in the order; so a parent tests a nested group only after that group re-picked.
    pub parent_waits :
        (i j : ℕ) (c : String)
        → i < length order
        → contains (awaits (name_at order i)) c ≡ true
        → index order c ≡ some j
        → j < i
        → contains (left (s.procs i)) c ≡ false
        → s.procs j ≡ finished
    parent_waits i j c h a ix l gone =
        let v = Steps-IsSound u r in
        ground (arith, v.waited i j c h a ix l, v.shut j, index_lem order c j ix)

    -- No channel is closed twice: that of a goroutine which is not finished is open.
    pub closed_once :
        (i : ℕ) (cs : List String)
        → i < length order
        → s.procs i ≡ running cs
        → contains s.closed (name_at order i) ≡ false
    closed_once i cs h e = let v = Steps-IsSound u r in ground (arith, v.shut i h)
