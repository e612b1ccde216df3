-- ===== src/Bridge/Tun/Fence/Safe.antt =====
-- What the semaphore of `TunHandler` keeps apart.
use libmihomo_android.Base.{
  ℕ, suc, ◌+◌, ◌≤◌, List, [], ◌∷◌, ◌++◌, Bool, true, false, not, ◌||◌, if◌then◌else◌, ◌≡◌, refl, ap,
  Bool-cases, inl, inr, ◌⊎◌, arith,
}
use mathlib.Core.Path.{subst}
use libmihomo_android.Bridge.Tun.Fence.{
  tun_sem_capacity, Hook, waiting, entered, calling, Owner, idle, starting, clearing, unlocking,
  Fence, init, clear, leave, use_callback, Step, lock_start, start_ok, start_failed, lock_close,
  run_clear, unlock, invoke, enter, refuse, admit, call_host, Steps, here, next,
}

-- The weight of a call.
abbrev pub weight : Hook → ℕ
weight waiting = 0
weight entered = 1
weight calling = 1

-- 1 for a call past its test.
abbrev pub admitted : Hook → ℕ
admitted waiting = 0
admitted entered = 0
admitted calling = 1

-- The weight of the owner at a place.
abbrev pub share : Owner → ℕ
share idle = 0
share starting = 4
share clearing = 4
share unlocking = 4

abbrev pub sum : (Hook → ℕ) → List Hook → ℕ
sum f [] = 0
sum f (h ∷ hs) = f h + sum f hs

pub sum-put :
    (f : Hook → ℕ) (before : List Hook) (h : Hook) (after : List Hook)
    → sum f (before ++ (h ∷ after)) ≡ f h + sum f (before ++ after)
sum-put f [] h after = refl
sum-put f (b ∷ before) h after = omega (arith, sum-put f before h after)

admitted-weight : (h : Hook) → admitted h ≤ weight h
admitted-weight waiting = omega arith
admitted-weight entered = omega arith
admitted-weight calling = omega arith

admitted_le : (hs : List Hook) → sum admitted hs ≤ sum weight hs
admitted_le [] = omega arith
admitted_le (h ∷ hs) = omega (arith, admitted_le hs, admitted-weight h)

pub record IsFenced (s : Fence) : Type 0 where
  pub weights : s.taken ≡ share s.owner + sum weight s.hooks
  pub bounded : s.taken ≤ tun_sem_capacity
  pub open_live : s.closed ≡ not s.live
  pub once : s.releases + (if s.live then 1 else 0) ≡ 1
  pub proper : s.misused ≡ false
  pub checked : s.closed ≡ true → sum admitted s.hooks ≡ 0

pub init-IsFenced : IsFenced init
init-IsFenced = record {
  weights = refl;
  bounded = omega arith;
  open_live = refl;
  once = refl;
  proper = refl;
  checked = λ _. refl;
}

-- Nobody but the owner has weight while it has the whole.
alone : {s : Fence} → IsFenced s → share s.owner ≡ 4 → sum weight s.hooks ≡ 0
alone {s} v whole = omega (arith, v.weights, v.bounded, whole)

calling-open :
    {s : Fence}
    → (s.closed ≡ true) ⊎ (s.closed ≡ false)
    → IsFenced s
    → (before after : List Hook) → s.hooks ≡ before ++ (calling ∷ after)
    → s.closed ≡ false
calling-open (inl c) v before after e =
    let never : ⊥ =
      omega (arith, v.checked c, ap (sum admitted) e, sum-put admitted before calling after) in
    elim never [ ]
calling-open (inr c) v before after e = c

released_once :
    (live : Bool) (n : ℕ) → n + (if live then 1 else 0) ≡ 1 → (if live then suc n else n) + 0 ≡ 1
released_once true n e = omega (arith, e)
released_once false n e = e

closed_misused :
    (closed live misused : Bool)
    → closed ≡ not live
    → closed ≡ false
    → misused ≡ false
    → (misused || not live) ≡ false
closed_misused closed true false e c m = refl
closed_misused closed true true e c m = m
closed_misused closed false misused e c m = cc

pub Step-IsFenced : {s t : Fence} → Step s t → IsFenced s → IsFenced t
unfolding clear leave use_callback
Step-IsFenced (lock_start o n fits) v = record {
  weights = omega (arith, v.weights, ap share o);
  bounded = fits;
  open_live = v.open_live;
  once = v.once;
  proper = v.proper;
  checked = v.checked;
}
Step-IsFenced (start_ok o) v = record {
  weights = omega (arith, v.weights, ap share o);
  bounded = v.bounded;
  open_live = v.open_live;
  once = v.once;
  proper = v.proper;
  checked = v.checked;
}
Step-IsFenced (start_failed o) v = record {
  weights = omega (arith, v.weights, ap share o);
  bounded = v.bounded;
  open_live = v.open_live;
  once = v.once;
  proper = v.proper;
  checked = v.checked;
}
Step-IsFenced (lock_close o n fits) v = record {
  weights = omega (arith, v.weights, ap share o);
  bounded = fits;
  open_live = v.open_live;
  once = v.once;
  proper = v.proper;
  checked = v.checked;
}
Step-IsFenced {s} (run_clear o) v = record {
  weights = omega (arith, v.weights, ap share o);
  bounded = v.bounded;
  open_live = refl;
  once = released_once s.live s.releases v.once;
  proper = v.proper;
  checked = λ _. omega (arith, admitted_le s.hooks, alone v (ap share o));
}
Step-IsFenced (unlock o) v = record {
  weights = omega (arith, v.weights, ap share o);
  bounded = omega (arith, v.bounded);
  open_live = v.open_live;
  once = v.once;
  proper = v.proper;
  checked = v.checked;
}
Step-IsFenced invoke v = record {
  weights = omega (arith, v.weights);
  bounded = v.bounded;
  open_live = v.open_live;
  once = v.once;
  proper = v.proper;
  checked = λ c. omega (arith, v.checked c);
}
Step-IsFenced (enter before after e fits) v = record {
  weights = omega (
    arith,
    v.weights,
    ap (sum weight) e,
    sum-put weight before waiting after,
    sum-put weight before entered after,
  );
  bounded = fits;
  open_live = v.open_live;
  once = v.once;
  proper = v.proper;
  checked = λ c. omega (
    arith,
    v.checked c,
    ap (sum admitted) e,
    sum-put admitted before waiting after,
    sum-put admitted before entered after,
  );
}
Step-IsFenced (refuse before after e c) v = record {
  weights = omega (arith, v.weights, ap (sum weight) e, sum-put weight before entered after);
  bounded = omega (arith, v.bounded);
  open_live = v.open_live;
  once = v.once;
  proper = v.proper;
  checked =
      λ c. omega (arith, v.checked c, ap (sum admitted) e, sum-put admitted before entered after);
}
Step-IsFenced (admit before after e c) v = record {
  weights = omega (
    arith,
    v.weights,
    ap (sum weight) e,
    sum-put weight before entered after,
    sum-put weight before calling after,
  );
  bounded = v.bounded;
  open_live = v.open_live;
  once = v.once;
  proper = v.proper;
  checked = λ shut. cc;
}
Step-IsFenced {s} (call_host before after e) v = record {
  weights = omega (arith, v.weights, ap (sum weight) e, sum-put weight before calling after);
  bounded = omega (arith, v.bounded);
  open_live = v.open_live;
  once = v.once;
  proper =
      closed_misused s.closed s.live s.misused v.open_live
        (calling-open (Bool-cases s.closed) v before after e) v.proper;
  checked =
      λ c. omega (arith, v.checked c, ap (sum admitted) e, sum-put admitted before calling after);
}

pub Steps-IsFenced : {s t : Fence} → Steps s t → IsFenced s → IsFenced t
Steps-IsFenced here v = v
Steps-IsFenced (next steps step) v = Step-IsFenced step (Steps-IsFenced steps v)

-- However the calls of `start`, `close` and the hooks of a new `TunHandler` interleave, the weight of the owner
-- and of the hooks together is at most the capacity, so that no hook has weight while `clear` runs; no hook has
-- used the callback after its release; and the callback is either still there or was released once.
pub callback_once :
    {s : Fence}
    → Steps init s
    → (share s.owner + sum weight s.hooks ≤ tun_sem_capacity)
      × (s.misused ≡ false)
      × (s.releases + (if s.live then 1 else 0) ≡ 1)
callback_once {s} steps =
    let v = Steps-IsFenced steps init-IsFenced in
    (subst (λ n. n ≤ tun_sem_capacity) v.weights v.bounded, v.proper, v.once)
