-- ===== src/Bridge/Tun/Fence/Closes.antt =====
-- How a `close` of `TunHandler` that waits for the calls of its hooks gets through.
use libmihomo_android.Base.{
  ℕ, zero, suc, List, [], ◌∷◌, ◌++◌, true, false, ◌≡◌, refl, ap, ◌∙◌, Bool-cases, inl, inr, ◌⊎◌,
  arith,
}
use libmihomo_android.Bridge.Tun.Fence.{
  Hook, waiting, entered, calling, Owner, idle, starting, clearing, unlocking, Fence, init, clear,
  leave, use_callback, start_ok, lock_close, run_clear, unlock, refuse, admit, call_host, Steps,
  here, next,
}
use libmihomo_android.Bridge.Tun.Fence.Safe.{
  weight, share, sum, sum-put, IsFenced, init-IsFenced, Steps-IsFenced,
}

Steps-trans : {s t u : Fence} → Steps s t → Steps t u → Steps s u
Steps-trans first here = first
Steps-trans first (next then step) = next (Steps-trans first then) step

-- Where a call that has weight stands.
data Holder (hs : List Hook) : Type 0 where
  at_entered : (before after : List Hook) → hs ≡ before ++ (entered ∷ after) → Holder hs
  at_calling : (before after : List Hook) → hs ≡ before ++ (calling ∷ after) → Holder hs

behind : (h : Hook) {hs : List Hook} → Holder hs → Holder (h ∷ hs)
behind h (at_entered before after e) = at_entered (h ∷ before) after (ap (λ hs. h ∷ hs) e)
behind h (at_calling before after e) = at_calling (h ∷ before) after (ap (λ hs. h ∷ hs) e)

holder : (hs : List Hook) (n : ℕ) → sum weight hs ≡ suc n → Holder hs
holder [] n e = let never : ⊥ = omega (arith, e) in elim never [ ]
holder (waiting ∷ hs) n e = behind waiting (holder hs n (omega (arith, e)))
holder (entered ∷ hs) n e = at_entered [] hs refl
holder (calling ∷ hs) n e = at_calling [] hs refl

-- `s` can go on to a state of the same owner whose hooks have the weight `n`.
record Drains (s : Fence) (n : ℕ) : Type 0 where
  after : Fence
  steps : Steps s after
  owned : after.owner ≡ s.owner
  begun : after.started ≡ s.started
  weighs : sum weight after.hooks ≡ n

-- The call that has weight returns.
serve_calling :
    {s : Fence} (n : ℕ) (before rest : List Hook)
    → s.hooks ≡ before ++ (calling ∷ rest)
    → sum weight s.hooks ≡ suc n
    → Drains s n
unfolding leave use_callback
serve_calling {s} n before rest e heavy = record {
  after = leave (before ++ rest) (use_callback s);
  steps = next here (call_host before rest e);
  owned = refl;
  begun = refl;
  weighs = omega (arith, heavy, ap (sum weight) e, sum-put weight before calling rest);
}

abbrev at_call : List Hook → List Hook → Fence → Fence
at_call before rest s = record s { hooks = before ++ (calling ∷ rest) }

serve_entered :
    {s : Fence} (n : ℕ) (before rest : List Hook)
    → (s.closed ≡ true) ⊎ (s.closed ≡ false)
    → s.hooks ≡ before ++ (entered ∷ rest)
    → sum weight s.hooks ≡ suc n
    → Drains s n
unfolding leave
serve_entered {s} n before rest (inl c) e heavy = record {
  after = leave (before ++ rest) s;
  steps = next here (refuse before rest e c);
  owned = refl;
  begun = refl;
  weighs = omega (arith, heavy, ap (sum weight) e, sum-put weight before entered rest);
}
serve_entered {s} n before rest (inr c) e heavy =
    let done = serve_calling {s = at_call before rest s} n before rest refl (
      omega (
        arith,
        heavy,
        ap (sum weight) e,
        sum-put weight before entered rest,
        sum-put weight before calling rest,
      )) in
    record {
      after = done.after;
      steps = Steps-trans (next here (admit before rest e c)) done.steps;
      owned = done.owned;
      begun = done.begun;
      weighs = done.weighs;
    }

serve : {s : Fence} (n : ℕ) → Holder s.hooks → sum weight s.hooks ≡ suc n → Drains s n
serve {s} n (at_entered before after e) heavy =
    serve_entered n before after (Bool-cases s.closed) e heavy
serve n (at_calling before after e) heavy = serve_calling n before after e heavy

drain : (n : ℕ) {s : Fence} → sum weight s.hooks ≡ n → Drains s 0
drain zero {s} e = record { after = s; steps = here; owned = refl; begun = refl; weighs = e }
drain (suc n) {s} e =
    let one = serve n (holder s.hooks n e) e in
    let more = drain n one.weighs in
    record {
      after = more.after;
      steps = Steps-trans one.steps more.steps;
      owned = more.owned ∙ one.owned;
      begun = more.begun ∙ one.begun;
      weighs = more.weighs;
    }

-- `s` can go on to a state in which nobody has `tunLock`.
record Settles (s : Fence) : Type 0 where
  after : Fence
  steps : Steps s after
  free : after.owner ≡ idle
  begun : after.started ≡ s.started

come_to_rest : (s : Fence) (o : Owner) → s.owner ≡ o → Settles s
unfolding clear
come_to_rest s idle e = record { after = s; steps = here; free = e; begun = refl }
come_to_rest s starting e = record {
  after = _;
  steps = next (next here (start_ok e)) (unlock refl);
  free = refl;
  begun = refl;
}
come_to_rest s clearing e = record {
  after = _;
  steps = next (next here (run_clear e)) (unlock refl);
  free = refl;
  begun = refl;
}
come_to_rest s unlocking e = record {
  after = _;
  steps = next here (unlock e);
  free = refl;
  begun = refl;
}

-- `s` can go on to a state in which `close` returned.
pub record Closes (s : Fence) : Type 0 where
  pub after : Fence
  pub steps : Steps s after
  pub free : after.owner ≡ idle
  pub nothing_taken : after.taken ≡ 0
  pub shut : after.closed ≡ true
  pub no_listener : after.listener ≡ false
  pub released : after.live ≡ false
  pub once : after.releases ≡ 1

-- `close`, where the weight is free.
close_now :
    {s : Fence} → IsFenced s → s.owner ≡ idle → s.started ≡ true → sum weight s.hooks ≡ 0 → Closes s
unfolding clear
close_now {s} v o b none_in =
    let empty : s.taken ≡ 0 = omega (arith, v.weights, ap share o, none_in) in
    let shut = next (next here (lock_close o b (omega (arith, empty)))) (run_clear refl) in
    let closed = Steps-IsFenced shut v in
    record {
      after = _;
      steps = next shut (unlock refl);
      free = refl;
      nothing_taken = omega (arith, empty);
      shut = refl;
      no_listener = refl;
      released = refl;
      once = omega (arith, closed.once);
    }

-- From every state that the calls of a new `TunHandler` can reach after `start` began, the calls under way can
-- return and a `close` go through: its callback is then released, once, the listener gone, and no weight taken.
pub close_completes : {s : Fence} → Steps init s → s.started ≡ true → Closes s
close_completes {s} steps b =
    let settled = come_to_rest s s.owner refl in
    let drained = drain (sum weight settled.after.hooks) {s = settled.after} refl in
    let way = Steps-trans settled.steps drained.steps in
    let done =
      close_now (Steps-IsFenced (Steps-trans steps way) init-IsFenced)
        (drained.owned ∙ settled.free) (drained.begun ∙ settled.begun ∙ b) drained.weighs in
    record {
      after = done.after;
      steps = Steps-trans way done.steps;
      free = done.free;
      nothing_taken = done.nothing_taken;
      shut = done.shut;
      no_listener = done.no_listener;
      released = done.released;
      once = done.once;
    }
