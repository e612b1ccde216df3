-- ===== src/Proxies/Delay/Slots.antt =====
-- The slots, the calls and the results of any number of delay tests.
use libmihomo_android.Base.{
  suc, ◌+◌, ◌<◌, ◌^◌, ℤ, pos, negsuc, List, [], ◌∷◌, ◌++◌, Bool, ◌≡◌, refl, length, ap,
}
use native.Mathlib.Omega.{arith}
use mathlib.Core.Path.{subst}
use libmihomo_android.Proxies.Delay.{
  Reply, result, Tests, init, url_test_sem_capacity, Step, call, acquire, refuse, finish,
  finish_leaked, read_reply, expire, expire_late, Steps, here, next,
}

-- A call returns -1, or a delay of 1 to 65535 milliseconds.
abbrev pub IsDelay : ℤ → Type 0
IsDelay (negsuc n) = n ≡ 0
IsDelay (pos n) = (0 < n) × (n < 2 ^ 16)

abbrev pub AllDelays : List ℤ → Type 0
AllDelays [] = Unit
AllDelays (d ∷ ds) = IsDelay d × AllDelays ds

abbrev AllShort : List Reply → Type 0
AllShort [] = Unit
AllShort (r ∷ rs) = (r.delay < 2 ^ 16) × AllShort rs

pub record IsConserved (s : Tests) : Type 0 where
  pub slots : s.free + s.awaited + s.leaked ≡ url_test_sem_capacity
  pub answers : s.queued + s.awaited + length s.replies + length s.results ≡ s.calls
  pub delays : AllDelays s.results
  pub short : AllShort s.replies

AllShort-without :
    (before after : List Reply) (r : Reply)
    → AllShort (before ++ (r ∷ after))
    → (r.delay < 2 ^ 16) × AllShort (before ++ after)
AllShort-without [] after r h = h
AllShort-without (x ∷ before) after r (a, h) =
    let (p, q) = AllShort-without before after r h in (p, (a, q))

length-without :
    (before after : List Reply) (r : Reply)
    → length (before ++ (r ∷ after)) ≡ suc (length (before ++ after))
length-without [] after r = refl
length-without (x ∷ before) after r = ap suc (length-without before after r)

result-IsDelay : (r : Reply) (expired : Bool) → r.delay < 2 ^ 16 → IsDelay (result r expired)
unfolding result
result-IsDelay r expired h = ground arith

Step-IsConserved : {s t : Tests} → Step s t → IsConserved s → IsConserved t
Step-IsConserved call v = record {
  slots = v.slots;
  answers = omega (arith, v.answers);
  delays = v.delays;
  short = v.short;
}
Step-IsConserved (acquire q f a b) v = record {
  slots = omega (arith, v.slots);
  answers = omega (arith, v.answers);
  delays = v.delays;
  short = v.short;
}
Step-IsConserved (refuse q a) v = record {
  slots = v.slots;
  answers = omega (arith, v.answers);
  delays = (refl, v.delays);
  short = v.short;
}
Step-IsConserved (finish a r e h) v = record {
  slots = omega (arith, v.slots);
  answers = omega (arith, v.answers);
  delays = v.delays;
  short = (h, v.short);
}
Step-IsConserved (finish_leaked l e) v = record {
  slots = omega (arith, v.slots);
  answers = v.answers;
  delays = v.delays;
  short = v.short;
}
Step-IsConserved (read_reply before after r expired e) v =
    let (p, q) = AllShort-without before after r (subst AllShort e v.short) in
    record {
      slots = v.slots;
      answers = omega (arith, v.answers, ap length e, length-without before after r);
      delays = (result-IsDelay r expired p, v.delays);
      short = q;
    }
Step-IsConserved (expire a e) v = record {
  slots = omega (arith, v.slots);
  answers = omega (arith, v.answers);
  delays = (refl, v.delays);
  short = v.short;
}
Step-IsConserved (expire_late before after r e) v =
    let (p, q) = AllShort-without before after r (subst AllShort e v.short) in
    record {
      slots = v.slots;
      answers = omega (arith, v.answers, ap length e, length-without before after r);
      delays = (refl, v.delays);
      short = q;
    }

-- However the calls, their goroutines and their timeouts interleave: the free slots and those of the
-- goroutines still testing are 256 together, each call waits for a slot, waits for its reply or has returned
-- once, and what it returned is -1 or a delay of 1 to 65535.
pub Steps-IsConserved : {s : Tests} → Steps init s → IsConserved s
Steps-IsConserved here = record { slots = refl; answers = refl; delays = tt; short = tt }
Steps-IsConserved (next r st) = Step-IsConserved st (Steps-IsConserved r)
