-- ===== src/Streams/Worker/Laws.antt =====
-- The invariant of the goroutines, and that each step of a stream keeps it.
use libmihomo_android.Base.{
  ℕ, ◌≤◌, ◌<◌, List, [], ◌∷◌, none, some, Bool, true, false, ◌≡◌, refl, ◌⊎◌, inl, inr, Bool-cases,
}
use native.Mathlib.Omega.{arith}
use libmihomo_android.Streams.Worker.{
  absent, live, ending, exited, is_running, free, waiting, Streams, init, begin, cancel, rest, send,
  leave,
}

-- The sender of the last message.
abbrev pub top : List ℕ → ℕ
top [] = 0
top (i ∷ is) = i

-- No message comes from a goroutine that is older than the sender of an earlier message.
abbrev pub IsOrdered : List ℕ → Type 0
IsOrdered [] = Unit
IsOrdered (i ∷ is) = (top is ≤ i) × IsOrdered is

-- At most one goroutine can send, and the order above.
pub record IsSerial (s : Streams) : Type 0 where
  pub alone : (i j : ℕ) → is_running (s.phase i) ≡ true → is_running (s.phase j) ≡ true → i ≡ j
  pub ordered : IsOrdered s.sent

pub record IsSound (s : Streams) : Type 0 where
  pub unborn : (i : ℕ) → s.born ≤ i → s.phase i ≡ absent
  pub known : (i : ℕ) → s.current ≡ some i → i < s.born
  pub owned : (i : ℕ) → is_running (s.phase i) ≡ true → s.current ≡ some i
  pub serves : (i : ℕ) → s.current ≡ some i → s.lock ≡ free → s.phase i ≡ live
  pub waits :
      (again : Bool) (i : ℕ)
      → s.lock ≡ waiting again i
      → (s.current ≡ some i) × ((s.phase i ≡ ending) ⊎ (s.phase i ≡ exited))
  pub ordered : IsOrdered s.sent
  pub past : top s.sent ≤ s.born
  pub latest : (i : ℕ) → is_running (s.phase i) ≡ true → top s.sent ≤ i

pub init-IsSound : IsSound init
init-IsSound = record {
  unborn = λ i h. refl;
  known = λ i h. cc;
  owned = λ i h. cc;
  serves = λ i h l. cc;
  waits = λ again i h. cc;
  ordered = tt;
  past = omega arith;
  latest = λ i h. cc;
}

module _ {s : Streams} (v : IsSound s) where
  pub send-IsSound : (i : ℕ) → is_running (s.phase i) ≡ true → IsSound (send i s)
  unfolding send
  send-IsSound i r = record {
    unborn = v.unborn;
    known = v.known;
    owned = v.owned;
    serves = v.serves;
    waits = v.waits;
    ordered = (v.latest i r, v.ordered);
    past = ground (arith, v.known i, v.owned i);
    latest = λ j h. ground (arith, v.owned i, v.owned j);
  }

  pub begin-IsSound : ((i : ℕ) → is_running (s.phase i) ≡ false) → IsSound (begin s)
  unfolding begin
  begin-IsSound quiet = record {
    unborn = λ i h. ground (arith, v.unborn i);
    known = λ i h. ground arith;
    owned = λ i h. ground (arith, quiet i);
    serves = λ i h l. ground arith;
    waits = λ again i h. cc;
    ordered = v.ordered;
    past = omega (arith, v.past);
    latest = λ j h. ground (arith, quiet j, v.past);
  }

  pub cancel-IsSound :
      (again : Bool) (i : ℕ) → s.lock ≡ free → s.current ≡ some i → IsSound (cancel again i s)
  unfolding cancel
  cancel-IsSound again i l c = record {
    unborn = λ j h. ground (arith, v.unborn j, v.known i);
    known = v.known;
    owned = λ j h. ground (arith, v.owned j);
    serves = λ j h l. cc;
    waits = λ b j h. ground arith;
    ordered = v.ordered;
    past = v.past;
    latest = λ j h. ground (arith, v.latest j, v.latest i, v.serves i);
  }

  pub rest-IsSound : ((i : ℕ) → is_running (s.phase i) ≡ false) → IsSound (rest s)
  unfolding rest
  rest-IsSound quiet = record {
    unborn = v.unborn;
    known = λ j h. cc;
    owned = λ j h. cc (quiet j);
    serves = λ j h l. cc;
    waits = λ b j h. cc;
    ordered = v.ordered;
    past = v.past;
    latest = λ j h. cc (quiet j);
  }

  pub leave-IsSound : (i : ℕ) → s.phase i ≡ ending → IsSound (leave i s)
  unfolding leave
  leave-IsSound i e = record {
    unborn = λ j h. ground (arith, v.unborn j);
    known = v.known;
    owned = λ j h. ground (arith, v.owned j);
    serves = λ j h l. ground (arith, v.serves j);
    waits = λ b j h. ground (arith, v.waits b j);
    ordered = v.ordered;
    past = v.past;
    latest = λ j h. ground (arith, v.latest j);
  }

  -- When the goroutine that a call waits for has exited, none runs.
  pub exited_quiet :
      (again : Bool) (i : ℕ)
      → s.lock ≡ waiting again i
      → s.phase i ≡ exited
      → (j : ℕ) → is_running (s.phase j) ≡ false
  exited_quiet again i l e j = elim (Bool-cases (is_running (s.phase j))) [
    | inl r ↦ absurd (ground (arith, v.owned j, v.waits again i))
    | inr r ↦ r
  ]

  pub none_quiet : s.current ≡ none → (j : ℕ) → is_running (s.phase j) ≡ false
  none_quiet c j = elim (Bool-cases (is_running (s.phase j))) [
    | inl r ↦ cc (v.owned j r)
    | inr r ↦ r
  ]

  -- At most one goroutine can send.
  pub IsSound-IsSerial : IsSerial s
  IsSound-IsSerial = record {
    alone = λ i j p q. cc (v.owned i p, v.owned j q);
    ordered = v.ordered;
  }

pub exited-leave : (i : ℕ) (s : Streams) → (leave i s).phase i ≡ exited
unfolding leave
exited-leave i s = ground arith
