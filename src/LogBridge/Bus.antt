-- ===== src/LogBridge/Bus.antt =====
-- The bus of log_bridge.go: a bounded channel of events, filled by `dispatch` and drained by
-- `dispatchLoop`, and `route`, which gives an event to the sinks.
pub mod Alone
pub mod Conserved
pub mod Route
use libmihomo_android.Base.{
  ℕ, zero, suc, ◌+◌, ◌<◌, ◌≤◌, List, [], ◌∷◌, ◌++◌, ◌≡◌, Bool, true, false, if◌then◌else◌, ltb,
  length,
}

abbrev pub dispatch_capacity : ℕ
dispatch_capacity = 1024

-- `logDispatchCh` and `dropCount`. A counter of 64 bits does not wrap within 2 ^ 64 events.
pub record Bus {ℓ} (E : Type ℓ) : Type ℓ where
  pub queue : List E
  pub drop_count : ℕ

-- `case <-logDispatchCh: dropCount.Add(1)`, or nothing where the channel is empty.
unfoldable pub drop_oldest {ℓ} : {E : Type ℓ} → Bus E → Bus E
drop_oldest b = elim b.queue [
  | [] ↦ b
  | x ∷ rest ↦ record { queue = rest; drop_count = b.drop_count + 1 }
]

module _ {ℓ} {E : Type ℓ} (cap : ℕ) where
  -- `case logDispatchCh <- e`, and whether it was taken.
  unfoldable pub try_send : E → Bus E → Bool × Bus E
  try_send e b =
      if ltb (length b.queue) cap
      then (true, record b { queue = b.queue ++ (e ∷ []) })
      else (false, b)

  -- `dispatch`, where nobody else uses the channel meanwhile.
  unfoldable pub dispatch : E → Bus E → Bus E
  unfolding try_send drop_oldest
  dispatch e b =
      let (sent, b1) = try_send e b in
      if sent
      then b1
      else (let (again, b2) = try_send e (drop_oldest b1) in
          if again then b2 else record b2 { drop_count = b2.drop_count + 1 })

-- A call of `dispatch` before its first, second or third select.
pub data Phase {ℓ} (E : Type ℓ) : Type ℓ where
  sending dropping retrying : E → Phase E

-- The bus while calls of `dispatch` and the loop take turns: the calls under way, how many were made,
-- the events that the loop took, and the drops that it reported.
pub record Race {ℓ} (E : Type ℓ) : Type ℓ where
  pub bus : Bus E
  pub calls : List (Phase E)
  pub made : ℕ
  pub routed : List E
  pub reported : ℕ

module _ {ℓ} {E : Type ℓ} (cap : ℕ) where
  -- One select of a call under way, which stands behind `xs` and before `ys`; or a new call; or a
  -- turn of the loop.
  pub data Turn (s : Race E) : Race E → Type ℓ where
    call : (e : E) → Turn s (record s { calls = sending e ∷ s.calls; made = s.made + 1 })
    sent :
        (xs ys : List (Phase E)) (e : E)
        → s.calls ≡ xs ++ sending e ∷ ys
        → length s.bus.queue < cap
        → Turn s
            (record s { calls = xs ++ ys; bus = record s.bus { queue = s.bus.queue ++ (e ∷ []) } })
    full :
        (xs ys : List (Phase E)) (e : E)
        → s.calls ≡ xs ++ sending e ∷ ys
        → cap ≤ length s.bus.queue
        → Turn s (record s { calls = xs ++ dropping e ∷ ys })
    drop :
        (xs ys : List (Phase E)) (e : E)
        → s.calls ≡ xs ++ dropping e ∷ ys
        → Turn s (record s { calls = xs ++ retrying e ∷ ys; bus = drop_oldest s.bus })
    resent :
        (xs ys : List (Phase E)) (e : E)
        → s.calls ≡ xs ++ retrying e ∷ ys
        → length s.bus.queue < cap
        → Turn s
            (record s { calls = xs ++ ys; bus = record s.bus { queue = s.bus.queue ++ (e ∷ []) } })
    given_up :
        (xs ys : List (Phase E)) (e : E)
        → s.calls ≡ xs ++ retrying e ∷ ys
        → cap ≤ length s.bus.queue
        → Turn s (record s {
          calls = xs ++ ys;
          bus = record s.bus { drop_count = s.bus.drop_count + 1 };
        })
    receive :
        (x : E) (rest : List E)
        → s.bus.queue ≡ x ∷ rest
        → Turn s (record s { bus = record s.bus { queue = rest }; routed = s.routed ++ (x ∷ []) })
    report : Turn s (record s {
      bus = record s.bus { drop_count = 0 };
      reported = s.reported + s.bus.drop_count;
    })

  pub data Turns (s : Race E) : Race E → Type ℓ where
    here : Turns s s
    next : {t u : Race E} → Turns s t → Turn t u → Turns s u
