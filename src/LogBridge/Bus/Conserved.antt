-- ===== src/LogBridge/Bus/Conserved.antt =====
-- No event is lost without being counted, however calls of `dispatch` and the loop interleave.
use libmihomo_android.Base.{ℕ, ◌+◌, ◌≤◌, [], ◌∷◌, ◌≡◌, length, length-append, arith, ap}
use libmihomo_android.LogBridge.Bus.{
  Bus, drop_oldest, sending, dropping, retrying, Race, Turn, call, sent, full, drop, resent,
  given_up, receive, report, Turns, here, next,
}

abbrev pub start {ℓ} : {E : Type ℓ} → Race E
start = record {
  bus = record { queue = []; drop_count = 0 };
  calls = [];
  made = 0;
  routed = [];
  reported = 0;
}

module _ {ℓ} {E : Type ℓ} (cap : ℕ) where
  -- The channel keeps its bound, and every event of a call that was made is in a call under way, in
  -- the channel, taken by the loop, or counted as dropped.
  pub record IsConserved (s : Race E) : Type 0 where
    pub bounded : length s.bus.queue ≤ cap
    pub counted :
        s.made
        ≡ length s.calls + length s.bus.queue + s.bus.drop_count + length s.routed + s.reported

  drop_oldest_lem :
      (b : Bus E)
      → (length (drop_oldest b).queue + (drop_oldest b).drop_count ≡ length b.queue + b.drop_count)
        × (length (drop_oldest b).queue ≤ length b.queue)
  unfolding drop_oldest
  drop_oldest_lem b = ground arith

  Turn-IsConserved : {s t : Race E} → Turn cap s t → IsConserved s → IsConserved t
  Turn-IsConserved (call e) v = omega arith
  Turn-IsConserved {s} (sent xs ys e c h) v = omega (
    arith,
    ap length c,
    length-append xs (sending e ∷ ys),
    length-append xs ys,
    length-append s.bus.queue (e ∷ []),
  )
  Turn-IsConserved {s} (full xs ys e c h) v =
      omega
        (arith, ap length c, length-append xs (sending e ∷ ys), length-append xs (dropping e ∷ ys))
  Turn-IsConserved {s} (drop xs ys e c) v = omega (
    arith,
    ap length c,
    length-append xs (dropping e ∷ ys),
    length-append xs (retrying e ∷ ys),
    drop_oldest_lem s.bus,
  )
  Turn-IsConserved {s} (resent xs ys e c h) v = omega (
    arith,
    ap length c,
    length-append xs (retrying e ∷ ys),
    length-append xs ys,
    length-append s.bus.queue (e ∷ []),
  )
  Turn-IsConserved {s} (given_up xs ys e c h) v =
      omega (arith, ap length c, length-append xs (retrying e ∷ ys), length-append xs ys)
  Turn-IsConserved {s} (receive x rest c) v =
      omega (arith, ap length c, length-append s.routed (x ∷ []))
  Turn-IsConserved report v = omega arith

  -- In every state that calls of `dispatch` and turns of the loop lead to, the channel holds at most
  -- `cap` events, and the calls made are those under way and those whose event is in the channel, was
  -- taken by the loop, or was counted as dropped.
  pub Turns-IsConserved : {s : Race E} → Turns cap start s → IsConserved s
  Turns-IsConserved here = omega arith
  Turns-IsConserved (next r t) = Turn-IsConserved t (Turns-IsConserved r)
