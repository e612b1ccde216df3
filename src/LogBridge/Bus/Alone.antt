-- ===== src/LogBridge/Bus/Alone.antt =====
-- A `dispatch` that is not disturbed keeps the newest events.
use libmihomo_android.Base.{
  ℕ, ◌+◌, ◌-◌, ◌<◌, ◌≤◌, List, [], ◌∷◌, ◌++◌, ◌≡◌, refl, length, length-append, arith, drop, ap,
  ◌∙◌,
}
use native.Mathlib.Decide.{dec_lt}
use libmihomo_android.LogBridge.Bus.{Bus, dispatch}

module _ {ℓ} {E : Type ℓ} (cap : ℕ) (e : E) where
  dispatch-room :
      (b : Bus E)
      → length b.queue < cap
      → dispatch cap e b ≡ record b { queue = b.queue ++ (e ∷ []) }
  unfolding dispatch
  dispatch-room b h = ground arith

  dispatch-full :
      (b : Bus E) (x : E) (rest : List E)
      → b.queue ≡ x ∷ rest
      → length b.queue ≡ cap
      → dispatch cap e b ≡ record { queue = rest ++ (e ∷ []); drop_count = b.drop_count + 1 }
  unfolding dispatch
  dispatch-full b x rest q h = ground arith

  -- What an undisturbed `dispatch` leaves, where `over` is the number of events above the capacity.
  pub record Kept (b t : Bus E) : Type ℓ where
    pub queue : t.queue ≡ drop (length b.queue + 1 - cap) (b.queue ++ (e ∷ []))
    pub counted : t.drop_count ≡ b.drop_count + (length b.queue + 1 - cap)
    pub bounded : length t.queue ≤ cap

  Kept-room : (b : Bus E) → length b.queue < cap → Kept b (dispatch cap e b)
  Kept-room b h =
      let none_over : length b.queue + 1 - cap ≡ 0 = omega arith in
      rw (dispatch-room b h) (record {
        queue = rw none_over refl;
        counted = omega arith;
        bounded = omega (arith, length-append b.queue (e ∷ []));
      })

  Kept-full :
      (b : Bus E) (q : List E) → b.queue ≡ q → 0 < cap → length q ≡ cap → Kept b (dispatch cap e b)
  Kept-full b [] same p h = absurd (omega arith)
  Kept-full b (x ∷ rest) same p h =
      let size : length b.queue ≡ cap = ap length same ∙ h in
      let one_over : length b.queue + 1 - cap ≡ 1 = omega arith in
      rw (dispatch-full b x rest same size) (record {
        queue = rw (one_over, same) refl;
        counted = omega arith;
        bounded = omega (arith, length-append rest (e ∷ []));
      })

  -- Into a channel of at least one place that holds no more than it may, an undisturbed `dispatch`
  -- puts the event last, drops as many of the oldest as stand above the capacity, and counts them.
  pub dispatch_lem : (b : Bus E) → 0 < cap → length b.queue ≤ cap → Kept b (dispatch cap e b)
  dispatch_lem b p h = elim (dec_lt (length b.queue) cap) [
    | yes room ↦ Kept-room b room
    | no full ↦ Kept-full b b.queue refl p (omega arith)
  ]
