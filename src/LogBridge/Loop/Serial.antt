-- ===== src/LogBridge/Loop/Serial.antt =====
-- There is one goroutine of `dispatchLoop`, also after panics, and it empties the channel.
use libmihomo_android.Base.{
  ℕ, suc, ◌+◌, ◌≤◌, List, [], ◌∷◌, ◌++◌, true, ◌≡◌, refl, ap, sym, ◌∙◌, length, length-append,
  arith,
}
use mathlib.Core.List.{append-nil, append_assoc}
use libmihomo_android.Text.{Text}
use libmihomo_android.LogBridge.Level.{error}
use libmihomo_android.LogBridge.Sink.{Os}
use libmihomo_android.LogBridge.Bus.{Bus}
use libmihomo_android.LogBridge.Bus.Route.{Event, Router, route}
use libmihomo_android.LogBridge.Loop.{
  Worker, looping, recovering, Loop, start_loop, emergency_logcat, Step, send, receive,
  receive_panics, flush, flush_panics, restart, Steps, here, next,
}

-- 1 for a goroutine in the deferred function.
abbrev pub in_recovery : Worker → ℕ
in_recovery looping = 0
in_recovery (recovering why) = 1

abbrev pub recoveries : List Worker → ℕ
recoveries [] = 0
recoveries (g ∷ gs) = in_recovery g + recoveries gs

recoveries-put :
    (before : List Worker) (g : Worker) (after : List Worker)
    → recoveries (before ++ (g ∷ after)) ≡ in_recovery g + recoveries (before ++ after)
recoveries-put [] g after = refl
recoveries-put (b ∷ before) g after = omega (arith, recoveries-put before g after)

length-put :
    (before : List Worker) (g : Worker) (after : List Worker)
    → length (before ++ (g ∷ after)) ≡ suc (length (before ++ after))
length-put [] g after = refl
length-put (b ∷ before) g after = omega (arith, length-put before g after)

pub record IsSerial (s : Loop) : Type 0 where
  pub one : length s.goroutines ≡ 1
  pub counted : s.restarts + recoveries s.goroutines ≡ s.panics
  pub lost_by_panic : length s.lost ≤ s.panics

module _ (stamp : ℕ → Text) (os : Os) (libclash : Text) (overflow : ℕ → Text)
    (panicked : Text → Text) where
  abbrev Move : Loop → Loop → Type 0
  Move = Step stamp os libclash overflow panicked

  abbrev pub Moves : Loop → Loop → Type 0
  Moves = Steps stamp os libclash overflow panicked

  Step-IsSerial : {s t : Loop} → Move s t → IsSerial s → IsSerial t
  Step-IsSerial (send e) v = record {
    one = v.one;
    counted = v.counted;
    lost_by_panic = v.lost_by_panic;
  }
  Step-IsSerial (receive before after ok e rest at q) v = record {
    one = v.one;
    counted = v.counted;
    lost_by_panic = v.lost_by_panic;
  }
  Step-IsSerial {s} (receive_panics before after why r e rest at q) v = record {
    one = omega (
      arith,
      v.one,
      ap {A = List Worker} (λ gs. length gs) at,
      length-put before looping after,
      length-put before (recovering why) after,
    );
    counted = omega (
      arith,
      v.counted,
      ap recoveries at,
      recoveries-put before looping after,
      recoveries-put before (recovering why) after,
    );
    lost_by_panic = omega (arith, v.lost_by_panic, length-append s.lost (e ∷ []));
  }
  Step-IsSerial (flush before after ok now at) v = record {
    one = v.one;
    counted = v.counted;
    lost_by_panic = v.lost_by_panic;
  }
  Step-IsSerial (flush_panics before after why b r at q) v = record {
    one = omega (
      arith,
      v.one,
      ap {A = List Worker} (λ gs. length gs) at,
      length-put before looping after,
      length-put before (recovering why) after,
    );
    counted = omega (
      arith,
      v.counted,
      ap recoveries at,
      recoveries-put before looping after,
      recoveries-put before (recovering why) after,
    );
    lost_by_panic = omega (arith, v.lost_by_panic);
  }
  Step-IsSerial (restart before after why at) v = record {
    one = omega (
      arith,
      v.one,
      ap {A = List Worker} (λ gs. length gs) at,
      length-put before looping after,
      length-put before (recovering why) after,
    );
    counted = omega (
      arith,
      v.counted,
      ap recoveries at,
      recoveries-put before looping after,
      recoveries-put before (recovering why) after,
    );
    lost_by_panic = v.lost_by_panic;
  }

  Steps-IsSerial : {s t : Loop} → Moves s t → IsSerial s → IsSerial t
  Steps-IsSerial here v = v
  Steps-IsSerial (next steps step) v = Step-IsSerial step (Steps-IsSerial steps v)

  start_loop-IsSerial :
      (tag msg : Text) (bus : Bus Event) (router : Router)
      → IsSerial (start_loop tag msg bus router)
  unfolding start_loop
  start_loop-IsSerial tag msg bus router = record {
    one = refl;
    counted = refl;
    lost_by_panic = omega arith;
  }

  -- `s` can go on to a state in which every event that waits has been routed, in order, and no other.
  pub record Drains (s : Loop) : Type 0 where
    pub after : Loop
    pub steps : Moves s after
    pub emptied : after.bus.queue ≡ []
    pub routed : after.routed ≡ s.routed ++ s.bus.queue

  Steps-trans : {s t u : Loop} → Moves s t → Moves t u → Moves s u
  Steps-trans first here = first
  Steps-trans first (next then step) = next (Steps-trans first then) step

  -- What a looping goroutine does with the events that wait.
  drain :
      (queue : List Event) (s : Loop) → s.bus.queue ≡ queue → s.goroutines ≡ looping ∷ [] → Drains s
  drain [] s q alone = record {
    after = s;
    steps = here;
    emptied = q;
    routed = sym (append-nil s.routed) ∙ ap (λ es. s.routed ++ es) (sym q);
  }
  drain (e ∷ rest) s q alone =
      let t : Loop = record s {
        bus = record s.bus { queue = rest };
        router = route stamp os true e s.router;
        routed = s.routed ++ (e ∷ []);
      } in
      let more = drain rest t refl alone in
      record {
        after = more.after;
        steps = Steps-trans (next here (receive [] [] true e rest alone q)) more.steps;
        emptied = more.emptied;
        routed =
            more.routed ∙ append_assoc s.routed (e ∷ []) rest ∙ ap (λ es. s.routed ++ es) (sym q);
      }

  -- What the only goroutine does first, after a panic.
  recover : (s : Loop) (g : Worker) → s.goroutines ≡ g ∷ [] → Drains s
  recover s looping alone = drain s.bus.queue s refl alone
  recover s (recovering why) alone =
      let t : Loop = record s {
        goroutines = looping ∷ [];
        router = emergency_logcat error libclash (panicked why) s.router;
        restarts = suc s.restarts;
      } in
      let more = drain t.bus.queue t refl refl in
      record {
        after = more.after;
        steps = Steps-trans (next here (restart [] [] why alone)) more.steps;
        emptied = more.emptied;
        routed = more.routed;
      }

  only : (s : Loop) (gs : List Worker) → s.goroutines ≡ gs → length gs ≡ 1 → Drains s
  only s [] e n = let never : ⊥ = omega (arith, n) in elim never [ ]
  only s (g ∷ []) e n = recover s g e
  only s (g ∷ h ∷ gs) e n = let never : ⊥ = omega (arith, n) in elim never [ ]

  -- From every state that the loop reaches, however often it panicked, it has one goroutine, has restarted once
  -- for each panic but one that is being recovered from, and can go on to route all events that wait.
  pub loop_drains :
      {s : Loop} (tag msg : Text) (bus : Bus Event) (router : Router)
      → Moves (start_loop tag msg bus router) s
      → IsSerial s × Drains s
  loop_drains {s} tag msg bus router steps =
      let v = Steps-IsSerial steps (start_loop-IsSerial tag msg bus router) in
      (v, only s s.goroutines refl v.one)
