-- ===== src/Program/Owed.antt =====
-- The references to callbacks over any sequence of what reaches the program.
use libmihomo_android.Base.{
  ◌==◌, true, false, String, either_way, if◌then◌else◌, eqb, ℕ, ◌+◌, ◌≡◌, Option, none, some, List,
  [], ◌∷◌, ◌>>=◌, arith,
}
use mathlib.Core.Path.{subst}
use libmihomo_android.Bridge.Host.{Json}
use libmihomo_android.Bridge.Reply.{World, invoked, released}
use libmihomo_android.Bridge.Actions.Balance.{is_release, total, total-append}
use libmihomo_android.Bridge.Actions.Entry.{invoke_action}
use libmihomo_android.Bridge.Actions.Others.{owed_of, invoke_action-releases_of}
use libmihomo_android.Program.{Program, Outside}
use libmihomo_android.Program.Calls.{init_clash, setup_config}
use libmihomo_android.Program.Exports.{set_running, answer, settle, quick_setup}
use libmihomo_android.Program.Handled.{os_on, handlers}
use libmihomo_android.Program.Runs.{
  Input, action, mihomo_event, captured_line, loop_turn, loop_tick, dns_message, suspend,
  update_dns, start_tun_call, stop_tun_call, quick_setup_call, geo_turn, step, run, serve,
  set_state, unless_panicked,
}
use libmihomo_android.Program.Coherent.{IsCoherent}
use libmihomo_android.Program.Coherent.Applied.{Relies}
use libmihomo_android.Program.Coherent.Always.{run-Runs}

-- How often a reference is owed a release for an input, and for a sequence of them.
abbrev pub owed_for : ℕ → Input → ℕ
owed_for c (action callback nil_seen a) = owed_of c callback a
owed_for c (mihomo_event level payload) = 0
owed_for c (captured_line payload) = 0
owed_for c (loop_turn ok) = 0
owed_for c (loop_tick ok) = 0
owed_for c (dns_message msg) = 0
owed_for c (suspend suspended) = 0
owed_for c (update_dns value) = 0
owed_for c (start_tun_call callback fd listener) = 0
owed_for c stop_tun_call = 0
owed_for c (quick_setup_call callback init_text setup_text) = if eqb callback c then 1 else 0
owed_for c (geo_turn now after) = 0

abbrev pub owed_over : ℕ → List Input → ℕ
owed_over c [] = 0
owed_over c (i ∷ is) = owed_for c i + owed_over c is

module _ {V L R S B Raw : Type 0} (out : Outside V L R S B Raw) (json : Json Raw) (c : ℕ) where
  -- The releases of the reference that a run adds, where it has not panicked.
  abbrev Adds : ℕ → World (Program V L R S) → Option (World (Program V L R S)) → Type 0
  Adds n w none = Unit
  Adds n w (some t) = total (is_release c) t.events ≡ n + total (is_release c) w.events

  alive-Adds :
      (n : ℕ) (w t : World (Program V L R S)) → Adds n w (some t) → Adds n w (unless_panicked t)
  alive-Adds n w t v = either_way (Adds n w) t.state.core.panicked none (some t) tt v

  served-Adds :
      (w : World (Program V L R S)) (o : Option (Program V L R S))
      → Adds 0 w (o >>= λ p. some (set_state w p))
  served-Adds w none = tt
  served-Adds w (some p) = omega arith

  answer-Adds :
      (callback : ℕ) (text : String) (p : Program V L R S) (w : World (Program V L R S))
      → Adds (if eqb callback c then 1 else 0) w (some (answer callback text p w))
  unfolding answer total is_release
  answer-Adds callback text p w =
      omega (
        arith,
        total-append (is_release c) w.events (invoked callback text ∷ released callback ∷ []),
      )

  settle-Adds :
      (callback : ℕ) (r : Program V L R S × String) (w : World (Program V L R S))
      → Adds (if eqb callback c then 1 else 0) w (some (settle out callback r w))
  unfolding settle
  settle-Adds callback (p, text) w =
      answer-Adds callback text (if text == "" then p else set_running false p) w

  quick_setup-Adds :
      (callback : ℕ) (init_text setup_text : String) (w : World (Program V L R S))
      → Adds
          (if eqb callback c then 1 else 0)
          w
          (some (quick_setup out callback init_text setup_text w))
  unfolding quick_setup
  quick_setup-Adds callback init_text setup_text w =
      let first = (init_clash out init_text w.state).0 in
      either_way
        (λ (u : World (Program V L R S)). Adds (if eqb callback c then 1 else 0) w (some u))
        (init_clash out init_text w.state).1
        (settle out callback (setup_config out setup_text (set_running true first)) w)
        (answer callback "init failed" first w)
        (settle-Adds callback (setup_config out setup_text (set_running true first)) w)
        (answer-Adds callback "init failed" first w)

  step-Adds : (i : Input) (w : World (Program V L R S)) → Adds (owed_for c i) w (step out json i w)
  unfolding step
  step-Adds (action callback nil_seen a) w =
      alive-Adds (owed_of c callback a) w
        (invoke_action json (os_on out.os) (handlers out nil_seen) callback a w)
        (invoke_action-releases_of json (os_on out.os) (handlers out nil_seen) c callback w a)
  step-Adds (mihomo_event level payload) w = omega arith
  step-Adds (captured_line payload) w = omega arith
  step-Adds (loop_turn ok) w = omega arith
  step-Adds (loop_tick ok) w = omega arith
  step-Adds (suspend suspended) w = omega arith
  step-Adds (update_dns value) w = omega arith
  step-Adds (start_tun_call callback fd listener) w = omega arith
  step-Adds stop_tun_call w = omega arith
  step-Adds (quick_setup_call callback init_text setup_text) w =
      alive-Adds (if eqb callback c then 1 else 0) w
        (quick_setup out callback init_text setup_text w)
        (quick_setup-Adds callback init_text setup_text w)
  step-Adds (geo_turn now after) w = omega arith
  step-Adds (dns_message msg) w = served-Adds w (serve out msg w.state)

  joined-Adds :
      (m n : ℕ) (w t : World (Program V L R S)) (o : Option (World (Program V L R S)))
      → total (is_release c) t.events ≡ m + total (is_release c) w.events
      → Adds n t o
      → Adds (m + n) w o
  joined-Adds m n w t none first rest = tt
  joined-Adds m n w t (some u) first rest = omega (arith, first, rest)

  chained-Adds :
      (m n : ℕ) (w : World (Program V L R S)) (o : Option (World (Program V L R S)))
      (f : World (Program V L R S) → Option (World (Program V L R S)))
      → Adds m w o
      → ((t : World (Program V L R S)) → Adds n t (f t))
      → Adds (m + n) w (o >>= f)
  chained-Adds m n w none f first rest = tt
  chained-Adds m n w (some t) f first rest = joined-Adds m n w t (f t) first (rest t)

  run-Adds :
      (is : List Input) (w : World (Program V L R S)) → Adds (owed_over c is) w (run out json is w)
  unfolding run
  run-Adds [] w = omega arith
  run-Adds (i ∷ is) w =
      chained-Adds (owed_for c i) (owed_over c is) w (step out json i w) (run out json is)
        (step-Adds i w) (λ t. run-Adds is t)

  -- A run that ends, with the releases of the reference that it is owed.
  pub record Releases (is : List Input) (w : World (Program V L R S)) : Type 0 where
    pub after : World (Program V L R S)
    pub ran : run out json is w ≡ some after
    pub released :
        total (is_release c) after.events ≡ owed_over c is + total (is_release c) w.events

  -- Where the variables are coherent, whatever reaches the program, in whatever order, it never panics, and each
  -- reference to a callback is released exactly as often as actions and quick setups were invoked with it, those
  -- actions left aside that are no action or name the method of the listener's messages. The releases of a TUN
  -- session are events of the session, and do not count here.
  pub run-Releases :
      Relies out
      → (is : List Input) (w : World (Program V L R S)) → IsCoherent w.state.core
      → Releases is w
  run-Releases relies is w v =
      let done = run-Runs out relies json is w v in
      record {
        after = done.after;
        ran = done.ran;
        released = subst (Adds (owed_over c is) w) done.ran (run-Adds is w);
      }
