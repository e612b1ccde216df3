-- ===== src/Program/Coherent/Served.antt =====
-- The variables after a turn or a tick of the loop of the log bus, and after a DNS message.
use libmihomo_android.Base.{
  either_way, ℕ, ◌≤◌, ◌≡◌, refl, ap, sym, Bool, Option, none, some, List, [], ◌∷◌, length, arith,
  ltb, ◌>>=◌,
}
use mathlib.Core.Path.{subst}
use libmihomo_android.Text.{Text}
use libmihomo_android.DnsQuery.Service.{Msg, Service}
use libmihomo_android.DnsQuery.Service.Correct.{serve_msg_lem}
use libmihomo_android.LogBridge.Bus.{dispatch_capacity, Bus}
use libmihomo_android.LogBridge.Bus.Route.{Event, Router, tick}
use libmihomo_android.Program.{Core, Program, Outside}
use libmihomo_android.Program.Runs.{route_next, turn, flush, ask_service, serve, recorded}
use libmihomo_android.Program.Coherent.{IsCoherent}
use libmihomo_android.Program.Coherent.Applied.{Relies}

module _ {V L R S B Raw : Type 0} (out : Outside V L R S B Raw) (relies : Relies out) where
  route_next-IsCoherent :
      (ok : Bool) (queue : List Event) (c : Core V L R)
      → length queue ≤ length c.bus.queue
      → IsCoherent c
      → IsCoherent (route_next out ok queue c)
  route_next-IsCoherent ok [] c h v = v
  route_next-IsCoherent ok (e ∷ rest) c h v = record {
    in_step = v.in_step;
    unloaded = v.unloaded;
    recorded = v.recorded;
    history = v.history;
    ring = v.ring;
    bounded = omega (arith, h, v.bounded);
    alive = v.alive;
  }

  pub turn-IsCoherent :
      (ok : Bool) (p : Program V L R S) → IsCoherent p.core → IsCoherent (turn out ok p).core
  unfolding turn
  turn-IsCoherent ok p v = route_next-IsCoherent ok p.core.bus.queue p.core (omega arith) v

  tick-queue :
      (ok : Bool) (now : ℕ) (tag : Text) (b : Bus Event) (r : Router)
      → (tick out.stamp out.sink_os ok now tag out.overflow b r).0.queue ≡ b.queue
  unfolding tick
  tick-queue ok now tag b r =
      either_way (λ (t : Bus Event × Router). t.0.queue ≡ b.queue) (ltb 0 b.drop_count) _ _ refl
        refl

  pub flush-IsCoherent :
      (ok : Bool) (p : Program V L R S) → IsCoherent p.core → IsCoherent (flush out ok p).core
  unfolding flush
  flush-IsCoherent ok p v =
      let same = tick-queue ok (out.now p.rest) (out.text_of "libclash") p.core.bus p.core.router in
      record {
        in_step = v.in_step;
        unloaded = v.unloaded;
        recorded = v.recorded;
        history = v.history;
        ring = v.ring;
        bounded = subst (λ q. length q ≤ dispatch_capacity) (sym same) v.bounded;
        alive = v.alive;
      }

  -- What a message for the service gives: no panic, and coherent variables.
  pub record Serves (r : Option (Program V L R S)) : Type 0 where
    pub after : Program V L R S
    pub served : r ≡ some after
    pub coherent : IsCoherent after.core

  ask_service-Serves :
      (s : Option (Service R)) (msg : Msg) (p : Program V L R S)
      → IsCoherent p.core
      → Serves (ask_service out s msg p)
  ask_service-Serves none msg p v = record { after = p; served = refl; coherent = v }
  ask_service-Serves (some s) msg p v =
      let (log, e, kept) = serve_msg_lem out.tables out.ask out.clock s msg v.ring in
      record {
        after = record p { core = record p.core { queries = log } };
        served = ap (λ r. r >>= λ x. some (recorded p x)) e;
        coherent = record {
          in_step = v.in_step;
          unloaded = v.unloaded;
          recorded = v.recorded;
          history = _;
          ring = kept;
          bounded = v.bounded;
          alive = v.alive;
        };
      }

  pub serve-Serves :
      (msg : Msg) (p : Program V L R S) → IsCoherent p.core → Serves (serve out msg p)
  unfolding serve
  serve-Serves msg p v = ask_service-Serves p.core.service msg p v
