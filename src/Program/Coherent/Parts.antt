-- ===== src/Program/Coherent/Parts.antt =====
-- The calls of each part of the program.
use libmihomo_android.Base.{
  String, ◌≡◌, refl, ap, ◌∙◌, either_way, ◌&&◌, Bool, true, false, not, if◌then◌else◌, Option, none,
  some, [], List, if_false, Outcome, ok, err, arith,
}
use mathlib.Core.Path.{sym, subst}
use libmihomo_android.Lifecycle.{InitParams, handle_init_clash}
use libmihomo_android.Config.Update.{
  Config, UpdateParams, State as Updating, update_listeners, update_loaded, handle_update_config,
}
use libmihomo_android.Config.Update.Calls.{
  InStep, handle_update_config-InStep, update_listeners-Kept, update_listeners-current,
  update_config-current,
}
use libmihomo_android.LogBridge.Bus.{dispatch_capacity}
use libmihomo_android.LogBridge.Bus.Alone.{dispatch_lem}
use libmihomo_android.LogBridge.Bus.Route.{Event, Router}
use libmihomo_android.DnsQuery.Ring.{snapshot}
use libmihomo_android.DnsQuery.Service.{Query}
use libmihomo_android.DnsQuery.Ring.Refine.{clear-Keeps, snapshot_lem}
use libmihomo_android.Program.{Core, Program, Outside, blank}
use libmihomo_android.Program.Coherent.{IsCoherent, is_loaded}
use libmihomo_android.Program.Calls
use libmihomo_android.Program.Calls.{
  init_clash, updater, updated, start_listener, stop_listener, clear_dns_queries, with_router,
  send_event, panic, queries_text, get_dns_queries, crash,
}

module _ {V L R S B Raw : Type 0} (out : Outside V L R S B Raw) where
  life-IsCoherent :
      (r : Outcome InitParams) {c : Core V L R}
      → IsCoherent c
      → IsCoherent (record c { life = (handle_init_clash r c.life).0 })
  unfolding handle_init_clash
  life-IsCoherent (err why) v = record {
    in_step = v.in_step;
    unloaded = v.unloaded;
    recorded = v.recorded;
    history = v.history;
    ring = v.ring;
    bounded = v.bounded;
    alive = v.alive;
  }
  life-IsCoherent (ok params) v = record {
    in_step = v.in_step;
    unloaded = λ e. cc;
    recorded = v.recorded;
    history = v.history;
    ring = v.ring;
    bounded = v.bounded;
    alive = v.alive;
  }

  pub init_clash-IsCoherent :
      (text : String) (p : Program V L R S)
      → IsCoherent p.core
      → IsCoherent (init_clash out text p).0.core
  unfolding init_clash
  init_clash-IsCoherent text p v = life-IsCoherent (out.init_params text) v

  pub send_event-IsCoherent :
      (e : Event) (p : Program V L R S) → IsCoherent p.core → IsCoherent (send_event e p).core
  send_event-IsCoherent e p v =
      let kept = dispatch_lem dispatch_capacity e p.core.bus (omega arith) v.bounded in
      record {
        in_step = v.in_step;
        unloaded = v.unloaded;
        recorded = v.recorded;
        history = v.history;
        ring = v.ring;
        bounded = kept.bounded;
        alive = v.alive;
      }

  -- Whether a config is in use does not change with `updateListeners` and `updateConfig`.
  pub update_listeners-is_loaded :
      (o : Option (Config V)) (s : Updating V L)
      → is_loaded (update_listeners out.listeners o s).current ≡ is_loaded s.current
  unfolding update_listeners
  update_listeners-is_loaded none s = refl
  update_listeners-is_loaded (some c) s = ap is_loaded (update_listeners-current out.listeners c s)

  update_loaded-is_loaded :
      (params : Outcome (UpdateParams V)) (o : Option (Config V)) (s : Updating V L)
      → s.current ≡ o
      → is_loaded (update_loaded out.listeners params o s).0.current ≡ is_loaded s.current
  unfolding update_loaded
  update_loaded-is_loaded params none s e = refl
  update_loaded-is_loaded (err why) (some c) s e = refl
  update_loaded-is_loaded (ok q) (some c) s e =
      ap is_loaded (update_config-current out.listeners q c s) ∙ sym (ap is_loaded e)

  pub handle_update_config-is_loaded :
      (params : Outcome (UpdateParams V)) (s : Updating V L)
      → is_loaded (handle_update_config out.listeners params s).0.current ≡ is_loaded s.current
  unfolding handle_update_config
  handle_update_config-is_loaded params s = either (not s.is_init)
    where
      either :
          (b : Bool)
          → is_loaded
              (if b
                then (s, "not initialized")
                else update_loaded out.listeners params s.current s).0.current
            ≡ is_loaded s.current
      either true = refl
      either false = update_loaded-is_loaded params s.current s refl

  pub update_config-IsCoherent :
      (nil_seen : Bool) (text : String) (p : Program V L R S)
      → IsCoherent p.core
      → IsCoherent (Calls.update_config out nil_seen text p).0.core
  unfolding Calls.update_config
  update_config-IsCoherent nil_seen text p v =
      let params = out.update_params text in
      let same = handle_update_config-is_loaded params (updater p.core) in
      let s = handle_update_config out.listeners params (updater p.core) in
      either_way (λ (r : Program V L R S × String). IsCoherent r.0.core)
        (p.core.life.is_init && nil_seen) (p, "config not loaded")
        (record p { core = updated s.0 p.core }, s.1) v
        record {
          in_step = handle_update_config-InStep out.listeners params (updater p.core) v.in_step;
          unloaded = λ e. same ∙ v.unloaded e;
          recorded = λ e. v.recorded (sym same ∙ e);
          history = v.history;
          ring = v.ring;
          bounded = v.bounded;
          alive = v.alive;
        }

  update_listeners-InStep :
      (o : Option (Config V)) (s : Updating V L)
      → s.current ≡ o
      → InStep o s.globals
      → InStep
          (update_listeners out.listeners o s).current
          (update_listeners out.listeners o s).globals
  unfolding update_listeners
  update_listeners-InStep none s e v = subst (λ o. InStep o s.globals) (sym e) v
  update_listeners-InStep (some c) s e v =
      let (q, w) = update_listeners-Kept out.listeners c s (e, v) in
      subst (λ o. InStep o (update_listeners out.listeners (some c) s).globals) (sym q) w

  pub start_listener-IsCoherent :
      (p : Program V L R S) → IsCoherent p.core → IsCoherent (start_listener out p).0.core
  unfolding start_listener
  start_listener-IsCoherent p v =
      let running = record p.core { is_running = true } in
      let same = update_listeners-is_loaded running.config.current (updater running) in
      record {
        in_step = update_listeners-InStep running.config.current (updater running) refl v.in_step;
        unloaded = λ e. same ∙ v.unloaded e;
        recorded = λ e. v.recorded (sym same ∙ e);
        history = v.history;
        ring = v.ring;
        bounded = v.bounded;
        alive = v.alive;
      }

  pub stop_listener-IsCoherent :
      (p : Program V L R S) → IsCoherent p.core → IsCoherent (stop_listener out p).0.core
  unfolding stop_listener
  stop_listener-IsCoherent p v = record {
    in_step = v.in_step;
    unloaded = v.unloaded;
    recorded = v.recorded;
    history = v.history;
    ring = v.ring;
    bounded = v.bounded;
    alive = v.alive;
  }

  pub clear_dns_queries-IsCoherent :
      (p : Program V L R S) → IsCoherent p.core → IsCoherent (clear_dns_queries out p).core
  unfolding clear_dns_queries
  clear_dns_queries-IsCoherent p v = record {
    in_step = v.in_step;
    unloaded = v.unloaded;
    recorded = v.recorded;
    history = [];
    ring = clear-Keeps blank v.ring;
    bounded = v.bounded;
    alive = v.alive;
  }

  pub any_router-IsCoherent :
      (r : Router) (c : Core V L R) → IsCoherent c → IsCoherent (record c { router = r })
  any_router-IsCoherent r c v = record {
    in_step = v.in_step;
    unloaded = v.unloaded;
    recorded = v.recorded;
    history = v.history;
    ring = v.ring;
    bounded = v.bounded;
    alive = v.alive;
  }

  -- `Snapshot` does not panic on a ring that keeps its invariant.
  read-alive :
      (p : Program V L R S) (o : Option (List Query)) (qs : List Query)
      → o ≡ some qs
      → IsCoherent p.core
      → IsCoherent (queries_text out p o).0.core
  read-alive p none qs e v = cc
  read-alive p (some rs) qs e v = v

  pub get_dns_queries-IsCoherent :
      (p : Program V L R S) → IsCoherent p.core → IsCoherent (get_dns_queries out p).0.core
  unfolding get_dns_queries
  get_dns_queries-IsCoherent p v = read-alive p (snapshot p.core.queries) _ (snapshot_lem v.ring) v

  pub crash-IsCoherent :
      out.debug ≡ false → (p : Program V L R S) → IsCoherent p.core → IsCoherent (crash out p).core
  unfolding crash
  crash-IsCoherent release p v =
      subst (λ (q : Program V L R S). IsCoherent q.core)
        (sym (if_false out.debug (panic p) release)) v
