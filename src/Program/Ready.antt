-- ===== src/Program/Ready.antt =====
-- The program after a setup.
pub mod Stays
use libmihomo_android.Base.{
  String, ℤ, Bool, ◌&&◌, true, false, not, if◌then◌else◌, ◌≡◌, refl, ap, sym, ◌∙◌, Option, none,
  some, List, [], ◌∷◌, Outcome, ok, err, ◌>>=◌, either_way,
}
use mathlib.Core.Path.{subst}
use libmihomo_android.Bridge.Host.{Json}
use libmihomo_android.Bridge.Reply.{World}
use libmihomo_android.Bridge.Actions.Keeps.{invoke_action-keeps}
use libmihomo_android.Lifecycle.{InitParams, Lifecycle, handle_init_clash}
use libmihomo_android.Config.Apply.{State, config_of, or_default, execute}
use libmihomo_android.Config.Update.{
  Config, UpdateParams, Listening, State as Updating, update_loaded, handle_update_config,
}
use libmihomo_android.DnsQuery.Service.{Msg, Service, Reply, Query}
use libmihomo_android.DnsQuery.Ring.{Log, snapshot}
use libmihomo_android.Program.{Core, Program, Outside}
use libmihomo_android.Program.Calls
use libmihomo_android.Program.Calls.{
  panic, queries_text, updated, put_chosen, updater, start_listener, stop_listener,
  clear_dns_queries, put_logcat_level, put_file_level, enable_file, put_log_file_path, host_log,
  put_in_use, apply_setup, set_up, mihomo_log, captured_log,
}
use libmihomo_android.Program.Handled.{os_on, handlers}
use libmihomo_android.Program.Contracts.{CoreContract, handlers-Contract}
use libmihomo_android.Program.Runs.{
  Input, action, mihomo_event, captured_line, loop_turn, loop_tick, dns_message, suspend,
  update_dns, step, run, turn, flush, route_next, serve, ask_service, recorded, set_state,
}
use libmihomo_android.LogBridge.Bus.Route.{Event}
use libmihomo_android.Program.Coherent.{IsCoherent, is_loaded}
use libmihomo_android.Program.Coherent.Parts.{
  handle_update_config-is_loaded, update_listeners-is_loaded,
}
use libmihomo_android.Program.Coherent.Applied.{or_default-is_loaded}
use libmihomo_android.Program.Coherent.Always.{Runs, run-Runs}

-- Initialised, with a config in use.
pub record IsReady {V L R : Type 0} (c : Core V L R) : Type 0 where
  pub up : c.life.is_init ≡ true
  pub loaded : is_loaded c.config.current ≡ true

-- The answer of an update that only the decoder can refuse.
abbrev pub decode_error : {A : Type 0} → Outcome A → String
decode_error (ok a) = ""
decode_error (err why) = why

init-up :
    (r : Outcome InitParams) (s : Lifecycle)
    → s.is_init ≡ true
    → (handle_init_clash r s).0.is_init ≡ true
unfolding handle_init_clash
init-up (err why) s e = e
init-up (ok params) s e = refl

pub update-answer :
    {V L : Type 0} (ops : Listening V L) (params : Outcome (UpdateParams V)) (o : Option (Config V))
    (b : Bool) (s : Updating V L)
    → b ≡ true
    → is_loaded o ≡ true
    → (if not b then (s, "not initialized") else update_loaded ops params o s).1
      ≡ decode_error params
unfolding update_loaded
update-answer ops params o false s e h = cc
update-answer ops params none true s e h = cc
update-answer ops (ok p) (some c) true s e h = refl
update-answer ops (err why) (some c) true s e h = refl

module _ {V L R S B Raw : Type 0} (out : Outside V L R S B Raw) (d : Config V)
    (default_parses : out.loader.parse out.loader.default_raw ≡ ok d) where
  put_chosen-IsReady :
      (o : Option (Config V)) (selected : String → Option String) (loaded : State (Config V))
      (p : Program V L R S)
      → is_loaded o ≡ true
      → p.core.life.is_init ≡ true
      → IsReady (put_chosen out o selected loaded p).core
  unfolding put_chosen execute
  put_chosen-IsReady none selected loaded p h e = cc
  put_chosen-IsReady (some c) selected loaded p h e = record {
    up = e;
    loaded =
        or_default-is_loaded (out.loader.parse out.loader.default_raw) d loaded.current
          default_parses;
  }

  pub put_in_use-IsReady :
      (selected : String → Option String) (loaded : State (Config V)) (p : Program V L R S)
      → p.core.life.is_init ≡ true
      → IsReady (put_in_use out selected loaded p).core
  unfolding put_in_use
  put_in_use-IsReady selected loaded p e =
      put_chosen-IsReady _ selected loaded p
        (or_default-is_loaded (out.loader.parse out.loader.default_raw) d loaded.current
          default_parses)
        e

  panic-IsReady : (p : Program V L R S) → IsReady p.core → IsReady (panic p).core
  panic-IsReady p v = record { up = v.up; loaded = v.loaded }

  read-IsReady :
      (p : Program V L R S) (o : Option (List Query))
      → IsReady p.core
      → IsReady (queries_text out p o).0.core
  read-IsReady p none v = panic-IsReady p v
  read-IsReady p (some qs) v = v

  set_up-IsReady :
      (o : Outcome (String → Option String)) (p : Program V L R S)
      → IsReady p.core
      → IsReady (set_up out o p).0.core
  unfolding set_up apply_setup
  set_up-IsReady (err why) p v = v
  set_up-IsReady (ok selected) p v = put_in_use-IsReady selected _ p v.up

  setup_config-IsReady :
      (text : String) (p : Program V L R S)
      → IsReady p.core
      → IsReady (Calls.setup_config out text p).0.core
  unfolding Calls.setup_config
  setup_config-IsReady text p v =
      either_way (λ (r : Program V L R S × String). IsReady r.0.core) (not p.core.life.is_init)
        (p, "not initialized") (set_up out (out.selected_map text) p) v
        (set_up-IsReady (out.selected_map text) p v)

  pub IsReady-CoreContract : CoreContract out IsReady
  unfolding Calls.crash Calls.get_dns_queries Calls.init_clash Calls.update_config start_listener
      stop_listener clear_dns_queries put_logcat_level put_file_level enable_file put_log_file_path
      host_log
  IsReady-CoreContract = record {
    init_clash = λ text p v. record {
      up = init-up (out.init_params text) p.core.life v.up;
      loaded = v.loaded;
    };
    update_config = λ nil_seen text p v.
        let r = handle_update_config out.listeners (out.update_params text) (updater p.core) in
        either_way (λ (r : Program V L R S × String). IsReady r.0.core)
          (p.core.life.is_init && nil_seen) (p, "config not loaded")
          (record p { core = updated r.0 p.core }, r.1) v
          record {
            up = v.up;
            loaded =
                handle_update_config-is_loaded out (out.update_params text) (updater p.core)
                ∙ v.loaded;
          };
    crash = λ p v.
        either_way (λ (p : Program V L R S). IsReady p.core) out.debug (panic p) _
          (panic-IsReady p v) v;
    get_dns_queries = λ p v. read-IsReady p (snapshot p.core.queries) v;
    setup_config = setup_config-IsReady;
    start_listener = λ p v. record {
      up = v.up;
      loaded =
          update_listeners-is_loaded out p.core.config.current
            (updater (record p.core { is_running = true }))
          ∙ v.loaded;
    };
    stop_listener = λ p v. record { up = v.up; loaded = v.loaded };
    clear_dns_queries = λ p v. record { up = v.up; loaded = v.loaded };
    put_logcat_level = λ level p v. record { up = v.up; loaded = v.loaded };
    put_file_level = λ level p v. record { up = v.up; loaded = v.loaded };
    enable_file = λ on p v. record { up = v.up; loaded = v.loaded };
    put_log_file_path = λ path p v. record { up = v.up; loaded = v.loaded };
    host_log = λ level tag payload p v. record { up = v.up; loaded = v.loaded };
  }
