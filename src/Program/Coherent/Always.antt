-- ===== src/Program/Coherent/Always.antt =====
-- The variables after any sequence of what reaches the program.
use libmihomo_android.Base.{
  Bool, either_way, none, if_false, ◌≡◌, refl, ap, ◌∙◌, Option, some, List, [], ◌∷◌, ◌>>=◌, arith,
}
use libmihomo_android.Bridge.Host.{Json}
use libmihomo_android.Bridge.Reply.{World}
use libmihomo_android.Bridge.Actions.Entry.{invoke_action}
use libmihomo_android.Bridge.Actions.Keeps.{invoke_action-keeps}
use libmihomo_android.DnsQuery.Ring.Refine.{new_log-Keeps}
use libmihomo_android.DnsQuery.Service.{Service}
use libmihomo_android.LogBridge.Sink.Disk.{Files}
use libmihomo_android.Config.Update.{Globals}
use libmihomo_android.Program.{Core, Program, Outside, blank, fresh}
use libmihomo_android.Program.Calls.{
  put_logcat_level, put_file_level, enable_file, put_log_file_path, host_log, mihomo_log,
  captured_log,
}
use libmihomo_android.Program.Exports.{quick_setup}
use libmihomo_android.Program.Handled.{os_on, handlers}
use libmihomo_android.Program.Contracts.{CoreContract, handlers-Contract}
use libmihomo_android.Program.Runs.{
  geo_loop_turn, Input, action, mihomo_event, captured_line, loop_turn, loop_tick, dns_message,
  suspend, update_dns, start_tun_call, stop_tun_call, quick_setup_call, geo_turn, step, run,
  unless_panicked, set_state,
}
use libmihomo_android.Program.Coherent.{IsCoherent}
use libmihomo_android.Program.Coherent.Parts.{
  get_dns_queries-IsCoherent, crash-IsCoherent, init_clash-IsCoherent, update_config-IsCoherent,
  start_listener-IsCoherent, stop_listener-IsCoherent, clear_dns_queries-IsCoherent,
  any_router-IsCoherent, send_event-IsCoherent,
}
use libmihomo_android.Program.Coherent.Applied.{Relies, setup_config-IsCoherent}
use libmihomo_android.Bridge.Tun.Session.{Tun}
use libmihomo_android.Program.Coherent.Exported.{start_tun-keeps, stop_tun-keeps, quick_setup-keeps}
use libmihomo_android.Program.Coherent.Served.{turn-IsCoherent, flush-IsCoherent, serve-Serves}

module _ {V L R S B Raw : Type 0} (out : Outside V L R S B Raw) (relies : Relies out) where
  IsCoherent-CoreContract : CoreContract out IsCoherent
  unfolding put_logcat_level put_file_level enable_file put_log_file_path host_log
  IsCoherent-CoreContract = record {
    init_clash = init_clash-IsCoherent out;
    update_config = update_config-IsCoherent out;
    crash = crash-IsCoherent out relies.release;
    get_dns_queries = get_dns_queries-IsCoherent out;
    setup_config = setup_config-IsCoherent out relies;
    start_listener = start_listener-IsCoherent out;
    stop_listener = stop_listener-IsCoherent out;
    clear_dns_queries = clear_dns_queries-IsCoherent out;
    put_logcat_level = λ level s v. any_router-IsCoherent out _ s.core v;
    put_file_level = λ level s v. any_router-IsCoherent out _ s.core v;
    enable_file = λ on s v. any_router-IsCoherent out _ s.core v;
    put_log_file_path = λ path s v. any_router-IsCoherent out _ s.core v;
    host_log = λ level tag payload s v. send_event-IsCoherent out _ s v;
  }

  any_tun-IsCoherent : (t : Tun) (c : Core V L R) → IsCoherent c → IsCoherent (record c { tun = t })
  any_tun-IsCoherent t c v = record {
    in_step = v.in_step;
    unloaded = v.unloaded;
    recorded = v.recorded;
    history = v.history;
    ring = v.ring;
    bounded = v.bounded;
    alive = v.alive;
  }

  any_running-IsCoherent :
      (b : Bool) (c : Core V L R) → IsCoherent c → IsCoherent (record c { is_running = b })
  any_running-IsCoherent b c v = record {
    in_step = v.in_step;
    unloaded = v.unloaded;
    recorded = v.recorded;
    history = v.history;
    ring = v.ring;
    bounded = v.bounded;
    alive = v.alive;
  }

  module _ (json : Json Raw) where
    -- A run that has not panicked, with coherent variables.
    pub record Runs (r : Option (World (Program V L R S))) : Type 0 where
      pub after : World (Program V L R S)
      pub ran : r ≡ some after
      pub coherent : IsCoherent after.state.core

    alive-Runs : (w : World (Program V L R S)) → IsCoherent w.state.core → Runs (unless_panicked w)
    alive-Runs w v = record {
      after = w;
      ran = if_false w.state.core.panicked none v.alive;
      coherent = v;
    }

    step-Runs :
        (i : Input) (w : World (Program V L R S))
        → IsCoherent w.state.core
        → Runs (step out json i w)
    unfolding step geo_loop_turn mihomo_log captured_log
    step-Runs (action callback nil_seen a) w v =
        alive-Runs (invoke_action json (os_on out.os) (handlers out nil_seen) callback a w) (
          invoke_action-keeps (λ (p : Program V L R S). IsCoherent p.core) json (os_on out.os)
            (handlers out nil_seen)
            (handlers-Contract out IsCoherent IsCoherent-CoreContract nil_seen) callback a w v)
    step-Runs (mihomo_event level payload) w v = record {
      after = _;
      ran = refl;
      coherent = send_event-IsCoherent out _ w.state v;
    }
    step-Runs (captured_line payload) w v = record {
      after = _;
      ran = refl;
      coherent = send_event-IsCoherent out _ w.state v;
    }
    step-Runs (loop_turn ok) w v = record {
      after = _;
      ran = refl;
      coherent = turn-IsCoherent out relies ok w.state v;
    }
    step-Runs (loop_tick ok) w v = record {
      after = _;
      ran = refl;
      coherent = flush-IsCoherent out relies ok w.state v;
    }
    step-Runs (suspend suspended) w v = record { after = _; ran = refl; coherent = v }
    step-Runs (update_dns value) w v = record { after = _; ran = refl; coherent = v }
    step-Runs (start_tun_call callback fd listener) w v = record {
      after = _;
      ran = refl;
      coherent =
          start_tun-keeps out IsCoherent IsCoherent-CoreContract any_tun-IsCoherent
            any_running-IsCoherent callback fd listener w.state v;
    }
    step-Runs stop_tun_call w v = record {
      after = _;
      ran = refl;
      coherent =
          stop_tun-keeps out IsCoherent IsCoherent-CoreContract any_tun-IsCoherent
            any_running-IsCoherent w.state v;
    }
    step-Runs (quick_setup_call callback init_text setup_text) w v =
        alive-Runs (quick_setup out callback init_text setup_text w) (
          quick_setup-keeps out IsCoherent IsCoherent-CoreContract any_tun-IsCoherent
            any_running-IsCoherent callback init_text setup_text w v)
    step-Runs (geo_turn now after) w v = record {
      after = _;
      ran = refl;
      coherent =
          either_way (λ (p : Program V L R S). IsCoherent p.core) w.state.core.geo_started _ w.state
            v v;
    }
    step-Runs (dns_message msg) w v =
        let done = serve-Serves out relies msg w.state v in
        record {
          after = set_state w done.after;
          ran = ap (λ r. r >>= λ p. some (set_state w p)) done.served;
          coherent = done.coherent;
        }

    pub run-Runs :
        (is : List Input) (w : World (Program V L R S))
        → IsCoherent w.state.core
        → Runs (run out json is w)
    unfolding run
    run-Runs [] w v = record { after = w; ran = refl; coherent = v }
    run-Runs (i ∷ is) w v =
        let first = step-Runs i w v in
        let others = run-Runs is first.after first.coherent in
        record {
          after = others.after;
          ran = ap (λ r. r >>= run out json is) first.ran ∙ others.ran;
          coherent = others.coherent;
        }

    pub fresh-IsCoherent :
        (files : Files) (globals : Globals) (listening : L) (service : Option (Service R))
        → IsCoherent {V = V} (fresh files globals listening service)
    fresh-IsCoherent files globals listening service = record {
      in_step = tt;
      unloaded = λ e. refl;
      recorded = λ e. cc;
      history = [];
      ring = new_log-Keeps blank 500 (omega arith);
      bounded = omega arith;
      alive = refl;
    }
