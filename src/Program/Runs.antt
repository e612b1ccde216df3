-- ===== src/Program/Runs.antt =====
-- What reaches the program, in the order in which it is served. A handler under `runLock`, a turn of the loop of the
-- log bus and a DNS message are one step each.
use libmihomo_android.Base.{
  String, ℕ, ℤ, Bool, List, [], ◌∷◌, Option, none, some, Outcome, if◌then◌else◌, ◌>>=◌,
}
use libmihomo_android.Text.{Text}
use libmihomo_android.DnsQuery.Service.{Msg, Reply, Service, serve_msg}
use libmihomo_android.DnsQuery.Ring.{Log}
use libmihomo_android.DnsQuery.Service.{Query}
use libmihomo_android.LogBridge.Bus.Route.{Event, route, tick}
use libmihomo_android.Bridge.Host.{Json}
use libmihomo_android.GeoUpdate
use libmihomo_android.Program.Exports.{start_tun, stop_tun, quick_setup}
use libmihomo_android.Bridge.Tunnel.{handle_suspend, handle_update_dns}
use libmihomo_android.Bridge.Reply.{World}
use libmihomo_android.Bridge.Actions.Entry.{Action, invoke_action}
use libmihomo_android.Program.{Core, Program, Outside}
use libmihomo_android.Program.Calls.{mihomo_log, captured_log}
use libmihomo_android.Program.Handled.{on_rest, through, os_on, handlers}

-- An action of the host with its callback, and whether it is an update that sees `currentConfig` while a setup has nil
-- there; an event of mihomo's log; a line that a captured descriptor gives; a turn
-- and a tick of `dispatchLoop`, with whether the file takes what is written; a message for the DNS service.
pub data Input : Type 0 where
  action : (callback : ℕ) (nil_seen : Bool) → Outcome Action → Input
  mihomo_event : ℤ → Text → Input
  captured_line : Text → Input
  loop_turn : Bool → Input
  loop_tick : Bool → Input
  dns_message : Msg → Input
  suspend : Bool → Input
  update_dns : Text → Input
  start_tun_call : (callback : ℕ) (fd : ℤ) (listener : Option ℕ) → Input
  stop_tun_call : Input
  quick_setup_call : (callback : ℕ) → String → String → Input
  geo_turn : (now after : ℕ) → Input

module _ {V L R S : Type 0} where
  abbrev pub recorded : Program V L R S → Reply × Log Query → Program V L R S
  recorded p (reply, log) = record p { core = record p.core { queries = log } }

  abbrev pub set_state : World (Program V L R S) → Program V L R S → World (Program V L R S)
  set_state w p = record w { state = p }

  -- A panic ends the run.
  abbrev pub unless_panicked : World (Program V L R S) → Option (World (Program V L R S))
  unless_panicked w = if w.state.core.panicked then none else some w

module _ {V L R S B Raw : Type 0} (out : Outside V L R S B Raw) where
  -- `case e := <-logDispatchCh: route(e)`, where there is an event.
  abbrev pub route_next : Bool → List Event → Core V L R → Core V L R
  route_next ok [] c = c
  route_next ok (e ∷ rest) c = record c {
    bus = record c.bus { queue = rest };
    router = route out.stamp out.sink_os ok e c.router;
  }

  unfoldable pub turn : Bool → Program V L R S → Program V L R S
  turn ok p = record p { core = route_next ok p.core.bus.queue p.core }

  -- `case <-flush.C`
  unfoldable pub flush : Bool → Program V L R S → Program V L R S
  flush ok p =
      let (bus, router) =
        tick out.stamp out.sink_os ok (out.now p.rest) (out.text_of "libclash") out.overflow
          p.core.bus p.core.router in
      record p { core = record p.core { bus = bus; router = router } }

  -- A message for `resolver.DefaultService`, if there is one. `none` is a panic.
  abbrev pub ask_service : Option (Service R) → Msg → Program V L R S → Option (Program V L R S)
  ask_service none msg p = some p
  ask_service (some s) msg p =
      serve_msg out.tables out.ask out.clock s msg p.core.queries >>= λ r. some (recorded p r)

  unfoldable pub serve : Msg → Program V L R S → Option (Program V L R S)
  serve msg p = ask_service p.core.service msg p

  -- A turn of `geoUpdateLoop`, where it was started.
  unfoldable pub geo_loop_turn : ℕ → ℕ → Program V L R S → Program V L R S
  geo_loop_turn now after p =
      if p.core.geo_started
      then on_rest
          (λ c s. GeoUpdate.turn out.geo_disk out.geo_paths (out.geo_settings s) now after s) p
      else p

  module _ (json : Json Raw) where
    unfoldable pub step : Input → World (Program V L R S) → Option (World (Program V L R S))
    unfolding start_tun stop_tun quick_setup geo_loop_turn invoke_action turn flush serve mihomo_log
        captured_log
    step (action callback nil_seen a) w =
        unless_panicked (invoke_action json (os_on out.os) (handlers out nil_seen) callback a w)
    step (mihomo_event level payload) w = some (set_state w (mihomo_log out level payload w.state))
    step (captured_line payload) w = some (set_state w (captured_log out payload w.state))
    step (loop_turn ok) w = some (set_state w (turn ok w.state))
    step (loop_tick ok) w = some (set_state w (flush ok w.state))
    step (suspend suspended) w =
        some (set_state w ((through (λ c. handle_suspend out.mihomo suspended) w.state).0))
    step (update_dns value) w =
        some (set_state w (on_rest (λ c. handle_update_dns out.mihomo value) w.state))
    step (start_tun_call callback fd listener) w =
        some (set_state w (start_tun out callback fd listener w.state))
    step stop_tun_call w = some (set_state w (stop_tun out w.state))
    step (quick_setup_call callback init_text setup_text) w =
        unless_panicked (quick_setup out callback init_text setup_text w)
    step (geo_turn now after) w = some (set_state w (geo_loop_turn now after w.state))
    step (dns_message msg) w = serve msg w.state >>= λ p. some (set_state w p)

    unfoldable pub run : List Input → World (Program V L R S) → Option (World (Program V L R S))
    unfolding step
    run [] w = some w
    run (i ∷ is) w = step i w >>= run is
