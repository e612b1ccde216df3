-- ===== src/Bridge/Tun/Session.antt =====
-- `TunHandler` and the functions that start and stop it.
use libmihomo_android.Base.{
  ℕ, ℤ, pos, negsuc, List, [], ◌∷◌, ◌++◌, Option, none, some, Bool, true, false, String, ◌==◌,
  if◌then◌else◌, eqb, ltb,
}

-- What happens to the reference of the host, `callback`, and to a TUN listener.
pub data Event : Type 0 where
  protected : (callback : Option ℕ) (fd : ℕ) → Event
  resolved : (callback : Option ℕ) (protocol : ℕ) (uid : ℤ) → Event
  released : (callback : ℕ) → Event
  closed_listener : ℕ → Event

-- `TunHandler`; `none` is a nil field.
pub record Handler : Type 0 where
  pub listener : Option ℕ
  pub callback : Option ℕ
  pub closed : Bool

-- `tunHandler`, whether the two hooks are set, and the events so far.
pub record Tun : Type 0 where
  pub handler : Option Handler
  pub hook : Bool
  pub events : List Event

unfoldable pub close_listener : Option ℕ → List Event
close_listener none = []
close_listener (some l) = closed_listener l ∷ []

unfoldable pub release_callback : Option ℕ → List Event
release_callback none = []
release_callback (some c) = released c ∷ []

-- `clear` of the handler of the session.
unfoldable pub clear : Handler → Tun → Tun
unfolding close_listener release_callback
clear th t = record {
  handler = some (record { listener = none; callback = none; closed = true });
  hook = false;
  events = t.events ++ (close_listener th.listener ++ release_callback th.callback);
}

-- What is done with `tunHandler` where it is not nil.
unfoldable pub with_handler : Option Handler → (Handler → Tun → Tun) → Tun → Tun
with_handler none f t = t
with_handler (some th) f t = f th t

-- `stopTunLocked`, which is `handleStopTun` without its lock.
unfoldable pub stop_tun_locked : Tun → Tun
unfolding with_handler clear
stop_tun_locked t = with_handler t.handler clear t

-- `start` of a handler, with the listener that `tun.Start` gives or `none` for its error.
unfoldable pub start : Option ℕ → Handler → Tun → Tun
unfolding clear
start none th t = clear th (record t { hook = true })
start (some l) th t = record t { handler = some (record th { listener = some l }); hook = true }

abbrev pub is_zero : ℤ → Bool
is_zero (pos n) = eqb n 0
is_zero (negsuc n) = false

-- `handleStartTun`
unfoldable pub handle_start_tun : ℕ → ℤ → Option ℕ → Tun → Tun
unfolding stop_tun_locked start
handle_start_tun callback fd listener t =
    let stopped = stop_tun_locked t in
    if is_zero fd
    then record stopped { events = stopped.events ++ (released callback ∷ []) }
    else (let th : Handler = record { listener = none; callback = some callback; closed = false } in
        start listener th (record stopped { handler = some th }))

-- `handleProtect` of the handler of the session.
unfoldable pub handle_protect : Handler → ℕ → Tun → Tun
handle_protect th fd t =
    if th.closed then t else record t { events = t.events ++ (protected th.callback fd ∷ []) }

-- The protocol numbers of `handleResolveProcess`.
unfoldable pub protocol_of : String → ℕ
protocol_of network =
    if network == "udp"
    then 17
    else if network == "udp4"
    then 17
    else if network == "udp6"
    then 17
    else if network == "tcp"
    then 6
    else if network == "tcp4"
    then 6
    else if network == "tcp6"
    then 6
    else 0

-- `handleResolveProcess` on the version of Android and the uid that procfs gives.
unfoldable pub handle_resolve_process : ℕ → ℤ → String → Handler → Tun → Tun
unfolding protocol_of
handle_resolve_process version proc_uid network th t = if th.closed then t else record t {
  events =
      t.events
      ++ (resolved th.callback (protocol_of network) (if ltb version 29 then proc_uid else negsuc 0)
          ∷ []);
}

-- `DefaultSocketHook`: with `errBlocked` nothing is asked of the host.
unfoldable pub socket_hook : Bool → ℕ → Tun → Tun
unfolding with_handler handle_protect
socket_hook blocked fd t =
    if blocked then t else with_handler t.handler (λ th. handle_protect th fd) t

-- A call from outside; the hooks are called while they are set.
pub data Call : Type 0 where
  start_call : (callback : ℕ) (fd : ℤ) (listener : Option ℕ) → Call
  stop_call : Call
  dial_call : (blocked : Bool) (fd : ℕ) → Call
  resolve_call : (version : ℕ) (proc_uid : ℤ) (network : String) → Call

unfoldable pub step : Call → Tun → Tun
unfolding handle_start_tun stop_tun_locked socket_hook with_handler handle_resolve_process
step (start_call c fd l) t = handle_start_tun c fd l t
step stop_call t = stop_tun_locked t
step (dial_call blocked fd) t = if t.hook then socket_hook blocked fd t else t
step (resolve_call v u n) t =
    if t.hook then with_handler t.handler (handle_resolve_process v u n) t else t

unfoldable pub run : List Call → Tun → Tun
unfolding step
run [] t = t
run (c ∷ cs) t = run cs (step c t)
