-- ===== src/Bridge/Tun/Setup.antt =====
-- The functions that lib.go exports around the session: `startTUN`, `stopTun`, `quickSetup` and
-- `setEventListener`, with the listeners of tunnel_state.go.
pub mod Order
use libmihomo_android.Base.{
  ℕ, ℤ, List, [], ◌∷◌, ◌++◌, Option, none, some, Bool, true, false, not, String, ◌==◌,
  if◌then◌else◌, pos,
}
use libmihomo_android.Bridge.Method.{message}
use libmihomo_android.Bridge.Reply.{Event, invoked, released, ActionResult, Value, sent}
use libmihomo_android.Bridge.Tun.Session.{Tun, handle_start_tun, stop_tun_locked}

-- What the listeners and the resolver of mihomo are asked to do.
pub data Effect : Type 0 where
  update_listeners : Effect
  reset_connection : Effect
  cleanup : Effect

-- `isRunning`, `eventListener` and the session.
pub record App : Type 0 where
  pub tun : Tun
  pub running : Bool
  pub listener : Option ℕ
  pub effects : List Effect
  pub replies : List Event

unfoldable pub start_listener : App → App
start_listener a = record a {
  running = true;
  effects = a.effects ++ (update_listeners ∷ reset_connection ∷ []);
}

unfoldable pub stop_listener : App → App
stop_listener a = record a {
  running = false;
  effects = a.effects ++ (cleanup ∷ reset_connection ∷ []);
}

unfoldable pub reset_connections : App → App
reset_connections a = record a { effects = a.effects ++ (reset_connection ∷ []) }

-- `startTUN`
unfoldable pub start_tun : ℕ → ℤ → Option ℕ → App → App
unfolding handle_start_tun start_listener reset_connections
start_tun callback fd listener a =
    let started = record a { tun = handle_start_tun callback fd listener a.tun } in
    if not started.running then start_listener started else reset_connections started

-- `stopTun`
unfoldable pub stop_tun : App → App
unfolding stop_tun_locked stop_listener
stop_tun a =
    let stopped = record a { tun = stop_tun_locked a.tun } in
    if stopped.running then stop_listener stopped else stopped

-- A call of the host's reference, and the deferred release after it.
unfoldable pub reply : ℕ → String → App → App
reply callback text a = record a {
  replies = a.replies ++ (invoked callback text ∷ released callback ∷ []);
}

-- What follows `handleSetupConfig` in `quickSetup`.
unfoldable pub settle : ℕ → App × String → App
unfolding reply
settle callback (a, text) =
    reply callback text (if text == "" then a else record a { running = false })

-- The goroutine of `quickSetup`, on `handleInitClash` and `handleSetupConfig` with their arguments.
unfoldable pub quick_setup : (App → App × Bool) → (App → App × String) → ℕ → App → App
unfolding settle reply
quick_setup init_clash setup_config callback a =
    let (initialised, ok) = init_clash a in
    if ok
    then settle callback (setup_config (record initialised { running = true }))
    else reply callback "init failed" initialised

unfoldable pub releases_of : Option ℕ → List Event
releases_of none = []
releases_of (some l) = released l ∷ []

unfoldable pub set_event_listener : Option ℕ → App → App
unfolding releases_of
set_event_listener listener a = record a {
  listener = listener;
  replies = a.replies ++ releases_of a.listener;
}

unfoldable pub send_message : {V : Type 0} → (ActionResult V → Option String) → Value V → App → App
unfolding sent
send_message json value a = elim a.listener [
  | none ↦ a
  | some l ↦ record a {
    replies =
        a.replies
        ++ sent json
            (record { id = ""; method = message; data_ = value; code = pos 0; callback = l });
  }
]
