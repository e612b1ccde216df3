-- ===== src/Program/Exports.antt =====
-- The calls that lib.go exports around the TUN session, on the state of the program: `startTUN`, `stopTun` and the
-- goroutine of `quickSetup`.
use libmihomo_android.Base.{
  ℕ, ℤ, String, ◌==◌, Bool, true, false, not, if◌then◌else◌, Option, [], ◌∷◌, ◌++◌,
}
use libmihomo_android.Bridge.Reply.{World, invoked, released}
use libmihomo_android.Bridge.Tun.Session.{handle_start_tun, stop_tun_locked, Tun}
use libmihomo_android.Bridge.Tunnel.{handle_reset_connections}
use libmihomo_android.Program.{Program, Outside}
use libmihomo_android.Program.Calls.{init_clash, setup_config, start_listener, stop_listener}
use libmihomo_android.Program.Handled.{through}

module _ {V L R S : Type 0} where
  abbrev pub put_tun_session : Tun → Program V L R S → Program V L R S
  put_tun_session t p = record p { core = record p.core { tun = t } }

  -- `isRunning.Store`
  abbrev pub set_running : Bool → Program V L R S → Program V L R S
  set_running b p = record p { core = record p.core { is_running = b } }

  -- `invokeResult`, and the deferred release.
  unfoldable pub answer :
      ℕ → String → Program V L R S → World (Program V L R S) → World (Program V L R S)
  answer callback text p w = record {
    state = p;
    events = w.events ++ (invoked callback text ∷ released callback ∷ []);
  }

module _ {V L R S B Raw : Type 0} (out : Outside V L R S B Raw) where
  unfoldable pub start_tun : ℕ → ℤ → Option ℕ → Program V L R S → Program V L R S
  start_tun callback fd listener p =
      let started = put_tun_session (handle_start_tun callback fd listener p.core.tun) p in
      if not started.core.is_running
      then (start_listener out started).0
      else (through (λ c. handle_reset_connections out.mihomo) started).0

  unfoldable pub stop_tun : Program V L R S → Program V L R S
  stop_tun p =
      let stopped = put_tun_session (stop_tun_locked p.core.tun) p in
      if stopped.core.is_running then (stop_listener out stopped).0 else stopped

  -- What follows `handleSetupConfig`.
  unfoldable pub settle :
      ℕ → Program V L R S × String → World (Program V L R S) → World (Program V L R S)
  unfolding answer
  settle callback (p, text) w =
      answer callback text (if text == "" then p else set_running false p) w

  unfoldable pub quick_setup :
      ℕ → String → String → World (Program V L R S) → World (Program V L R S)
  unfolding settle answer
  quick_setup callback init_text setup_text w =
      let (p, initialised) = init_clash out init_text w.state in
      if initialised
      then settle callback (setup_config out setup_text (set_running true p)) w
      else answer callback "init failed" p w
