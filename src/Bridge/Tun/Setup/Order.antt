-- ===== src/Bridge/Tun/Setup/Order.antt =====
-- What the calls of Setup leave behind, in its order.
use libmihomo_android.Base.{
  ℕ, ℤ, List, [], ◌∷◌, ◌++◌, Option, Bool, true, false, not, String, ◌==◌, if◌then◌else◌, ◌≡◌, refl,
  sym, ◌∙◌,
}
use libmihomo_android.Bridge.Reply.{Event}
use libmihomo_android.Bridge.Tun.Setup.{
  App, update_listeners, reset_connection, cleanup, start_listener, stop_listener,
  reset_connections, start_tun, stop_tun, reply, settle, quick_setup, set_event_listener,
  releases_of,
}
use libmihomo_android.Bridge.Tun.Session.{handle_start_tun, stop_tun_locked}
use mathlib.Core.List.{append_assoc, append-nil}

-- `setEventListener` called with each of some listeners in turn.
unfoldable pub set_all : List (Option ℕ) → App → App
unfolding set_event_listener
set_all [] a = a
set_all (l ∷ ls) a = set_all ls (set_event_listener l a)

-- The releases of the listeners, in their order.
unfoldable pub releases_of_all : List (Option ℕ) → List Event
unfolding releases_of
releases_of_all [] = []
releases_of_all (l ∷ ls) = releases_of l ++ releases_of_all ls

-- Listeners set one after the other are released in that order, each once, all but the last, which is kept:
-- with its release at the end, the releases are those of the listener before them and of them all.
pub set_all_lem :
    (ls : List (Option ℕ)) (a : App)
    → (set_all ls a).replies ++ releases_of (set_all ls a).listener
      ≡ (a.replies ++ releases_of a.listener) ++ releases_of_all ls
unfolding set_all set_event_listener releases_of_all
set_all_lem [] a = sym (append-nil _)
set_all_lem (l ∷ ls) a =
    set_all_lem ls (set_event_listener l a)
    ∙ append_assoc (a.replies ++ releases_of a.listener) (releases_of l) (releases_of_all ls)

settle_running :
    (cb : ℕ) (a : App) (text : String)
    → a.running ≡ true
    → (settle cb (a, text)).running ≡ (text == "")
unfolding settle reply
settle_running cb a text e = chosen (text == "")
  where
    chosen : (b : Bool) → (if b then a else record a { running = false }).running ≡ b
    chosen true = e
    chosen false = refl

-- Where `handleSetupConfig` leaves the flag as it finds it, `quickSetup` ends with the flag set exactly when
-- the setup succeeds; after a failed initialisation the flag is as that left it.
pub quick_setup-running :
    (init_clash : App → App × Bool) (setup_config : App → App × String) (cb : ℕ) (a : App)
    → ((b : App) → (setup_config b).0.running ≡ b.running)
    → (quick_setup init_clash setup_config cb a).running ≡ (
        if (init_clash a).1
        then (setup_config (record (init_clash a).0 { running = true })).1 == ""
        else (init_clash a).0.running)
unfolding quick_setup reply
quick_setup-running init_clash setup_config cb a kept = chosen (init_clash a).1 (init_clash a).0
  where
    chosen :
        (ok : Bool) (b : App)
        → (if ok
            then settle cb (setup_config (record b { running = true }))
            else reply cb "init failed" b).running
          ≡ (if ok then (setup_config (record b { running = true })).1 == "" else b.running)
    chosen true b =
        settle_running cb (setup_config (record b { running = true })).0
          (setup_config (record b { running = true })).1 (kept (record b { running = true }))
    chosen false b = refl

stopped :
    (a : App) (r : Bool)
    → r ≡ true
    → let b = record a { tun = stop_tun_locked a.tun } in
      ((if r then stop_listener b else b).running ≡ false)
      × ((if r then stop_listener b else b).effects
          ≡ a.effects ++ (cleanup ∷ reset_connection ∷ []))
unfolding stop_listener
stopped a true e = (refl, refl)
stopped a false e = cc

stop_tun_started :
    (r : Bool) (a : App)
    → a.running ≡ r
    → ((stop_tun (if not r then start_listener a else reset_connections a)).running ≡ false)
      × ((stop_tun (if not r then start_listener a else reset_connections a)).effects
          ≡ (a.effects
              ++ (if r then reset_connection ∷ [] else update_listeners ∷ reset_connection ∷ []))
            ++ (cleanup ∷ reset_connection ∷ []))
unfolding stop_tun start_listener reset_connections
stop_tun_started true a e = stopped (reset_connections a) a.running e
stop_tun_started false a e = stopped (start_listener a) true refl

-- Starting a TUN updates the listeners of a core that was not running and only resets the connections of one
-- that was; stopping it afterwards always cleans the listeners up, and the core no longer runs.
pub stop_tun-start_tun :
    (cb : ℕ) (fd : ℤ) (l : Option ℕ) (a : App)
    → ((stop_tun (start_tun cb fd l a)).running ≡ false)
      × ((stop_tun (start_tun cb fd l a)).effects
          ≡ (a.effects
              ++ (if a.running
                  then reset_connection ∷ []
                  else update_listeners ∷ reset_connection ∷ []))
            ++ (cleanup ∷ reset_connection ∷ []))
unfolding start_tun
stop_tun-start_tun cb fd l a =
    stop_tun_started a.running (record a { tun = handle_start_tun cb fd l a.tun }) refl
