-- ===== src/LogBridge/Loop.antt =====
-- `dispatchLoop` of log_bridge.go with its recovery, as a step relation: the goroutines that run it, the calls of
-- `dispatch` beside them, and a panic at any point of `route` or of a tick.
pub mod Serial
mod Tests
use libmihomo_android.Base.{ℕ, suc, ◌+◌, List, [], ◌∷◌, ◌++◌, Bool, true, false, if◌then◌else◌, ◌≡◌}
use libmihomo_android.Text.{Text}
use libmihomo_android.LogBridge.Level.{Level, debug, warning, error}
use libmihomo_android.LogBridge.Sink.{Os}
use libmihomo_android.LogBridge.Bus.{Bus, dispatch, dispatch_capacity}
use libmihomo_android.LogBridge.Bus.Route.{Event, Router, android_log_priority, route, tick}

-- `emergencyLogcat`
unfoldable pub emergency_logcat : Level → Text → Text → Router → Router
unfolding android_log_priority
emergency_logcat level tag msg r = record r {
  logcat = r.logcat ++ ((android_log_priority level, tag, msg) ∷ []);
}

-- A goroutine of `dispatchLoop`: in its loop, or in the deferred function after a panic, with the text of that.
pub data Worker : Type 0 where
  looping : Worker
  recovering : Text → Worker

-- `routed` and `lost` have the events that were taken from the channel, `panics` counts the panics.
pub record Loop : Type 0 where
  pub goroutines : List Worker
  pub bus : Bus Event
  pub router : Router
  pub routed : List Event
  pub lost : List Event
  pub panics : ℕ
  pub restarts : ℕ

-- `probeLogcat`; ANDROID_LOG_INFO is 4.
unfoldable pub probe_logcat : Text → Text → Router → Router
probe_logcat tag msg r = record r { logcat = r.logcat ++ ((4, tag, msg) ∷ []) }

-- `init` of log_bridge.go: the levels, the probe of logcat with its tag and text, and the loop.
unfoldable pub start_loop : Text → Text → Bus Event → Router → Loop
unfolding probe_logcat
start_loop tag msg bus router = record {
  goroutines = looping ∷ [];
  bus = bus;
  router = probe_logcat tag msg (record router { logcat_level = debug; file_level = warning });
  routed = [];
  lost = [];
  panics = 0;
  restarts = 0;
}

-- The parameters: the format of times, the system, the texts of the overflow and of the restart.
module _ (stamp : ℕ → Text) (os : Os) (libclash : Text) (overflow : ℕ → Text)
    (panicked : Text → Text) where
  -- A goroutine moves at its place in `goroutines`. Where it panics, the router is as far as the call had come.
  pub data Step (s : Loop) : Loop → Type 0 where
    send : (e : Event) → Step s (record s { bus = dispatch dispatch_capacity e s.bus })
    receive :
        (before after : List Worker) (ok : Bool) (e : Event) (rest : List Event)
        → s.goroutines ≡ before ++ (looping ∷ after)
        → s.bus.queue ≡ e ∷ rest
        → Step s (record s {
          bus = record s.bus { queue = rest };
          router = route stamp os ok e s.router;
          routed = s.routed ++ (e ∷ []);
        })
    receive_panics :
        (before after : List Worker) (why : Text) (r : Router) (e : Event) (rest : List Event)
        → s.goroutines ≡ before ++ (looping ∷ after)
        → s.bus.queue ≡ e ∷ rest
        → Step s (record s {
          goroutines = before ++ (recovering why ∷ after);
          bus = record s.bus { queue = rest };
          router = r;
          lost = s.lost ++ (e ∷ []);
          panics = suc s.panics;
        })
    flush :
        (before after : List Worker) (ok : Bool) (now : ℕ)
        → s.goroutines ≡ before ++ (looping ∷ after)
        → Step s (record s {
          bus = (tick stamp os ok now libclash overflow s.bus s.router).0;
          router = (tick stamp os ok now libclash overflow s.bus s.router).1;
        })
    flush_panics :
        (before after : List Worker) (why : Text) (b : Bus Event) (r : Router)
        → s.goroutines ≡ before ++ (looping ∷ after)
        → b.queue ≡ s.bus.queue
        → Step s (record s {
          goroutines = before ++ (recovering why ∷ after);
          bus = b;
          router = r;
          panics = suc s.panics;
        })
    -- The line for logcat, and `go dispatchLoop()` as the goroutine ends.
    restart :
        (before after : List Worker) (why : Text)
        → s.goroutines ≡ before ++ (recovering why ∷ after)
        → Step s (record s {
          goroutines = before ++ (looping ∷ after);
          router = emergency_logcat error libclash (panicked why) s.router;
          restarts = suc s.restarts;
        })

  pub data Steps (s : Loop) : Loop → Type 0 where
    here : Steps s s
    next : {t u : Loop} → Steps s t → Step t u → Steps s u
