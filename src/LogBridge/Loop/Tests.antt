-- ===== src/LogBridge/Loop/Tests.antt =====
-- A loop that panicked at its first event, with a second one waiting.
use libmihomo_android.Base.{[], ◌∷◌, true, false, none, refl, pos}
use libmihomo_android.LogBridge.Sink.{Os}
use libmihomo_android.LogBridge.Bus.{Bus}
use libmihomo_android.LogBridge.Bus.Route.{Event, Router}
use libmihomo_android.LogBridge.Loop.{
  Loop, recovering, start_loop, Steps, receive_panics, here, next,
}
use libmihomo_android.LogBridge.Loop.Serial.{IsSerial, Drains, loop_drains}

abbrev system : Os
system = record {
  can_mkdir = λ p. true;
  can_open = λ p. false;
  can_stat = λ p. true;
  can_crash = λ p. false;
  can_remove = λ p. true;
  can_rename = λ p q. true;
}

abbrev router : Router
router = record {
  logcat = [];
  logcat_level = pos 0;
  file_level = pos 2;
  sink = record {
    files = λ p. none;
    path = [];
    file = false;
    writer = false;
    size = 0;
    enabled = false;
    crash = none;
  };
}

abbrev event : Event
event = record { when = 1; level = pos 1; tag = []; payload = []; from_host = false }

abbrev waiting : Bus Event
waiting = record { queue = event ∷ event ∷ []; drop_count = 0 }

abbrev after_panic : Loop
after_panic = record {
  goroutines = recovering (33 ∷ []) ∷ [];
  bus = record { queue = event ∷ []; drop_count = 0 };
  router = router;
  routed = [];
  lost = event ∷ [];
  panics = 1;
  restarts = 0;
}

panicked :
    Steps (λ n. []) system [] (λ n. []) (λ why. why) (start_loop [] [] waiting router) after_panic
unfolding start_loop
panicked = next here (receive_panics [] [] (33 ∷ []) router event (event ∷ []) refl refl)

loop_drains_example :
    IsSerial after_panic × Drains (λ n. []) system [] (λ n. []) (λ why. why) after_panic
loop_drains_example =
    loop_drains (λ n. []) system [] (λ n. []) (λ why. why) [] [] waiting router panicked
