-- ===== src/Bridge/Listener/Tests.antt =====
-- A listener that is being used while another waits to be set.
use libmihomo_android.Base.{ℕ, ◌+◌, [], ◌∷◌, false, none, some, ◌≡◌, refl, ltb}
use libmihomo_android.Bridge.Listener.{
  Shared, wants, no_listener, Steps, set, lock, unlock, read, use_listener, here, next,
}
use libmihomo_android.Bridge.Listener.Released.{
  one_if, in_option, in_setters, times, listener_owned,
}

abbrev in_use : Shared
in_use = record {
  listener = some 0;
  readers = 0 ∷ [];
  writing = false;
  setters = wants (some 1) ∷ [];
  made = 2;
  released = [];
  misused = false;
}

in_use_lem : Steps no_listener in_use
in_use_lem =
    next
      (next
        (next
          (next (next (next here set) (lock [] [] (some 0) refl refl refl))
            (unlock [] [] none refl))
          (read 0 refl refl))
        set)
      (use_listener [] [] 0 refl)

listener_owned_example :
    (in_use.misused ≡ false)
    × ((r : ℕ)
        → in_option r in_use.listener + in_setters r in_use.setters + times r in_use.released
          ≡ one_if (ltb r in_use.made))
listener_owned_example = listener_owned in_use_lem
