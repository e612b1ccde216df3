-- ===== src/Program/Coherent/Applied.antt =====
-- The variables after `handleSetupConfig`.
use mathlib.Core.Path.{subst, sym}
use libmihomo_android.Base.{
  ap, String, ◌≡◌, refl, Bool, true, false, not, if◌then◌else◌, Option, none, some, Outcome, ok,
  err,
}
use libmihomo_android.Config.Update.{Config}
use libmihomo_android.Config.Update.Merges.{InSync}
use libmihomo_android.Config.Update.Calls.{InStep}
use libmihomo_android.Config.Apply.{State, execute, or_default, config_of}
use libmihomo_android.DnsQuery.Service.{Service, resolver, recording, install}
use libmihomo_android.DnsQuery.Service.Correct.{IsRecordedOnce}
use libmihomo_android.Program.{Program, Executed, Outside}
use libmihomo_android.Program.Calls.{put_chosen, put_in_use, apply_setup, set_up, setup_config}
use libmihomo_android.Program.Coherent.{IsCoherent, is_loaded}

-- A service of mihomo's own, or none.
abbrev pub IsFresh : {R : Type 0} → Option (Service R) → Type 0
IsFresh none = Unit
IsFresh (some (resolver r)) = Unit
IsFresh (some (recording s)) = ⊥

-- What the program relies on outside: `executor.ApplyConfig` makes mihomo's settings those of the config and puts a
-- service of its own in place, and the default config parses; in a build without the tag `debug`.
pub record Relies {V L R S B Raw : Type 0} (out : Outside V L R S B Raw) : Type 0 where
  pub set_all :
      (c : Config V) (e : Executed L R S)
      → InSync (record { general = c.general; globals = (out.execute c e).globals })
  pub renewed : (c : Config V) (e : Executed L R S) → IsFresh (out.execute c e).service
  pub default_config : Config V
  pub default_parses : out.loader.parse out.loader.default_raw ≡ ok default_config
  pub release : out.debug ≡ false

pub or_default-is_loaded :
    {C : Type 0} (fallback : Outcome C) (d : C) (o : Option C)
    → fallback ≡ ok d
    → is_loaded (or_default fallback o) ≡ true
unfolding or_default
or_default-is_loaded fallback d none e = ap (λ r. is_loaded (config_of r)) e
or_default-is_loaded fallback d (some c) e = refl

install-IsFresh : {R : Type 0} (s : Option (Service R)) → IsFresh s → IsRecordedOnce (install s)
unfolding install
install-IsFresh none h = tt
install-IsFresh (some (resolver r)) h = refl
install-IsFresh (some (recording s)) h = elim h [ ]

module _ {V L R S B Raw : Type 0} (out : Outside V L R S B Raw) (relies : Relies out) where
  put_chosen-IsCoherent :
      (o : Option (Config V)) (selected : String → Option String) (loaded : State (Config V))
      (p : Program V L R S)
      → or_default (out.loader.parse out.loader.default_raw) loaded.current ≡ o
      → p.core.life.is_init ≡ true
      → IsCoherent p.core
      → IsCoherent (put_chosen out o selected loaded p).core
  unfolding put_chosen execute
  put_chosen-IsCoherent none selected loaded p chosen up v = cc (
    chosen,
    or_default-is_loaded (out.loader.parse out.loader.default_raw) relies.default_config
        loaded.current relies.default_parses,
  )
  put_chosen-IsCoherent (some c) selected loaded p chosen up v = record {
    in_step =
        let e : Executed L R S = record {
          globals = p.core.globals;
          listening = p.core.listening;
          service = p.core.service;
          rest = p.rest;
        } in
        subst (λ q. InStep q (out.execute c e).globals) (sym chosen) (relies.set_all c e);
    unloaded = λ e. cc;
    recorded = λ e. install-IsFresh _ (relies.renewed c _);
    history = v.history;
    ring = v.ring;
    bounded = v.bounded;
    alive = v.alive;
  }

  put_in_use-IsCoherent :
      (selected : String → Option String) (loaded : State (Config V)) (p : Program V L R S)
      → p.core.life.is_init ≡ true
      → IsCoherent p.core
      → IsCoherent (put_in_use out selected loaded p).core
  unfolding put_in_use
  put_in_use-IsCoherent selected loaded p up v = put_chosen-IsCoherent _ selected loaded p refl up v

  set_up-IsCoherent :
      (o : Outcome (String → Option String)) (p : Program V L R S)
      → p.core.life.is_init ≡ true
      → IsCoherent p.core
      → IsCoherent (set_up out o p).0.core
  unfolding set_up apply_setup
  set_up-IsCoherent (err why) p up v = v
  set_up-IsCoherent (ok selected) p up v = put_in_use-IsCoherent selected _ p up v

  pub setup_config-IsCoherent :
      (text : String) (p : Program V L R S)
      → IsCoherent p.core
      → IsCoherent (setup_config out text p).0.core
  unfolding setup_config
  setup_config-IsCoherent text p v = either p.core.life.is_init refl
    where
      either :
          (b : Bool)
          → p.core.life.is_init ≡ b
          → IsCoherent
              (if not b
                then (p, "not initialized")
                else set_up out (out.selected_map text) p).0.core
      either false e = v
      either true e = set_up-IsCoherent (out.selected_map text) p e v
