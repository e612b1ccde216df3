-- ===== src/Program/Coherent.antt =====
-- What holds of the variables of the program between its steps.
pub mod Parts
pub mod Applied
pub mod Served
pub mod Exported
pub mod Always
use libmihomo_android.Base.{ℕ, ◌≤◌, ◌≡◌, Bool, true, false, Option, none, some, List, length}
use libmihomo_android.Config.Update.{Config}
use libmihomo_android.Config.Update.Calls.{InStep}
use libmihomo_android.DnsQuery.Ring.Refine.{Keeps}
use libmihomo_android.DnsQuery.Service.{Query}
use libmihomo_android.DnsQuery.Service.Correct.{IsRecordedOnce}
use libmihomo_android.LogBridge.Bus.{dispatch_capacity}
use libmihomo_android.LogBridge.Sink.Keeps.{IsSink}
use libmihomo_android.Program.{Core, dns_queries_capacity}

abbrev pub is_loaded : {A : Type 0} → Option A → Bool
is_loaded none = false
is_loaded (some a) = true

-- Mihomo's settings are those of the config in use; a config is in use only after an init, and from then on the
-- DNS service has exactly one recorder, if there is a service; the ring holds the newest queries; the channel keeps
-- its bound; and no goroutine has panicked.
pub record IsCoherent {V L R : Type 0} (c : Core V L R) : Type 0 where
  pub in_step : InStep c.config.current c.globals
  pub unloaded : c.life.is_init ≡ false → is_loaded c.config.current ≡ false
  pub recorded : is_loaded c.config.current ≡ true → IsRecordedOnce c.service
  pub history : List Query
  pub ring : Keeps dns_queries_capacity c.queries history
  pub bounded : length c.bus.queue ≤ dispatch_capacity
  pub alive : c.panicked ≡ false
