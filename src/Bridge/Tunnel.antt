-- ===== src/Bridge/Tunnel.antt =====
-- The calls of tunnel_state.go, lib.go, lifecycle.go and proxies.go that pass on to mihomo, which is a parameter.
use libmihomo_android.Base.{ℕ, ℤ, String, List, Bool, true, if◌then◌else◌}
use libmihomo_android.Text.{Text}
use libmihomo_android.Text.Split.{split}

-- `tunnel`, `statistic.DefaultManager`, `resolver`, `dns` and the runtime, on a state `S`.
pub record Mihomo (S : Type 0) : Type 0 where
  pub on_suspend : S → S
  pub on_running : S → S
  pub reset_statistic : S → S
  pub reset_connection : S → S
  pub now : S → ℤ × ℤ
  pub total : S → ℤ × ℤ
  pub memory : S → ℕ
  pub update_system_dns : List Text → S → S
  pub flush_cache : S → S
  pub run_gc : S → S
  pub free_os_memory : S → S

-- encoding/json on a pair of counts, and strconv
pub record Encoder : Type 0 where
  pub up_down : ℤ × ℤ → String
  pub format_uint : ℕ → String

module _ {S : Type 0} (m : Mihomo S) where
  unfoldable pub handle_suspend : Bool → S → S × Bool
  handle_suspend suspended s = (if suspended then m.on_suspend s else m.on_running s, true)

  unfoldable pub handle_reset_traffic : S → S
  handle_reset_traffic s = m.reset_statistic s

  unfoldable pub handle_reset_connections : S → S × Bool
  handle_reset_connections s = (m.reset_connection s, true)

  unfoldable pub handle_get_traffic : Encoder → S → String
  handle_get_traffic enc s = enc.up_down (m.now s)

  unfoldable pub handle_get_total_traffic : Encoder → S → String
  handle_get_total_traffic enc s = enc.up_down (m.total s)

  unfoldable pub handle_get_memory : Encoder → S → String
  handle_get_memory enc s = enc.format_uint (m.memory s)

  -- `handleForceGC`
  unfoldable pub handle_force_gc : S → S
  handle_force_gc s = m.free_os_memory (m.run_gc s)

  -- The goroutine of `handleUpdateDns`: the servers that the commas part.
  unfoldable pub handle_update_dns : Text → S → S
  handle_update_dns value s = m.flush_cache (m.update_system_dns (split 44 value) s)
