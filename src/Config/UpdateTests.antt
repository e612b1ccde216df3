-- ===== src/Config/UpdateTests.antt =====
-- An update of the mode and of the device of the TUN, while the listeners run.
use libmihomo_android.Base.{ℕ, suc, String, [], none, some, true, false, pos, ok, ◌≡◌, refl}
use libmihomo_android.Config.Update.{
  General, UpdateParams, Listening, Config, State, handle_update_config,
}
use libmihomo_android.Config.Update.Merges.{globals_of, merged}
use libmihomo_android.Config.Update.Calls.{InStep, handle_update_config-merges}

-- Counts the calls.
abbrev pub counting : Listening ℕ ℕ
counting = record {
  patch_inbound_listeners = λ v. suc;
  set_skip_auth_prefixes = λ v. suc;
  set_allowed_ips = λ v. suc;
  set_disallowed_ips = λ v. suc;
  set_bind_address = λ v. suc;
  recreate_http = λ v. suc;
  recreate_socks = λ v. suc;
  recreate_redir = λ v. suc;
  recreate_tproxy = λ v. suc;
  recreate_mixed = λ v. suc;
  recreate_shadow_socks = λ v. suc;
  recreate_vmess = λ v. suc;
  recreate_tuic = λ v. suc;
}

abbrev pub general : General ℕ
general = record {
  mixed_port = pos 7890;
  sniffing = false;
  find_process_mode = "off";
  tcp_concurrent = true;
  interface_name = "";
  unified_delay = false;
  mode = "rule";
  log_level = "info";
  ipv6 = true;
  allow_lan = false;
  tun = record {
    enable = true;
    device = "tun0";
    stack = "system";
    dns_hijack = [];
    auto_route = false;
    route_address = [];
  };
  skip_auth_prefixes = 0;
  lan_allowed_ips = 0;
  lan_disallowed_ips = 0;
  bind_address = "*";
  port = pos 0;
  socks_port = pos 0;
  redir_port = pos 0;
  tproxy_port = pos 0;
  shadow_socks_config = "";
  vmess_config = "";
  tuic_server = 0;
}

abbrev pub config : Config ℕ
config = record { general = general; listeners = 0 }

abbrev state : State ℕ ℕ
state = record {
  is_init = true;
  is_running = true;
  current = some config;
  globals = globals_of general;
  listening = 0;
}

abbrev params : UpdateParams ℕ
params = record {
  tun = some (record {
    enable = true;
    device = some "tun1";
    stack = none;
    dns_hijack = none;
    auto_route = none;
    route_address = none;
  });
  allow_lan = some true;
  mixed_port = none;
  find_process_mode = none;
  mode = some "global";
  log_level = none;
  ipv6 = some false;
  sniffing = none;
  tcp_concurrent = none;
  interface_name = none;
  unified_delay = none;
}

abbrev updated : State ℕ ℕ × String
updated = handle_update_config counting (ok params) state

updated_settings : updated.0.listening ≡ 13
unfolding handle_update_config
updated_settings = refl

in_step : InStep (some config) (globals_of general)
in_step = record { agree = refl }

handle_update_config-merges_example :
    (updated.1 ≡ "")
    × (updated.0.current ≡ some (record config { general = merged params general }))
handle_update_config-merges_example =
    handle_update_config-merges counting params config state refl refl
