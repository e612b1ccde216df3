-- ===== src/Config/Update.antt =====
-- `updateConfig` and `updateListeners` of common.go, and `handleUpdateConfig` of config_apply.go. `V` is the
-- type of what the code only passes on (prefixes of addresses, inbound listeners, a server of TUIC).
pub mod Merges
pub mod Calls
use libmihomo_android.Base.{
  String, List, Option, none, some, Bool, true, false, not, if◌then◌else◌, ℤ, Outcome, ok, err,
}

pub record TunSettings (V : Type 0) : Type 0 where
  pub enable : Bool
  pub device : String
  pub stack : String
  pub dns_hijack : List String
  pub auto_route : Bool
  pub route_address : List V

-- The fields of `config.General` that the code reads or writes.
pub record General (V : Type 0) : Type 0 where
  pub mixed_port : ℤ
  pub sniffing : Bool
  pub find_process_mode : String
  pub tcp_concurrent : Bool
  pub interface_name : String
  pub unified_delay : Bool
  pub mode : String
  pub log_level : String
  pub ipv6 : Bool
  pub allow_lan : Bool
  pub tun : TunSettings V
  pub skip_auth_prefixes : V
  pub lan_allowed_ips : V
  pub lan_disallowed_ips : V
  pub bind_address : String
  pub port : ℤ
  pub socks_port : ℤ
  pub redir_port : ℤ
  pub tproxy_port : ℤ
  pub shadow_socks_config : String
  pub vmess_config : String
  pub tuic_server : V

-- `tunSchema`
pub record TunParams (V : Type 0) : Type 0 where
  pub enable : Bool
  pub device : Option String
  pub stack : Option String
  pub dns_hijack : Option (List String)
  pub auto_route : Option Bool
  pub route_address : Option (List V)

pub record UpdateParams (V : Type 0) : Type 0 where
  pub tun : Option (TunParams V)
  pub allow_lan : Option Bool
  pub mixed_port : Option ℤ
  pub find_process_mode : Option String
  pub mode : Option String
  pub log_level : Option String
  pub ipv6 : Option Bool
  pub sniffing : Option Bool
  pub tcp_concurrent : Option Bool
  pub interface_name : Option String
  pub unified_delay : Option Bool

-- The settings of mihomo's packages that `updateConfig` writes.
pub record Globals : Type 0 where
  pub sniffing : Bool
  pub find_process_mode : String
  pub tcp_concurrent : Bool
  pub default_interface : String
  pub unified_delay : Bool
  pub mode : String
  pub log_level : String
  pub disable_ipv6 : Bool
  pub allow_lan : Bool

pub record Settings (V : Type 0) : Type 0 where
  pub general : General V
  pub globals : Globals

-- A field that the parameters may leave out.
abbrev pub assign : {A S : Type 0} → Option A → (A → S → S) → S → S
assign none f s = s
assign (some a) f s = f a s

module _ {V : Type 0} where
  abbrev pub put_general : (General V → General V) → (Globals → Globals) → Settings V → Settings V
  put_general f g s = record { general = f s.general; globals = g s.globals }

  abbrev pub put_tun : TunParams V → TunSettings V → TunSettings V
  put_tun p t0 =
      let t1 = record t0 { enable = p.enable } in
      let t2 = assign p.auto_route (λ v t. record t { auto_route = v }) t1 in
      let t3 = assign p.device (λ v t. record t { device = v }) t2 in
      let t4 = assign p.route_address (λ v t. record t { route_address = v }) t3 in
      let t5 = assign p.dns_hijack (λ v t. record t { dns_hijack = v }) t4 in
      assign p.stack (λ v t. record t { stack = v }) t5

  abbrev pub set_mixed_port : ℤ → Settings V → Settings V
  set_mixed_port v = put_general (λ g. record g { mixed_port = v }) (λ w. w)

  abbrev pub set_sniffing : Bool → Settings V → Settings V
  set_sniffing v = put_general (λ g. record g { sniffing = v }) (λ w. record w { sniffing = v })

  abbrev pub set_find_process_mode : String → Settings V → Settings V
  set_find_process_mode v =
      put_general (λ g. record g { find_process_mode = v })
        (λ w. record w { find_process_mode = v })

  abbrev pub set_tcp_concurrent : Bool → Settings V → Settings V
  set_tcp_concurrent v =
      put_general (λ g. record g { tcp_concurrent = v }) (λ w. record w { tcp_concurrent = v })

  abbrev pub set_interface_name : String → Settings V → Settings V
  set_interface_name v =
      put_general (λ g. record g { interface_name = v }) (λ w. record w { default_interface = v })

  abbrev pub set_unified_delay : Bool → Settings V → Settings V
  set_unified_delay v =
      put_general (λ g. record g { unified_delay = v }) (λ w. record w { unified_delay = v })

  abbrev pub set_mode : String → Settings V → Settings V
  set_mode v = put_general (λ g. record g { mode = v }) (λ w. record w { mode = v })

  abbrev pub set_log_level : String → Settings V → Settings V
  set_log_level v = put_general (λ g. record g { log_level = v }) (λ w. record w { log_level = v })

  abbrev pub set_ipv6 : Bool → Settings V → Settings V
  set_ipv6 v = put_general (λ g. record g { ipv6 = v }) (λ w. record w { disable_ipv6 = not v })

  abbrev pub set_allow_lan : Bool → Settings V → Settings V
  set_allow_lan v = put_general (λ g. record g { allow_lan = v }) (λ w. record w { allow_lan = v })

  abbrev pub set_tun : TunParams V → Settings V → Settings V
  set_tun p = put_general (λ g. record g { tun = put_tun p g.tun }) (λ w. w)

  -- The body of `updateConfig` up to the listeners.
  unfoldable pub merge : UpdateParams V → Settings V → Settings V
  merge p s0 =
      let s1 = assign p.mixed_port set_mixed_port s0 in
      let s2 = assign p.sniffing set_sniffing s1 in
      let s3 = assign p.find_process_mode set_find_process_mode s2 in
      let s4 = assign p.tcp_concurrent set_tcp_concurrent s3 in
      let s5 = assign p.interface_name set_interface_name s4 in
      let s6 = assign p.unified_delay set_unified_delay s5 in
      let s7 = assign p.mode set_mode s6 in
      let s8 = assign p.log_level set_log_level s7 in
      let s9 = assign p.ipv6 set_ipv6 s8 in
      let s10 = assign p.allow_lan set_allow_lan s9 in assign p.tun set_tun s10

-- The listeners, which are kept by mihomo.
pub record Listening (V L : Type 0) : Type 0 where
  pub patch_inbound_listeners : V → L → L
  pub set_skip_auth_prefixes : V → L → L
  pub set_allowed_ips : V → L → L
  pub set_disallowed_ips : V → L → L
  pub set_bind_address : String → L → L
  pub recreate_http : ℤ → L → L
  pub recreate_socks : ℤ → L → L
  pub recreate_redir : ℤ → L → L
  pub recreate_tproxy : ℤ → L → L
  pub recreate_mixed : ℤ → L → L
  pub recreate_shadow_socks : String → L → L
  pub recreate_vmess : String → L → L
  pub recreate_tuic : V → L → L

-- `config.Config`
pub record Config (V : Type 0) : Type 0 where
  pub general : General V
  pub listeners : V

pub record State (V L : Type 0) : Type 0 where
  pub is_init : Bool
  pub is_running : Bool
  pub current : Option (Config V)
  pub globals : Globals
  pub listening : L

module _ {V L : Type 0} (ops : Listening V L) where
  abbrev pub listen : Config V → L → L
  listen c l0 =
      let g = c.general in
      let l1 = ops.patch_inbound_listeners c.listeners l0 in
      let l2 = ops.set_skip_auth_prefixes g.skip_auth_prefixes l1 in
      let l3 = ops.set_allowed_ips g.lan_allowed_ips l2 in
      let l4 = ops.set_disallowed_ips g.lan_disallowed_ips l3 in
      let l5 = ops.set_bind_address g.bind_address l4 in
      let l6 = ops.recreate_http g.port l5 in
      let l7 = ops.recreate_socks g.socks_port l6 in
      let l8 = ops.recreate_redir g.redir_port l7 in
      let l9 = ops.recreate_tproxy g.tproxy_port l8 in
      let l10 = ops.recreate_mixed g.mixed_port l9 in
      let l11 = ops.recreate_shadow_socks g.shadow_socks_config l10 in
      let l12 = ops.recreate_vmess g.vmess_config l11 in ops.recreate_tuic g.tuic_server l12

  -- `updateListeners`, with what `currentConfig` is.
  unfoldable pub update_listeners : Option (Config V) → State V L → State V L
  update_listeners none s = s
  update_listeners (some c) s = if not s.is_running then s else record s {
    listening = listen c s.listening;
    globals = record s.globals { allow_lan = c.general.allow_lan };
  }

  unfoldable pub update_config : UpdateParams V → Config V → State V L → State V L
  unfolding merge update_listeners
  update_config p c s =
      let t = merge p (record { general = c.general; globals = s.globals }) in
      let d = record c { general = t.general } in
      update_listeners (some d) (record s { current = some d; globals = t.globals })

  -- `handleUpdateConfig`: the answer, which is empty for none. `params` is what the decoder makes of the text.
  unfoldable pub update_loaded :
      Outcome (UpdateParams V) → Option (Config V) → State V L → State V L × String
  unfolding update_config
  update_loaded params none s = (s, "config not loaded")
  update_loaded (err why) (some c) s = (s, why)
  update_loaded (ok p) (some c) s = (update_config p c s, "")

  unfoldable pub handle_update_config : Outcome (UpdateParams V) → State V L → State V L × String
  unfolding update_loaded
  handle_update_config params s =
      if not s.is_init then (s, "not initialized") else update_loaded params s.current s
