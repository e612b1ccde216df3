-- ===== src/Config/Update/Merges.antt =====
-- The fields of the config and mihomo's own settings after `merge`.
use libmihomo_android.Base.{Option, none, some, not, ◌≡◌, refl, ap, sym, ◌∙◌}
use libmihomo_android.Config.Update.{
  TunSettings, General, TunParams, UpdateParams, Globals, Settings, assign, put_tun, set_mixed_port,
  set_sniffing, set_find_process_mode, set_tcp_concurrent, set_interface_name, set_unified_delay,
  set_mode, set_log_level, set_ipv6, set_allow_lan, set_tun, merge,
}

abbrev pub given : {A : Type 0} → Option A → A → A
given none old = old
given (some a) old = a

assign-keeps :
    {A S : Type 0} (P : S → Type 0) (o : Option A) (f : A → S → S) (s : S)
    → ((a : A) (t : S) → P t → P (f a t))
    → P s
    → P (assign o f s)
assign-keeps P none f s h v = v
assign-keeps P (some a) f s h v = h a s v

-- An assignment seen through a part of the state, in which it puts what is given in place of what is there.
assign_part :
    {A S T : Type 0} (part : S → T) (o : Option A) (f : A → S → S) (put : A → T → T) (get : T → A)
    (s : S) (t : T)
    → ((a : A) (u : S) → part (f a u) ≡ put a (part u))
    → put (get t) t ≡ t
    → part s ≡ t
    → part (assign o f s) ≡ put (given o (get t)) t
assign_part part none f put get s t h same e = e ∙ sym same
assign_part part (some a) f put get s t h same e = h a s ∙ ap (put a) e

module _ {V : Type 0} where
  abbrev pub tun_given : Option (TunParams V) → TunSettings V → TunSettings V
  tun_given none t = t
  tun_given (some p) t = record {
    enable = p.enable;
    device = given p.device t.device;
    stack = given p.stack t.stack;
    dns_hijack = given p.dns_hijack t.dns_hijack;
    auto_route = given p.auto_route t.auto_route;
    route_address = given p.route_address t.route_address;
  }

  abbrev pub merged : UpdateParams V → General V → General V
  merged p g = record g {
    mixed_port = given p.mixed_port g.mixed_port;
    sniffing = given p.sniffing g.sniffing;
    find_process_mode = given p.find_process_mode g.find_process_mode;
    tcp_concurrent = given p.tcp_concurrent g.tcp_concurrent;
    interface_name = given p.interface_name g.interface_name;
    unified_delay = given p.unified_delay g.unified_delay;
    mode = given p.mode g.mode;
    log_level = given p.log_level g.log_level;
    ipv6 = given p.ipv6 g.ipv6;
    allow_lan = given p.allow_lan g.allow_lan;
    tun = tun_given p.tun g.tun;
  }

  -- Mihomo's settings that belong to a config, and that they are set.
  abbrev pub globals_of : General V → Globals
  globals_of g = record {
    sniffing = g.sniffing;
    find_process_mode = g.find_process_mode;
    tcp_concurrent = g.tcp_concurrent;
    default_interface = g.interface_name;
    unified_delay = g.unified_delay;
    mode = g.mode;
    log_level = g.log_level;
    disable_ipv6 = not g.ipv6;
    allow_lan = g.allow_lan;
  }

  pub record InSync (s : Settings V) : Type 0 where
    pub agree : s.globals ≡ globals_of s.general

  pub merge-InSync : (p : UpdateParams V) (s : Settings V) → InSync s → InSync (merge p s)
  unfolding merge
  merge-InSync p s v0 =
      let v1 =
        assign-keeps InSync p.mixed_port set_mixed_port _ (λ a t v. record { agree = v.agree })
          v0 in
      let v2 =
        assign-keeps InSync p.sniffing set_sniffing _
          (λ a t v. record { agree = ap {B = Globals} (λ w. record w { sniffing = a }) v.agree })
          v1 in
      let v3 =
        assign-keeps InSync p.find_process_mode set_find_process_mode _
          (λ a t v. record {
            agree = ap {B = Globals} (λ w. record w { find_process_mode = a }) v.agree;
          })
          v2 in
      let v4 =
        assign-keeps InSync p.tcp_concurrent set_tcp_concurrent _
          (λ a t v. record {
            agree = ap {B = Globals} (λ w. record w { tcp_concurrent = a }) v.agree;
          })
          v3 in
      let v5 =
        assign-keeps InSync p.interface_name set_interface_name _
          (λ a t v. record {
            agree = ap {B = Globals} (λ w. record w { default_interface = a }) v.agree;
          })
          v4 in
      let v6 =
        assign-keeps InSync p.unified_delay set_unified_delay _
          (λ a t v. record {
            agree = ap {B = Globals} (λ w. record w { unified_delay = a }) v.agree;
          })
          v5 in
      let v7 =
        assign-keeps InSync p.mode set_mode _
          (λ a t v. record { agree = ap {B = Globals} (λ w. record w { mode = a }) v.agree }) v6 in
      let v8 =
        assign-keeps InSync p.log_level set_log_level _
          (λ a t v. record { agree = ap {B = Globals} (λ w. record w { log_level = a }) v.agree })
          v7 in
      let v9 =
        assign-keeps InSync p.ipv6 set_ipv6 _
          (λ a t v. record {
            agree = ap {B = Globals} (λ w. record w { disable_ipv6 = not a }) v.agree;
          })
          v8 in
      let v10 =
        assign-keeps InSync p.allow_lan set_allow_lan _
          (λ a t v. record { agree = ap {B = Globals} (λ w. record w { allow_lan = a }) v.agree })
          v9 in
      assign-keeps InSync p.tun set_tun _ (λ a t v. record { agree = v.agree }) v10

  abbrev general_of : Settings V → General V
  general_of s = s.general

  put_tun_lem : (p : TunParams V) (t : TunSettings V) → put_tun p t ≡ tun_given (some p) t
  put_tun_lem p t =
      assign_part (λ t. t) p.stack _ (λ v g. record g { stack = v }) (λ g. g.stack) _ _
        (λ a u. refl) refl
        (assign_part (λ t. t) p.dns_hijack _ (λ v g. record g { dns_hijack = v })
          (λ g. g.dns_hijack) _ _ (λ a u. refl) refl
          (assign_part (λ t. t) p.route_address _ (λ v g. record g { route_address = v })
            (λ g. g.route_address) _ _ (λ a u. refl) refl
            (assign_part (λ t. t) p.device _ (λ v g. record g { device = v }) (λ g. g.device) _ _
              (λ a u. refl) refl
              (assign_part (λ t. t) p.auto_route _ (λ v g. record g { auto_route = v })
                (λ g. g.auto_route) _ _ (λ a u. refl) refl (refl)))))

  assign_tun :
      (o : Option (TunParams V)) (s : Settings V) (g : General V)
      → s.general ≡ g
      → (assign o set_tun s).general ≡ record g { tun = tun_given o g.tun }
  assign_tun none s g e = e
  assign_tun (some p) s g e =
      ap {B = General V} (λ g. record g { tun = put_tun p g.tun }) e
      ∙ ap {B = General V} (λ t. record g { tun = t }) (put_tun_lem p g.tun)

  pub merge-general :
      (p : UpdateParams V) (s : Settings V) → (merge p s).general ≡ merged p s.general
  unfolding merge
  merge-general p s =
      let e1 =
        assign_part general_of p.mixed_port set_mixed_port (λ v g. record g { mixed_port = v })
          (λ g. g.mixed_port) _ _ (λ a u. refl) refl refl in
      let e2 =
        assign_part general_of p.sniffing set_sniffing (λ v g. record g { sniffing = v })
          (λ g. g.sniffing) _ _ (λ a u. refl) refl e1 in
      let e3 =
        assign_part general_of p.find_process_mode set_find_process_mode
          (λ v g. record g { find_process_mode = v }) (λ g. g.find_process_mode) _ _ (λ a u. refl)
          refl e2 in
      let e4 =
        assign_part general_of p.tcp_concurrent set_tcp_concurrent
          (λ v g. record g { tcp_concurrent = v }) (λ g. g.tcp_concurrent) _ _ (λ a u. refl) refl
          e3 in
      let e5 =
        assign_part general_of p.interface_name set_interface_name
          (λ v g. record g { interface_name = v }) (λ g. g.interface_name) _ _ (λ a u. refl) refl
          e4 in
      let e6 =
        assign_part general_of p.unified_delay set_unified_delay
          (λ v g. record g { unified_delay = v }) (λ g. g.unified_delay) _ _ (λ a u. refl) refl
          e5 in
      let e7 =
        assign_part general_of p.mode set_mode (λ v g. record g { mode = v }) (λ g. g.mode) _ _
          (λ a u. refl) refl e6 in
      let e8 =
        assign_part general_of p.log_level set_log_level (λ v g. record g { log_level = v })
          (λ g. g.log_level) _ _ (λ a u. refl) refl e7 in
      let e9 =
        assign_part general_of p.ipv6 set_ipv6 (λ v g. record g { ipv6 = v }) (λ g. g.ipv6) _ _
          (λ a u. refl) refl e8 in
      let e10 =
        assign_part general_of p.allow_lan set_allow_lan (λ v g. record g { allow_lan = v })
          (λ g. g.allow_lan) _ _ (λ a u. refl) refl e9 in
      assign_tun p.tun _ _ e10
