-- ===== src/Probe/Tests.antt =====
-- A probe in the mode of rules, with a MATCH rule and without one.
use libmihomo_android.Base.{String, [], ◌∷◌, none, some, true, false, ok, ◌≡◌, refl}
use libmihomo_android.Probe.{rule, Tunnel, HttpReply, Probes, handle_probe_current_proxy_ip}

abbrev tunnel : Tunnel
tunnel = record {
  mode_mapping = λ s. none;
  mode = rule;
  rules =
      record { is_match = false; adapter = "DIRECT" }
      ∷ record { is_match = true; adapter = "VPN" }
      ∷ [];
}

abbrev request : String → HttpReply
request target = record {
  response = some (record { status_code = 500; body = ok "oops" });
  failed = false;
}

abbrev before : Probes
before = record { requests = []; opened = 3; closed = 3 }

probed : (handle_probe_current_proxy_ip tunnel request [] before).1 ≡ ""
unfolding handle_probe_current_proxy_ip
probed = refl
