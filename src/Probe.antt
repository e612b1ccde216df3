-- ===== src/Probe.antt =====
-- probe.go: through which proxy the public address is looked up, and the request for it.
pub mod Target
pub mod Tests
use libmihomo_android.Base.{
  ℕ, suc, String, ◌==◌, List, [], ◌∷◌, Option, none, some, Bool, true, false, not, ◌||◌,
  if◌then◌else◌, eqb, Outcome, ok, err,
}
use libmihomo_android.Text.{Text, to_lower}

-- The modes of mihomo.
pub data TunnelMode : Type 0 where
  global : TunnelMode
  rule : TunnelMode
  direct : TunnelMode

-- An entry of `tunnel.Rules()`: whether its type is MATCH, and its adapter.
pub record Rule : Type 0 where
  pub is_match : Bool
  pub adapter : String

-- What `tunnel` knows, with its table of modes.
pub record Tunnel : Type 0 where
  pub mode_mapping : Text → Option TunnelMode
  pub mode : TunnelMode
  pub rules : List Rule

abbrev pub or_mode : TunnelMode → Option TunnelMode → TunnelMode
or_mode mode none = mode
or_mode mode (some m) = m

unfoldable pub resolve_mode : Tunnel → Text → TunnelMode
resolve_mode t mode_hint = or_mode t.mode (t.mode_mapping (to_lower mode_hint))

-- The loop over the rules, with the answer after it.
unfoldable pub match_rule : List Rule → String
match_rule [] = "REJECT"
match_rule (r ∷ rules) = let rest = match_rule rules in if r.is_match then r.adapter else rest

unfoldable pub target_of : TunnelMode → List Rule → String
unfolding match_rule
target_of direct rules = "DIRECT"
target_of global rules = "GLOBAL"
target_of rule rules = match_rule rules

unfoldable pub determine_probe_target : Tunnel → Text → String
unfolding resolve_mode target_of
determine_probe_target t mode_hint = target_of (resolve_mode t mode_hint) t.rules

-- A reply of the endpoint, with what reading its body gives.
pub record Response : Type 0 where
  pub status_code : ℕ
  pub body : Outcome String

-- What `HttpRequest` returns.
pub record HttpReply : Type 0 where
  pub response : Option Response
  pub failed : Bool

-- The requests that were sent, by their target, and how many bodies were opened and closed.
pub record Probes : Type 0 where
  pub requests : List String
  pub opened : ℕ
  pub closed : ℕ

abbrev pub rejected_probe_body : String
rejected_probe_body = "{\"status\":\"REJECT\"}"

abbrev pub body_or_empty : Outcome String → String
body_or_empty (err why) = ""
body_or_empty (ok body) = body

-- What follows the request.
unfoldable pub read_response : Bool → Option Response → Probes → Probes × String
read_response failed none s = (s, "")
read_response failed (some r) s = (
  record s { closed = suc s.closed },
  if failed || not (eqb r.status_code 200) then "" else body_or_empty r.body,
)

abbrev pub count_open : Option Response → ℕ → ℕ
count_open none n = n
count_open (some r) n = suc n

unfoldable pub handle_probe_current_proxy_ip :
    Tunnel → (String → HttpReply) → Text → Probes → Probes × String
unfolding determine_probe_target read_response
handle_probe_current_proxy_ip t request mode_hint s =
    let target = determine_probe_target t mode_hint in
    if target == "REJECT"
    then (s, rejected_probe_body)
    else read_response (request target).failed (request target).response (record s {
      requests = target ∷ s.requests;
      opened = count_open (request target).response s.opened;
    })
