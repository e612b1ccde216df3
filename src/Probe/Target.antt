-- ===== src/Probe/Target.antt =====
-- The target of a probe and the bodies of its replies.
use libmihomo_android.Base.{
  String, ◌==◌, List, [], ◌∷◌, ◌++◌, Option, none, some, Bool, true, false, if◌then◌else◌, ◌≡◌,
  refl, sym, ap, ◌∙◌, ◌⊎◌, inl, inr, Bool-cases, if_true, if_false,
}
use libmihomo_android.Text.{Text}
use libmihomo_android.Probe.{
  TunnelMode, global, rule, direct, Rule, Tunnel, resolve_mode, match_rule, target_of,
  determine_probe_target, Response, HttpReply, Probes, rejected_probe_body, read_response,
  count_open, handle_probe_current_proxy_ip,
}

abbrev pub NoMatch : List Rule → Type 0
NoMatch [] = Unit
NoMatch (r ∷ rules) = (r.is_match ≡ false) × NoMatch rules

-- The adapter is that of the first MATCH rule.
pub record FirstMatch (rules : List Rule) (adapter : String) : Type 0 where
  pub before : List Rule
  pub first : Rule
  pub after : List Rule
  pub parts : rules ≡ before ++ (first ∷ after)
  pub earlier : NoMatch before
  pub matches : first.is_match ≡ true
  pub same : adapter ≡ first.adapter

-- The default route of a list of rules.
abbrev pub IsDefault : List Rule → String → Type 0
IsDefault rules target = FirstMatch rules target ⊎ NoMatch rules × (target ≡ "REJECT")

match_rule_lem : (rules : List Rule) → IsDefault rules (match_rule rules)
unfolding match_rule
match_rule_lem [] = inr (tt, refl)
match_rule_lem (r ∷ rules) = split (Bool-cases r.is_match) (match_rule_lem rules)
  where
    split :
        (r.is_match ≡ true) ⊎ (r.is_match ≡ false)
        → IsDefault rules (match_rule rules)
        → IsDefault (r ∷ rules) (if r.is_match then r.adapter else match_rule rules)
    split (inl k) h = inl record {
      before = [];
      first = r;
      after = rules;
      parts = refl;
      earlier = tt;
      matches = k;
      same = if_true r.is_match (match_rule rules) k;
    }
    split (inr k) (inl f) = inl record {
      before = r ∷ f.before;
      first = f.first;
      after = f.after;
      parts = ap (λ xs. r ∷ xs) f.parts;
      earlier = (k, f.earlier);
      matches = f.matches;
      same = if_false r.is_match r.adapter k ∙ f.same;
    }
    split (inr k) (inr (h, e)) = inr ((k, h), if_false r.is_match r.adapter k ∙ e)

-- What the target is in each mode.
abbrev pub IsTarget : TunnelMode → List Rule → String → Type 0
IsTarget direct rules target = target ≡ "DIRECT"
IsTarget global rules target = target ≡ "GLOBAL"
IsTarget rule rules target = IsDefault rules target

target_of_lem : (mode : TunnelMode) (rules : List Rule) → IsTarget mode rules (target_of mode rules)
unfolding target_of
target_of_lem direct rules = refl
target_of_lem global rules = refl
target_of_lem rule rules = match_rule_lem rules

-- The probe goes to DIRECT and to GLOBAL in these modes, and in the mode of rules to the adapter of the first
-- MATCH rule, or nowhere (REJECT) if no rule is a MATCH.
pub determine_probe_target_lem :
    (t : Tunnel) (mode_hint : Text)
    → IsTarget (resolve_mode t mode_hint) t.rules (determine_probe_target t mode_hint)
unfolding determine_probe_target
determine_probe_target_lem t mode_hint = target_of_lem (resolve_mode t mode_hint) t.rules

read_response-closed :
    (failed : Bool) (o : Option Response) (s : Probes)
    → ((read_response failed o s).0.closed ≡ count_open o s.closed)
      × ((read_response failed o s).0.opened ≡ s.opened)
      × ((read_response failed o s).0.requests ≡ s.requests)
unfolding read_response
read_response-closed failed none s = (refl, refl, refl)
read_response-closed failed (some r) s = (refl, refl, refl)

-- A probe closes every body that it opens, and sends one request, to its target, unless that is REJECT.
pub handle_probe_current_proxy_ip-closes :
    (t : Tunnel) (request : String → HttpReply) (mode_hint : Text) (s : Probes)
    → s.opened ≡ s.closed
    → let u = (handle_probe_current_proxy_ip t request mode_hint s).0 in
      let target = determine_probe_target t mode_hint in
      (u.opened ≡ u.closed)
      × (u.requests ≡ (if target == "REJECT" then s.requests else target ∷ s.requests))
unfolding handle_probe_current_proxy_ip
handle_probe_current_proxy_ip-closes t request mode_hint s e =
    chosen (determine_probe_target t mode_hint == "REJECT")
  where
    target : String
    target = determine_probe_target t mode_hint

    asked : Probes
    asked = record s {
      requests = target ∷ s.requests;
      opened = count_open (request target).response s.opened;
    }

    chosen :
        (b : Bool)
        → let u =
            (if b
              then (s, rejected_probe_body)
              else read_response (request target).failed (request target).response asked).0 in
          (u.opened ≡ u.closed) × (u.requests ≡ (if b then s.requests else target ∷ s.requests))
    chosen true = (e, refl)
    chosen false =
        let (p, q, r) =
          read_response-closed (request target).failed (request target).response asked in
        (q ∙ ap (count_open (request target).response) e ∙ sym p, r)
