-- ===== src/TunStart/Tests.antt =====
-- The options of a listener with two DNS servers and an MTU that is not given.
use libmihomo_android.Base.{
  ℕ, ◌+◌, [], ◌∷◌, ◌++◌, none, Bool, true, false, if◌then◌else◌, pos, Outcome, ok, err, ◌≡◌, refl,
  eqb,
}
use native.Mathlib.Omega.{arith}
use libmihomo_android.Text.{Text, trim_space}
use libmihomo_android.Text.Split.{split}
use libmihomo_android.TunStart.{Net, Options, start}
use libmihomo_android.TunStart.Entries.{prefixes_of, meant_options, start_lem}

-- A prefix of IPv6 starts with an f, and one that starts with an x does not parse.
abbrev parse : Text → Outcome Text
parse [] = err "empty"
parse (c ∷ s) = if eqb c 120 then err "no prefix" else ok (c ∷ s)

abbrev is_4 : Text → Bool
is_4 [] = true
is_4 (c ∷ s) = if eqb c 102 then false else true

abbrev net : Net Text ℕ
net = record {
  parse_prefix = parse;
  is4 = is_4;
  join_host_port = λ h p. h ++ (58 ∷ p);
  stack_type_mapping = λ t. none;
  tun_system = 1;
}

-- The system counts the listeners, and a listener is its options.
abbrev new : Options Text ℕ → ℕ → ℕ × Outcome (Options Text ℕ)
new options n = (n + 1, ok options)

-- "49, f2,,50 " and "51,"
abbrev address : Text
address = 49 ∷ 44 ∷ 32 ∷ 102 ∷ 50 ∷ 44 ∷ 44 ∷ 50 ∷ 32 ∷ []

abbrev dns : Text
dns = 51 ∷ 44 ∷ []

abbrev options : Options Text ℕ
options = record {
  enable = true;
  device = [];
  stack = 1;
  dns_hijack = (51 ∷ 58 ∷ 53 ∷ 51 ∷ []) ∷ [];
  auto_route = false;
  auto_detect_interface = false;
  inet4_address = (49 ∷ []) ∷ (50 ∷ []) ∷ [];
  inet6_address = (102 ∷ 50 ∷ []) ∷ [];
  mtu = 9000;
  file_descriptor = pos 7;
}

start_runs : start net new (pos 7) [] [] address dns (pos 0) 4 ≡ (5, ok options)
unfolding start split trim_space
start_runs = refl

start_fails : start net new (pos 7) [] [] (49 ∷ 44 ∷ 120 ∷ []) dns (pos 0) 4 ≡ (4, err "no prefix")
unfolding start split trim_space
start_fails = refl

start_example : start net new (pos 7) [] [] address dns (pos 0) 4 ≡ elim (prefixes_of net address) [
  | err why ↦ (4, err why)
  | ok found ↦ new (meant_options net (pos 7) [] [] dns (pos 0) found) 4
]
start_example = start_lem net new (pos 7) [] [] address dns (pos 0) 4 (omega arith)
