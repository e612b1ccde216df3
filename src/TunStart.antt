-- ===== src/TunStart.antt =====
-- `Start` of tun/tun.go, from the texts of the VpnService to the options of the listener.
pub mod Entries
pub mod Tests
use libmihomo_android.Base.{
  ℕ, ◌^◌, ◌%◌, String, List, [], ◌∷◌, ◌++◌, Option, none, some, Bool, true, false, if◌then◌else◌, ℤ,
  pos, pos_part, ltb_ℤ, Outcome, ok, err,
}
use libmihomo_android.Text.{Text, trim_space, to_lower}
use libmihomo_android.Text.Split.{split}

-- The packages that `Start` calls, without `sing_tun.New`.
pub record Net (Prefix Stack : Type 0) : Type 0 where
  pub parse_prefix : Text → Outcome Prefix
  pub is4 : Prefix → Bool
  pub join_host_port : Text → Text → Text
  pub stack_type_mapping : Text → Option Stack
  pub tun_system : Stack

-- `LC.Tun`
pub record Options (Prefix Stack : Type 0) : Type 0 where
  pub enable : Bool
  pub device : Text
  pub stack : Stack
  pub dns_hijack : List Text
  pub auto_route : Bool
  pub auto_detect_interface : Bool
  pub inet4_address : List Prefix
  pub inet6_address : List Prefix
  pub mtu : ℕ
  pub file_descriptor : ℤ

abbrev pub tun_mtu : ℤ
tun_mtu = pos 9000

-- The code of a comma, and the text of port 53.
abbrev pub comma : ℕ
comma = 44

abbrev pub dns_port : Text
dns_port = 53 ∷ 51 ∷ []

abbrev pub is_blank : Text → Bool
is_blank [] = true
is_blank (c ∷ s) = false

-- `uint32(eff)`
unfoldable pub mtu_of : ℤ → ℕ
mtu_of mtu = pos_part (if ltb_ℤ (pos 0) mtu then mtu else tun_mtu) % 2 ^ 32

module _ {Prefix Stack : Type 0} (net : Net Prefix Stack) where
  abbrev pub or_system : Option Stack → Stack
  or_system none = net.tun_system
  or_system (some stack) = stack

  -- One address, into the prefixes of IPv4 and of IPv6.
  abbrev pub put_prefix :
      Outcome Prefix → List Prefix × List Prefix → Outcome (List Prefix × List Prefix)
  put_prefix (err why) found = err why
  put_prefix (ok p) (p4, p6) = ok (if net.is4 p then (p4 ++ (p ∷ []), p6) else (p4, p6 ++ (p ∷ [])))

  unfoldable pub put_address :
      Text → List Prefix × List Prefix → Outcome (List Prefix × List Prefix)
  put_address a found = if is_blank a then ok found else put_prefix (net.parse_prefix a) found

  -- The loop over the parts of `address`.
  unfoldable pub parse_addresses :
      List Text → List Prefix × List Prefix → Outcome (List Prefix × List Prefix)
  unfolding put_address
  parse_addresses [] found = ok found
  parse_addresses (a ∷ rest) found = elim (put_address (trim_space a) found) [
    | err why ↦ err why
    | ok more ↦ parse_addresses rest more
  ]

  -- The loop over the parts of `dns`.
  unfoldable pub dns_hijack : List Text → List Text → List Text
  dns_hijack [] out = out
  dns_hijack (d ∷ rest) out = dns_hijack rest (
      if is_blank (trim_space d)
      then out
      else out ++ (net.join_host_port (trim_space d) dns_port ∷ []))

  unfoldable pub options_of :
      ℤ → Text → Text → Text → ℤ → List Prefix × List Prefix → Options Prefix Stack
  unfolding dns_hijack mtu_of
  options_of fd device stack dns mtu (p4, p6) = record {
    enable = true;
    device = device;
    stack = or_system (net.stack_type_mapping (to_lower stack));
    dns_hijack = dns_hijack (split comma dns) [];
    auto_route = false;
    auto_detect_interface = false;
    inet4_address = p4;
    inet6_address = p6;
    mtu = mtu_of mtu;
    file_descriptor = fd;
  }

  -- `new` is `sing_tun.New`, which changes the system and gives a listener or fails.
  module _ {W L : Type 0} (new : Options Prefix Stack → W → W × Outcome L) where
    unfoldable pub start_with :
        (List Prefix × List Prefix → Options Prefix Stack)
        → Outcome (List Prefix × List Prefix)
        → W
        → W × Outcome L
    start_with options (err why) w = (w, err why)
    start_with options (ok found) w = new (options found) w

    unfoldable pub start : ℤ → Text → Text → Text → Text → ℤ → W → W × Outcome L
    unfolding start_with options_of parse_addresses
    start fd device stack address dns mtu w =
        start_with (options_of fd device stack dns mtu)
          (parse_addresses (split comma address) ([], [])) w
