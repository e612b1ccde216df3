-- ===== src/TunStart/Entries.antt =====
-- `Start` against the entries of its two lists: the parts between commas, less space around them and less
-- the empty ones.
use libmihomo_android.Base.{
  ◌^◌, ◌<◌, List, [], ◌∷◌, ◌++◌, map, Bool, true, false, if◌then◌else◌, ℤ, pos, negsuc, pos_part,
  ltb_ℤ, Outcome, ok, err, ◌≡◌, refl, sym, ap, ◌∙◌, Bool-cases, inl, inr,
}
use native.Mathlib.Omega.{arith}
use mathlib.Core.List.{append_assoc, append-nil}
use libmihomo_android.Text.{Text, trim_space, to_lower}
use libmihomo_android.Text.Split.{split}
use libmihomo_android.TunStart.{
  Net, Options, is_blank, comma, dns_port, mtu_of, put_prefix, put_address, parse_addresses,
  dns_hijack, or_system, options_of, start_with, start,
}

abbrev pub entries : List Text → List Text
entries [] = []
entries (a ∷ rest) =
    let more = entries rest in if is_blank (trim_space a) then more else trim_space a ∷ more

-- The elements for which the test gives `want`.
abbrev pub those : {A : Type 0} → (A → Bool) → Bool → List A → List A
those test want [] = []
those test want (a ∷ rest) =
    let more = those test want rest in
    if test a then (if want then a ∷ more else more) else if want then more else a ∷ more

mtu_of_lem :
    (mtu : ℤ)
    → pos_part mtu < 2 ^ 32
    → mtu_of mtu ≡ (if ltb_ℤ (pos 0) mtu then pos_part mtu else 9000)
unfolding mtu_of
mtu_of_lem (pos n) h = ground (arith, h)
mtu_of_lem (negsuc n) h = ground arith

module _ {Prefix Stack : Type 0} (net : Net Prefix Stack) where
  -- All the prefixes, or the first error.
  abbrev pub add : Outcome Prefix → Outcome (List Prefix) → Outcome (List Prefix)
  add (err why) ps = err why
  add (ok p) (err why) = err why
  add (ok p) (ok ps) = ok (p ∷ ps)

  abbrev pub prefixes : List Text → Outcome (List Prefix)
  prefixes [] = ok []
  prefixes (a ∷ rest) = add (net.parse_prefix a) (prefixes rest)

  abbrev pub split_by :
      List Prefix × List Prefix → Outcome (List Prefix) → Outcome (List Prefix × List Prefix)
  split_by found (err why) = err why
  split_by (p4, p6) (ok ps) = ok (p4 ++ those net.is4 true ps, p6 ++ those net.is4 false ps)

  put_prefix_lem :
      (o : Outcome Prefix) (r : Outcome (List Prefix)) (found : List Prefix × List Prefix)
      → elim (put_prefix net o found) [ err why ↦ err why | ok more ↦ split_by more r ]
        ≡ split_by found (add o r)
  put_prefix_lem (err why) r found = refl
  put_prefix_lem (ok p) (err why) found = refl
  put_prefix_lem (ok p) (ok ps) (p4, p6) = elim (Bool-cases (net.is4 p)) [
    | inl e ↦ rw (e, append_assoc p4 (p ∷ []) (those net.is4 true ps))
    | inr e ↦ rw (e, append_assoc p6 (p ∷ []) (those net.is4 false ps))
  ]

  under :
      {A B : Type 0} (f g : A → Outcome B) (o : Outcome A)
      → ((a : A) → f a ≡ g a)
      → elim o [ err why ↦ err why | ok a ↦ f a ] ≡ elim o [ err why ↦ err why | ok a ↦ g a ]
  under f g (err why) h = refl
  under f g (ok a) h = h a

  taken :
      (b : Bool) (a : Text) (f : List Prefix × List Prefix → Outcome (List Prefix × List Prefix))
      (es : List Text) (found : List Prefix × List Prefix)
      → ((more : List Prefix × List Prefix) → f more ≡ split_by more (prefixes es))
      → elim (if b then ok found else put_prefix net (net.parse_prefix a) found) [
        | err why ↦ err why
        | ok more ↦ f more
      ]
        ≡ split_by found (prefixes (if b then es else a ∷ es))
  taken true a f es found h = h found
  taken false a f es found h =
      under f (λ more. split_by more (prefixes es)) (put_prefix net (net.parse_prefix a) found) h
      ∙ put_prefix_lem (net.parse_prefix a) (prefixes es) found

  parse_addresses_lem :
      (parts : List Text) (found : List Prefix × List Prefix)
      → parse_addresses net parts found ≡ split_by found (prefixes (entries parts))
  unfolding parse_addresses put_address
  parse_addresses_lem [] (p4, p6) = rw (append-nil p4, append-nil p6)
  parse_addresses_lem (a ∷ rest) found =
      taken (is_blank (trim_space a)) (trim_space a) (parse_addresses net rest) (entries rest) found
        (parse_addresses_lem rest)

  dns_hijack_lem :
      (parts out : List Text)
      → dns_hijack net parts out ≡ out ++ map (λ d. net.join_host_port d dns_port) (entries parts)
  unfolding dns_hijack
  dns_hijack_lem [] out = sym (append-nil out)
  dns_hijack_lem (d ∷ rest) out = joined (is_blank (trim_space d)) (dns_hijack_lem rest)
    where
      joined :
          (b : Bool)
          → ((found : List Text)
              → dns_hijack net rest found
                ≡ found ++ map (λ e. net.join_host_port e dns_port) (entries rest))
          → dns_hijack net rest
              (if b then out else out ++ (net.join_host_port (trim_space d) dns_port ∷ []))
            ≡ out
              ++ map
                  (λ e. net.join_host_port e dns_port)
                  (if b then entries rest else trim_space d ∷ entries rest)
      joined true ih = ih out
      joined false ih =
          ih (out ++ (net.join_host_port (trim_space d) dns_port ∷ []))
          ∙ append_assoc out (net.join_host_port (trim_space d) dns_port ∷ [])
              (map (λ e. net.join_host_port e dns_port) (entries rest))

  -- The prefixes of a list of addresses, those of IPv4 and those of IPv6, or the first error among them.
  abbrev pub prefixes_of : Text → Outcome (List Prefix × List Prefix)
  prefixes_of address = split_by ([], []) (prefixes (entries (split comma address)))

  -- The options that the texts stand for.
  abbrev pub meant_options :
      ℤ → Text → Text → Text → ℤ → List Prefix × List Prefix → Options Prefix Stack
  meant_options fd device stack dns mtu (p4, p6) = record {
    enable = true;
    device = device;
    stack = or_system net (net.stack_type_mapping (to_lower stack));
    dns_hijack = map (λ d. net.join_host_port d dns_port) (entries (split comma dns));
    auto_route = false;
    auto_detect_interface = false;
    inet4_address = p4;
    inet6_address = p6;
    mtu = if ltb_ℤ (pos 0) mtu then pos_part mtu else 9000;
    file_descriptor = fd;
  }

  options_of_lem :
      (fd : ℤ) (device stack dns : Text) (mtu : ℤ) (found : List Prefix × List Prefix)
      → pos_part mtu < 2 ^ 32
      → options_of net fd device stack dns mtu found ≡ meant_options fd device stack dns mtu found
  unfolding options_of
  options_of_lem fd device stack dns mtu (p4, p6) h =
      rw (dns_hijack_lem (split comma dns) [], mtu_of_lem mtu h)

  module _ {W L : Type 0} (new : Options Prefix Stack → W → W × Outcome L) where
    started :
        (o : Outcome (List Prefix × List Prefix)) (w : W)
        (options meant : List Prefix × List Prefix → Options Prefix Stack)
        → ((found : List Prefix × List Prefix) → options found ≡ meant found)
        → start_with net new options o w
          ≡ elim o [ err why ↦ (w, err why) | ok found ↦ new (meant found) w ]
    unfolding start_with
    started (err why) w options meant h = refl
    started (ok found) w options meant h = ap (λ x. new x w) (h found)

    -- The options of the listener: the IPv4 and the IPv6 prefixes of the address list in its order, each DNS
    -- server with port 53, an MTU of 9000 where none that is positive is given, and routes left to the
    -- VpnService. Where an address does not parse, the error of the first such address is returned and no
    -- listener is made. (The MTU is below 2^32.)
    pub start_lem :
        (fd : ℤ) (device stack address dns : Text) (mtu : ℤ) (w : W)
        → pos_part mtu < 2 ^ 32
        → start net new fd device stack address dns mtu w ≡ elim (prefixes_of address) [
          | err why ↦ (w, err why)
          | ok found ↦ new (meant_options fd device stack dns mtu found) w
        ]
    unfolding start
    start_lem fd device stack address dns mtu w h =
        ap (λ o. start_with net new (options_of net fd device stack dns mtu) o w)
          (parse_addresses_lem (split comma address) ([], []))
        ∙ started (prefixes_of address) w (options_of net fd device stack dns mtu)
            (meant_options fd device stack dns mtu)
            (λ found. options_of_lem fd device stack dns mtu found h)
