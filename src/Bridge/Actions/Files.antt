-- ===== src/Bridge/Actions/Files.antt =====
-- The handlers of file_ops.go and geo_data.go, which reply to their action themselves.
use libmihomo_android.Base.{[], ◌∷◌, Option, none, some, String, ◌==◌, if◌then◌else◌}
use libmihomo_android.Bridge.Reply.{ActionResult, World, success, fail, plain}
use libmihomo_android.Bridge.Host.{
  Os, Provider, missing, unreadable, directory, file, compatible, proxy_set, rule_set,
}

module _ {S V : Type 0} (json : ActionResult V → Option String) where
  -- What follows a call that failed or not: the text of the error, or success with no data.
  unfoldable pub report : ActionResult V → S × Option String → World S → World S
  unfolding success fail
  report result (s, none) w = success json (plain "") result (record w { state = s })
  report result (s, some why) w = fail json why result (record w { state = s })

  -- `handleDelFile`
  unfoldable pub del_file : Os S → String → ActionResult V → World S → World S
  unfolding report success fail
  del_file os path result w = elim (os.stat path w.state) [
    | missing ↦ success json (plain "") result w
    | unreadable why ↦ fail json why result w
    | directory ↦ report result (os.remove_all path w.state) w
    | file ↦ report result (os.remove path w.state) w
  ]

module _ {S : Type 0} where
  -- What a Go error is to a handler of geo_data.go: its text, and the empty string when there is none.
  abbrev pub text_of : S × Option String → S × String
  text_of (s, none) = (s, "")
  text_of (s, some why) = (s, why)

  -- `handleSideLoadExternalProvider`, with the provider of the name: the state after, and the value given to `fn`.
  unfoldable pub side_loaded : Option (Provider S) → String → S → S × String
  side_loaded none content s = (s, "external provider is not exist")
  side_loaded (some compatible) content s = (s, "external provider is not exist")
  side_loaded (some rule_set) content s = (s, "not a proxy provider")
  side_loaded (some (proxy_set side_update)) content s = text_of (side_update content s)

module _ {S : Type 0} (os : Os S) where
  unfoldable pub side_load : String → String → S → S × String
  unfolding side_loaded
  side_load name content s = side_loaded (os.providers s name) content s

  -- `handleUpdateGeoData`
  unfoldable pub update_geo : String → S → S × String
  update_geo geo_type s =
      if geo_type == "MMDB"
      then text_of (os.update_mmdb s)
      else if geo_type == "ASN"
      then text_of (os.update_asn s)
      else if geo_type == "GEOIP"
      then text_of (os.update_geo_ip s)
      else if geo_type == "GEOSITE"
      then text_of (os.update_geo_site s)
      else (s, "")

  -- `handleGetCountryCode`
  unfoldable pub country_code : String → S → String
  country_code ip s = elim (os.lookup_code ip s) [ [] ↦ "" | code ∷ codes ↦ code ]
