-- ===== src/Bridge/Actions/Keeps/Steps.antt =====
-- The steps of an action and the handlers of geo_data.go, over a property that every handler keeps.
use Prim.Native.String
use libmihomo_android.Base.{
  Outcome, ok, err, Option, none, some, String, ℤ, Bool, true, false, ◌≡◌, refl, ◌==◌,
  if◌then◌else◌,
}
use libmihomo_android.Bridge.Reply.{
  ActionResult, World, Value, success, fail, send, action_callback, plain,
}
use libmihomo_android.Bridge.Host.{
  Data, string, float64, int, bool, other, Os, Handlers, Provider, missing, unreadable, directory,
  file, compatible, proxy_set, rule_set,
}
use libmihomo_android.Bridge.Actions.Files.{
  report, del_file, text_of, side_loaded, side_load, update_geo,
}
use libmihomo_android.Bridge.Actions.Steps.{
  parse_string, parse_level, decoded, returned, done, called,
}
use libmihomo_android.Bridge.Actions.Keeps.Contracts.{Contract}

module _ {S V : Type 0} (P : S → Type 0) (json : ActionResult V → Option String)
    (result : ActionResult V) where
  abbrev Kept : World S → Type 0
  Kept w = P w.state

  pub parse_string-keeps :
      (d : Data) (rest : String → World S → World S) (w : World S)
      → P w.state
      → ((s : String) → P (rest s w).state)
      → P (parse_string json d result rest w).state
  unfolding parse_string fail send
  parse_string-keeps (string s) rest w v h = h s
  parse_string-keeps (float64 n) rest w v h = v
  parse_string-keeps (int n) rest w v h = v
  parse_string-keeps (bool b) rest w v h = v
  parse_string-keeps other rest w v h = v

  pub parse_level-keeps :
      (mapping : String → Option ℤ) (d : Data) (rest : ℤ → World S → World S) (w : World S)
      → P w.state
      → ((n : ℤ) → P (rest n w).state)
      → P (parse_level json mapping d result rest w).state
  unfolding parse_level fail send
  parse_level-keeps mapping (string s) rest w v h =
      elim (mapping s)
        as (λ o. Kept (elim o [
          | some level ↦ rest level w
          | none ↦ fail json (String.◌++◌ "invalid log level: " s) result w
        ])) [ some level ↦ h level | none ↦ v ]
  parse_level-keeps mapping (float64 n) rest w v h = h n
  parse_level-keeps mapping (int n) rest w v h = h n
  parse_level-keeps mapping (bool b) rest w v h = v
  parse_level-keeps mapping other rest w v h = v

  pub decoded-keeps :
      {A : Type 0} (o : Outcome A) (rest : A → World S → World S) (w : World S)
      → P w.state
      → ((a : A) → P (rest a w).state)
      → P (decoded json o result rest w).state
  unfolding decoded fail send
  decoded-keeps (ok a) rest w v h = h a
  decoded-keeps (err why) rest w v h = v

  pub returned-keeps :
      {A : Type 0} (value : A → Value V) (r : S × A) (w : World S)
      → P r.0
      → P (returned json value result r w).state
  unfolding returned success send
  returned-keeps value r w v = v

  pub done-keeps : (s : S) (w : World S) → P s → P (done json result s w).state
  unfolding done success send
  done-keeps s w v = v

  pub success-keeps : (a : Value V) (w : World S) → P w.state → P (success json a result w).state
  unfolding success send
  success-keeps a w v = v

  pub fail-keeps : (why : String) (w : World S) → P w.state → P (fail json why result w).state
  unfolding fail send
  fail-keeps why w v = v

  pub called-keeps : (r : S × String) (w : World S) → P r.0 → P (called json result r w).state
  unfolding called action_callback success fail send
  called-keeps (s, value) w v =
      elim (value == "")
        as (λ b.
          P
            ((if b then success json (plain "") result else fail json value result)
              (record w { state = s })).state) [ true ↦ v | false ↦ v ]

  pub report-keeps :
      (r : S × Option String) (w : World S) → P r.0 → P (report json result r w).state
  unfolding report success fail send
  report-keeps (s, none) w v = v
  report-keeps (s, some why) w v = v

  pub del_file-keeps :
      (os : Os S) (path : String) (w : World S)
      → P w.state
      → P (os.remove_all path w.state).0
      → P (os.remove path w.state).0
      → P (del_file json os path result w).state
  unfolding del_file
  del_file-keeps os path w v all one =
      elim (os.stat path w.state)
        as (λ i. Kept (elim i [
          | missing ↦ success json (plain "") result w
          | unreadable why ↦ fail json why result w
          | directory ↦ report json result (os.remove_all path w.state) w
          | file ↦ report json result (os.remove path w.state) w
        ])) [
          | missing ↦ success-keeps (plain "") w v
          | unreadable why ↦ fail-keeps why w v
          | directory ↦ report-keeps (os.remove_all path w.state) w all
          | file ↦ report-keeps (os.remove path w.state) w one
        ]

-- The handlers of geo_data.go.
module _ {S V : Type 0} (P : S → Type 0) (os : Os S) (h : Handlers S V) (k : Contract P os h) where
  pub text_of-keeps : (r : S × Option String) → P r.0 → P (text_of r).0
  text_of-keeps (s, none) v = v
  text_of-keeps (s, some why) v = v

  pub side_loaded-keeps :
      (t : S) (name content : String) (o : Option (Provider S)) {s : S}
      → os.providers t name ≡ o
      → P s
      → P (side_loaded o content s).0
  unfolding side_loaded
  side_loaded-keeps t name content none e v = v
  side_loaded-keeps t name content (some compatible) e v = v
  side_loaded-keeps t name content (some rule_set) e v = v
  side_loaded-keeps t name content (some (proxy_set update)) {s} e v =
      text_of-keeps (update content s) (k.side_update t name update content e v)

  pub side_load-keeps : (name content : String) (s : S) → P s → P (side_load os name content s).0
  unfolding side_load
  side_load-keeps name content s v = side_loaded-keeps s name content (os.providers s name) refl v

  pub either-keeps : (b : Bool) (x y : S × String) → P x.0 → P y.0 → P (if b then x else y).0
  either-keeps true x y v w = v
  either-keeps false x y v w = w

  pub update_geo-keeps : (kind : String) (s : S) → P s → P (update_geo os kind s).0
  unfolding update_geo
  update_geo-keeps kind s v =
      either-keeps (kind == "MMDB") _ _ (text_of-keeps (os.update_mmdb s) (k.update_mmdb v)) (
        either-keeps (kind == "ASN") _ _ (text_of-keeps (os.update_asn s) (k.update_asn v)) (
          either-keeps (kind == "GEOIP") _ _
            (text_of-keeps (os.update_geo_ip s) (k.update_geo_ip v))
            (either-keeps (kind == "GEOSITE") _ _
              (text_of-keeps (os.update_geo_site s) (k.update_geo_site v)) v)))
