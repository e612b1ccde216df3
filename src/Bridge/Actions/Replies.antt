-- ===== src/Bridge/Actions/Replies.antt =====
-- What a reply to an action is, for the steps of Steps and Files.
use Prim.Native.String
use libmihomo_android.Base.{
  Outcome, ok, err, Option, none, some, String, ℤ, pos, negsuc, ◌++◌, ◌≡◌, refl, true, false, ◌==◌,
  if◌then◌else◌,
}
use libmihomo_android.Bridge.Reply.{
  ActionResult, World, Value, sent, send, success, fail, action_callback, plain, flag,
}
use libmihomo_android.Bridge.Host.{
  Data, string, float64, int, bool, other, Os, missing, unreadable, directory, file,
}
use libmihomo_android.Bridge.Actions.Files.{report, del_file}
use libmihomo_android.Bridge.Actions.Steps.{
  parse_string, parse_level, decoded, returned, done, called,
}

-- One reply went out between two states: the events of sending the result with some data and code.
pub data IsAnswered {S V : Type 0} (json : ActionResult V → Option String) (result : ActionResult V)
    (w w' : World S) : Type 0 where
  answered :
      (v : Value V) (code : ℤ)
      → w'.events ≡ w.events ++ sent json (record result { code = code; data_ = v })
      → IsAnswered json result w w'

module _ {S V : Type 0} (json : ActionResult V → Option String) (result : ActionResult V) where
  pub success-IsAnswered :
      (v : Value V) (s : S) (w : World S)
      → IsAnswered json result w (success json v result (record w { state = s }))
  unfolding success send
  success-IsAnswered v s w = answered v (pos 0) refl

  pub fail-IsAnswered :
      (why : String) (s : S) (w : World S)
      → IsAnswered json result w (fail json why result (record w { state = s }))
  unfolding fail send
  fail-IsAnswered why s w = answered (plain why) (negsuc 0) refl

  pub parse_string-IsAnswered :
      (d : Data) (rest : String → World S → World S) (w : World S)
      → ((s : String) → IsAnswered json result w (rest s w))
      → IsAnswered json result w (parse_string json d result rest w)
  unfolding parse_string
  parse_string-IsAnswered (string s) rest w h = h s
  parse_string-IsAnswered (float64 v) rest w h = fail-IsAnswered _ w.state w
  parse_string-IsAnswered (int v) rest w h = fail-IsAnswered _ w.state w
  parse_string-IsAnswered (bool v) rest w h = fail-IsAnswered _ w.state w
  parse_string-IsAnswered other rest w h = fail-IsAnswered _ w.state w

  pub parse_level-IsAnswered :
      (mapping : String → Option ℤ) (d : Data) (rest : ℤ → World S → World S) (w : World S)
      → ((v : ℤ) → IsAnswered json result w (rest v w))
      → IsAnswered json result w (parse_level json mapping d result rest w)
  unfolding parse_level
  parse_level-IsAnswered mapping (string s) rest w h =
      elim (mapping s)
        as (λ o. IsAnswered json result w (elim o [
          | some level ↦ rest level w
          | none ↦ fail json (String.◌++◌ "invalid log level: " s) result w
        ])) [ some level ↦ h level | none ↦ fail-IsAnswered _ w.state w ]
  parse_level-IsAnswered mapping (float64 v) rest w h = h v
  parse_level-IsAnswered mapping (int v) rest w h = h v
  parse_level-IsAnswered mapping (bool v) rest w h = fail-IsAnswered _ w.state w
  parse_level-IsAnswered mapping other rest w h = fail-IsAnswered _ w.state w

  pub decoded-IsAnswered :
      {A : Type 0} (o : Outcome A) (rest : A → World S → World S) (s : S) (w : World S)
      → ((a : A) → IsAnswered json result w (rest a (record w { state = s })))
      → IsAnswered json result w (decoded json o result rest (record w { state = s }))
  unfolding decoded
  decoded-IsAnswered (ok a) rest s w h = h a
  decoded-IsAnswered (err why) rest s w h = fail-IsAnswered why s w

  pub returned-IsAnswered :
      {A : Type 0} (value : A → Value V) (r : S × A) (w : World S)
      → IsAnswered json result w (returned json value result r w)
  unfolding returned
  returned-IsAnswered value (s, a) w = success-IsAnswered (value a) s w

  pub done-IsAnswered : (s : S) (w : World S) → IsAnswered json result w (done json result s w)
  unfolding done
  done-IsAnswered s w = success-IsAnswered (flag true) s w

  pub called-IsAnswered :
      (r : S × String) (w : World S) → IsAnswered json result w (called json result r w)
  unfolding called action_callback
  called-IsAnswered (s, value) w =
      elim (value == "")
        as (λ b. IsAnswered json result w (
          (if b then success json (plain "") result else fail json value result)
            (record w { state = s }))) [
              | true ↦ success-IsAnswered (plain "") s w
              | false ↦ fail-IsAnswered value s w
            ]

  pub report-IsAnswered :
      (r : S × Option String) (w : World S) → IsAnswered json result w (report json result r w)
  unfolding report
  report-IsAnswered (s, none) w = success-IsAnswered (plain "") s w
  report-IsAnswered (s, some why) w = fail-IsAnswered why s w

  pub del_file-IsAnswered :
      (os : Os S) (path : String) (w : World S)
      → IsAnswered json result w (del_file json os path result w)
  unfolding del_file
  del_file-IsAnswered os path w =
      elim (os.stat path w.state)
        as (λ i. IsAnswered json result w (elim i [
          | missing ↦ success json (plain "") result w
          | unreadable why ↦ fail json why result w
          | directory ↦ report json result (os.remove_all path w.state) w
          | file ↦ report json result (os.remove path w.state) w
        ])) [
          | missing ↦ success-IsAnswered (plain "") w.state w
          | unreadable why ↦ fail-IsAnswered why w.state w
          | directory ↦ report-IsAnswered (os.remove_all path w.state) w
          | file ↦ report-IsAnswered (os.remove path w.state) w
        ]
