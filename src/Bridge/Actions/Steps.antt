-- ===== src/Bridge/Actions/Steps.antt =====
-- The steps that the cases of `handleAction` are made of. A step that can end the action takes what
-- follows it as an argument, and does not run it after an error.
use Prim.Native.String.{◌++◌}
use libmihomo_android.Base.{Outcome, ok, err, Option, none, some, String, ℤ, true}
use libmihomo_android.Bridge.Reply.{
  ActionResult, World, Value, success, fail, action_callback, flag,
}
use libmihomo_android.Bridge.Host.{Data, string, float64, int}

module _ {S V : Type 0} (json : ActionResult V → Option String) where
  -- `parseStringData` with its caller's `if !ok { return }`.
  unfoldable pub parse_string :
      Data → ActionResult V → (String → World S → World S) → World S → World S
  unfolding fail
  parse_string (string s) result rest w = rest s w
  parse_string _ result rest w = fail json "invalid data type" result w

  -- `parseLogLevelData` with its caller's `if !ok { return }`.
  unfoldable pub parse_level :
      (String → Option ℤ) → Data → ActionResult V → (ℤ → World S → World S) → World S → World S
  unfolding fail
  parse_level mapping (float64 v) result rest w = rest v w
  parse_level mapping (int v) result rest w = rest v w
  parse_level mapping (string v) result rest w = elim (mapping v) [
    | some level ↦ rest level w
    | none ↦ fail json ("invalid log level: " ++ v) result w
  ]
  parse_level mapping _ result rest w = fail json "invalid data type" result w

  -- A value, or an error that is replied at once.
  unfoldable pub decoded :
      {A : Type 0} → Outcome A → ActionResult V → (A → World S → World S) → World S → World S
  unfolding fail
  decoded (ok a) result rest w = rest a w
  decoded (err why) result rest w = fail json why result w

  -- Success with what a handler returns, in the state that it leaves.
  unfoldable pub returned :
      {A : Type 0} → (A → Value V) → ActionResult V → S × A → World S → World S
  unfolding success
  returned value result (s, a) w = success json (value a) result (record w { state = s })

  -- Success with `true` after a handler that returns nothing.
  unfoldable pub done : ActionResult V → S → World S → World S
  unfolding success
  done result s w = success json (flag true) result (record w { state = s })

  -- `actionCallback` with the value of a handler.
  unfoldable pub called : ActionResult V → S × String → World S → World S
  unfolding action_callback
  called result (s, value) w = action_callback json result value (record w { state = s })
