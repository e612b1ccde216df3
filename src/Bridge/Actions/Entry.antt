-- ===== src/Bridge/Actions/Entry.antt =====
-- `Action` of action.go and `invokeAction` of lib.go.
use libmihomo_android.Base.{Outcome, ok, err, ℕ, String, [], ◌∷◌, ◌++◌, pos}
use libmihomo_android.Bridge.Method.{method_of}
use libmihomo_android.Bridge.Reply.{invoked, World, null}
use libmihomo_android.Bridge.Host.{Data, Json, Os, Handlers}
use libmihomo_android.Bridge.Actions.{handle_action}

pub record Action : Type 0 where
  pub id : String
  pub method : String
  pub data_ : Data

-- The goroutine of `handleAction` runs here to its end.
unfoldable pub invoke_action :
    {S V : Type 0} → Json V → Os S → Handlers S V → ℕ → Outcome Action → World S → World S
unfolding handle_action
invoke_action json os h callback (err why) w = record w {
  events = w.events ++ (invoked callback why ∷ []);
}
invoke_action json os h callback (ok action) w =
    let method = method_of action.method in
    handle_action json os h method action.data_
      (record { id = action.id; method = method; data_ = null; code = pos 0; callback = callback })
      w
