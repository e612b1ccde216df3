-- ===== src/Bridge/Reply.antt =====
-- What a reply of action.go and lib.go does to the callback of its action: `ActionResult` and `send`.
use libmihomo_android.Base.{
  ℕ, List, [], ◌∷◌, ◌++◌, Option, none, some, String, ℤ, pos, negsuc, Bool, true, false, ◌==◌,
  if◌then◌else◌,
}
use libmihomo_android.Bridge.Method.{Method, message}

-- What the C side is asked to do with a JNI global reference.
pub data Event : Type 0 where
  invoked : (callback : ℕ) → String → Event
  released : (callback : ℕ) → Event

-- The data of a reply: what a handler returns. `object` is any other value that is given to the encoder.
pub data Value (V : Type 0) : Type 0 where
  plain : String → Value V
  flag : Bool → Value V
  number : ℤ → Value V
  object : V → Value V
  null : Value V

pub record ActionResult (V : Type 0) : Type 0 where
  pub id : String
  pub method : Method
  pub data_ : Value V
  pub code : ℤ
  pub callback : ℕ

-- The state of the program, and the events so far.
pub record World (S : Type 0) : Type 0 where
  pub state : S
  pub events : List Event

-- Whether a method is that of the listener's messages, which send no release.
unfoldable pub is_message : Method → Bool
is_message message = true
is_message _ = false

-- The events of the deferred `releaseObject`.
unfoldable pub release_events : Method → ℕ → List Event
unfolding is_message
release_events method callback = if is_message method then [] else released callback ∷ []

unfoldable pub invoke_events : ℕ → Option String → List Event
invoke_events callback none = []
invoke_events callback (some data_) = invoked callback data_ ∷ []

-- The events of `send`: the encoder may fail, and the reference is released all the same.
unfoldable pub sent : {V : Type 0} → (ActionResult V → Option String) → ActionResult V → List Event
unfolding release_events invoke_events
sent json result =
    invoke_events result.callback (json result) ++ release_events result.method result.callback

module _ {S V : Type 0} (json : ActionResult V → Option String) where
  unfoldable pub send : ActionResult V → World S → World S
  unfolding sent
  send result w = record w { events = w.events ++ sent json result }

  unfoldable pub success : Value V → ActionResult V → World S → World S
  unfolding send
  success v result = send (record result { code = pos 0; data_ = v })

  -- `error`
  unfoldable pub fail : String → ActionResult V → World S → World S
  unfolding send
  fail why result = send (record result { code = negsuc 0; data_ = plain why })

  -- `actionCallback`: the empty string is success.
  unfoldable pub action_callback : ActionResult V → String → World S → World S
  unfolding success fail
  action_callback result value =
      if value == "" then success (plain "") result else fail value result
