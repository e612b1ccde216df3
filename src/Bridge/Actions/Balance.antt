-- ===== src/Bridge/Actions/Balance.antt =====
-- What an action does to the reference to its callback: how often it is called and released.
use libmihomo_android.Base.{
  Outcome, ok, err, ℕ, suc, ◌+◌, String, ◌≡◌, refl, ap, ◌∙◌, sym, pos, List, [], ◌∷◌, ◌++◌, Option,
  none, some, Bool, true, false, eqb, if◌then◌else◌,
}
use mathlib.Core.Path.{subst}
use native.Mathlib.Omega.{arith}
use libmihomo_android.Bridge.Method.{Method, method_of}
use libmihomo_android.Bridge.Reply.{
  Event, invoked, released, ActionResult, World, sent, invoke_events, release_events, is_message,
  null,
}
use libmihomo_android.Bridge.Host.{Json, Os, Handlers}
use libmihomo_android.Bridge.Actions.Entry.{Action, invoke_action}
use libmihomo_android.Bridge.Actions.Replies.{answered}
use libmihomo_android.Bridge.Actions.Answers.{handle_action-IsAnswered}

unfoldable pub is_release : ℕ → Event → ℕ
is_release callback (invoked c s) = 0
is_release callback (released c) = if eqb c callback then 1 else 0

unfoldable pub is_call : ℕ → Event → ℕ
is_call callback (invoked c s) = if eqb c callback then 1 else 0
is_call callback (released c) = 0

-- How many of the events are of a kind.
unfoldable pub total : (Event → ℕ) → List Event → ℕ
total f [] = 0
total f (e ∷ es) = f e + total f es

pub total-append :
    (f : Event → ℕ) (es fs : List Event) → total f (es ++ fs) ≡ total f es + total f fs
unfolding total
total-append f [] fs = omega arith
total-append f (e ∷ es) fs = omega (arith, total-append f es fs)

-- How many releases the host gets for what it sent: none for data that is no action, and none for an
-- action that names the method of the listener's messages.
unfoldable pub owed : Outcome Action → ℕ
unfolding is_message method_of
owed (err why) = 0
owed (ok action) = if is_message (method_of action.method) then 0 else 1

pub eqb_refl : (n : ℕ) → eqb n n ≡ true
eqb_refl n = ground arith

one : (b : Bool) → b ≡ true → (if b then 1 else 0) + 0 ≡ 1
one true e = refl
one false e = cc

released_times :
    (cb : ℕ) (m : Method)
    → total (is_release cb) (release_events m cb) ≡ (if is_message m then 0 else 1)
unfolding release_events total is_release
released_times cb m =
    elim (is_message m)
      as (λ b. total (is_release cb) (if b then [] else released cb ∷ []) ≡ (if b then 0 else 1)) [
        | true ↦ refl
        | false ↦ one (eqb cb cb) (eqb_refl cb)
      ]

called_times : (cb : ℕ) (m : Method) → total (is_call cb) (release_events m cb) ≡ 0
unfolding release_events total is_call
called_times cb m =
    elim (is_message m) as (λ b. total (is_call cb) (if b then [] else released cb ∷ []) ≡ 0) [
      | true ↦ refl
      | false ↦ refl
    ]

never_released : (cb : ℕ) (o : Option String) → total (is_release cb) (invoke_events cb o) ≡ 0
unfolding total invoke_events is_release
never_released cb none = refl
never_released cb (some s) = refl

called_once : (cb : ℕ) (s : String) → total (is_call cb) (invoke_events cb (some s)) ≡ 1
unfolding total invoke_events is_call
called_once cb s = one (eqb cb cb) (eqb_refl cb)

module _ {V : Type 0} (json : ActionResult V → Option String) (r : ActionResult V) where
  released-sent :
      total (is_release r.callback) (sent json r) ≡ (if is_message r.method then 0 else 1)
  unfolding sent
  released-sent = omega (
    arith,
    total-append (is_release r.callback) (invoke_events r.callback (json r))
        (release_events r.method r.callback),
    never_released r.callback (json r),
    released_times r.callback r.method,
  )

  called-sent : (s : String) → json r ≡ some s → total (is_call r.callback) (sent json r) ≡ 1
  unfolding sent
  called-sent s e =
      subst
        (λ o.
          total (is_call r.callback)
            (invoke_events r.callback o ++ release_events r.method r.callback)
          ≡ 1)
        (sym e)
        (omega (
          arith,
          total-append (is_call r.callback) (invoke_events r.callback (some s))
              (release_events r.method r.callback),
          called_once r.callback s,
          called_times r.callback r.method,
        ))

module _ {S V : Type 0} (json : Json V) (os : Os S) (h : Handlers S V) (cb : ℕ) (w : World S) where
  -- Whatever the host sends, and whatever the handlers do, the reference to the callback is released once,
  -- except that data which is no action, and an action that names the method of the listener's messages,
  -- release it not at all.
  pub invoke_action-releases :
      (d : Outcome Action)
      → total (is_release cb) (invoke_action json os h cb d w).events
        ≡ owed d + total (is_release cb) w.events
  unfolding invoke_action owed total is_release
  invoke_action-releases (err why) =
      omega (arith, total-append (is_release cb) w.events (invoked cb why ∷ []))
  invoke_action-releases (ok a) =
      elim (handle_action-IsAnswered json os h
        (record {
          id = a.id;
          method = method_of a.method;
          data_ = null;
          code = pos 0;
          callback = cb;
        })
        (method_of a.method) a.data_ w) [
          | answered v code e ↦
              ap (total (is_release cb)) e
              ∙ total-append (is_release cb) w.events _
              ∙ omega (arith, released-sent json.marshal _)
        ]

  -- Where the encoder takes every result, whatever the host sends has its callback called once.
  pub invoke_action-calls :
      ((r : ActionResult V) → (s : String) × (json.marshal r ≡ some s))
      → (d : Outcome Action)
      → total (is_call cb) (invoke_action json os h cb d w).events
        ≡ suc (total (is_call cb) w.events)
  unfolding invoke_action total is_call
  invoke_action-calls encodes (err why) = omega (
    arith,
    total-append (is_call cb) w.events (invoked cb why ∷ []),
    one (eqb cb cb) (eqb_refl cb),
  )
  invoke_action-calls encodes (ok a) =
      elim (handle_action-IsAnswered json os h
        (record {
          id = a.id;
          method = method_of a.method;
          data_ = null;
          code = pos 0;
          callback = cb;
        })
        (method_of a.method) a.data_ w) [
          | answered v code e ↦
              let r : ActionResult V = record {
                id = a.id;
                method = method_of a.method;
                data_ = v;
                code = code;
                callback = cb;
              } in
              let (s, made) = encodes r in
              ap (total (is_call cb)) e
              ∙ total-append (is_call cb) w.events _
              ∙ omega (arith, called-sent json.marshal r s made)
        ]
