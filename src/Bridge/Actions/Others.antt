-- ===== src/Bridge/Actions/Others.antt =====
-- What an action does to the references other than that to its callback.
use libmihomo_android.Base.{
  Outcome, ok, err, ℕ, ◌+◌, String, ◌≡◌, refl, ap, ◌∙◌, pos, [], ◌∷◌, Option, none, some, true,
  false, eqb, if◌then◌else◌, Bool-cases, eqb_iff, inl, inr,
}
use mathlib.Core.Path.{subst}
use native.Mathlib.Omega.{arith}
use libmihomo_android.Bridge.Method.{Method, method_of}
use libmihomo_android.Bridge.Reply.{
  invoked, released, ActionResult, World, sent, invoke_events, release_events, is_message, null,
}
use libmihomo_android.Bridge.Host.{Json, Os, Handlers}
use libmihomo_android.Bridge.Actions.Entry.{Action, invoke_action}
use libmihomo_android.Bridge.Actions.Replies.{answered}
use libmihomo_android.Bridge.Actions.Answers.{handle_action-IsAnswered}
use libmihomo_android.Bridge.Actions.Balance.{
  is_release, total, total-append, owed, eqb_refl, invoke_action-releases,
}

other_times :
    (c cb : ℕ) (m : Method) → eqb cb c ≡ false → total (is_release c) (release_events m cb) ≡ 0
unfolding release_events total is_release
other_times c cb m e =
    elim (is_message m) as (λ b. total (is_release c) (if b then [] else released cb ∷ []) ≡ 0) [
      | true ↦ refl
      | false ↦ ap (λ b. (if b then 1 else 0) + 0) e
    ]

not_released : (c cb : ℕ) (o : Option String) → total (is_release c) (invoke_events cb o) ≡ 0
unfolding total invoke_events is_release
not_released c cb none = refl
not_released c cb (some s) = refl

other-sent :
    {V : Type 0} (json : ActionResult V → Option String) (r : ActionResult V) (c : ℕ)
    → eqb r.callback c ≡ false
    → total (is_release c) (sent json r) ≡ 0
unfolding sent
other-sent json r c e = omega (
  arith,
  total-append (is_release c) (invoke_events r.callback (json r))
      (release_events r.method r.callback),
  not_released c r.callback (json r),
  other_times c r.callback r.method e,
)

-- How many releases of a reference the host gets for an action with a callback.
abbrev pub owed_of : ℕ → ℕ → Outcome Action → ℕ
owed_of c cb d = if eqb cb c then owed d else 0

module _ {S V : Type 0} (json : Json V) (os : Os S) (h : Handlers S V) (c cb : ℕ)
    (w : World S) where
  invoke_action-other :
      (d : Outcome Action)
      → eqb cb c ≡ false
      → total (is_release c) (invoke_action json os h cb d w).events ≡ total (is_release c) w.events
  unfolding invoke_action total is_release
  invoke_action-other (err why) e =
      omega (arith, total-append (is_release c) w.events (invoked cb why ∷ []))
  invoke_action-other (ok a) e =
      elim (handle_action-IsAnswered json os h
        (record {
          id = a.id;
          method = method_of a.method;
          data_ = null;
          code = pos 0;
          callback = cb;
        })
        (method_of a.method) a.data_ w) [
          | answered v code same ↦
              ap (total (is_release c)) same
              ∙ total-append (is_release c) w.events _
              ∙ omega (arith, other-sent json.marshal _ c e)
        ]

  -- The releases of any reference after what the host sends with a callback.
  pub invoke_action-releases_of :
      (d : Outcome Action)
      → total (is_release c) (invoke_action json os h cb d w).events
        ≡ owed_of c cb d + total (is_release c) w.events
  invoke_action-releases_of d = elim (Bool-cases (eqb cb c)) [
    | inl e ↦
        let same : cb ≡ c = (eqb_iff cb c).0 e in
        subst
          (λ x.
            total (is_release x) (invoke_action json os h cb d w).events
            ≡ owed_of x cb d + total (is_release x) w.events)
          same (rw (eqb_refl cb) (invoke_action-releases json os h cb w d))
    | inr e ↦ rw e (omega (arith, invoke_action-other d e))
  ]
