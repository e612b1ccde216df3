-- ===== src/GroupTest/Order/Correct.antt =====
-- What `Order` returns.
use libmihomo_android.Base.{
  ◌↔◌, ℕ, zero, suc, String, List, ◌≡◌, true, some, contains, arith, Bool-cases, ◌⊎◌, inl, inr,
  fold_m-keeps, IsNodup, >>=-eq-some, fold_m, eq_iff, ◌==◌, contains-concat,
}
use mathlib.Core.Option.{some-injective}
use mathlib.Core.Path.{subst, sym, ◌∙◌}
use libmihomo_android.GroupTest.Order.{Walk, mark, emit, empty, visit, order}
use libmihomo_android.GroupTest.Order.Visit.{visit-seen, visit-new}
use libmihomo_android.GroupTest.Order.Path.{Reach, here, down, before}
use libmihomo_android.GroupTest.Order.Visit.{IsWalk, Visited, fold_m-Effect, visit-Effect}

module _ (children : String → List String) where
  -- What is closed under children and holds of the name visited holds of all that is emitted.
  module _ {ℓ} (P : String → Type ℓ)
      (closed : (x c : String) → P x → contains (children x) c ≡ true → P c) where
    abbrev AllOut : Walk → Type ℓ
    AllOut s = (x : String) → contains s.out x ≡ true → P x

    emitted : {n : String} (u : Walk) → P n → AllOut u → AllOut (emit n u)
    emitted {n} u p a x h = elim (Bool-cases (n == x)) [
      | inl e ↦ subst P ((eq_iff n x).0 e) p
      | inr e ↦ a x (ground (arith, contains-concat u.out n x))
    ]

    visit-AllOut :
        (fuel : ℕ) (n : String) (s t : Walk)
        → P n
        → AllOut s
        → visit children fuel n s ≡ some t
        → AllOut t
    unfolding visit
    visit-AllOut zero n s t p a e = cc
    visit-AllOut (suc fuel) n s t p a e = elim (Bool-cases (contains s.seen n)) [
      | inl old ↦ subst AllOut (some-injective s t (sym (visit-seen children fuel n s old) ∙ e)) a
      | inr new ↦
          let (u, e1, e2) =
            >>=-eq-some (fold_m (visit children fuel) (children n) (mark n s))
              (λ t. some (emit n t)) (sym (visit-new children fuel n s new) ∙ e) in
          let au : AllOut u =
            fold_m-keeps AllOut (visit children fuel) (children n)
              (λ c a b h q r. visit-AllOut fuel c a b (closed n c p h) q r) (mark n s) u a e1 in
          subst AllOut (some-injective (emit n u) t e2) (emitted u p au)
    ]

  -- `x` is a root, or stands below one.
  abbrev pub Below : List String → String → Type 0
  Below roots x = (r : String) × (contains roots r ≡ true) × Reach children r x

  record Ended (roots out : List String) : Type 0 where
    final : Walk
    walk : IsWalk children final
    visited : Visited children roots empty final
    sound : (x : String) → contains final.out x ≡ true → Below roots x
    result : final.out ≡ out

  IsWalk-empty : IsWalk children empty
  IsWalk-empty = record {
    marked = λ x h. cc;
    once = tt;
    closed = λ n c h k. cc;
    first = λ n c h k. cc;
  }

  order-Ended :
      (fuel : ℕ) (roots out : List String) → order children fuel roots ≡ some out → Ended roots out
  unfolding order
  order-Ended fuel roots out e =
      let (t, e1, e2) =
        >>=-eq-some (fold_m (visit children fuel) roots empty) (λ s. some s.out) e in
      let (w, v) =
        fold_m-Effect children (visit children fuel) (visit-Effect children fuel) roots empty t
          IsWalk-empty (λ c h x k. cc) e1 in
      record {
        final = t;
        walk = w;
        visited = v;
        sound =
            fold_m-keeps (AllOut (Below roots) below_child) (visit children fuel) roots
              (λ n a b h q r. visit-AllOut (Below roots) below_child fuel n a b (n, h, here) q r)
              empty t (λ x h. cc) e1;
        result = some-injective t.out out e2;
      }
    where
      below_child : (x c : String) → Below roots x → contains (children x) c ≡ true → Below roots c
      below_child x c (r, h, p) k = (r, h, down p k)

  module _ (fuel : ℕ) (roots out : List String) (ran : order children fuel roots ≡ some out) where
    ended : Ended roots out
    ended = order-Ended fuel roots out ran

    -- No group stands twice in the order.
    pub order-IsNodup : IsNodup out
    order-IsNodup = subst IsNodup ended.result ended.walk.once

    seen_is_out :
        (x : String) → contains ended.final.seen x ≡ true → contains ended.final.out x ≡ true
    seen_is_out x h = elim (Bool-cases (contains ended.final.out x)) [
      | inl e ↦ e
      | inr e ↦ cc (ended.visited.pending x h e)
    ]

    listed :
        {r x : String}
        → contains roots r ≡ true
        → Reach children r x
        → contains ended.final.out x ≡ true
    listed {r} h here = seen_is_out r (ended.visited.done r h)
    listed h (down {b} {c} p k) = seen_is_out c (ended.walk.closed b c (listed h p) k)

    -- The order holds exactly the groups that are roots or stand below a root.
    pub contains-order : (x : String) → (contains out x ≡ true) ↔ Below roots x
    contains-order x =
        (λ h. ended.sound x (rw ended.result h), λ (r, h, p). rw (← ended.result) (listed h p))

    -- A child of a group stands before it, unless the two are on a cycle.
    pub order-children_first :
        (n c : String)
        → contains out n ≡ true
        → contains (children n) c ≡ true
        → (contains (before n out) c ≡ true) ⊎ Reach children c n
    order-children_first n c h k = rw (← ended.result) (ended.walk.first n c (rw ended.result h) k)
