-- ===== src/GroupTest/Order/Ends.antt =====
-- `visit` ends: on a finite set of groups the depth is at most their number.
use libmihomo_android.Base.{
  ℕ, zero, suc, ◌-◌, ◌≤◌, ◌<◌, String, List, ◌≡◌, true, some, contains, arith, unseen,
  unseen-cons_lt, unseen-nil, length, Bool-cases, inl, inr, fold_m-total,
}
use libmihomo_android.GroupTest.Order.{Walk, mark, emit, empty, visit, order}
use libmihomo_android.GroupTest.Order.Visit.{visit-seen, visit-new}

module _ (children : String → List String) (known : List String)
    (closed : (x c : String)
      → contains known x ≡ true
      → contains (children x) c ≡ true
      → contains known c ≡ true) where
  visit-total :
      (fuel k : ℕ) (n : String) (s : Walk)
      → contains known n ≡ true
      → k < fuel
      → unseen known s.seen ≤ k
      → (t : Walk) × (visit children fuel n s ≡ some t) × (unseen known t.seen ≤ k)
  visit-total zero k n s h lt le = absurd (omega arith)
  visit-total (suc fuel) k n s h lt le = elim (Bool-cases (contains s.seen n)) [
    | inl old ↦ (s, visit-seen children fuel n s old, le)
    | inr new ↦
        let falls = unseen-cons_lt known s.seen n h new in
        let (u, e, q) =
          fold_m-total (λ (t : Walk). unseen known t.seen ≤ k - 1) (visit children fuel)
            (children n)
            (λ c t hc q. visit-total fuel (k - 1) c t (closed n c h hc) (omega arith) q) (mark n s)
            (omega arith) in
        (emit n u, rw (visit-new children fuel n s new, e), omega arith)
  ]

  -- On a finite set `known` of groups that holds the roots and the children of its members, `Order`
  -- returns: calls nest at most one deeper than `known` has names, cycles or not.
  pub order-total :
      (roots : List String)
      → ((r : String) → contains roots r ≡ true → contains known r ≡ true)
      → (out : List String) × (order children (suc (length known)) roots ≡ some out)
  unfolding order
  order-total roots ok =
      let (t, e, q) =
        fold_m-total (λ (t : Walk). unseen known t.seen ≤ length known)
          (visit children (suc (length known))) roots
          (λ c t hc q.
            visit-total (suc (length known)) (length known) c t (ok c hc) (omega arith) q)
          empty (unseen-nil known) in
      (t.out, rw e)
