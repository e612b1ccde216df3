-- ===== src/GroupTest/Order/Visit.antt =====
-- What a call of `visit` does to `seen` and `out`, on any graph, cycles included.
use libmihomo_android.Base.{
  ℕ, zero, suc, String, List, [], ◌∷◌, ◌++◌, ◌≡◌, ◌⊎◌, inl, inr, true, false, Option, some, ◌>>=◌,
  contains, arith, ◌==◌, eq_iff, ==_refl, fold_m, >>=-eq-some, IsNodup, IsNodup-concat,
  contains-append, contains-concat, Bool-cases,
}
use mathlib.Core.List.{append_assoc, append-nil}
use mathlib.Core.Option.{some-injective}
use mathlib.Core.Path.{subst, sym, ◌∙◌}
use libmihomo_android.GroupTest.Order.{Walk, mark, emit, visit}
use libmihomo_android.GroupTest.Order.Path.{
  Reach, here, down, before, before-append, before-concat_self,
}

module _ (children : String → List String) where
  -- What holds of `seen` and `out` between calls.
  pub record IsWalk (s : Walk) : Type 0 where
    pub marked : (x : String) → contains s.out x ≡ true → contains s.seen x ≡ true
    pub once : IsNodup s.out
    pub closed :
        (n c : String)
        → contains s.out n ≡ true
        → contains (children n) c ≡ true
        → contains s.seen c ≡ true
    pub first :
        (n c : String)
        → contains s.out n ≡ true
        → contains (children n) c ≡ true
        → (contains (before n s.out) c ≡ true) ⊎ Reach children c n

  -- The calls that have not returned are those of groups above `name`.
  abbrev pub IsBelow : Walk → String → Type 0
  IsBelow s name =
      (x : String) → contains s.seen x ≡ true → contains s.out x ≡ false → Reach children x name

  -- From `s` to `t` the groups `names` were visited.
  pub record Visited (names : List String) (s t : Walk) : Type 0 where
    pub more : List String
    pub grown : t.out ≡ s.out ++ more
    pub fresh : (x : String) → contains more x ≡ true → contains s.seen x ≡ false
    pub kept : (x : String) → contains s.seen x ≡ true → contains t.seen x ≡ true
    pub pending :
        (x : String)
        → contains t.seen x ≡ true
        → contains t.out x ≡ false
        → contains s.seen x ≡ true
    pub done : (x : String) → contains names x ≡ true → contains t.seen x ≡ true

  abbrev pub Effect : List String → Walk → Walk → Type 0
  Effect names s t = IsWalk t × Visited names s t

  Visited-nil : (s : Walk) → Visited [] s s
  Visited-nil s = record {
    more = [];
    grown = rw append-nil;
    fresh = λ x h. cc;
    kept = λ x h. h;
    pending = λ x h k. h;
    done = λ x h. cc;
  }

  Visited-old : {n : String} {s : Walk} → contains s.seen n ≡ true → Visited (n ∷ []) s s
  Visited-old {n} {s} old = record {
    more = [];
    grown = rw append-nil;
    fresh = λ x h. cc;
    kept = λ x h. h;
    pending = λ x h k. h;
    done = λ x h. ground (arith, eq_iff n x);
  }

  Visited-cons :
      {n : String} {ns : List String} {s t u : Walk}
      → IsWalk t
      → Visited (n ∷ []) s t
      → Visited ns t u
      → Visited (n ∷ ns) s u
  Visited-cons {n} {ns} {s} {t} {u} ok v w = record {
    more = v.more ++ w.more;
    grown = rw (w.grown, v.grown, append_assoc);
    fresh = λ x h. ground (arith, contains-append v.more w.more x, v.fresh x, w.fresh x, v.kept x);
    kept = λ x h. w.kept x (v.kept x h);
    pending = λ x h k. v.pending x (w.pending x h k) (out_of_t x k);
    done = λ x h. ground (arith, v.done x, w.done x, w.kept x);
  }
    where
      out_of_t : (x : String) → contains u.out x ≡ false → contains t.out x ≡ false
      out_of_t x k = ground (arith, w.grown, contains-append t.out w.more x)

  IsBelow-Visited :
      {ns : List String} {s t : Walk} {c : String} → Visited ns s t → IsBelow s c → IsBelow t c
  IsBelow-Visited {s} {t} v b x h k =
      b x (v.pending x h k) (ground (arith, v.grown, contains-append s.out v.more x))

  abbrev Visits : (String → Walk → Option Walk) → Type 0
  Visits step =
      (n : String) (s t : Walk) → IsWalk s → IsBelow s n → step n s ≡ some t → Effect (n ∷ []) s t

  -- The loop over the children, or over the roots.
  pub fold_m-Effect :
      (step : String → Walk → Option Walk)
      → Visits step
      → (ns : List String) (s t : Walk) → IsWalk s
      → ((c : String) → contains ns c ≡ true → IsBelow s c)
      → fold_m step ns s ≡ some t
      → Effect ns s t
  unfolding fold_m
  fold_m-Effect step ok [] s t w b e = subst (Effect [] s) (some-injective s t e) (w, Visited-nil s)
  fold_m-Effect step ok (n ∷ ns) s t w b e =
      let (u, e1, e2) = >>=-eq-some (step n s) (fold_m step ns) e in
      let (wu, vu) = ok n s u w (b n (ground (arith, ==_refl n))) e1 in
      let (wt, vt) =
        fold_m-Effect step ok ns u t wu (λ c h. IsBelow-Visited vu (b c (ground arith))) e2 in
      (wt, Visited-cons wu vu vt)

  -- The last step of a call: `name` goes behind its children.
  module _ {name : String} {s : Walk} (w : IsWalk s) (b : IsBelow s name)
      (new : contains s.seen name ≡ false) where
    IsWalk-mark : IsWalk (mark name s)
    IsWalk-mark = record {
      marked = λ x h. ground (arith, w.marked x);
      once = w.once;
      closed = λ n c h k. ground (arith, w.closed n c);
      first = w.first;
    }

    IsBelow-mark : (c : String) → contains (children name) c ≡ true → IsBelow (mark name s) c
    IsBelow-mark c h x m k = elim (Bool-cases (name == x)) [
      | inl e ↦ rw (← (eq_iff name x).0 e) (down here h)
      | inr e ↦ down (b x (ground arith) k) h
    ]

    module _ {u : Walk} (wu : IsWalk u) (v : Visited (children name) (mark name s) u) where
      not_out : contains u.out name ≡ false
      not_out = ground (
        arith,
        v.grown,
        contains-append s.out v.more name,
        v.fresh name,
        w.marked name,
        ==_refl name,
      )

      -- A child that is not out yet waits above `name`: a cycle.
      child_out :
          (c : String)
          → contains (children name) c ≡ true
          → (contains u.out c ≡ true) ⊎ Reach children c name
      child_out c h = elim (Bool-cases (contains u.out c)) [
        | inl old ↦ inl old
        | inr pending ↦ elim (Bool-cases (name == c)) [
          | inl e ↦ inr (rw (← (eq_iff name c).0 e) here)
          | inr e ↦ inr (
              b c (ground (arith, v.pending c, v.done c))
                (ground (arith, v.grown, contains-append s.out v.more c)))
        ]
      ]

      IsWalk-emit : IsWalk (emit name u)
      IsWalk-emit = record {
        marked = λ x h.
            ground (arith, contains-concat u.out name x, wu.marked x, v.kept x, eq_iff name x);
        once = IsNodup-concat u.out name wu.once not_out;
        closed = λ n c h k.
            ground (arith, contains-concat u.out name n, wu.closed n c, v.done c, eq_iff name n);
        first = λ n c h k. elim (Bool-cases (name == n)) [
          | inl e ↦
              let p = (eq_iff name n).0 e in
              rw (← p, before-concat_self name u.out not_out) (child_out c (rw p k))
          | inr e ↦
              let old : contains u.out n ≡ true = ground (arith, contains-concat u.out name n) in
              rw (before-append n u.out (name ∷ []) old) (wu.first n c old k)
        ];
      }

      Visited-emit : Visited (name ∷ []) s (emit name u)
      Visited-emit = record {
        more = v.more ++ (name ∷ []);
        grown = rw (v.grown, append_assoc);
        fresh = λ x h. ground (arith, contains-concat v.more name x, v.fresh x, eq_iff name x);
        kept = λ x h. ground (arith, v.kept x);
        pending = λ x h k. ground (arith, contains-concat u.out name x, v.pending x);
        done = λ x h. ground (arith, v.kept x, eq_iff name x);
      }

  pub visit-seen :
      (fuel : ℕ) (n : String) (s : Walk)
      → contains s.seen n ≡ true
      → visit children (suc fuel) n s ≡ some s
  unfolding visit
  visit-seen fuel n s h = rw h

  pub visit-new :
      (fuel : ℕ) (n : String) (s : Walk)
      → contains s.seen n ≡ false
      → visit children (suc fuel) n s
        ≡ (fold_m (visit children fuel) (children n) (mark n s) >>= λ t. some (emit n t))
  unfolding visit
  visit-new fuel n s h = rw h

  -- A call of `visit` keeps the invariant and has the effect described, whatever the graph.
  pub visit-Effect : (fuel : ℕ) → Visits (visit children fuel)
  unfolding visit
  visit-Effect zero n s t w b e = cc
  visit-Effect (suc fuel) n s t w b e = elim (Bool-cases (contains s.seen n)) [
    | inl old ↦
        subst (Effect (n ∷ []) s) (some-injective s t (sym (visit-seen fuel n s old) ∙ e))
          (w, Visited-old old)
    | inr new ↦
        let (u, e1, e2) =
          >>=-eq-some (fold_m (visit children fuel) (children n) (mark n s)) (λ t. some (emit n t))
            (sym (visit-new fuel n s new) ∙ e) in
        let (wu, v) =
          fold_m-Effect (visit children fuel) (visit-Effect fuel) (children n) (mark n s) u
            (IsWalk-mark w b new) (IsBelow-mark w b new) e1 in
        subst (Effect (n ∷ []) s) (some-injective (emit n u) t e2)
          (IsWalk-emit w b new wu v, Visited-emit w b new wu v)
  ]
