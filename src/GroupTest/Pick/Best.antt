-- ===== src/GroupTest/Pick/Best.antt =====
-- `Fastest` picks the first of the fastest members, and `Seat` leaves it in place.
use libmihomo_android.Base.{
  Bool, ap, String, ◌==◌, List, [], ◌∷◌, ◌++◌, ◌≡◌, refl, ◌≢◌, true, false, ◌⊎◌, inl, inr, ◌∙◌, sym,
  if◌then◌else◌, contains, ℤ, pos, ltb_ℤ, arith, eq_iff, contains-concat, Bool-cases, ==_refl,
}
use mathlib.Core.List.{append_assoc, append-nil}
use libmihomo_android.GroupTest.Order.Path.{before, before-append, before-concat_self}
use libmihomo_android.GroupTest.Pick.{improves, fastest_from, fastest, Seater, seat}

module _ (delays : String → ℤ) where
  abbrev pub Works : String → Type 0
  Works m = ltb_ℤ (pos 0) (delays m) ≡ true

  -- `best` is a working member of `xs`, no member is faster, and those before it are slower.
  pub record IsFastest (xs : List String) (best : String) : Type 0 where
    pub member : contains xs best ≡ true
    pub works : Works best
    pub least :
        (m : String) → contains xs m ≡ true → Works m → ltb_ℤ (delays m) (delays best) ≡ false
    pub earliest :
        (m : String)
        → contains (before best xs) m ≡ true
        → Works m
        → ltb_ℤ (delays best) (delays m) ≡ true

  abbrev pub NoneWorks : List String → Type 0
  NoneWorks xs = (m : String) → contains xs m ≡ true → ¬ Works m

  -- The variables of the loop, behind the members `xs`.
  abbrev Holds : List String → String → ℤ → Type 0
  Holds xs best best_delay =
      (best ≡ "") × NoneWorks xs ⊎ (best ≢ "") × (best_delay ≡ delays best) × IsFastest xs best

  IsFastest-new :
      (xs : List String) (n : String)
      → Works n
      → ((m : String) → contains xs m ≡ true → Works m → ltb_ℤ (delays n) (delays m) ≡ true)
      → IsFastest (xs ++ (n ∷ [])) n
  IsFastest-new xs n w faster = record {
    member = ground (arith, contains-concat xs n n, ==_refl n);
    works = w;
    least = λ m h v. elim (Bool-cases (n == m)) [
      | inl e ↦ rw (← (eq_iff n m).0 e) (ground arith)
      | inr e ↦ ground (arith, contains-concat xs n m, faster m)
    ];
    earliest = λ m h v. faster m (rw (before-concat_self n xs fresh) at h) v;
  }
    where
      fresh : contains xs n ≡ false
      fresh = ground (arith, faster n)

  IsFastest-old :
      (xs : List String) (n best : String)
      → IsFastest xs best
      → (Works n → ltb_ℤ (delays n) (delays best) ≡ false)
      → IsFastest (xs ++ (n ∷ [])) best
  IsFastest-old xs n best f slower = record {
    member = ground (arith, contains-concat xs n best, f.member);
    works = f.works;
    least = λ m h v. elim (Bool-cases (n == m)) [
      | inl e ↦ let p = (eq_iff n m).0 e in rw (← p) (slower (rw p v))
      | inr e ↦ f.least m (ground (arith, contains-concat xs n m)) v
    ];
    earliest = λ m h v. f.earliest m (rw (before-append best xs (n ∷ []) f.member) at h) v;
  }

  NoneWorks-concat :
      (xs : List String) (n : String) → NoneWorks xs → ¬ Works n → NoneWorks (xs ++ (n ∷ []))
  NoneWorks-concat xs n none dead m h v = elim (Bool-cases (n == m)) [
    | inl e ↦ dead (rw ((eq_iff n m).0 e) v)
    | inr e ↦ none m (ground (arith, contains-concat xs n m)) v
  ]

  -- One round of the loop.
  Holds-round :
      (xs : List String) (n best : String) (d : ℤ)
      → n ≢ ""
      → Holds xs best d
      → Holds
          (xs ++ (n ∷ []))
          (if improves delays n best d then n else best)
          (if improves delays n best d then delays n else d)
  Holds-round xs n best d named (inl (e, none)) = elim (Bool-cases (ltb_ℤ (pos 0) (delays n))) [
    | inl w ↦ rw (e, w) (inr (named, refl, IsFastest-new xs n w (λ m h v. absurd (none m h v))))
    | inr w ↦ rw w (inl (e, NoneWorks-concat xs n none (λ v. cc)))
  ]
  Holds-round xs n best d named (inr (found, e, f)) = elim (Bool-cases (improves delays n best d)) [
    | inl better ↦ rw better (
        inr (
          named,
          refl,
          IsFastest-new xs n (ground arith) (λ m h v. ground (arith, f.least m, eq_iff best "")),
        ))
    | inr worse ↦
        rw worse (inr (found, e, IsFastest-old xs n best f (λ v. ground (arith, eq_iff best ""))))
  ]

  fastest_from-Holds :
      (ns xs : List String) (best : String) (d : ℤ)
      → contains ns "" ≡ false
      → Holds xs best d
      → let (b, e) = fastest_from delays ns best d in Holds (xs ++ ns) b e
  unfolding fastest_from
  fastest_from-Holds [] xs best d named h = rw append-nil h
  fastest_from-Holds (n ∷ ns) xs best d named h =
      let rest =
        fastest_from-Holds ns (xs ++ (n ∷ [])) (if improves delays n best d then n else best)
          (if improves delays n best d then delays n else d) (ground arith)
          (Holds-round xs n best d (ground (arith, eq_iff n "")) h) in
      rw append_assoc at rest

  -- Of members that have names, `Fastest` returns the first of those with the lowest delay above 0,
  -- and it returns none exactly when every delay is 0 or below.
  pub fastest_lem :
      (members : List String)
      → contains members "" ≡ false
      → let (best, found) = fastest delays members in
        (found ≡ true) × IsFastest members best ⊎ (found ≡ false) × (best ≡ "") × NoneWorks members
  unfolding fastest
  fastest_lem members named =
      elim (fastest_from-Holds members [] "" (pos 0) named (inl (refl, λ m h v. cc))) [
        | inl (e, none) ↦
            inr (ground (arith, eq_iff (fastest_from delays members "" (pos 0)).0 ""), e, none)
        | inr (found, e, f) ↦
            inl (ground (arith, eq_iff (fastest_from delays members "" (pos 0)).0 ""), f)
      ]

-- What the url-test group of mihomo does with a pin: `ForceSet` sets or clears it, and a read adopts the pin where
-- that is a member that is alive, which `live` says.
pub record UrlTest (g : Seater) (live : String → g.Group → Bool) : Type 0 where
  pub fixed_set : (n : String) (x : g.Group) → g.fixed (g.force_set n x) ≡ n
  pub pick_unset : (x : g.Group) → g.pick (g.force_set "" x) ≡ g.pick x
  pub live_set : (m n : String) (x : g.Group) → live m (g.force_set n x) ≡ live m x
  pub adopts :
      (x : g.Group) → g.fixed x ≢ "" → live (g.fixed x) x ≡ true → g.pick (g.now x).1 ≡ g.fixed x

-- `Seat` leaves a name that is not empty, of a member that is alive, as the pick of the group, and the group
-- with no pin.
pub seat_lem :
    (g : Seater) (live : String → g.Group → Bool)
    → UrlTest g live
    → (x : g.Group) (name : String) → name ≢ ""
    → live name x ≡ true
    → (g.pick (seat g x name) ≡ name) × (g.fixed (seat g x name) ≡ "")
unfolding seat
seat_lem g live law x name h alive =
    let set = law.fixed_set name x in
    let pinned = g.force_set name x in
    (
      law.pick_unset _
          ∙ law.adopts pinned (λ e. h (sym set ∙ e))
              (ap (λ n. live n pinned) set ∙ law.live_set name name x ∙ alive)
          ∙ set,
      law.fixed_set "" _,
    )
