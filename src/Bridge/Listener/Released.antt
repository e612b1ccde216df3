-- ===== src/Bridge/Listener/Released.antt =====
-- Where each reference to an event listener is, and that none is used after its release.
use libmihomo_android.Base.{
  ℕ, suc, ◌+◌, ◌≤◌, List, [], ◌∷◌, ◌++◌, Bool, true, false, ◌||◌, Option, none, some, ◌≡◌, refl, ap,
  sym, eqb, ltb, arith, Bool-cases, inl, inr,
}
use mathlib.Core.Path.{subst}
use libmihomo_android.Bridge.Listener.{
  Setter, wants, holds, owes, member, Shared, no_listener, past, Step, set, unset, lock, unlock,
  release, read, use_listener, leave, Steps, here, next,
}

abbrev pub one_if : Bool → ℕ
one_if true = 1
one_if false = 0

-- How often a reference stands in a variable, in a call, and in a list.
abbrev pub in_option : ℕ → Option ℕ → ℕ
in_option r none = 0
in_option r (some x) = one_if (eqb x r)

abbrev pub in_setter : ℕ → Setter → ℕ
in_setter r (wants new) = in_option r new
in_setter r (holds old) = in_option r old
in_setter r (owes old) = one_if (eqb old r)

abbrev pub in_setters : ℕ → List Setter → ℕ
in_setters r [] = 0
in_setters r (c ∷ cs) = in_setter r c + in_setters r cs

abbrev pub times : ℕ → List ℕ → ℕ
times r [] = 0
times r (x ∷ xs) = one_if (eqb x r) + times r xs

in_setters-put :
    (r : ℕ) (before : List Setter) (c : Setter) (after : List Setter)
    → in_setters r (before ++ (c ∷ after)) ≡ in_setter r c + in_setters r (before ++ after)
in_setters-put r [] c after = refl
in_setters-put r (b ∷ before) c after = omega (arith, in_setters-put r before c after)

in_setters-past :
    (r : ℕ) (before : List Setter) (old : Option ℕ) (after : List Setter)
    → in_setters r (before ++ (past old ++ after))
      ≡ in_option r old + in_setters r (before ++ after)
in_setters-past r before none after = omega arith
in_setters-past r before (some x) after = in_setters-put r before (owes x) after

-- A reference that is in no place of a list is no member of it.
times-member : (r : ℕ) (xs : List ℕ) → times r xs ≡ 0 → member r xs ≡ false
times-member r [] e = refl
times-member r (x ∷ xs) e = elim (Bool-cases (eqb x r)) [
  | inl same ↦ let never : ⊥ = omega (arith, e, ap one_if same) in elim never [ ]
  | inr other ↦ rw other (times-member r xs (omega (arith, e)))
]

made_next : (r n : ℕ) → one_if (ltb r (suc n)) ≡ one_if (eqb n r) + one_if (ltb r n)
made_next r n = ground arith

-- The readers all have the reference of the listener.
abbrev pub AllAre : Option ℕ → List ℕ → Type 0
AllAre o [] = Unit
AllAre o (r ∷ rs) = (o ≡ some r) × AllAre o rs

AllAre-at :
    (o : Option ℕ) (before : List ℕ) (r : ℕ) (after : List ℕ)
    → AllAre o (before ++ (r ∷ after))
    → o ≡ some r
AllAre-at o [] r after v = v.0
AllAre-at o (b ∷ before) r after v = AllAre-at o before r after v.1

AllAre-without :
    (o : Option ℕ) (before : List ℕ) (r : ℕ) (after : List ℕ)
    → AllAre o (before ++ (r ∷ after))
    → AllAre o (before ++ after)
AllAre-without o [] r after v = v.1
AllAre-without o (b ∷ before) r after v = (v.0, AllAre-without o before r after v.1)

pub record IsOwned (s : Shared) : Type 0 where
  pub placed :
      (r : ℕ)
      → in_option r s.listener + in_setters r s.setters + times r s.released ≡ one_if (ltb r s.made)
  pub current : AllAre s.listener s.readers
  pub proper : s.misused ≡ false

at_most_one : (b : Bool) → one_if b ≤ 1
at_most_one true = omega arith
at_most_one false = omega arith

self : (r : ℕ) → one_if (eqb r r) ≡ 1
self r = ground arith

-- The reference of a reader is not released.
reading : (s : Shared) (r : ℕ) → IsOwned s → s.listener ≡ some r → member r s.released ≡ false
reading s r v e =
    times-member r s.released
      (omega (arith, v.placed r, ap (in_option r) e, self r, at_most_one (ltb r s.made)))

either_false : (a b : Bool) → a ≡ false → b ≡ false → (a || b) ≡ false
either_false false false p q = refl
either_false false true p q = q
either_false true b p q = cc

Step-IsOwned : {s t : Shared} → Step s t → IsOwned s → IsOwned t
Step-IsOwned {s} set v = record {
  placed = λ r. omega (arith, v.placed r, made_next r s.made);
  current = v.current;
  proper = v.proper;
}
Step-IsOwned unset v = record {
  placed = λ r. omega (arith, v.placed r);
  current = v.current;
  proper = v.proper;
}
Step-IsOwned {s} (lock before after new at free alone) v = record {
  placed = λ r. omega (
    arith,
    v.placed r,
    ap (in_setters r) at,
    in_setters-put r before (wants new) after,
    in_setters-put r before (holds s.listener) after,
  );
  current = subst (AllAre new) (sym alone) tt;
  proper = v.proper;
}
Step-IsOwned (unlock before after old at) v = record {
  placed = λ r. omega (
    arith,
    v.placed r,
    ap (in_setters r) at,
    in_setters-put r before (holds old) after,
    in_setters-past r before old after,
  );
  current = v.current;
  proper = v.proper;
}
Step-IsOwned (release before after old at) v = record {
  placed = λ r.
      omega (arith, v.placed r, ap (in_setters r) at, in_setters-put r before (owes old) after);
  current = v.current;
  proper = v.proper;
}
Step-IsOwned (read r free e) v = record {
  placed = v.placed;
  current = (e, v.current);
  proper = v.proper;
}
Step-IsOwned {s} (use_listener before after r at) v = record {
  placed = v.placed;
  current = v.current;
  proper = either_false s.misused (member r s.released) v.proper (
      reading s r v (AllAre-at s.listener before r after (subst (AllAre s.listener) at v.current)));
}
Step-IsOwned {s} (leave before after r at) v = record {
  placed = v.placed;
  current = AllAre-without s.listener before r after (subst (AllAre s.listener) at v.current);
  proper = v.proper;
}

Steps-IsOwned : {s t : Shared} → Steps s t → IsOwned s → IsOwned t
Steps-IsOwned here v = v
Steps-IsOwned (next steps step) v = Step-IsOwned step (Steps-IsOwned steps v)

no_listener-IsOwned : IsOwned no_listener
no_listener-IsOwned = record { placed = λ r. ground arith; current = tt; proper = refl }

-- However the calls of `sendMessage` and `setEventListener` interleave, no reference to a listener is used after
-- its release; and each reference that the host made is in one place: it waits to be set, is the listener, waits for
-- its release, or was released once.
pub listener_owned :
    {s : Shared}
    → Steps no_listener s
    → (s.misused ≡ false)
      × ((r : ℕ)
          → in_option r s.listener + in_setters r s.setters + times r s.released
            ≡ one_if (ltb r s.made))
listener_owned steps = let v = Steps-IsOwned steps no_listener-IsOwned in (v.proper, v.placed)
