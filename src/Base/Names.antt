-- ===== src/Base/Names.antt =====
-- Lists of names, and membership as the Boolean test that a Go map of names gives.
use Prim.Native.Nat.{ℕ, suc, ◌≤◌, ◌<◌}
use Prim.Native.String.{String}
use text.Mathlib.Text.{◌==◌}
use text.Mathlib.TextEquality.{eq_iff}
use mathlib.Core.Path.{◌≡◌, refl}
use mathlib.Core.Bool.{Bool, true, false, ◌||◌}
use mathlib.Core.List.{List, [], ◌∷◌, ◌++◌}
use native.Mathlib.Omega.{arith}
use libmihomo_android.Base.Lists.{length}
use libmihomo_android.Base.Tests.{if◌then◌else◌}

abbrev pub contains : List String → String → Bool
contains [] x = false
contains (y ∷ ys) x = y == x || contains ys x

pub ==_refl : (s : String) → (s == s) ≡ true
==_refl s = (eq_iff s s).1 refl

pub contains-append :
    (xs ys : List String) (x : String) → contains (xs ++ ys) x ≡ (contains xs x || contains ys x)
contains-append [] ys x = refl
contains-append (y ∷ xs) ys x = ground (arith, contains-append xs ys x)

pub contains-concat :
    (xs : List String) (y x : String) → contains (xs ++ (y ∷ [])) x ≡ (contains xs x || y == x)
contains-concat xs y x = ground (arith, contains-append xs (y ∷ []) x)

-- Every name stands once.
abbrev pub IsNodup : List String → Type 0
IsNodup [] = Unit
IsNodup (x ∷ xs) = (contains xs x ≡ false) × IsNodup xs

pub IsNodup-concat :
    (xs : List String) (y : String) → IsNodup xs → contains xs y ≡ false → IsNodup (xs ++ (y ∷ []))
IsNodup-concat [] y h n = (refl, tt)
IsNodup-concat (x ∷ xs) y h n = (
  ground (arith, contains-concat xs y x, eq_iff x y, eq_iff y x),
  IsNodup-concat xs y h.1 (ground arith),
)

-- The names of `xs` that `seen` does not hold.
abbrev pub unseen : List String → List String → ℕ
unseen [] seen = 0
unseen (x ∷ xs) seen = if contains seen x then unseen xs seen else suc (unseen xs seen)

pub unseen-cons_le : (u seen : List String) (n : String) → unseen u (n ∷ seen) ≤ unseen u seen
unseen-cons_le [] seen n = omega arith
unseen-cons_le (x ∷ u) seen n = ground (arith, unseen-cons_le u seen n)

-- To mark a new name of `u` leaves fewer unmarked ones.
pub unseen-cons_lt :
    (u seen : List String) (n : String)
    → contains u n ≡ true
    → contains seen n ≡ false
    → unseen u (n ∷ seen) < unseen u seen
unseen-cons_lt [] seen n h k = cc
unseen-cons_lt (x ∷ u) seen n h k =
    ground (arith, unseen-cons_lt u seen n, unseen-cons_le u seen n, eq_iff x n, eq_iff n x)

pub unseen-nil : (u : List String) → unseen u [] ≤ length u
unseen-nil [] = omega arith
unseen-nil (x ∷ u) = omega (arith, unseen-nil u)
