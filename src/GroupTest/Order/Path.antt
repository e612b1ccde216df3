-- ===== src/GroupTest/Order/Path.antt =====
-- Paths in the graph of groups, and the part of a list that stands before a name.
use libmihomo_android.Base.{
  String, List, [], ◌∷◌, ◌++◌, ◌≡◌, true, false, if◌then◌else◌, contains, arith, ==_refl, ◌==◌,
}

-- `b` is below `a`: it is `a`, or a child of a group below `a`.
pub data Reach (children : String → List String) (a : String) : String → Type 0 where
  here : Reach children a a
  down : {b c : String} → Reach children a b → contains (children b) c ≡ true → Reach children a c

abbrev pub before : String → List String → List String
before n [] = []
before n (x ∷ xs) = if x == n then [] else x ∷ before n xs

pub before-append :
    (n : String) (xs ys : List String) → contains xs n ≡ true → before n (xs ++ ys) ≡ before n xs
before-append n [] ys h = cc
before-append n (x ∷ xs) ys h = ground (arith, before-append n xs ys)

pub before-concat_self :
    (n : String) (xs : List String) → contains xs n ≡ false → before n (xs ++ (n ∷ [])) ≡ xs
before-concat_self n [] h = ground (arith, ==_refl n)
before-concat_self n (x ∷ xs) h = ground (arith, before-concat_self n xs)
