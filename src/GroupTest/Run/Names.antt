-- ===== src/GroupTest/Run/Names.antt =====
-- The map from names to places.
use libmihomo_android.Base.{
  ℕ, zero, suc, ◌<◌, String, List, [], ◌∷◌, ◌≡◌, refl, true, some, contains, length, IsNodup, arith,
  eq_iff, Option-cases, inl, inr, ap, ==_refl,
}
use libmihomo_android.GroupTest.Run.{index, name_at}

pub index_lem :
    (order : List String) (c : String) (j : ℕ)
    → index order c ≡ some j
    → (j < length order) × (name_at order j ≡ c)
unfolding index
index_lem [] c j h = cc
index_lem (x ∷ xs) c j h = elim (Option-cases (index xs c)) [
  | inl e ↦ ground (arith, eq_iff x c)
  | inr (k, e) ↦ ground (arith, index_lem xs c k e)
]

pub contains-name_at :
    (order : List String) (i : ℕ) → i < length order → contains order (name_at order i) ≡ true
contains-name_at [] i h = absurd (omega arith)
contains-name_at (x ∷ xs) zero h = ground (arith, ==_refl x)
contains-name_at (x ∷ xs) (suc i) h = ground (arith, contains-name_at xs i)

pub name_at-injective :
    (order : List String)
    → IsNodup order
    → (i j : ℕ) → i < length order
    → j < length order
    → name_at order i ≡ name_at order j
    → i ≡ j
name_at-injective [] u i j h k e = absurd (omega arith)
name_at-injective (x ∷ xs) u zero zero h k e = refl
name_at-injective (x ∷ xs) u zero (suc j) h k e = ground (arith, contains-name_at xs j)
name_at-injective (x ∷ xs) u (suc i) zero h k e = ground (arith, contains-name_at xs i)
name_at-injective (x ∷ xs) u (suc i) (suc j) h k e =
    ap suc (name_at-injective xs u.1 i j (omega arith) (omega arith) e)
