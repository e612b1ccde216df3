-- ===== src/Base/Loops.antt =====
-- Rules for the loops over names.
use libmihomo_android.Base.Tests.{>>=-eq-some}
use libmihomo_android.Base.Lists.{fold_m}
use libmihomo_android.Base.Names.{contains, ==_refl}
use Prim.Native.String.{String}
use mathlib.Core.Path.{◌≡◌, refl, subst}
use mathlib.Core.Bool.{true}
use mathlib.Core.Option.{Option, some, some-injective}
use mathlib.Core.List.{List, [], ◌∷◌}
use native.Mathlib.Omega.{arith}

module _ {ℓ κ} {S : Type ℓ} (Q : S → Type κ) (step : String → S → Option S) where
  -- What every round keeps holds at the end.
  pub fold_m-keeps :
      (ns : List String)
      → ((n : String) (s t : S) → contains ns n ≡ true → Q s → step n s ≡ some t → Q t)
      → (s t : S) → Q s
      → fold_m step ns s ≡ some t
      → Q t
  unfolding fold_m
  fold_m-keeps [] keep s t q e = subst Q (some-injective s t e) q
  fold_m-keeps (n ∷ ns) keep s t q e =
      let (u, e1, e2) = >>=-eq-some (step n s) (fold_m step ns) e in
      fold_m-keeps ns (λ m a b h. keep m a b (ground arith)) u t
        (keep n s u (ground (arith, ==_refl n)) q e1) e2

  -- Where every round succeeds, so does the loop.
  pub fold_m-total :
      (ns : List String)
      → ((n : String) (s : S) → contains ns n ≡ true → Q s → (t : S) × (step n s ≡ some t) × Q t)
      → (s : S) → Q s
      → (t : S) × (fold_m step ns s ≡ some t) × Q t
  unfolding fold_m
  fold_m-total [] ok s q = (s, refl, q)
  fold_m-total (n ∷ ns) ok s q =
      let (u, e1, qu) = ok n s (ground (arith, ==_refl n)) q in
      let (t, e2, qt) = fold_m-total ns (λ m a h. ok m a (ground arith)) u qu in (t, rw e1 e2, qt)
