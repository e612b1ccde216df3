-- ===== src/Bridge/Tun/Packages/Tests.antt =====
-- An answer of the host with a uid, "10123", and the name "a".
use libmihomo_android.Base.{ℕ, [], ◌∷◌, some, ok, ◌≡◌, refl}
use native.Mathlib.Omega.{arith}
use libmihomo_android.Bridge.Tun.Packages.{Metadata, package_name_resolver}
use libmihomo_android.Bridge.Tun.Packages.Answers.{
  print, print_from, with_uid, written, package_name_resolver-written,
}

printed : print 10123 ≡ 49 ∷ 48 ∷ 49 ∷ 50 ∷ 51 ∷ []
unfolding print_from
printed = refl

abbrev connection : Metadata ℕ
connection = record { raw_src_addr = some 1; raw_dst_addr = some 2; uid = 0 }

package_name_resolver-written_example :
    package_name_resolver "invalid network" (λ a b. written (with_uid 10123 (97 ∷ []))) connection
    ≡ (record connection { uid = 10123 }, ok (97 ∷ []))
package_name_resolver-written_example =
    package_name_resolver-written "invalid network" (λ a b. written (with_uid 10123 (97 ∷ [])))
      connection 1 2 (with_uid 10123 (97 ∷ [])) refl refl refl (omega arith)
