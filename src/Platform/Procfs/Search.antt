-- ===== src/Platform/Procfs/Search.antt =====
-- The search of a table of /proc/net, and the byte order of addresses.
use libmihomo_android.Base.{
  ℕ, List, [], ◌∷◌, Option, some, ◌>>=◌, >>=-eq-some, Bool, true, false, if◌then◌else◌, get_elem?,
  ℤ, negsuc, ◌≡◌, refl, ap,
}
use mathlib.Core.Path.{subst}
use mathlib.Core.Option.{some-injective}
use libmihomo_android.Text.{Text}
use libmihomo_android.Text.Split.{fields}
use libmihomo_android.Platform.Procfs.{native_endian_ip, uid_of, is_row, search_table}

-- The rows of a table that match.
unfoldable pub rows_of : ℕ → ℕ → Text → List Text → List (List Text)
rows_of l u local [] = []
rows_of l u local (line ∷ lines) =
    let rest = rows_of l u local lines in
    if is_row l u local (fields line) then fields line ∷ rest else rest

unfoldable pub uid_of_first : (Text → Option ℤ) → ℕ → List (List Text) → ℤ
uid_of_first atoi u [] = negsuc 0
uid_of_first atoi u (row ∷ rows) = uid_of atoi (get_elem? row u)

-- The search gives the uid of the first of the rows that match, and -1 where no row matches or its uid is
-- no number; rows that are too short never match and do not end it.
pub search_table_lem :
    (atoi : Text → Option ℤ) (l u : ℕ) (local : Text) (lines : List Text)
    → search_table atoi l u local lines ≡ uid_of_first atoi u (rows_of l u local lines)
unfolding search_table rows_of uid_of_first
search_table_lem atoi l u local [] = refl
search_table_lem atoi l u local (line ∷ lines) =
    chosen (is_row l u local (fields line)) (search_table_lem atoi l u local lines)
  where
    chosen :
        (b : Bool)
        → search_table atoi l u local lines ≡ uid_of_first atoi u (rows_of l u local lines)
        → (if b then uid_of atoi (get_elem? (fields line) u) else search_table atoi l u local lines)
          ≡ uid_of_first atoi u
              (if b then fields line ∷ rows_of l u local lines else rows_of l u local lines)
    chosen true e = refl
    chosen false e = e

-- Turning the bytes of an address twice gives the address back, on either byte order.
pub native_endian_ip-native_endian_ip :
    (little : Bool) (ip native : Text)
    → native_endian_ip little ip ≡ some native
    → native_endian_ip little native ≡ some ip
unfolding native_endian_ip
native_endian_ip-native_endian_ip little [] native e = cc
native_endian_ip-native_endian_ip little (a ∷ []) native e = cc
native_endian_ip-native_endian_ip little (a ∷ b ∷ []) native e = cc
native_endian_ip-native_endian_ip little (a ∷ b ∷ c ∷ []) native e = cc
native_endian_ip-native_endian_ip little (a ∷ b ∷ c ∷ d ∷ ip) native e =
    let (rest, p, q) = >>=-eq-some (native_endian_ip little ip) _ e in
    turned little rest (native_endian_ip-native_endian_ip little ip rest p) q
  where
    turned :
        (x : Bool) (rest : Text)
        → native_endian_ip x rest ≡ some ip
        → some (if x then d ∷ c ∷ b ∷ a ∷ rest else a ∷ b ∷ c ∷ d ∷ rest) ≡ some native
        → native_endian_ip x native ≡ some (a ∷ b ∷ c ∷ d ∷ ip)
    turned true rest h q =
        subst (λ t. native_endian_ip true t ≡ some (a ∷ b ∷ c ∷ d ∷ ip)) (some-injective _ _ q)
          (ap (λ o. o >>= λ r. some (a ∷ b ∷ c ∷ d ∷ r)) h)
    turned false rest h q =
        subst (λ t. native_endian_ip false t ≡ some (a ∷ b ∷ c ∷ d ∷ ip)) (some-injective _ _ q)
          (ap (λ o. o >>= λ r. some (a ∷ b ∷ c ∷ d ∷ r)) h)
