-- ===== src/Bridge/Tun/Packages.antt =====
-- `DefaultPackageNameResolver` of lib.go: the answer of the host is a package name, or a uid, a line break and
-- a package name. The resolver is set while a session is, so `resolve` is `handleResolveProcess`.
pub mod Answers
pub mod Tests
use libmihomo_android.Base.{
  ℕ, suc, ◌+◌, ◌-◌, ◌*◌, ◌^◌, List, [], ◌∷◌, Option, none, some, Bool, true, false, ◌&&◌,
  if◌then◌else◌, eqb, leb, ltb, String, Outcome, ok, err,
}
use libmihomo_android.Text.{Text}

pub record Metadata (Addr : Type 0) : Type 0 where
  pub raw_src_addr : Option Addr
  pub raw_dst_addr : Option Addr
  pub uid : ℕ

abbrev pub is_digit : ℕ → Bool
is_digit c = leb 48 c && leb c 57

-- `strconv.ParseUint` with base 10, before its test of the size; `none` is its error.
unfoldable pub parse_digits : Text → ℕ → Option ℕ
parse_digits [] value = some value
parse_digits (c ∷ s) value =
    let rest = parse_digits s (value * 10 + (c - 48)) in if is_digit c then rest else none

-- The value fits the 32 bits.
abbrev pub fitting : Option ℕ → Option ℕ
fitting none = none
fitting (some value) = if ltb value (2 ^ 32) then some value else none

unfoldable pub parse_uint32 : Text → Option ℕ
unfolding parse_digits
parse_uint32 [] = none
parse_uint32 (c ∷ s) = fitting (parse_digits (c ∷ s) 0)

abbrev pub line_break : ℕ
line_break = 10

-- `strings.SplitN(result, "\n", 2)`: the two parts, or `none` for one part.
abbrev pub longer : ℕ → Option (Text × Text) → Option (Text × Text)
longer c none = none
longer c (some (a, b)) = some (c ∷ a, b)

unfoldable pub split_two : Text → Option (Text × Text)
split_two [] = none
split_two (c ∷ s) =
    let rest = split_two s in if eqb c line_break then some ([], s) else longer c rest

module _ {Addr : Type 0} where
  abbrev pub put_uid : Option ℕ → Metadata Addr → Metadata Addr
  put_uid none m = m
  put_uid (some uid) m = record m { uid = uid }

  unfoldable pub read_answer :
      Text → Option (Text × Text) → Metadata Addr → Metadata Addr × Outcome Text
  unfolding parse_uint32
  read_answer result none m = (m, ok result)
  read_answer result (some (uid, name)) m = (put_uid (parse_uint32 uid) m, ok name)

  -- `invalid` is the text of `process.ErrInvalidNetwork`.
  unfoldable pub resolve_between :
      String
      → (Addr → Addr → Text)
      → Option Addr
      → Option Addr
      → Metadata Addr
      → Metadata Addr × Outcome Text
  unfolding read_answer split_two
  resolve_between invalid resolve (some src) (some dst) m =
      read_answer (resolve src dst) (split_two (resolve src dst)) m
  resolve_between invalid resolve (some src) none m = (m, err invalid)
  resolve_between invalid resolve none dst m = (m, err invalid)

  unfoldable pub package_name_resolver :
      String → (Addr → Addr → Text) → Metadata Addr → Metadata Addr × Outcome Text
  unfolding resolve_between
  package_name_resolver invalid resolve m =
      resolve_between invalid resolve m.raw_src_addr m.raw_dst_addr m
