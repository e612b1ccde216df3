-- ===== src/Bridge/Tun/Packages/Answers.antt =====
-- The answers of the host, as they are written, and what the resolver makes of them.
use libmihomo_android.Base.{
  ℕ, zero, suc, ◌+◌, ◌-◌, ◌*◌, ◌/◌, ◌%◌, ◌^◌, ◌<◌, [], ◌∷◌, ◌++◌, none, some, Bool, true, false,
  if◌then◌else◌, eqb, ltb, String, Outcome, ok, ◌≡◌, refl, sym, ap, ◌∙◌, Bool-cases, inl, inr,
  if_true, if_false,
}
use native.Mathlib.Omega.{arith}
use mathlib.Core.Option.{some-injective}
use libmihomo_android.Text.{Text}
use libmihomo_android.Bridge.Tun.Packages.{
  Metadata, is_digit, parse_digits, fitting, parse_uint32, line_break, longer, split_two, put_uid,
  read_answer, resolve_between, package_name_resolver,
}

-- A number in decimal; as much fuel as the number and one more is enough.
unfoldable pub print_from : ℕ → ℕ → Text
print_from zero n = []
print_from (suc fuel) n =
    let more = print_from fuel (n / 10) in (if ltb n 10 then [] else more) ++ ((48 + n % 10) ∷ [])

abbrev pub print : ℕ → Text
print n = print_from (suc n) n

abbrev pub NoBreak : Text → Type 0
NoBreak [] = Unit
NoBreak (c ∷ s) = (eqb c line_break ≡ false) × NoBreak s

parse_digits-concat :
    (s : Text) (d v : ℕ)
    → d < 10
    → (u : ℕ) → parse_digits s v ≡ some u
    → parse_digits (s ++ ((48 + d) ∷ [])) v ≡ some (u * 10 + d)
unfolding parse_digits
parse_digits-concat [] d v h u e = let same = some-injective v u e in ground (arith, same, h)
parse_digits-concat (c ∷ s) d v h u e = elim (Bool-cases (is_digit c)) [
  | inl k ↦
      if_true (is_digit c) none k
      ∙ parse_digits-concat s d (v * 10 + (c - 48)) h u (sym (if_true (is_digit c) none k) ∙ e)
  | inr k ↦ cc (e, if_false (is_digit c) (parse_digits s (v * 10 + (c - 48))) k)
]

parse_print : (fuel n : ℕ) → n < fuel → parse_digits (print_from fuel n) 0 ≡ some n
unfolding print_from parse_digits
parse_print zero n h = let never : ⊥ = omega (arith, h) in elim never [ ]
parse_print (suc fuel) n h = elim (Bool-cases (ltb n 10)) [
  | inl k ↦ rw k (ground (arith, k))
  | inr k ↦
      let tens : n / 10 < fuel = ground (arith, h, k) in
      rw k (
        parse_digits-concat (print_from fuel (n / 10)) (n % 10) 0 (omega arith) (n / 10)
          (parse_print fuel (n / 10) tens)
        ∙ ap some (omega arith))
]

parse_uint32-concat :
    (s : Text) (c : ℕ) → parse_uint32 (s ++ (c ∷ [])) ≡ fitting (parse_digits (s ++ (c ∷ [])) 0)
unfolding parse_uint32
parse_uint32-concat [] c = refl
parse_uint32-concat (d ∷ s) c = refl

parse_uint32-print : (n : ℕ) → n < 2 ^ 32 → parse_uint32 (print n) ≡ some n
unfolding print_from
parse_uint32-print n h =
    parse_uint32-concat (if ltb n 10 then [] else print_from n (n / 10)) (48 + n % 10)
    ∙ ap fitting (parse_print (suc n) n (omega arith))
    ∙ if_true (ltb n (2 ^ 32)) none (ground (arith, h))

-- No byte of a printed number is a line break.
NoBreak-append : (s t : Text) → NoBreak s → NoBreak t → NoBreak (s ++ t)
NoBreak-append [] t h k = k
NoBreak-append (c ∷ s) t (e, h) k = (e, NoBreak-append s t h k)

print_from-NoBreak : (fuel n : ℕ) → NoBreak (print_from fuel n)
unfolding print_from
print_from-NoBreak zero n = tt
print_from-NoBreak (suc fuel) n =
    NoBreak-append (if ltb n 10 then [] else print_from fuel (n / 10)) ((48 + n % 10) ∷ [])
      (kept (ltb n 10) (print_from-NoBreak fuel (n / 10))) (ground arith, tt)
  where
    kept :
        (b : Bool)
        → NoBreak (print_from fuel (n / 10))
        → NoBreak (if b then [] else print_from fuel (n / 10))
    kept true h = tt
    kept false h = h

split_two-append : (s t : Text) → NoBreak s → split_two (s ++ (line_break ∷ t)) ≡ some (s, t)
unfolding split_two
split_two-append [] t h = refl
split_two-append (c ∷ s) t (e, h) =
    if_false (eqb c line_break) (some ([], s ++ (line_break ∷ t))) e
    ∙ ap (longer c) (split_two-append s t h)

split_two-NoBreak : (s : Text) → NoBreak s → split_two s ≡ none
unfolding split_two
split_two-NoBreak [] h = refl
split_two-NoBreak (c ∷ s) (e, h) =
    if_false (eqb c line_break) (some ([], s)) e ∙ ap (longer c) (split_two-NoBreak s h)

-- An answer of the host: the name of the package, with its uid where that is known.
pub data Answer : Type 0 where
  name_only : Text → Answer
  with_uid : (uid : ℕ) (name : Text) → Answer

abbrev pub written : Answer → Text
written (name_only name) = name
written (with_uid uid name) = print uid ++ (line_break ∷ name)

-- A name alone has no line break, and a uid has 32 bits.
abbrev pub IsAnswer : Answer → Type 0
IsAnswer (name_only name) = NoBreak name
IsAnswer (with_uid uid name) = uid < 2 ^ 32

module _ {Addr : Type 0} where
  abbrev pub answered : Answer → Metadata Addr → Metadata Addr × Outcome Text
  answered (name_only name) m = (m, ok name)
  answered (with_uid uid name) m = (record m { uid = uid }, ok name)

  read_answer-written :
      (a : Answer) (m : Metadata Addr)
      → IsAnswer a
      → read_answer (written a) (split_two (written a)) m ≡ answered a m
  unfolding read_answer
  read_answer-written (name_only name) m h =
      ap (λ o. read_answer name o m) (split_two-NoBreak name h)
  read_answer-written (with_uid uid name) m h =
      ap (λ o. read_answer (print uid ++ (line_break ∷ name)) o m)
        (split_two-append (print uid) name (print_from-NoBreak (suc uid) uid))
      ∙ ap {B = Metadata Addr × Outcome Text} (λ o. (put_uid o m, ok name))
          (parse_uint32-print uid h)

  -- Where both addresses are known, the resolver reads the answer that the host has written: the name of
  -- the package, and the uid where the answer has one; without a uid that of the connection is kept. (A uid
  -- has 32 bits, and a name without a uid no line break.)
  pub package_name_resolver-written :
      (invalid : String) (resolve : Addr → Addr → Text) (m : Metadata Addr) (src dst : Addr)
      (a : Answer)
      → m.raw_src_addr ≡ some src
      → m.raw_dst_addr ≡ some dst
      → resolve src dst ≡ written a
      → IsAnswer a
      → package_name_resolver invalid resolve m ≡ answered a m
  unfolding package_name_resolver resolve_between
  package_name_resolver-written invalid resolve m src dst a p q e h =
      ap (λ o. resolve_between invalid resolve o m.raw_dst_addr m) p
      ∙ ap (λ o. resolve_between invalid resolve (some src) o m) q
      ∙ ap (λ t. read_answer t (split_two t) m) e
      ∙ read_answer-written a m h
