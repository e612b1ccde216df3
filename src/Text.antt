-- ===== src/Text.antt =====
-- Go's `strings` functions as far as the bridge calls them, over the bytes of an ASCII text.
pub mod Split
use libmihomo_android.Base.{
  ℕ, List, [], ◌∷◌, ◌++◌, Bool, true, false, ◌&&◌, ◌||◌, if◌then◌else◌, eqb, leb, ◌+◌, map,
}
use mathlib.Core.List.{reverse}

abbrev pub Text : Type 0
Text = List ℕ

abbrev pub is_space : ℕ → Bool
is_space c = eqb c 32 || (leb 9 c && leb c 13)

abbrev pub eq_text : Text → Text → Bool
eq_text [] [] = true
eq_text [] (d ∷ t) = false
eq_text (c ∷ s) [] = false
eq_text (c ∷ s) (d ∷ t) = eqb c d && eq_text s t

-- `strings.TrimPrefix`: the text as it was, if it does not begin with the prefix.
unfoldable pub cut_prefix : Text → Text → Text → Text
cut_prefix [] s whole = s
cut_prefix (p ∷ ps) [] whole = whole
cut_prefix (p ∷ ps) (c ∷ s) whole = if eqb p c then cut_prefix ps s whole else whole

unfoldable pub trim_prefix : Text → Text → Text
unfolding cut_prefix
trim_prefix p s = cut_prefix p s s

-- `strings.TrimSuffix(s, ".")`, for a suffix of one byte.
unfoldable pub trim_suffix : ℕ → Text → Text
trim_suffix c [] = []
trim_suffix c (x ∷ []) = if eqb x c then [] else x ∷ []
trim_suffix c (x ∷ y ∷ s) = x ∷ trim_suffix c (y ∷ s)

unfoldable pub trim_left : Text → Text
trim_left [] = []
trim_left (c ∷ s) = if is_space c then trim_left s else c ∷ s

-- `strings.TrimSpace`
unfoldable pub trim_space : Text → Text
unfolding trim_left
trim_space s = reverse (trim_left (reverse (trim_left s)))

abbrev pub lower : ℕ → ℕ
lower c = if leb 65 c && leb c 90 then c + 32 else c

-- `strings.ToLower`
abbrev pub to_lower : Text → Text
to_lower s = map lower s

-- `strings.EqualFold`
abbrev pub equal_fold : Text → Text → Bool
equal_fold s t = eq_text (to_lower s) (to_lower t)
