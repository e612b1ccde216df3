-- ===== src/Text/Split.antt =====
-- `strings.Split` at one byte, and `strings.Fields`.
use libmihomo_android.Base.{ℕ, List, [], ◌∷◌, ◌++◌, if◌then◌else◌, eqb}
use libmihomo_android.Text.{Text, is_space}

abbrev pub prepend : ℕ → List Text → List Text
prepend c [] = (c ∷ []) ∷ []
prepend c (part ∷ parts) = (c ∷ part) ∷ parts

-- The text between the separators: one part more than there are separators.
unfoldable pub split : ℕ → Text → List Text
split sep [] = [] ∷ []
split sep (c ∷ s) = let parts = split sep s in if eqb c sep then [] ∷ parts else prepend c parts

-- The fields of the rest of a text: `field` is what the current field holds.
abbrev pub close_field : Text → List Text → List Text
close_field [] rest = rest
close_field (c ∷ field) rest = (c ∷ field) ∷ rest

unfoldable pub fields_from : Text → Text → List Text
fields_from field [] = close_field field []
fields_from field (c ∷ s) =
    let rest = fields_from (if is_space c then [] else field ++ (c ∷ [])) s in
    if is_space c then close_field field rest else rest

unfoldable pub fields : Text → List Text
unfolding fields_from
fields s = fields_from [] s
