-- ===== src/LogBridge/Sink/Disk.antt =====
-- The files below the log directory, and what the calls of package os do to them.
use libmihomo_android.Base.{
  ℕ, ◌+◌, List, [], ◌∷◌, ◌++◌, Option, none, some, true, if◌then◌else◌, length, ◌≡◌, refl, arith,
  ◌↔◌,
}
use libmihomo_android.Text.{Text, eq_text}

-- The lines of each file that there is.
abbrev pub Files : Type 0
Files = Text → Option (List Text)

abbrev pub write : Text → Option (List Text) → Files → Files
write p content fs q = if eq_text p q then content else fs q

abbrev pub total : List Text → ℕ
total [] = 0
total (line ∷ lines) = length line + total lines

-- The size of a file; a file that is absent has none.
abbrev pub bytes : Option (List Text) → ℕ
bytes none = 0
bytes (some lines) = total lines

abbrev pub lines_of : Option (List Text) → List Text
lines_of none = []
lines_of (some lines) = lines

-- Opening with O_CREATE makes the file, if it is absent.
unfoldable pub create : Text → Files → Files
create p fs = write p (some (lines_of (fs p))) fs

unfoldable pub append_line : Text → Text → Files → Files
append_line p line fs = write p (some (lines_of (fs p) ++ (line ∷ []))) fs

unfoldable pub remove : Text → Files → Files
remove p fs = write p none fs

-- `os.Rename` replaces the file at the new path, and fails if there is none at the old one.
unfoldable pub rename : Text → Text → Files → Files
rename from to fs = elim (fs from) [
  | none ↦ fs
  | some lines ↦ write from none (write to (some lines) fs)
]

pub eq_text_iff : (s t : Text) → (eq_text s t ≡ true) ↔ (s ≡ t)
eq_text_iff [] [] = (λ h. refl, λ h. refl)
eq_text_iff [] (d ∷ t) = (λ h. cc, λ h. cc)
eq_text_iff (c ∷ s) [] = (λ h. cc, λ h. cc)
eq_text_iff (c ∷ s) (d ∷ t) = ground (arith, eq_text_iff s t)

pub eq_text_refl : (s : Text) → eq_text s s ≡ true
eq_text_refl s = (eq_text_iff s s).1 refl
