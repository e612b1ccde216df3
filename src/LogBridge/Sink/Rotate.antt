-- ===== src/LogBridge/Sink/Rotate.antt =====
-- Rotation moves every file of the log up by one place and drops only the oldest.
use libmihomo_android.Base.{
  ℕ, zero, suc, ◌+◌, ◌≤◌, ◌<◌, [], ◌∷◌, ◌++◌, none, if◌then◌else◌, length, eqb, ◌≡◌, refl, arith,
  ◌≢◌, ◌∙◌, length-append, ap, Option-cases, inl, inr,
}
use libmihomo_android.Text.{Text, eq_text}
use libmihomo_android.LogBridge.Sink.Disk.{Files, remove, rename, eq_text_iff, eq_text_refl}
use libmihomo_android.LogBridge.Sink.{Os, rot_name, shift_up, move_files, try_remove, try_rename}

-- The files of one log: the current one, and those rotated once, twice, ….
abbrev pub nth_name : Text → ℕ → Text
nth_name base zero = base
nth_name base (suc n) = rot_name base (suc n)

append_cancel : (base xs ys : Text) → base ++ xs ≡ base ++ ys → xs ≡ ys
append_cancel [] xs ys e = e
append_cancel (c ∷ base) xs ys e = append_cancel base xs ys (cc)

nth_name-injective : (base : Text) (i j : ℕ) → nth_name base i ≡ nth_name base j → i ≡ j
unfolding rot_name
nth_name-injective base zero zero e = refl
nth_name-injective base zero (suc j) e =
    absurd (omega (arith, ap length e, length-append base (b'.' ∷ (48 + suc j) ∷ [])))
nth_name-injective base (suc i) zero e =
    absurd (omega (arith, ap length e, length-append base (b'.' ∷ (48 + suc i) ∷ [])))
nth_name-injective base (suc i) (suc j) e =
    ground (arith, append_cancel base (b'.' ∷ (48 + suc i) ∷ []) (b'.' ∷ (48 + suc j) ∷ []) e)

-- A rename to a path that is free.
rename_lem :
    (from to q : Text) (fs : Files)
    → from ≢ to
    → fs to ≡ none
    → rename from to fs q
      ≡ (if eq_text from q then none else if eq_text to q then fs from else fs q)
unfolding rename
rename_lem from to q fs ne free = elim (Option-cases (fs from)) [
  | inl e ↦ rw (e, rename) (ground (arith, eq_text_iff from q, eq_text_iff to q))
  | inr (lines, e) ↦ rw (e, rename) refl
]

module _ (base : Text) (fs : Files) where
  abbrev name : ℕ → Text
  name i = nth_name base i

  pub same : (i j : ℕ) → eq_text (name i) (name j) ≡ eqb i j
  same i j = ground (arith, eq_text_iff (name i) (name j), nth_name-injective base i j)

  -- The files when those from the place `k` to the place 3 have moved up.
  pub record Gap (k : ℕ) (g : Files) : Type 0 where
    pub free : g (name k) ≡ none
    pub moved : (i : ℕ) → k ≤ i → i < 4 → g (name (suc i)) ≡ fs (name i)
    pub kept : (i : ℕ) → i < k → g (name i) ≡ fs (name i)
    pub others : (q : Text) → ((i : ℕ) → i ≤ 4 → name i ≢ q) → g q ≡ fs q

  Gap-rename :
      (k : ℕ) (g : Files) → k < 4 → Gap (suc k) g → Gap k (rename (name k) (name (suc k)) g)
  Gap-rename k g lt p = record {
    free = moves (name k) ∙ rw (eq_text_refl (name k)) refl;
    moved = λ i a b.
        moves (name (suc i))
        ∙ ground (arith, same k (suc i), same (suc k) (suc i), p.kept k, p.moved i);
    kept = λ i a. moves (name i) ∙ ground (arith, same k i, same (suc k) i, p.kept i);
    others = λ q h.
        moves q
        ∙ ground (
          arith,
          eq_text_iff (name k) q,
          eq_text_iff (name (suc k)) q,
          h k,
          h (suc k),
          p.others q h,
        );
  }
    where
      moves :
          (q : Text)
          → rename (name k) (name (suc k)) g q ≡ (
              if eq_text (name k) q
              then none
              else if eq_text (name (suc k)) q
              then g (name k)
              else g q)
      moves q =
          rename_lem (name k) (name (suc k)) q g
            (λ e. absurd (omega (arith, nth_name-injective base k (suc k) e))) p.free

  Gap-remove : Gap 4 (remove (name 4) fs)
  unfolding remove
  Gap-remove = record {
    free = rw (eq_text_refl (name 4)) refl;
    moved = λ i a b. absurd (omega arith);
    kept = λ i a. ground (arith, same 4 i);
    others = λ q h. ground (arith, eq_text_iff (name 4) q, h 4);
  }

  Gap-shift_up :
      (n : ℕ) (g : Files) → n < 4 → Gap (suc n) g → Gap 1 (shift_up remove rename base n g)
  unfolding shift_up
  Gap-shift_up zero g lt p = p
  Gap-shift_up (suc n) g lt p = Gap-shift_up n _ (omega arith) (Gap-rename (suc n) g lt p)

  -- The renames of a rotation leave the place of the current file free, put each of the files 0 to 3
  -- at the next place (and leave it free where there was none), so that only the oldest is
  -- dropped, and change no other file.
  pub rotation_moves : Gap 0 (move_files remove rename base fs)
  unfolding move_files
  rotation_moves = Gap-rename 0 _ (omega arith) (Gap-shift_up 3 _ (omega arith) Gap-remove)

  -- The current file before its rename, whatever the calls before that did to the others.
  module _ (os : Os) where
    try_rename-kept :
        (i j : ℕ) (g : Files) → try_rename os (name (suc i)) (name (suc j)) g (name 0) ≡ g (name 0)
    unfolding rename
    try_rename-kept i j g = elim (Option-cases (g (name (suc i)))) [
      | inl e ↦ rw (e, rename) (ground arith)
      | inr (lines, e) ↦ rw (e, rename) (ground (arith, same (suc i) 0, same (suc j) 0))
    ]

    try_remove-kept : (i : ℕ) (g : Files) → try_remove os (name (suc i)) g (name 0) ≡ g (name 0)
    unfolding remove
    try_remove-kept i g = ground (arith, same (suc i) 0)

    shift_up-kept :
        (n : ℕ) (g : Files)
        → shift_up (try_remove os) (try_rename os) base n g (name 0) ≡ g (name 0)
    unfolding shift_up
    shift_up-kept zero g = refl
    shift_up-kept (suc n) g =
        shift_up-kept n (try_rename os (name (suc n)) (name (suc (suc n))) g)
        ∙ try_rename-kept n (suc n) g

    pub before_rename :
        shift_up (try_remove os) (try_rename os) base 3 (try_remove os (name 4) fs) (name 0)
        ≡ fs (name 0)
    before_rename = shift_up-kept 3 (try_remove os (name 4) fs) ∙ try_remove-kept 3 fs
