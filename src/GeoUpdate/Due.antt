-- ===== src/GeoUpdate/Due.antt =====
-- When an update of the geo databases is due.
use libmihomo_android.Base.{
  ℕ, zero, suc, ◌+◌, ◌≤◌, ◌<◌, String, ◌==◌, eq_iff, ==_refl, List, [], ◌∷◌, ◌++◌, Option, none,
  some, Bool, true, false, not, ◌&&◌, ◌||◌, if◌then◌else◌, pos, pos_part, ltb_ℤ, eqb, ltb, leb,
  contains, contains-concat, ◌≡◌, refl, sym, ◌∙◌, ap, ◌⊎◌, inl, inr, ◌↔◌, Bool-cases, if_true,
  if_false,
}
use native.Mathlib.Omega.{arith}
use mathlib.Core.Path.{subst}
use mathlib.Core.List.{append_assoc, append-nil}
use mathlib.Core.Option.{some-injective}
use libmihomo_android.GeoUpdate.{
  Settings, Paths, Disk, geo_paths_in_use, seen_path, scan, is_empty, geo_update_due, interval_of,
}

is_empty-concat : (files : List String) (path : String) → is_empty (files ++ (path ∷ [])) ≡ false
is_empty-concat [] path = refl
is_empty-concat (f ∷ files) path = refl

-- The early return of `geoUpdateDue`.
abbrev gate : Bool → Bool → List String × Bool → List String × Bool
gate a b r = if not a || not b then ([], false) else r

gated :
    (a b d : Bool) (ps : List String)
    → ((gate a b (ps, d)).1 ≡ true) ↔ (a ≡ true) × (b ≡ true) × (d ≡ true)
gated a b d ps = ground arith

gated-paths :
    (a b d : Bool) (ps : List String) → (gate a b (ps, d)).1 ≡ true → (gate a b (ps, d)).0 ≡ ps
gated-paths true true d ps e = refl
gated-paths true false d ps e = cc
gated-paths false b d ps e = cc

module _ {S : Type 0} (disk : Disk S) where
  -- A path of the list whose file has the age or more.
  abbrev pub IsOld : S → List String → ℕ → ℕ → Type 0
  IsOld s paths age now =
      (p : String) × (contains paths p ≡ true)
      × ((t : ℕ) × (disk.stat p s ≡ some t) × (t + age ≤ now))

  -- What the loop has found behind the paths `before`: no file, or the time of the oldest one.
  pub record NoFile (s : S) (before : List String) (found : List String × ℕ) : Type 0 where
    pub nothing : found ≡ ([], 0)
    pub missing : (p : String) → contains before p ≡ true → disk.stat p s ≡ none

  pub record Oldest (s : S) (before : List String) (found : List String × ℕ) : Type 0 where
    pub listed : is_empty found.0 ≡ false
    pub timed : 0 < found.1
    pub reached : (p : String) × (contains before p ≡ true) × (disk.stat p s ≡ some found.1)
    pub least :
        (p : String) (t : ℕ)
        → contains before p ≡ true
        → disk.stat p s ≡ some t
        → (found.1 ≤ t) × (contains found.0 p ≡ true)

  abbrev Scanned : S → List String → List String × ℕ → Type 0
  Scanned s before found = NoFile s before found ⊎ Oldest s before found

  module _ (s : S) (timed : (p : String) → ¬ (disk.stat p s ≡ some 0)) where
    same :
        (p q : String) (t u : ℕ) → p ≡ q → disk.stat p s ≡ some t → disk.stat q s ≡ some u → t ≡ u
    same p q t u e a b = some-injective t u (sym a ∙ ap (λ n. disk.stat n s) e ∙ b)

    pub later : (p : String) (t : ℕ) → disk.stat p s ≡ some t → 0 < t
    later p zero e = elim (timed p e) [ ]
    later p (suc t) e = omega arith

    Scanned-path :
        (before : List String) (found : List String × ℕ) (path : String) (o : Option ℕ)
        → disk.stat path s ≡ o
        → Scanned s before found
        → Scanned s (before ++ (path ∷ [])) (seen_path path o found)
    unfolding seen_path
    Scanned-path before found path none e (inl v) = inl record {
      nothing = v.nothing;
      missing = λ p h. elim (Bool-cases (path == p)) [
        | inl q ↦ subst (λ n. disk.stat n s ≡ none) ((eq_iff path p).0 q) e
        | inr q ↦ v.missing p (ground (arith, contains-concat before path p))
      ];
    }
    Scanned-path before found path none e (inr v) = inr record {
      listed = v.listed;
      timed = v.timed;
      reached = let (p, h, q) = v.reached in (p, ground (arith, contains-concat before path p), q);
      least = λ p t h q. elim (Bool-cases (path == p)) [
        | inl k ↦ cc (e, q, ap (λ n. disk.stat n s) ((eq_iff path p).0 k))
        | inr k ↦ v.least p t (ground (arith, contains-concat before path p)) q
      ];
    }
    Scanned-path before (files, old) path (some t) e (inl v) =
        let first : old ≡ 0 = ap (λ f. f.1) v.nothing in
        let taken : (if eqb old 0 || ltb t old then t else old) ≡ t = ground (arith, first) in
        inr record {
          listed = is_empty-concat files path;
          timed = subst (λ n. 0 < n) (sym taken) (later path t e);
          reached = (
            path,
            ground (arith, contains-concat before path path, ==_refl path),
            e ∙ ap some (sym taken),
          );
          least = λ p u h q. elim (Bool-cases (path == p)) [
            | inl k ↦ (
              omega (arith, taken, same path p t u ((eq_iff path p).0 k) e q),
              ground (arith, contains-concat files path p),
            )
            | inr k ↦ cc (q, v.missing p (ground (arith, contains-concat before path p)))
          ];
        }
    Scanned-path before (files, old) path (some t) e (inr v) = inr record {
      listed = is_empty-concat files path;
      timed = ground (arith, v.timed, later path t e);
      reached =
          let (p, h, q) = v.reached in
          elim (Bool-cases (eqb old 0 || ltb t old)) [
            | inl k ↦ (
              path,
              ground (arith, contains-concat before path path, ==_refl path),
              e ∙ ap some (sym (if_true _ old k)),
            )
            | inr k ↦ (
              p,
              ground (arith, contains-concat before path p),
              q ∙ ap some (sym (if_false _ t k)),
            )
          ];
      least = λ p u h q. elim (Bool-cases (path == p)) [
        | inl k ↦ (
          ground (arith, same path p t u ((eq_iff path p).0 k) e q),
          ground (arith, contains-concat files path p),
        )
        | inr k ↦
            let (a, b) = v.least p u (ground (arith, contains-concat before path p)) q in
            (ground (arith, a), ground (arith, b, contains-concat files path p))
      ];
    }

    scan-Scanned :
        (before paths : List String) (found : List String × ℕ)
        → Scanned s before found
        → Scanned s (before ++ paths) (scan disk s paths found)
    unfolding scan
    scan-Scanned before [] found v = subst (λ b. Scanned s b found) (sym (append-nil before)) v
    scan-Scanned before (path ∷ paths) found v =
        subst (λ b. Scanned s b (scan disk s (path ∷ paths) found))
          (append_assoc before (path ∷ []) paths)
          (scan-Scanned (before ++ (path ∷ [])) paths (seen_path path (disk.stat path s) found)
            (Scanned-path before found path (disk.stat path s) refl v))

    found_due :
        (paths : List String) (found : List String × ℕ) (age now : ℕ)
        → Scanned s paths found
        → (not (is_empty found.0) && leb (found.1 + age) now ≡ true) ↔ IsOld s paths age now
    found_due paths found age now (inl v) =
        (λ e. cc (e, ap (λ f. is_empty f.0) v.nothing), λ (p, h, (t, q, l)). cc (q, v.missing p h))
    found_due paths found age now (inr v) = (
      λ e. let (p, h, q) = v.reached in (p, h, (found.1, q, ground (arith, e))),
      λ (p, h, (t, q, l)). let (a, b) = v.least p t h q in ground (arith, a, l, v.listed),
    )

    on_disk :
        (paths : List String) (found : List String × ℕ)
        → Scanned s paths found
        → (p : String) (t : ℕ) → contains paths p ≡ true
        → disk.stat p s ≡ some t
        → contains found.0 p ≡ true
    on_disk paths found (inl v) p t h q = cc (q, v.missing p h)
    on_disk paths found (inr v) p t h q = (v.least p t h q).1

    -- An update is due exactly when updates are automatic, their interval, as the int64 that it is, is positive, and
    -- the file of some database in use is at least that old. (No file has the zero time.)
    pub geo_update_due_lem :
        (c : Paths) (g : Settings) (now : ℕ)
        → ((geo_update_due disk c g now s).1 ≡ true)
          ↔ (g.auto_update ≡ true)
            × (ltb_ℤ (pos 0) (interval_of g.update_interval) ≡ true)
            × IsOld s (geo_paths_in_use c g) (pos_part (interval_of g.update_interval)) now
    unfolding geo_update_due
    geo_update_due_lem c g now =
        let age = pos_part (interval_of g.update_interval) in
        let found = scan disk s (geo_paths_in_use c g) ([], 0) in
        let (forth, back) = found_due (geo_paths_in_use c g) found age now (
          scan-Scanned [] (geo_paths_in_use c g) ([], 0)
            (inl record { nothing = refl; missing = λ p h. cc })) in
        let (opened, shut) =
          gated g.auto_update (ltb_ℤ (pos 0) (interval_of g.update_interval))
            (not (is_empty found.0) && leb (found.1 + age) now) found.0 in
        (λ e. let (a, b, d) = opened e in (a, b, forth d), λ (a, b, old). shut (a, b, back old))

    -- Where an update is due, all the files of databases in use are among the paths returned.
    pub geo_update_due-paths :
        (c : Paths) (g : Settings) (now : ℕ)
        → (geo_update_due disk c g now s).1 ≡ true
        → (p : String) (t : ℕ) → contains (geo_paths_in_use c g) p ≡ true
        → disk.stat p s ≡ some t
        → contains (geo_update_due disk c g now s).0 p ≡ true
    unfolding geo_update_due
    geo_update_due-paths c g now e p t h q =
        let found = scan disk s (geo_paths_in_use c g) ([], 0) in
        let same =
          gated-paths g.auto_update (ltb_ℤ (pos 0) (interval_of g.update_interval))
            (not (is_empty found.0) && leb (found.1 + pos_part (interval_of g.update_interval)) now)
            found.0 e in
        subst (λ ps. contains ps p ≡ true) (sym same)
          (on_disk (geo_paths_in_use c g) found
            (scan-Scanned [] (geo_paths_in_use c g) ([], 0)
              (inl record { nothing = refl; missing = λ p h. cc }))
            p t h q)
