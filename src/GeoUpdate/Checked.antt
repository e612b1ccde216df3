-- ===== src/GeoUpdate/Checked.antt =====
-- The files after a turn of the loop that has updated the databases.
use libmihomo_android.Base.{
  ℕ, ◌+◌, ◌≤◌, ◌<◌, String, ◌==◌, eq_iff, List, [], ◌∷◌, Option, none, some, true, false, pos_part,
  contains, ◌≡◌, refl, sym, ◌∙◌, ap, ◌⊎◌, inl, inr, Bool-cases, if_true,
}
use native.Mathlib.Omega.{arith}
use mathlib.Core.Option.{some-injective}
use libmihomo_android.GeoUpdate.{
  Settings, Paths, Disk, geo_paths_in_use, geo_update_due, interval_of, mark_geo_checked, marked,
  turn,
}
use libmihomo_android.GeoUpdate.Due.{later, geo_update_due_lem, geo_update_due-paths}

-- No file has the zero time, and `Chtimes` sets the time of the file that it names, and no other.
pub record Times {S : Type 0} (disk : Disk S) : Type 0 where
  pub timed : (p : String) (s : S) → ¬ (disk.stat p s ≡ some 0)
  pub touched :
      (p : String) (t u : ℕ) (s : S)
      → 0 < u
      → disk.stat p s ≡ some t
      → disk.stat p (disk.chtimes p u s) ≡ some u
  pub absent :
      (p : String) (u : ℕ) (s : S) → disk.stat p s ≡ none → disk.stat p (disk.chtimes p u s) ≡ none
  pub others :
      (p q : String) (u : ℕ) (s : S)
      → (p == q) ≡ false
      → disk.stat q (disk.chtimes p u s) ≡ disk.stat q s

module _ {S : Type 0} (disk : Disk S) (law : Times disk) where
  -- The time of a file after the marking: that of the marking, or what it was for a path that is not marked.
  touched_at :
      (p q : String) (after t : ℕ) (s : S) (o : Option ℕ)
      → 0 < after
      → (p == q) ≡ true
      → disk.stat p s ≡ o
      → disk.stat q (disk.chtimes p after s) ≡ some t
      → t ≡ after
  touched_at p q after t s none h k e r =
      cc (
        r,
        law.absent p after s e,
        ap (λ n. disk.stat n (disk.chtimes p after s)) ((eq_iff p q).0 k),
      )
  touched_at p q after t s (some u) h k e r = some-injective t after (
      sym r
      ∙ ap (λ n. disk.stat n (disk.chtimes p after s)) (sym ((eq_iff p q).0 k))
      ∙ law.touched p u after s h e)

  mark_geo_checked-stat :
      (after : ℕ) (ps : List String) (s : S) (q : String) (t : ℕ)
      → 0 < after
      → disk.stat q (mark_geo_checked disk after ps s) ≡ some t
      → (t ≡ after) ⊎ (contains ps q ≡ false) × (disk.stat q s ≡ some t)
  unfolding mark_geo_checked
  mark_geo_checked-stat after [] s q t h e = inr (refl, e)
  mark_geo_checked-stat after (p ∷ ps) s q t h e =
      elim (mark_geo_checked-stat after ps (disk.chtimes p after s) q t h e) [
        | inl same ↦ inl same
        | inr (out, r) ↦ elim (Bool-cases (p == q)) [
          | inl k ↦ inl (touched_at p q after t s (disk.stat p s) h k refl r)
          | inr k ↦ inr (ground (arith, out, k), sym (law.others p q after s k) ∙ r)
        ]
      ]

  marked-updated :
      (after : ℕ) (ps : List String) (r : S × Option String)
      → r.1 ≡ none
      → marked disk after ps r ≡ mark_geo_checked disk after ps r.0
  unfolding marked
  marked-updated after ps (s, none) e = refl
  marked-updated after ps (s, some why) e = cc

  module _ (c : Paths) (g : Settings) (now after : ℕ) (s : S) (order : now ≤ after)
      (fresh : (p : String) (t : ℕ)
        → disk.stat p s ≡ none
        → disk.stat p (disk.update_geo_databases s).0 ≡ some t
        → now ≤ t) where
    -- The files of databases in use are no older than the start of the turn.
    no_older :
        (geo_update_due disk c g now s).1 ≡ true
        → (p : String) (t : ℕ) → contains (geo_paths_in_use c g) p ≡ true
        → disk.stat p (
            mark_geo_checked disk after
              (geo_update_due disk c g now s).0
              (disk.update_geo_databases s).0)
          ≡ some t
        → now ≤ t
    no_older due p t h e =
        let (_, _, (q, _, (u, r, l))) =
          (geo_update_due_lem disk s (λ n. law.timed n s) c g now).0 due in
        let started : 0 < after = omega (arith, later disk s (λ n. law.timed n s) q u r) in
        elim (mark_geo_checked-stat after (geo_update_due disk c g now s).0
          (disk.update_geo_databases s).0 p t started e) [
            | inl same ↦ omega arith
            | inr (out, was) ↦ known (disk.stat p s) refl out was
          ]
      where
        known :
            (o : Option ℕ)
            → disk.stat p s ≡ o
            → contains (geo_update_due disk c g now s).0 p ≡ false
            → disk.stat p (disk.update_geo_databases s).0 ≡ some t
            → now ≤ t
        known none k out was = fresh p t k was
        known (some u) k out was =
            cc (out, geo_update_due-paths disk s (λ n. law.timed n s) c g now due p u h k)

    ended :
        (geo_update_due disk c g now s).1 ≡ true
        → (disk.update_geo_databases s).1 ≡ none
        → turn disk c g now after s
          ≡ mark_geo_checked disk after
              (geo_update_due disk c g now s).0
              (disk.update_geo_databases s).0
    unfolding turn
    ended due updated =
        if_true (geo_update_due disk c g now s).1 s due
        ∙ marked-updated after (geo_update_due disk c g now s).0 (disk.update_geo_databases s)
            updated

    -- After a turn that was due and has updated the databases, no update is due before an interval (an int64) has
    -- passed since the turn began, where `Chtimes` sets the times of files. (The marking is not before the
    -- turn, and a database that was not on disk is not written with a time before the turn.)
    pub turn-waits :
        (geo_update_due disk c g now s).1 ≡ true
        → (disk.update_geo_databases s).1 ≡ none
        → (at : ℕ) → at < now + pos_part (interval_of g.update_interval)
        → (geo_update_due disk c g at (turn disk c g now after s)).1 ≡ false
    turn-waits due updated at early =
        let t = turn disk c g now after s in
        elim (Bool-cases (geo_update_due disk c g at t).1) [
          | inl again ↦
              let (_, _, (p, h, (u, e, old))) =
                (geo_update_due_lem disk t (λ n. law.timed n t) c g at).0 again in
              let known = no_older due p u h (ap (disk.stat p) (sym (ended due updated)) ∙ e) in
              let never : ⊥ = omega arith in elim never [ ]
          | inr quiet ↦ quiet
        ]
