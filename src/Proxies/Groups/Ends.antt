-- ===== src/Proxies/Groups/Ends.antt =====
-- The fuel of a test of groups.
use libmihomo_android.Base.{
  suc, String, List, [], ◌∷◌, Option, none, some, true, if◌then◌else◌, contains, ◌≡◌, ◌≢◌, refl,
  sym, ap, ◌∙◌, length, ℤ, ◌++◌, ==_refl,
}
use mathlib.Core.Path.{subst}
use mathlib.Core.Option.{some-injective}
use native.Mathlib.Omega.{arith}
use libmihomo_android.GroupTest.Order.Path.{Reach, here, down}
use libmihomo_android.GroupTest.Order.Ends.{order-total}
use libmihomo_android.GroupTest.Order.Correct.{contains-order}
use libmihomo_android.GroupTest.Pick.Chain.{leaf_lem}
use libmihomo_android.Proxies.Groups.{
  Core, GroupDelay, groups_in, children, step, step_of, test_found, tested, seat_best, measured,
  test_all, url_of, leaves, report, test_group, handle_test_groups,
}

-- The names that tests can meet: with a group come its members, and the member that it picks.
pub record IsClosed {S : Type 0} (core : Core S) (known : List String) : Type 0 where
  pub members_known :
      (x m : String) (ms : List String)
      → contains known x ≡ true
      → core.members x ≡ some ms
      → contains ms m ≡ true
      → contains known m ≡ true
  pub now_known :
      (x : String) (s : S)
      → contains known x ≡ true
      → (core.read_now x s).0 ≢ ""
      → contains known ((core.read_now x s).0) ≡ true

module _ {S : Type 0} (core : Core S) (known : List String) (law : IsClosed core known) where
  contains-groups_in :
      (ms : List String) (c : String) → contains (groups_in core ms) c ≡ true → contains ms c ≡ true
  unfolding groups_in
  contains-groups_in [] c h = h
  contains-groups_in (m ∷ ms) c h = seen (core.members m) (contains-groups_in ms c) h
    where
      seen :
          (o : Option (List String))
          → (contains (groups_in core ms) c ≡ true → contains ms c ≡ true)
          → contains (elim o [ none ↦ groups_in core ms | some _ ↦ m ∷ groups_in core ms ]) c ≡ true
          → contains (m ∷ ms) c ≡ true
      seen none ih k = ground (arith, ih k)
      seen (some xs) ih k = ground (arith, ih)

  children-known :
      (x c : String)
      → contains known x ≡ true
      → contains (children core x) c ≡ true
      → contains known c ≡ true
  unfolding children
  children-known x c k h = seen (core.members x) refl h
    where
      seen :
          (o : Option (List String))
          → core.members x ≡ o
          → contains (elim o [ none ↦ [] | some ms ↦ groups_in core ms ]) c ≡ true
          → contains known c ≡ true
      seen none e h = cc
      seen (some ms) e h = law.members_known x c ms k e (contains-groups_in ms c h)

  Reach-known :
      (x c : String) → contains known x ≡ true → Reach (children core) x c → contains known c ≡ true
  Reach-known x _ k here = k
  Reach-known x _ k (down {b} {c} p h) = children-known b c (Reach-known x b k p) h

  module _ (default_url : String) where
    step-known :
        (s : S) (x now url : String)
        → contains known x ≡ true
        → step core default_url s x ≡ some (now, url)
        → now ≢ ""
        → contains known now ≡ true
    unfolding step step_of
    step-known s x now url k e named = seen (core.members x) e
      where
        seen :
            (o : Option (List String))
            → step_of core default_url x s o ≡ some (now, url)
            → contains known now ≡ true
        seen none e = cc
        seen (some ms) e =
            let same = ap (λ r. r.0) (some-injective _ _ e) in
            subst (λ n. contains known n ≡ true) same
              (law.now_known x s k (λ p. named (sym same ∙ p)))

    leaves-total :
        (s : S) (delays : String → ℤ) (ms : List String)
        → ((m : String) → contains ms m ≡ true → contains known m ≡ true)
        → (found : List GroupDelay) × (leaves core default_url (suc (length known)) s delays ms
            ≡ some found)
    unfolding leaves
    leaves-total s delays [] h = ([], refl)
    leaves-total s delays (m ∷ ms) h =
        let (r, e, _) =
          leaf_lem (step core default_url s) known (step-known s) m
            (h m (ground (arith, ==_refl m))) in
        let (rest, q) = leaves-total s delays ms (λ n k. h n (ground (arith, k))) in
        (if r.2 then record { name = r.0; url = r.1; value = delays m } ∷ rest else rest, rw (e, q))

    report-total :
        (name url : String) (ms : List String) (r : S × (String → ℤ))
        → ((m : String) → contains ms m ≡ true → contains known m ≡ true)
        → (q : S × List GroupDelay) × (report core default_url (suc (length known)) name url ms r
            ≡ some q)
    unfolding report
    report-total name url ms (u, delays) h =
        let t = if core.url_test name then seat_best core name ms delays u else u in
        let (more, e) = leaves-total t delays ms h in
        ((t, measured core url delays ms ++ more), rw e)

    test_group-total :
        (name : String) (s : S)
        → contains known name ≡ true
        → (q : S × List GroupDelay) × (test_group core default_url (suc (length known)) name s
            ≡ some q)
    unfolding test_group test_found
    test_group-total name s k = seen (core.members name) refl
      where
        seen :
            (o : Option (List String))
            → core.members name ≡ o
            → (q : S × List GroupDelay) × (test_found core default_url (suc (length known)) name s o
                ≡ some q)
        seen none e = ((s, []), refl)
        seen (some ms) e =
            report-total name (url_of core default_url name s) ms
              (tested core (url_of core default_url name s) ms s)
              (λ m h. law.members_known name m ms k e h)

    test_all-total :
        (names : List String) (s : S)
        → ((n : String) → contains names n ≡ true → contains known n ≡ true)
        → (q : S × List GroupDelay) × (test_all core default_url (suc (length known)) names s
            ≡ some q)
    unfolding test_all
    test_all-total [] s h = ((s, []), refl)
    test_all-total (n ∷ names) s h =
        let (r, e) = test_group-total n s (h n (ground (arith, ==_refl n))) in
        let (q, p) = test_all-total names r.0 (λ m k. h m (ground (arith, k))) in
        ((q.0, r.1 ++ q.1), rw (e, p))

    -- Where all groups and members that the test can meet are among finitely many names, a test of groups
    -- returns: as much fuel as one more than there are names is enough for the order and for each leaf.
    pub handle_test_groups-total :
        (names : List String) (s : S)
        → ((n : String) → contains names n ≡ true → contains known n ≡ true)
        → (q : S × List GroupDelay) × (handle_test_groups core default_url
              (suc (length known))
              names
              s
            ≡ some q)
    unfolding handle_test_groups
    handle_test_groups-total names s h =
        let (out, e) = order-total (children core) known children-known names h in
        let (r, p) = test_all-total out s (λ n k.
          let (root, listed, below) =
            (contains-order (children core) (suc (length known)) names out e n).0 k in
          Reach-known root n (h root listed) below) in
        (r, rw (e, p))
