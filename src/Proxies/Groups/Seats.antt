-- ===== src/Proxies/Groups/Seats.antt =====
-- The pick of a url-test group after its test.
use libmihomo_android.Base.{
  ◌&&◌, Bool, ℕ, String, List, [], ◌∷◌, ◌++◌, Option, none, some, ◌>>=◌, true, false, if◌then◌else◌,
  ℤ, pos, negsuc, contains, ◌≡◌, ◌≢◌, refl, sym, ap, ◌∙◌, ◌⊎◌, inl, inr, eq_iff, Bool-cases,
  if_true, if_false,
}
use mathlib.Core.Path.{subst}
use mathlib.Core.Option.{some-injective}
use native.Mathlib.Omega.{arith}
use libmihomo_android.GroupTest.Pick.{fastest, seat}
use libmihomo_android.GroupTest.Pick.Best.{IsFastest, NoneWorks, fastest_lem, UrlTest, seat_lem}
use libmihomo_android.Proxies.Groups.{
  Core, GroupDelay, seater, put, test_members, mark_dead, tested, measured, seat_best, leaves,
  report, test_group, url_of,
}

module _ {S : Type 0} (core : Core S) where
  mark_dead_out :
      (url : String) (s : S) (ms : List String) (delays : String → ℤ) (n : String)
      → contains ms n ≡ false
      → mark_dead core url s ms delays n ≡ delays n
  unfolding mark_dead
  mark_dead_out url s [] delays n h = refl
  mark_dead_out url s (m ∷ ms) delays n h = ground (
    arith,
    mark_dead_out url s ms (if core.alive m url s then delays else put m (negsuc 0) delays) n,
    eq_iff n m,
  )

  -- A member that is not alive is shown with -1, any other with the delay that was measured.
  pub mark_dead_lem :
      (url : String) (s : S) (ms : List String) (delays : String → ℤ) (n : String)
      → contains ms n ≡ true
      → mark_dead core url s ms delays n ≡ (if core.alive n url s then delays n else negsuc 0)
  unfolding mark_dead
  mark_dead_lem url s [] delays n h = cc
  mark_dead_lem url s (m ∷ ms) delays n h = elim (Bool-cases (contains ms n)) [
    | inl again ↦ ground (
      arith,
      mark_dead_lem url s ms (if core.alive m url s then delays else put m (negsuc 0) delays) n
          again,
      eq_iff n m,
      eq_iff m n,
    )
    | inr last ↦ ground (
      arith,
      mark_dead_out url s ms (if core.alive m url s then delays else put m (negsuc 0) delays) n
          last,
      eq_iff n m,
      eq_iff m n,
    )
  ]

  -- A member that a pin can be adopted for, as the group goes by `url`.
  abbrev pub live : List String → String → String → S → Bool
  live ms url n s = contains ms n && core.alive n url s

  mark_dead-live :
      (url : String) (s : S) (ms : List String) (delays : String → ℤ) (n : String)
      → IsFastest (mark_dead core url s ms delays) ms n
      → live ms url n s ≡ true
  mark_dead-live url s ms delays n f =
      ground (arith, f.member, f.works, mark_dead_lem url s ms delays n f.member)

  module _ (name url : String) (ms : List String) (delays : String → ℤ) (s : S)
      (law : UrlTest (seater core name) (live ms url))
      (working : (n : String) → IsFastest delays ms n → live ms url n s ≡ true)
      (named : contains ms "" ≡ false) where
    -- What a url-test group without a pin is left with.
    abbrev pub IsSeated : S → Type 0
    IsSeated t =
        IsFastest delays ms (core.pick name t) × ((core.state_of name t).fixed ≡ "")
        ⊎ NoneWorks delays ms × (t ≡ s)

    seated : (best : String) → IsFastest delays ms best → IsSeated (seat (seater core name) s best)
    seated best f =
        let nonempty : best ≢ "" = λ e. cc (f.member, ap (contains ms) e) in
        let (p, q) =
          seat_lem (seater core name) (live ms url) law s best nonempty (working best f) in
        inl (subst (IsFastest delays ms) (sym p) f, q)

    seat_best-seats : (core.state_of name s).fixed ≡ "" → IsSeated (seat_best core name ms delays s)
    unfolding seat_best
    seat_best-seats e = elim (fastest_lem delays ms named) [
      | inl (found, f) ↦
          subst IsSeated
            (sym (if_true _ s (ground (arith, found, eq_iff (core.state_of name s).fixed ""))))
            (seated (fastest delays ms).0 f)
      | inr (found, empty, broken) ↦
          subst IsSeated
            (sym (
              if_false _ (seat (seater core name) s (fastest delays ms).0) (ground (arith, found))))
            (inr (broken, refl))
    ]

  joined :
      (o : Option (List GroupDelay)) (u : S) (first : List GroupDelay) (t : S)
      (found : List GroupDelay)
      → ◌>>=◌ {B = S × List GroupDelay} o (λ more. some (u, first ++ more)) ≡ some (t, found)
      → (t ≡ u) × ((more : List GroupDelay) × (found ≡ first ++ more))
  joined none u first t found e = cc
  joined (some more) u first t found e =
      let pair = sym (some-injective _ _ e) in (ap (λ r. r.0) pair, (more, ap (λ r. r.1) pair))

  tested-live :
      (url : String) (ms : List String) (s : S) (n : String)
      → IsFastest (tested core url ms s).1 ms n
      → live ms url n (tested core url ms s).0 ≡ true
  unfolding tested
  tested-live url ms s n f =
      mark_dead-live url (test_members core url ms (λ n. pos 0) s).0 ms
        (test_members core url ms (λ n. pos 0) s).1 n f

  module _ (default_url : String) (fuel : ℕ) (name : String) (ms : List String) (s : S)
      (group : core.members name ≡ some ms) where
    -- The state and the delays after the members were tested, the dead ones among them marked.
    abbrev pub after : S × (String → ℤ)
    after = tested core (url_of core default_url name s) ms s

    pub parts :
        (t : S) (found : List GroupDelay)
        → test_group core default_url fuel name s ≡ some (t, found)
        → (t ≡ (if core.url_test name then seat_best core name ms after.1 after.0 else after.0))
          × ((more : List GroupDelay) × (found
                ≡ measured core (url_of core default_url name s) after.1 ms ++ more))
    unfolding test_group report
    parts t found e =
        let u = if core.url_test name then seat_best core name ms after.1 after.0 else after.0 in
        joined (leaves core default_url fuel u after.1 ms) u
          (measured core (url_of core default_url name s) after.1 ms) t found
          (sym (
              ap
                (λ o. elim o [
                  | none ↦ some (s, [])
                  | some xs ↦
                      report core default_url fuel name (url_of core default_url name s) xs
                        (tested core (url_of core default_url name s) xs s)
                ])
                group)
            ∙ e)

    -- A url-test group with no pin when its members are tested picks, after its test, the first of the
    -- members with the lowest delay that is shown, and has no pin; where no member works nothing is changed.
    -- (It adopts the pin of a member that is alive for the URL tested, and no member has the empty name.)
    pub test_group-seats :
        (law : UrlTest (seater core name) (live ms (url_of core default_url name s)))
        → contains ms "" ≡ false
        → core.url_test name ≡ true
        → (core.state_of name after.0).fixed ≡ ""
        → (t : S) (found : List GroupDelay)
        → test_group core default_url fuel name s ≡ some (t, found)
        → IsFastest after.1 ms (core.pick name t) × ((core.state_of name t).fixed ≡ "")
          ⊎ NoneWorks after.1 ms × (t ≡ after.0)
    test_group-seats law named kind free t found e =
        let url = url_of core default_url name s in
        let working = tested-live url ms s in
        subst (IsSeated name url ms after.1 after.0 law working named)
          (sym ((parts t found e).0 ∙ if_true _ after.0 kind))
          (seat_best-seats name url ms after.1 after.0 law working named free)

    -- A group that the user has pinned, by the end of the test of its members, is left alone.
    pub test_group-pinned :
        (core.state_of name after.0).fixed ≢ ""
        → (t : S) (found : List GroupDelay)
        → test_group core default_url fuel name s ≡ some (t, found)
        → t ≡ after.0
    unfolding seat_best
    test_group-pinned pinned t found e = (parts t found e).0 ∙ kept
      where
        kept :
            (if core.url_test name then seat_best core name ms after.1 after.0 else after.0)
            ≡ after.0
        kept = ground (arith, eq_iff (core.state_of name after.0).fixed "")
