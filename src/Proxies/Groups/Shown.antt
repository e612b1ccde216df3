-- ===== src/Proxies/Groups/Shown.antt =====
-- The delays of a group that the host is shown after its test.
use libmihomo_android.Base.{
  ◌==◌, ==_refl, IsNodup, ℕ, String, List, [], ◌∷◌, ◌++◌, some, true, false, if◌then◌else◌, ℤ, pos,
  negsuc, contains, ◌≡◌, refl, ap, ◌∙◌, eq_iff, if_true,
}
use mathlib.Core.Path.{subst}
use native.Mathlib.Omega.{arith}
use libmihomo_android.Proxies.Groups.{
  Core, GroupDelay, put, test_members, mark_dead, tested, measured, test_group, url_of,
}
use libmihomo_android.Proxies.Groups.Seats.{mark_dead_lem, parts}

module _ {S : Type 0} (core : Core S) where
  -- The results of the tests of some members, one after the other, and the state that they leave.
  abbrev pub results : String → List String → S → List ℤ
  results url [] s = []
  results url (m ∷ ms) s = let (t, delay) = core.test_proxy m url s in delay ∷ results url ms t

  abbrev pub tested_state : String → List String → S → S
  tested_state url [] s = s
  tested_state url (m ∷ ms) s = tested_state url ms (core.test_proxy m url s).0

  -- Each member with its result, or with -1 where it is not alive.
  abbrev pub shown : String → S → List String → List ℤ → List GroupDelay
  shown url u [] ds = []
  shown url u (m ∷ ms) [] = []
  shown url u (m ∷ ms) (d ∷ ds) =
      record { name = m; url = url; value = if core.alive m url u then d else negsuc 0 }
      ∷ shown url u ms ds

  test_members-state :
      (url : String) (ms : List String) (out : String → ℤ) (s : S)
      → (test_members core url ms out s).0 ≡ tested_state url ms s
  unfolding test_members
  test_members-state url [] out s = refl
  test_members-state url (m ∷ ms) out s =
      test_members-state url ms (put m (core.test_proxy m url s).1 out) (core.test_proxy m url s).0

  test_members-others :
      (url : String) (ms : List String) (out : String → ℤ) (s : S) (n : String)
      → contains ms n ≡ false
      → (test_members core url ms out s).1 n ≡ out n
  unfolding test_members
  test_members-others url [] out s n h = refl
  test_members-others url (m ∷ ms) out s n h =
      test_members-others url ms (put m (core.test_proxy m url s).1 out) (core.test_proxy m url s).0
        n (ground arith)
      ∙ ground (arith, eq_iff n m, eq_iff m n)

  measured-shown :
      (url : String) (u : S) (ms : List String) (out f : String → ℤ) (s : S)
      → IsNodup ms
      → ((m : String)
          → contains ms m ≡ true
          → f m ≡ (if core.alive m url u then (test_members core url ms out s).1 m else negsuc 0))
      → measured core url f ms ≡ shown url u ms (results url ms s)
  unfolding measured test_members
  measured-shown url u [] out f s distinct h = refl
  measured-shown url u (m ∷ ms) out f s (fresh, distinct) h =
      let (t, delay) = core.test_proxy m url s in
      let mine : f m ≡ (if core.alive m url u then delay else negsuc 0) =
        h m (ground (arith, ==_refl m))
        ∙ ap (λ d. if core.alive m url u then d else negsuc 0)
            (test_members-others url ms (put m delay out) t m fresh
              ∙ if_true (m == m) (out m) (==_refl m)) in
      let others =
        measured-shown url u ms (put m delay out) f t distinct (λ n k. h n (ground (arith, k))) in
      cc (mine, others)

  module _ (default_url : String) (fuel : ℕ) (name : String) (ms : List String) (s : S)
      (group : core.members name ≡ some ms) where
    -- The host is shown each member first, in the order of the group and under the URL that was tested: with
    -- the result of its test, or with -1 where it is not alive for the URL after all the tests. (No member is
    -- listed twice.)
    pub test_group-shows :
        IsNodup ms
        → (t : S) (found : List GroupDelay)
        → test_group core default_url fuel name s ≡ some (t, found)
        → let url = url_of core default_url name s in
          (more : List GroupDelay) × (found
            ≡ shown url (tested_state url ms s) ms (results url ms s) ++ more)
    unfolding tested
    test_group-shows distinct t found e =
        let (_, (more, listed)) = parts core default_url fuel name ms s group t found e in
        let url = url_of core default_url name s in
        let u = (test_members core url ms (λ n. pos 0) s).0 in
        let delays = (test_members core url ms (λ n. pos 0) s).1 in
        let values =
          measured-shown url u ms (λ n. pos 0) (mark_dead core url u ms delays) s distinct
            (mark_dead_lem core url u ms delays) in
        let same =
          subst
            (λ v.
              measured core url (mark_dead core url u ms delays) ms
              ≡ shown url v ms (results url ms s))
            (test_members-state url ms (λ n. pos 0) s) values in
        (more, listed ∙ ap (λ xs. xs ++ more) same)
