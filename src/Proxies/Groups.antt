-- ===== src/Proxies/Groups.antt =====
-- `handleTestGroups` and `testMembers` of groups_delay.go, over the order of GroupTest. The groups run one
-- after the other in that order, and the members of a group likewise: of the schedules that `Run` allows, the
-- one in which no goroutine waits.
pub mod Seats
pub mod Shown
pub mod Ends
use libmihomo_android.Base.{
  ℕ, String, ◌==◌, List, [], ◌∷◌, ◌++◌, Option, none, some, ◌>>=◌, Bool, true, false, ◌&&◌,
  if◌then◌else◌, ℤ, pos, negsuc, map,
}
use libmihomo_android.GroupTest.Order.{order}
use libmihomo_android.GroupTest.Pick.{Seater, fastest, seat, leaf}

pub record GroupDelay : Type 0 where
  pub name : String
  pub url : String
  pub value : ℤ

-- `groupState`
pub record GroupState : Type 0 where
  pub test_url : String
  pub fixed : String

-- The groups of `tunnel.Proxies()`, over the state of the core. `members` is `none` for a name that is no
-- group. `test_proxy` is `testProxy` of a member, which also sets what `alive`, its `AliveForTestUrl`, says.
pub record Core (S : Type 0) : Type 0 where
  pub members : String → Option (List String)
  pub url_test : String → Bool
  pub state_of : String → S → GroupState
  pub alive : String → String → S → Bool
  pub test_proxy : String → String → S → S × ℤ
  -- `ForceSet`, a call of `Now` with what it changes, and the member that the group picks.
  pub force_set : String → String → S → S
  pub read_now : String → S → String × S
  pub pick : String → S → String

abbrev pub put : String → ℤ → (String → ℤ) → String → ℤ
put m v delays n = if n == m then v else delays n

module _ {S : Type 0} (core : Core S) where
  abbrev pub seater : String → Seater
  seater name = record {
    Group = S;
    force_set = core.force_set name;
    now = core.read_now name;
    fixed = λ s. (core.state_of name s).fixed;
    pick = core.pick name;
  }

  unfoldable pub groups_in : List String → List String
  groups_in [] = []
  groups_in (m ∷ ms) =
      let rest = groups_in ms in elim (core.members m) [ none ↦ rest | some _ ↦ m ∷ rest ]

  unfoldable pub children : String → List String
  unfolding groups_in
  children name = elim (core.members name) [ none ↦ [] | some ms ↦ groups_in ms ]

  -- `testMembers`, from the delays found so far.
  unfoldable pub test_members : String → List String → (String → ℤ) → S → S × (String → ℤ)
  test_members url [] out s = (s, out)
  test_members url (m ∷ ms) out s =
      let (t, delay) = core.test_proxy m url s in test_members url ms (put m delay out) t

  -- The loop over the members that are not alive.
  unfoldable pub mark_dead : String → S → List String → (String → ℤ) → String → ℤ
  mark_dead url s [] delays = delays
  mark_dead url s (m ∷ ms) delays =
      mark_dead url s ms (if core.alive m url s then delays else put m (negsuc 0) delays)

  -- A `map[string]int` gives 0 for a name that it lacks.
  unfoldable pub tested : String → List String → S → S × (String → ℤ)
  unfolding test_members mark_dead
  tested url ms s =
      let (t, delays) = test_members url ms (λ n. pos 0) s in (t, mark_dead url t ms delays)

  unfoldable pub measured : String → (String → ℤ) → List String → List GroupDelay
  measured url delays [] = []
  measured url delays (m ∷ ms) =
      record { name = m; url = url; value = delays m } ∷ measured url delays ms

  -- The part under `pickMu`, for a url-test group.
  unfoldable pub seat_best : String → List String → (String → ℤ) → S → S
  seat_best name ms delays s =
      let (best, found) = fastest delays ms in
      if found && ((core.state_of name s).fixed == "") then seat (seater name) s best else s

  module _ (default_url : String) where
    unfoldable pub url_of : String → S → String
    url_of name s =
        if (core.state_of name s).test_url == ""
        then default_url
        else (core.state_of name s).test_url

    unfoldable pub step_of : String → S → Option (List String) → Option (String × String)
    unfolding url_of
    step_of name s none = none
    step_of name s (some ms) = some ((core.read_now name s).0, url_of name s)

    -- The closure that `Leaf` is given. What a call of `Now` changes here, the pick that a url-test group has
    -- cached, is left out.
    unfoldable pub step : S → String → Option (String × String)
    unfolding step_of
    step s name = step_of name s (core.members name)

    -- The loop that gives the leaf of each member the delay of the member.
    unfoldable pub leaves : ℕ → S → (String → ℤ) → List String → Option (List GroupDelay)
    unfolding step leaf
    leaves fuel s delays [] = some []
    leaves fuel s delays (m ∷ ms) = do
      r ← leaf (step s) m fuel
      rest ← leaves fuel s delays ms
      some (if r.2 then record { name = r.0; url = r.1; value = delays m } ∷ rest else rest)

    -- What follows the test of the members.
    unfoldable pub report :
        ℕ → String → String → List String → S × (String → ℤ) → Option (S × List GroupDelay)
    unfolding seat_best measured leaves
    report fuel name url ms (s, delays) =
        let t = if core.url_test name then seat_best name ms delays s else s in
        leaves fuel t delays ms >>= λ more. some (t, measured url delays ms ++ more)

    unfoldable pub test_found : ℕ → String → S → Option (List String) → Option (S × List GroupDelay)
    unfolding tested report url_of
    test_found fuel name s none = some (s, [])
    test_found fuel name s (some ms) =
        report fuel name (url_of name s) ms (tested (url_of name s) ms s)

    -- The closure that `Run` is given; `none` means that the fuel for the leaves ran out.
    unfoldable pub test_group : ℕ → String → S → Option (S × List GroupDelay)
    unfolding test_found
    test_group fuel name s = test_found fuel name s (core.members name)

    unfoldable pub test_all : ℕ → List String → S → Option (S × List GroupDelay)
    unfolding test_group
    test_all fuel [] s = some (s, [])
    test_all fuel (name ∷ names) s = do
      r ← test_group fuel name s
      q ← test_all fuel names r.0
      some (q.0, r.1 ++ q.1)

    unfoldable pub handle_test_groups : ℕ → List String → S → Option (S × List GroupDelay)
    unfolding order children test_all
    handle_test_groups fuel names s = do groups ← order children fuel names; test_all fuel groups s
