-- ===== src/Proxies/GroupTests.antt =====
-- A url-test group on small inputs, and each theorem on its test at an input.
use libmihomo_android.Base.{
  String, ◌==◌, List, [], ◌∷◌, ◌++◌, none, some, true, if◌then◌else◌, pos, contains, ◌≡◌, ◌≢◌, ◌&&◌,
  refl, ◌⊎◌, inl, inr, Bool-cases, if_true, if_false, sym, ◌∙◌, eq_iff,
}
use native.Mathlib.Omega.{arith}
use mathlib.Core.Path.{subst}
use mathlib.Core.Option.{some-injective}
use libmihomo_android.GroupTest.Pick.{fastest, seat}
use libmihomo_android.GroupTest.Pick.Best.{UrlTest, IsFastest, NoneWorks}
use libmihomo_android.Proxies.Groups.{
  Core, GroupDelay, seater, url_of, tested, test_group, handle_test_groups,
}
use libmihomo_android.Proxies.Groups.Shown
use libmihomo_android.Proxies.Groups.Shown.{tested_state, results, test_group-shows}
use libmihomo_android.Proxies.Groups.Seats.{live, after, test_group-seats, test_group-pinned}
use libmihomo_android.Proxies.Groups.Ends.{IsClosed, handle_test_groups-total}

-- The url-test group "auto" with two members; its pin and its pick are the state.
abbrev auto_members : List String
auto_members = "slow" ∷ "fast" ∷ []

abbrev member_of : String → String
member_of n = if n == "fast" then "fast" else "slow"

abbrev core : Core (String × String)
core = record {
  members = λ n. if n == "auto" then some auto_members else none;
  url_test = λ n. n == "auto";
  state_of = λ n s. record { test_url = ""; fixed = s.0 };
  alive = λ n url s. true;
  test_proxy = λ n url s. (s, if n == "fast" then pos 20 else pos 90);
  force_set = λ g n s. (n, s.1);
  read_now = λ g s. let p = member_of (if s.0 == "" then s.1 else s.0) in (p, (s.0, p));
  pick = λ g s. s.1;
}

abbrev known : List String
known = "auto" ∷ "slow" ∷ "fast" ∷ []

abbrev stale : String × String
stale = ("", "slow")

abbrev seated : String × String
seated = ("", "fast")

abbrev shown : List GroupDelay
shown =
    record { name = "slow"; url = "http://a"; value = pos 90 }
    ∷ record { name = "fast"; url = "http://a"; value = pos 20 }
    ∷ []

auto_runs : test_group core "http://a" 4 "auto" stale ≡ some (seated, shown)
unfolding test_group fastest seat
auto_runs = refl

-- A pin on a member is the member that the group reads.
adopted :
    (pin last : String)
    → pin ≢ ""
    → contains auto_members pin && true ≡ true
    → member_of (if pin == "" then last else pin) ≡ pin
adopted pin last h listed = elim (Bool-cases (pin == "fast")) [
  | inl fast ↦
      rw (if_false (pin == "") last (ground (arith, eq_iff pin "")), fast)
        (sym ((eq_iff pin "fast").0 fast))
  | inr other ↦
      rw (if_false (pin == "") last (ground (arith, eq_iff pin "")), other)
        (ground (arith, eq_iff "slow" pin, eq_iff "fast" pin, eq_iff pin "fast"))
]

law : UrlTest (seater core "auto") (live core auto_members "http://a")
law = record {
  live_set = λ m n x. refl;
  fixed_set = λ n x. refl;
  pick_unset = λ x. refl;
  adopts = λ x h alive. adopted x.0 x.1 h alive;
}

test_group-seats_example :
    let delays = (after core "http://a" 4 "auto" auto_members stale refl).1 in
    IsFastest delays auto_members "fast" × (seated.0 ≡ "")
    ⊎ NoneWorks delays auto_members × (seated ≡ stale)
unfolding tested
test_group-seats_example =
    test_group-seats core "http://a" 4 "auto" auto_members stale refl law refl refl refl seated
      shown auto_runs

test_group-shows_example :
    let url = url_of core "http://a" "auto" stale in
    (more : List GroupDelay) × (shown
      ≡ Shown.shown core url
          (tested_state core url auto_members stale)
          auto_members
          (results core url auto_members stale)
        ++ more)
test_group-shows_example =
    test_group-shows core "http://a" 4 "auto" auto_members stale refl (refl, (refl, tt)) seated
      shown auto_runs

abbrev pinned : String × String
pinned = ("slow", "slow")

pinned_runs : test_group core "http://a" 4 "auto" pinned ≡ some (pinned, shown)
unfolding test_group fastest
pinned_runs = refl

test_group-pinned_example : pinned ≡ (after core "http://a" 4 "auto" auto_members pinned refl).0
unfolding tested
test_group-pinned_example =
    test_group-pinned core "http://a" 4 "auto" auto_members pinned refl
      (ground (arith, eq_iff "slow" "")) pinned shown pinned_runs

now_listed : (n : String) → contains known (member_of n) ≡ true
now_listed n = elim (Bool-cases (n == "fast")) [ inl e ↦ rw e | inr e ↦ rw e ]

core-IsClosed : IsClosed core known
core-IsClosed = record {
  members_known = λ x m ms k e h. members_listed x m ms e h;
  now_known = λ x s k h. now_listed (if s.0 == "" then s.1 else s.0);
}
  where
    members_listed :
        (x m : String) (ms : List String)
        → (if x == "auto" then some auto_members else none) ≡ some ms
        → contains ms m ≡ true
        → contains known m ≡ true
    members_listed x m ms e h = elim (Bool-cases (x == "auto")) [
      | inl named ↦
          let same = some-injective auto_members ms (sym (if_true (x == "auto") none named) ∙ e) in
          ground (arith, subst (λ xs. contains xs m ≡ true) (sym same) h)
      | inr other ↦ cc (e, if_false (x == "auto") (some auto_members) other)
    ]

handle_test_groups-total_example :
    (q : (String × String) × List GroupDelay) × (handle_test_groups core "http://a" 4
        ("auto" ∷ [])
        stale
      ≡ some q)
handle_test_groups-total_example =
    handle_test_groups-total core known core-IsClosed "http://a" ("auto" ∷ []) stale
      (λ n h. ground arith)
