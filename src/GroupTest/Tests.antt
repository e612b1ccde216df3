-- ===== src/GroupTest/Tests.antt =====
-- grouptest.go on small inputs: the cases of grouptest_test.go, and each theorem at an input.
use libmihomo_android.Base.{
  ◌↔◌, ℕ, zero, suc, String, ◌==◌, List, [], ◌∷◌, ◌≡◌, refl, ◌≢◌, ◌⊎◌, Bool, true, false, Option,
  none, some, if◌then◌else◌, contains, arith, eq_iff, ℤ, pos, negsuc,
}
use native.Mathlib.Decide.{ℕ_discrete}
use libmihomo_android.GroupTest.Order.{order}
use libmihomo_android.GroupTest.Order.Path.{before, Reach}
use libmihomo_android.GroupTest.Order.Ends.{order-total}
use libmihomo_android.GroupTest.Order.Correct.{contains-order, order-children_first, Below}
use libmihomo_android.GroupTest.Run.{
  name_at, update, index, running, finished, System, Step, pass, finish, launch, Steps, here, next,
  clear,
}
use libmihomo_android.GroupTest.Run.Invariant.{parent_waits}
use libmihomo_android.GroupTest.Run.Progress.{run_ends, AllFinished}
use libmihomo_android.GroupTest.Pick.{fastest, Seater, leaf}
use libmihomo_android.GroupTest.Pick.Best.{UrlTest}
use libmihomo_android.GroupTest.Pick.Chain.{leaf_lem, IsLeaf}

-- "vpn" holds "qde", and the two groups "a" and "b" hold one another.
abbrev nested : String → List String
nested x =
    if x == "vpn"
    then "qde" ∷ []
    else if x == "a"
    then "b" ∷ []
    else if x == "b"
    then "a" ∷ []
    else []

abbrev groups : List String
groups = "vpn" ∷ "qde" ∷ "a" ∷ "b" ∷ []

abbrev roots : List String
roots = "vpn" ∷ "qde" ∷ "a" ∷ []

abbrev ordered : List String
ordered = "qde" ∷ "vpn" ∷ "b" ∷ "a" ∷ []

order_runs : order nested 5 roots ≡ some ordered
unfolding order
order_runs = refl

nested_closed :
    (x c : String)
    → contains groups x ≡ true
    → contains (nested x) c ≡ true
    → contains groups c ≡ true
nested_closed x c h k = ground arith

order-total_example : (out : List String) × (order nested 5 roots ≡ some out)
order-total_example = order-total nested groups nested_closed roots (λ r h. ground arith)

contains-order_example : (contains ordered "b" ≡ true) ↔ Below nested roots "b"
contains-order_example = contains-order nested 5 roots ordered order_runs "b"

order-children_first_example :
    (contains (before "vpn" ordered) "qde" ≡ true) ⊎ Reach nested "qde" "vpn"
order-children_first_example =
    order-children_first nested 5 roots ordered order_runs "vpn" "qde" refl refl

-- The child runs first, and its parent waits for it and for nobody else.
abbrev pair : List String
pair = "qde" ∷ "vpn" ∷ []

abbrev at_start : System
at_start = record { procs = λ i. running (nested (name_at pair i)); closed = [] }

abbrev child_done : System
child_done = record { procs = update at_start.procs 0 finished; closed = "qde" ∷ [] }

abbrev awaited : System
awaited = record { procs = update child_done.procs 1 (running []); closed = "qde" ∷ [] }

abbrev all_done : System
all_done = record { procs = update awaited.procs 1 finished; closed = "vpn" ∷ "qde" ∷ [] }

until_awaited : Steps pair (launch pair nested) 2 awaited
unfolding launch index clear ℕ_discrete
until_awaited =
    next (next here (finish 0 (omega arith) refl)) (pass 1 [] [] "qde" (omega arith) refl refl)

until_done : Steps pair (launch pair nested) 3 all_done
unfolding launch ℕ_discrete
until_done = next until_awaited (finish 1 (omega arith) refl)

all_done_stuck : (t : System) → ¬ Step pair all_done t
unfolding ℕ_discrete
all_done_stuck t (pass zero xs ys c lt e ok) = cc
all_done_stuck t (pass (suc zero) xs ys c lt e ok) = cc
all_done_stuck t (pass (suc (suc i)) xs ys c lt e ok) = absurd (omega arith)
all_done_stuck t (finish zero lt e) = cc
all_done_stuck t (finish (suc zero) lt e) = cc
all_done_stuck t (finish (suc (suc i)) lt e) = absurd (omega arith)

parent_waits_example : awaited.procs 0 ≡ finished
unfolding index ℕ_discrete
parent_waits_example =
    parent_waits pair nested (refl, (refl, tt)) until_awaited 1 0 "qde" (omega arith) refl refl
      (omega arith) refl

run_ends_example : AllFinished pair nested 2 all_done × ◌≡◌ {A = ℕ} 3 3
unfolding launch
run_ends_example = run_ends pair nested (refl, (refl, tt)) until_done all_done_stuck

-- TestFastestBreaksATieByMemberOrder, with a member that failed.
abbrev measured : String → ℤ
measured x = if x == "dead" then negsuc 0 else pos 50

fastest_runs : fastest measured ("dead" ∷ "b" ∷ "a" ∷ []) ≡ ("b", true)
unfolding fastest
fastest_runs = refl

-- A url-test group: its pin, and its pick.
abbrev url_test : Seater
url_test = record {
  Group = String × String;
  force_set = λ n (fixed, pick). (n, pick);
  now = λ (fixed, pick). let p = if fixed == "" then pick else fixed in (p, (fixed, p));
  fixed = λ (fixed, pick). fixed;
  pick = λ (fixed, pick). pick;
}

url_test-UrlTest : UrlTest url_test (λ n x. true)
url_test-UrlTest = record {
  fixed_set = λ n x. refl;
  pick_unset = λ x. refl;
  live_set = λ m n x. refl;
  adopts = λ x h alive. ground (arith, eq_iff x.0 "");
}

-- TestLeafFollowsNestedPicksToTheNode, and a cycle.
abbrev picks : String → Option (String × String)
picks x =
    if x == "VPN"
    then some ("qde", "https://a")
    else if x == "qde"
    then some ("qd-grpc", "https://b")
    else if x == "loop"
    then some ("loop", "u")
    else none

abbrev names : List String
names = "VPN" ∷ "qde" ∷ "qd-grpc" ∷ "loop" ∷ []

leaf_runs :
    (leaf picks "VPN" 5 ≡ some ("qd-grpc", "https://b", true))
    × (leaf picks "loop" 5 ≡ some ("", "", false))
unfolding leaf
leaf_runs = (refl, refl)

picks_closed :
    (x now url : String)
    → contains names x ≡ true
    → picks x ≡ some (now, url)
    → now ≢ ""
    → contains names now ≡ true
picks_closed x now url h e k =
    ground (arith, eq_iff "qde" now, eq_iff "qd-grpc" now, eq_iff "loop" now)

leaf_lem_example :
    (r : String × String × Bool) × (leaf picks "VPN" 5 ≡ some r) × IsLeaf picks "VPN" r
leaf_lem_example = leaf_lem picks names picks_closed "VPN" refl
