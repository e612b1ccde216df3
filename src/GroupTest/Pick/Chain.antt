-- ===== src/GroupTest/Pick/Chain.antt =====
-- `Leaf` follows picks through nested groups: it ends, and what it returns is the end of the chain.
use libmihomo_android.Base.{
  ℕ, zero, suc, ◌<◌, String, ◌==◌, List, [], ◌∷◌, ◌≡◌, refl, ◌≢◌, Bool, true, false, not, Option,
  none, some, ◌⊎◌, inl, inr, contains, arith, eq_iff, Bool-cases, Option-cases, unseen,
  unseen-cons_lt, unseen-nil, length,
}
use libmihomo_android.GroupTest.Pick.{leaf_from, leaf}

module _ (step : String → Option (String × String)) where
  -- `b` follows `a` in one pick or more; `url` is the test URL of the last group.
  pub data Picks (a : String) : String → String → Type 0 where
    one : {b url : String} → step a ≡ some (b, url) → b ≢ "" → Picks a b url
    more : {b c u url : String} → Picks a b u → step b ≡ some (c, url) → c ≢ "" → Picks a c url

  -- `a` itself, or a name that follows it.
  abbrev pub Follows : String → String → Type 0
  Follows a b = (a ≡ b) ⊎ ((u : String) × Picks a b u)

  -- What `Leaf` says of `a`.
  pub data IsLeaf (a : String) (r : String × String × Bool) : Type 0 where
    node : step a ≡ none → r ≡ (a, "", false) → IsLeaf a r
    found : {b url : String} → Picks a b url → step b ≡ none → r ≡ (b, url, true) → IsLeaf a r
    unpicked :
        {b url : String} → Follows a b → step b ≡ some ("", url) → r ≡ ("", "", false) → IsLeaf a r
    cyclic : {b url : String} → Follows a b → Picks b b url → r ≡ ("", "", false) → IsLeaf a r

  Picks-ne_none : {a b u : String} → Picks a b u → step a ≢ none
  Picks-ne_none (one e h) k = cc
  Picks-ne_none (more p e h) k = Picks-ne_none p k

  Follows-more : {a b c u : String} → Follows a b → step b ≡ some (c, u) → c ≢ "" → Picks a c u
  Follows-more (inl e) s h = one (rw e s) h
  Follows-more (inr (u, p)) s h = more p s h

  -- The variables of the loop.
  record Chain (a : String) (seen : List String) (cur url : String) : Type 0 where
    behind : (x : String) → contains seen x ≡ true → (u : String) × Picks x cur u
    ahead : (a ≡ cur) × (url ≡ "") ⊎ Picks a cur url

  follows :
      {a : String} {seen : List String} {cur url : String} → Chain a seen cur url → Follows a cur
  follows {url} c = elim c.ahead [ inl (e, _) ↦ inl e | inr p ↦ inr (url, p) ]

  Chain-next :
      {a : String} {seen : List String} {cur url now group_url : String}
      → Chain a seen cur url
      → step cur ≡ some (now, group_url)
      → now ≢ ""
      → Chain a (cur ∷ seen) now group_url
  Chain-next {cur} {group_url} c e h = record {
    behind = λ x k. elim (Bool-cases (cur == x)) [
      | inl p ↦ (group_url, one (rw (← (eq_iff cur x).0 p) e) h)
      | inr p ↦ let (u, q) = c.behind x (ground arith) in (group_url, more q e h)
    ];
    ahead = inr (Follows-more (follows c) e h);
  }

  module _ (known : List String)
      (closed : (x now url : String)
        → contains known x ≡ true
        → step x ≡ some (now, url)
        → now ≢ ""
        → contains known now ≡ true) where
    leaf_from_lem :
        (fuel : ℕ) (a : String) (seen : List String) (cur url : String)
        → contains known cur ≡ true
        → unseen known seen < fuel
        → Chain a seen cur url
        → (r : String × String × Bool) × (leaf_from step a fuel seen cur url ≡ some r) × IsLeaf a r
    unfolding leaf_from
    leaf_from_lem zero a seen cur url k lt c = absurd (omega arith)
    leaf_from_lem (suc fuel) a seen cur url k lt c = elim (Option-cases (step cur)) [
      | inl e ↦ ((cur, url, not (cur == a)), rw (e, leaf_from), ended e c.ahead)
      | inr ((now, group_url), e) ↦ elim (Bool-cases (now == "")) [
        | inl p ↦ (
          ("", "", false),
          rw (e, leaf_from, p),
          unpicked {url = group_url} (follows c) (rw (← (eq_iff now "").0 p) e) refl,
        )
        | inr p ↦ elim (Bool-cases (contains seen cur)) [
          | inl old ↦ (
            ("", "", false),
            rw (e, leaf_from, p, old),
            cyclic (follows c) (c.behind cur old).1 refl,
          )
          | inr new ↦
              let named : now ≢ "" = ground (arith, eq_iff now "") in
              let (r, q, l) =
                leaf_from_lem fuel a (cur ∷ seen) now group_url (closed cur now group_url k e named)
                  (omega (arith, unseen-cons_lt known seen cur k new)) (Chain-next c e named) in
              (r, rw (e, leaf_from, p, new) q, l)
        ]
      ]
    ]
      where
        ended :
            step cur ≡ none
            → ((a ≡ cur) × (url ≡ "") ⊎ Picks a cur url)
            → IsLeaf a (cur, url, not (cur == a))
        ended e (inl (p, q)) = node (rw p e) (ground (arith, eq_iff cur a))
        ended e (inr p) =
            let other : cur ≢ a = λ q. Picks-ne_none p (rw (← q) e) in
            found p e (ground (arith, eq_iff cur a))

    -- On a finite set `known` of names that holds `a` and every pick of its members, `Leaf` returns
    -- after at most as many rounds as `known` has names and one more. It gives the node at the end
    -- of the chain of picks with the URL of the last group, nothing for a plain node, and
    -- nothing where the chain meets a group with no pick or comes back to a group.
    pub leaf_lem :
        (a : String)
        → contains known a ≡ true
        → (r : String × String × Bool) × (leaf step a (suc (length known)) ≡ some r) × IsLeaf a r
    unfolding leaf
    leaf_lem a k =
        leaf_from_lem (suc (length known)) a [] a "" k (omega (arith, unseen-nil known))
          (record { behind = λ x h. cc; ahead = inl (refl, refl) })
