-- ===== src/DnsQuery/Ring/Refine.antt =====
-- The ring keeps the newest queries: what `Snapshot` returns is the start of the whole history.
use libmihomo_android.Base.{
  ℕ, zero, suc, ◌+◌, ◌-◌, ◌%◌, ◌≤◌, ◌<◌, ◌≡◌, refl, ◌≢◌, arith, if◌then◌else◌, eqb, leb, true,
  false, ◌||◌, inl, inr, List, [], ◌∷◌, Option, some, ◌>>=◌, length, get_elem?, get_or, set, take,
  map, length-set, length-replicate, get_or-set_self, get_or-set_ne, get_elem?-eq-get_or,
  Bool-cases, ap, ◌∙◌,
}
use libmihomo_android.DnsQuery.Ring.{Log, new_log, add, collect, snapshot, clear}
use libmihomo_android.DnsQuery.Ring.Slots.{step-mod, back-mod}

-- The place that stands `i` back from `next`, for `i` at least 1.
abbrev back : ℕ → ℕ → ℕ → ℕ
back cap next i = if leb i next then next - i else next + cap - i

-- The place after `next`.
abbrev after : ℕ → ℕ → ℕ
after cap next = if eqb (next + 1) cap then 0 else next + 1

after_mod : (cap n next : ℕ) → n ≡ cap → next < cap → (next + 1) % n ≡ after cap next
after_mod cap n next e h = rw e (step-mod cap next h)

back-after_one : (cap next : ℕ) → next < cap → back cap (after cap next) 1 ≡ next
back-after_one cap next h = ground arith

back-after :
    (cap next i : ℕ)
    → next < cap
    → suc i < cap
    → back cap (after cap next) (suc (suc i)) ≡ back cap next (suc i)
back-after cap next i h k = ground arith

back-ne : (cap next i : ℕ) → next < cap → suc i < cap → next ≢ back cap next (suc i)
back-ne cap next i h k = ground arith

module _ {ℓ} {A : Type ℓ} where
  -- `l`, of `cap` places, was filled by the queries `h`, newest first.
  pub record Keeps (cap : ℕ) (l : Log A) (h : List A) : Type ℓ where
    pub size : length l.entries ≡ cap
    pub room : l.next < cap
    pub partial : l.full ≡ false → length h ≡ l.next
    pub lapped : l.full ≡ true → cap ≤ length h
    pub newest :
        (d : A) (i : ℕ)
        → i < length h
        → i < cap
        → get_or l.entries (back cap l.next (suc i)) d ≡ get_or h i d

  pub new_log-Keeps : (blank : A) (cap : ℕ) → 0 < cap → Keeps cap (new_log blank cap) []
  unfolding new_log
  new_log-Keeps blank cap p = record {
    size = length-replicate cap blank;
    room = p;
    partial = λ e. refl;
    lapped = λ e. cc;
    newest = λ d i h k. absurd (omega arith);
  }

  length-clear : (blank : A) (xs : List A) → length (map (λ _. blank) xs) ≡ length xs
  length-clear blank [] = refl
  length-clear blank (x ∷ xs) = ap suc (length-clear blank xs)

  pub clear-Keeps :
      {cap : ℕ} {l : Log A} {h : List A} (blank : A) → Keeps cap l h → Keeps cap (clear blank l) []
  unfolding clear
  clear-Keeps {l} blank k = record {
    size = length-clear blank l.entries ∙ k.size;
    room = omega (arith, k.room);
    partial = λ e. refl;
    lapped = λ e. cc;
    newest = λ d i h j. absurd (omega arith);
  }

  pub add-Keeps :
      {cap : ℕ} {l : Log A} {h : List A} (q : A)
      → Keeps cap l h
      → (l' : Log A) × (add q l ≡ some l') × Keeps cap l' (q ∷ h)
  unfolding add
  add-Keeps {cap} {l} {h} q k = (
    record {
      entries = set l.entries l.next q;
      next = (l.next + 1) % length l.entries;
      full = eqb ((l.next + 1) % length l.entries) 0 || l.full;
    },
    ground (arith, k.size, k.room),
    record {
      size = length-set l.entries l.next q ∙ k.size;
      room = rw (after_mod cap (length l.entries) l.next k.size k.room) (ground (arith, k.room));
      partial =
          ground (arith, after_mod cap (length l.entries) l.next k.size k.room, k.room, k.partial);
      lapped = ground (
        arith,
        after_mod cap (length l.entries) l.next k.size k.room,
        k.room,
        k.partial,
        k.lapped,
        Bool-cases l.full,
      );
      newest = λ d i. rw (after_mod cap (length l.entries) l.next k.size k.room) (newest-add d i);
    },
  )
    where
      newest-add :
          (d : A) (i : ℕ)
          → i < suc (length h)
          → i < cap
          → get_or (set l.entries l.next q) (back cap (after cap l.next) (suc i)) d
            ≡ get_or {A = A} (q ∷ h) i d
      newest-add d zero p r =
          rw (back-after_one cap l.next k.room)
            (get_or-set_self l.entries l.next q d (omega (arith, k.size, k.room)))
      newest-add d (suc i) p r =
          rw
            (
              back-after cap l.next i k.room r,
              get_or-set_ne l.entries q d (back-ne cap l.next i k.room r),
            )
            (k.newest d i (omega arith) (omega arith))

  -- The rounds of `Snapshot` from `i + 1` on, where `hs` are the queries older than the first `i`.
  collect_lem :
      (l : Log A) (n i : ℕ) (hs : List A)
      → l.next < length l.entries
      → n ≤ length hs
      → i + n ≤ length l.entries
      → ((d : A) (j : ℕ)
          → j < length hs
          → i + j < length l.entries
          → get_or l.entries (back (length l.entries) l.next (suc (i + j))) d ≡ get_or hs j d)
      → collect l n (suc i) ≡ some (take n hs)
  unfolding collect
  collect_lem l zero i hs r p s w = refl
  collect_lem l (suc n) i [] r p s w = absurd (omega arith)
  collect_lem l (suc n) i (x ∷ hs) r p s w =
      let two : suc i + 1 ≡ suc (suc i) = omega arith in
      rw (first, two, collect_lem l n (suc i) hs r (omega arith) (omega arith) older)
    where
      cap : ℕ
      cap = length l.entries

      newest : get_or l.entries (back cap l.next (suc i)) x ≡ x
      newest = let e : i + 0 ≡ i = omega arith in rw e at (w x 0 (omega arith) (omega arith))

      first : get_elem? l.entries ((l.next + cap - suc i) % cap) ≡ some x
      first = rw (back-mod cap l.next (suc i) r (omega arith) (omega arith)) (
          get_elem?-eq-get_or l.entries (back cap l.next (suc i)) x (ground arith) ∙ ap some newest)

      older :
          (d : A) (j : ℕ)
          → j < length hs
          → suc i + j < cap
          → get_or l.entries (back cap l.next (suc (suc i + j))) d ≡ get_or hs j d
      older d j a b =
          let e : suc i + j ≡ i + suc j = omega arith in
          rw e (w d (suc j) (omega arith) (omega arith))

  take-take_of_le : (n m : ℕ) (h : List A) → length h ≡ n → n ≤ m → take n h ≡ take m h
  take-take_of_le zero zero h e p = refl
  take-take_of_le zero (suc m) [] e p = refl
  take-take_of_le zero (suc m) (x ∷ h) e p = absurd (omega arith)
  take-take_of_le (suc n) zero h e p = absurd (omega arith)
  take-take_of_le (suc n) (suc m) [] e p = refl
  take-take_of_le (suc n) (suc m) (x ∷ h) e p =
      ap (λ r. x ∷ r) (take-take_of_le n m h (omega arith) (omega arith))

  -- `Snapshot` does not panic, and returns the newest `cap` queries of the history, newest first.
  pub snapshot_lem :
      {cap : ℕ} {l : Log A} {h : List A} → Keeps cap l h → snapshot l ≡ some (take cap h)
  unfolding snapshot
  snapshot_lem {cap} {l} {h} k = elim (Bool-cases l.full) [
    | inl e ↦ rw (e, k.size) (collected cap (k.lapped e) (omega arith))
    | inr e ↦ rw e (
        collected l.next (omega (arith, k.partial e)) (omega (arith, k.room))
        ∙ ap some (take-take_of_le l.next cap h (k.partial e) (omega (arith, k.room))))
  ]
    where
      collected : (n : ℕ) → n ≤ length h → n ≤ cap → collect l n 1 ≡ some (take n h)
      collected n p q =
          collect_lem l n 0 h (omega (arith, k.room, k.size)) p (omega (arith, k.size)) (λ d j a b.
            let e : 0 + j ≡ j = omega arith in
            rw (e, k.size) (k.newest d j a (omega (arith, k.size))))

-- What is asked of a log, and the history that it should keep: all queries since the last `Clear`.
pub data Op {ℓ} (A : Type ℓ) : Type ℓ where
  record_query : A → Op A
  clear_all : Op A

module _ {ℓ} {A : Type ℓ} (blank : A) where
  abbrev pub history : List (Op A) → List A → List A
  history [] h = h
  history (record_query q ∷ ops) h = history ops (q ∷ h)
  history (clear_all ∷ ops) h = history ops []

  unfoldable pub run : List (Op A) → Log A → Option (Log A)
  run [] l = some l
  run (record_query q ∷ ops) l = add q l >>= run ops
  run (clear_all ∷ ops) l = run ops (clear blank l)

  run-Keeps :
      (ops : List (Op A)) {cap : ℕ} {l : Log A} {h : List A}
      → Keeps cap l h
      → (l' : Log A) × (run ops l ≡ some l') × Keeps cap l' (history ops h)
  unfolding run
  run-Keeps [] {l = l} k = (l, refl, k)
  run-Keeps (record_query q ∷ ops) k =
      let (m, e, km) = add-Keeps q k in let (l', e', k') = run-Keeps ops km in (l', rw e e', k')
  run-Keeps (clear_all ∷ ops) k = run-Keeps ops (clear-Keeps blank k)

  -- From a new log of `cap` places (more than 0), any calls of `Add` and `Clear` run without a panic, and
  -- `Snapshot` then returns the newest `cap` of the queries added since the last `Clear`, newest first.
  pub snapshot-run :
      (ops : List (Op A)) (cap : ℕ)
      → 0 < cap
      → (run ops (new_log blank cap) >>= snapshot) ≡ some (take cap (history ops []))
  snapshot-run ops cap p =
      let (l, e, k) = run-Keeps ops (new_log-Keeps blank cap p) in rw e (snapshot_lem k)
