-- ===== src/DnsQuery/Ring.antt =====
-- `Log` of dnsquery/dnsquery.go, over any type of queries. `none` is a panic: an index out of range,
-- or a remainder by 0. The lock makes each call one step.
pub mod Slots
pub mod Refine
use libmihomo_android.Base.{
  ℕ, zero, suc, ◌+◌, ◌-◌, ◌%◌, List, [], ◌∷◌, Bool, true, false, ◌||◌, Option, none, some, ◌>>=◌,
  if◌then◌else◌, length, get_elem?, set, replicate, map, ltb, eqb,
}

pub record Log {ℓ} (A : Type ℓ) : Type ℓ where
  pub entries : List A
  pub next : ℕ
  pub full : Bool

module _ {ℓ} {A : Type ℓ} where
  -- `blank` is the zero value of a query.
  unfoldable pub new_log : A → ℕ → Log A
  new_log blank capacity = record { entries = replicate capacity blank; next = 0; full = false }

  unfoldable pub add : A → Log A → Option (Log A)
  add q l =
      if ltb l.next (length l.entries)
      then (let next = (l.next + 1) % length l.entries in
          some
            (record { entries = set l.entries l.next q; next = next; full = eqb next 0 || l.full }))
      else none

  -- The loop of `Snapshot`: `n` more rounds, from `i` on. Its index is never negative, as `i` is at
  -- most the capacity.
  unfoldable pub collect : Log A → ℕ → ℕ → Option (List A)
  collect l zero i = some []
  collect l (suc n) i = do
    x ← get_elem? l.entries ((l.next + length l.entries - i) % length l.entries)
    xs ← collect l n (i + 1)
    some (x ∷ xs)

  unfoldable pub snapshot : Log A → Option (List A)
  unfolding collect
  snapshot l = collect l (if l.full then length l.entries else l.next) 1

  unfoldable pub clear : A → Log A → Log A
  clear blank l = record { entries = map (λ _. blank) l.entries; next = 0; full = false }
