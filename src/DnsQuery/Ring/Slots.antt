-- ===== src/DnsQuery/Ring/Slots.antt =====
-- The places of a ring: stepping round its end, and the entry that stands some places back.
use native.Mathlib.Nat.{mod-eq_of_lt, mod-eq-sub-mod}
use native.Mathlib.Decide.{dec_lt}
use libmihomo_android.Base.{ℕ, ◌+◌, ◌-◌, ◌%◌, ◌≤◌, ◌<◌, ◌≡◌, arith, if◌then◌else◌, eqb, leb}

-- `(next + 1) % cap`
pub step-mod :
    (cap next : ℕ) → next < cap → (next + 1) % cap ≡ (if eqb (next + 1) cap then 0 else next + 1)
step-mod cap next h = elim (dec_lt (next + 1) cap) [
  | yes p ↦ ground (arith, mod-eq_of_lt {n = next + 1} {m = cap})
  | no p ↦
      ground (
        arith,
        mod-eq-sub-mod {n = next + 1} {m = cap},
        mod-eq_of_lt {n = next + 1 - cap} {m = cap},
      )
]

-- `(next - i + cap) % cap`
pub back-mod :
    (cap next i : ℕ)
    → next < cap
    → 0 < i
    → i ≤ cap
    → (next + cap - i) % cap ≡ (if leb i next then next - i else next + cap - i)
back-mod cap next i h p q = elim (dec_lt (next + cap - i) cap) [
  | yes r ↦ ground (arith, mod-eq_of_lt {n = next + cap - i} {m = cap})
  | no r ↦ ground (
    arith,
    mod-eq-sub-mod {n = next + cap - i} {m = cap},
    mod-eq_of_lt {n = next + cap - i - cap} {m = cap},
  )
]
