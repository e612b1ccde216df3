-- ===== src/Proxies/Delay.antt =====
-- `testProxy` of proxies.go: many calls at once, each with a goroutine that holds one of the slots while it
-- tests. A call can give up on its goroutine, which keeps its slot until the adapter returns.
pub mod Slots
use libmihomo_android.Base.{
  ℕ, suc, ◌+◌, ◌<◌, ◌^◌, ℤ, pos, negsuc, List, [], ◌∷◌, ◌++◌, Bool, true, false, ◌||◌, eqb, ltb_ℤ,
  if◌then◌else◌, ◌≡◌,
}

-- `urlTestSemCapacity`
abbrev pub url_test_sem_capacity : ℕ
url_test_sem_capacity = 256

-- What `URLTest` returns: a delay, which is a uint16, and whether there is an error.
pub record Reply : Type 0 where
  pub delay : ℕ
  pub failed : Bool

-- The timeout of the context, in milliseconds.
unfoldable pub timeout_or_default : ℤ → ℤ
timeout_or_default ms = if ltb_ℤ (pos 0) ms then ms else pos 5000

-- What the call returns for a reply, if its context has expired by then or not.
unfoldable pub result : Reply → Bool → ℤ
result r expired = if r.failed || expired || eqb r.delay 0 then negsuc 0 else pos r.delay

-- `queued` calls wait for a slot, `awaited` ones for their goroutine; `leaked` goroutines test on for a call
-- that gave up. `replies` are those in the channels of calls that have not read them.
pub record Tests : Type 0 where
  pub free : ℕ
  pub queued : ℕ
  pub awaited : ℕ
  pub leaked : ℕ
  pub calls : ℕ
  pub replies : List Reply
  pub results : List ℤ

abbrev pub init : Tests
init = record {
  free = url_test_sem_capacity;
  queued = 0;
  awaited = 0;
  leaked = 0;
  calls = 0;
  replies = [];
  results = [];
}

pub data Step (s : Tests) : Tests → Type 0 where
  call : Step s (record s { calls = suc s.calls; queued = suc s.queued })
  acquire :
      (q f : ℕ)
      → s.queued ≡ suc q
      → s.free ≡ suc f
      → Step s (record s { queued = q; free = f; awaited = suc s.awaited })
  -- `urlTestSlotWait` has passed.
  refuse :
      (q : ℕ) → s.queued ≡ suc q → Step s (record s { queued = q; results = negsuc 0 ∷ s.results })
  -- The goroutine ends, with its reply in the channel and its slot released.
  finish :
      (a : ℕ) (r : Reply)
      → s.awaited ≡ suc a
      → r.delay < 2 ^ 16
      → Step s (record s { awaited = a; replies = r ∷ s.replies; free = suc s.free })
  finish_leaked : (l : ℕ) → s.leaked ≡ suc l → Step s (record s { leaked = l; free = suc s.free })
  -- A call reads its reply.
  read_reply :
      (before after : List Reply) (r : Reply) (expired : Bool)
      → s.replies ≡ before ++ (r ∷ after)
      → Step s (record s { replies = before ++ after; results = result r expired ∷ s.results })
  -- `ctx.Done()` before the goroutine ends, and while a reply waits.
  expire :
      (a : ℕ)
      → s.awaited ≡ suc a
      → Step s (record s { awaited = a; leaked = suc s.leaked; results = negsuc 0 ∷ s.results })
  expire_late :
      (before after : List Reply) (r : Reply)
      → s.replies ≡ before ++ (r ∷ after)
      → Step s (record s { replies = before ++ after; results = negsuc 0 ∷ s.results })

pub data Steps (s : Tests) : Tests → Type 0 where
  here : Steps s s
  next : {t u : Tests} → Steps s t → Step t u → Steps s u
