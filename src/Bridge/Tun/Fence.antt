-- ===== src/Bridge/Tun/Fence.antt =====
-- The semaphore of a `TunHandler` in lib.go, as steps of one session: `start` and `close`, which `tunLock` keeps
-- apart and which take its whole weight, and any number of calls of `handleProtect` and
-- `handleResolveProcess`, which take a weight of 1. The semaphore is the one of golang.org/x/sync: a weight is
-- given where it fits in the capacity beside what is taken. Who waits first is left free.
pub mod Safe
pub mod Closes
pub mod Tests
use libmihomo_android.Base.{
  ℕ, suc, ◌+◌, ◌-◌, ◌≤◌, List, [], ◌∷◌, ◌++◌, Bool, true, false, not, ◌||◌, if◌then◌else◌, ◌≡◌,
}

-- `tunSemCapacity`
abbrev pub tun_sem_capacity : ℕ
tun_sem_capacity = 4

-- `tunSemFullLock`
abbrev pub tun_sem_full_lock : ℕ
tun_sem_full_lock = tun_sem_capacity

-- A call of a hook: before `Acquire` returns, past it, and past the test of `closed`. A call that returned is gone.
pub data Hook : Type 0 where
  waiting : Hook
  entered : Hook
  calling : Hook

-- What the holder of `tunLock` does: nothing, `start` up to the answer of `tun.Start`, the call of `clear`,
-- and the deferred `Release`.
pub data Owner : Type 0 where
  idle : Owner
  starting : Owner
  clearing : Owner
  unlocking : Owner

-- `taken` is the weight that the semaphore gave. `live` is whether the handler still has the reference of the
-- callback, `releases` how often it was released, and `misused` whether a hook used it when it was gone.
pub record Fence : Type 0 where
  pub owner : Owner
  pub started : Bool
  pub taken : ℕ
  pub hooks : List Hook
  pub closed : Bool
  pub listener : Bool
  pub live : Bool
  pub releases : ℕ
  pub misused : Bool

-- The handler that `handleStartTun` makes.
abbrev pub init : Fence
init = record {
  owner = idle;
  started = false;
  taken = 0;
  hooks = [];
  closed = false;
  listener = false;
  live = true;
  releases = 0;
  misused = false;
}

-- The body of `clear`, without the hooks of other packages.
unfoldable pub clear : Fence → Fence
clear s = record s {
  owner = unlocking;
  closed = true;
  listener = false;
  releases = if s.live then suc s.releases else s.releases;
  live = false;
}

-- The return of a call, with the deferred `Release(1)`.
unfoldable pub leave : List Hook → Fence → Fence
leave rest s = record s { taken = s.taken - 1; hooks = rest }

-- `protect(th.callback, fd)` or `resolveProcess(th.callback, …)`
unfoldable pub use_callback : Fence → Fence
use_callback s = record s { misused = s.misused || not s.live }

-- A hook moves at its place in `hooks`.
pub data Step (s : Fence) : Fence → Type 0 where
  -- `start`
  lock_start :
      s.owner ≡ idle
      → s.started ≡ false
      → s.taken + tun_sem_full_lock ≤ tun_sem_capacity
      → Step s (record s { owner = starting; started = true; taken = s.taken + tun_sem_full_lock })
  start_ok : s.owner ≡ starting → Step s (record s { owner = unlocking; listener = true })
  start_failed : s.owner ≡ starting → Step s (record s { owner = clearing })
  -- `close`
  lock_close :
      s.owner ≡ idle
      → s.started ≡ true
      → s.taken + tun_sem_full_lock ≤ tun_sem_capacity
      → Step s (record s { owner = clearing; taken = s.taken + tun_sem_full_lock })
  -- Both
  run_clear : s.owner ≡ clearing → Step s (clear s)
  unlock :
      s.owner ≡ unlocking → Step s (record s { owner = idle; taken = s.taken - tun_sem_full_lock })
  -- A call of a hook.
  invoke : Step s (record s { hooks = waiting ∷ s.hooks })
  enter :
      (before after : List Hook)
      → s.hooks ≡ before ++ (waiting ∷ after)
      → s.taken + 1 ≤ tun_sem_capacity
      → Step s (record s { taken = s.taken + 1; hooks = before ++ (entered ∷ after) })
  refuse :
      (before after : List Hook)
      → s.hooks ≡ before ++ (entered ∷ after)
      → s.closed ≡ true
      → Step s (leave (before ++ after) s)
  admit :
      (before after : List Hook)
      → s.hooks ≡ before ++ (entered ∷ after)
      → s.closed ≡ false
      → Step s (record s { hooks = before ++ (calling ∷ after) })
  call_host :
      (before after : List Hook)
      → s.hooks ≡ before ++ (calling ∷ after)
      → Step s (leave (before ++ after) (use_callback s))

pub data Steps (s : Fence) : Fence → Type 0 where
  here : Steps s s
  next : {t u : Fence} → Steps s t → Step t u → Steps s u
