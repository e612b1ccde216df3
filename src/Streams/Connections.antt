-- ===== src/Streams/Connections.antt =====
-- `handleSubscribeConnections`, `handleUnsubscribeConnections` and their goroutine, of connections.go, as
-- steps. A call that finds a goroutine is two steps, since it waits in between.
pub mod Senders
use libmihomo_android.Base.{ℕ, Option, none, some, Bool, true, false, ◌≡◌}
use libmihomo_android.Streams.Worker.{
  Phase, ending, exited, is_running, Lock, free, waiting, Streams, begin, cancel, rest, send, leave,
}

pub data Step (s : Streams) : Streams → Type 0 where
  -- `handleSubscribeConnections` with no goroutine before it, and with one that it cancels first.
  subscribe : s.lock ≡ free → s.current ≡ none → Step s (begin s)
  replace : (i : ℕ) → s.lock ≡ free → s.current ≡ some i → Step s (cancel true i s)
  replaced : (i : ℕ) → s.lock ≡ waiting true i → s.phase i ≡ exited → Step s (begin s)
  -- `handleUnsubscribeConnections`, which does nothing where there is no goroutine.
  unsubscribe : (i : ℕ) → s.lock ≡ free → s.current ≡ some i → Step s (cancel false i s)
  unsubscribed : (i : ℕ) → s.lock ≡ waiting false i → s.phase i ≡ exited → Step s (rest s)
  -- The goroutine: either case of its `select` may win while both are ready.
  tick : (i : ℕ) → is_running (s.phase i) ≡ true → Step s (send i s)
  leave_loop : (i : ℕ) → s.phase i ≡ ending → Step s (leave i s)

pub data Steps (s : Streams) : Streams → Type 0 where
  here : Steps s s
  next : {t u : Streams} → Steps s t → Step t u → Steps s u
