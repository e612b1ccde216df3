-- ===== src/Streams/Logs.antt =====
-- `handleStartLog`, `handleStopLog` and their goroutine, of log_stream.go, as steps. A call that finds a
-- goroutine is two steps, since it waits in between. Events that the goroutine filters out are no steps.
pub mod Senders
use libmihomo_android.Base.{ℕ, Option, none, some, Bool, true, false, ◌≡◌}
use libmihomo_android.Streams.Worker.{
  Phase, ending, exited, is_running, Lock, free, waiting, Streams, begin, cancel, rest, send, leave,
}

pub data Step (s : Streams) : Streams → Type 0 where
  -- `handleStartLog` with no subscriber, and with one that `stopLogLocked` unsubscribes first.
  start_log : s.lock ≡ free → s.current ≡ none → Step s (begin s)
  restart_log : (i : ℕ) → s.lock ≡ free → s.current ≡ some i → Step s (cancel true i s)
  restarted : (i : ℕ) → s.lock ≡ waiting true i → s.phase i ≡ exited → Step s (begin s)
  -- The same where `log.Subscribe` then gives nil.
  refused : (i : ℕ) → s.lock ≡ waiting true i → s.phase i ≡ exited → Step s (rest s)
  -- `handleStopLog`
  stop_log : (i : ℕ) → s.lock ≡ free → s.current ≡ some i → Step s (cancel false i s)
  stopped : (i : ℕ) → s.lock ≡ waiting false i → s.phase i ≡ exited → Step s (rest s)
  -- The goroutine: after the channel is closed it still sends the events that the channel holds.
  fan_out : (i : ℕ) → is_running (s.phase i) ≡ true → Step s (send i s)
  drained : (i : ℕ) → s.phase i ≡ ending → Step s (leave i s)

pub data Steps (s : Streams) : Streams → Type 0 where
  here : Steps s s
  next : {t u : Streams} → Steps s t → Step t u → Steps s u
