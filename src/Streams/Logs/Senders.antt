-- ===== src/Streams/Logs/Senders.antt =====
-- The senders of log_stream.go, and its calls that wait.
use libmihomo_android.Base.{ℕ, Bool, true, false, ◌≡◌, refl, inl, inr}
use libmihomo_android.Streams.Worker.{exited, free, waiting, Streams, init, begin, rest, leave}
use libmihomo_android.Streams.Worker.Laws.{
  IsSound, IsSerial, init-IsSound, send-IsSound, begin-IsSound, cancel-IsSound, rest-IsSound,
  leave-IsSound, exited_quiet, none_quiet, IsSound-IsSerial, exited-leave,
}
use libmihomo_android.Streams.Logs.{
  start_log, restart_log, restarted, refused, stop_log, stopped, fan_out, drained, Step, Steps,
  here, next,
}

Step-IsSound : {s t : Streams} → Step s t → IsSound s → IsSound t
Step-IsSound (start_log l c) v = begin-IsSound v (none_quiet v c)
Step-IsSound (restart_log i l c) v = cancel-IsSound v true i l c
Step-IsSound (restarted i l e) v = begin-IsSound v (exited_quiet v true i l e)
Step-IsSound (refused i l e) v = rest-IsSound v (exited_quiet v true i l e)
Step-IsSound (stop_log i l c) v = cancel-IsSound v false i l c
Step-IsSound (stopped i l e) v = rest-IsSound v (exited_quiet v false i l e)
Step-IsSound (fan_out i r) v = send-IsSound v i r
Step-IsSound (drained i e) v = leave-IsSound v i e

Steps-IsSound : {s t : Streams} → Steps s t → IsSound s → IsSound t
Steps-IsSound here v = v
Steps-IsSound (next r st) v = Step-IsSound st (Steps-IsSound r v)

-- However the calls and the goroutines interleave, at most one goroutine can send, and once it has sent
-- no older goroutine sends again.
pub log_senders : {s : Streams} → Steps init s → IsSerial s
log_senders r = IsSound-IsSerial (Steps-IsSound r init-IsSound)

finish :
    (again : Bool) (i : ℕ) (s : Streams)
    → s.lock ≡ waiting again i
    → s.phase i ≡ exited
    → (t : Streams) × Step s t × (t.lock ≡ free)
unfolding begin rest
finish true i s l e = (begin s, restarted i l e, refl)
finish false i s l e = (rest s, stopped i l e, refl)

-- A call that waits with the mutex is never stuck: the goroutine that it waits for has ended or can end,
-- and then the call goes on and frees the mutex.
pub log_frees :
    {s : Streams} (again : Bool) (i : ℕ)
    → Steps init s
    → s.lock ≡ waiting again i
    → (t : Streams) × Steps s t × (t.lock ≡ free)
unfolding leave
log_frees {s} again i r l = elim ((Steps-IsSound r init-IsSound).waits again i l).1 [
  | inl e ↦
      let (t, st, f) = finish again i (leave i s) l (exited-leave i s) in
      (t, next (next here (drained i e)) st, f)
  | inr e ↦ let (t, st, f) = finish again i s l e in (t, next here st, f)
]
