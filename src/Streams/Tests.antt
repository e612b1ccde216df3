-- ===== src/Streams/Tests.antt =====
-- Runs of the two streams, and the theorems about their senders at them.
use libmihomo_android.Base.{true, ◌≡◌, refl}
use libmihomo_android.Streams.Worker.{Streams, init, begin, cancel, send, leave, free}
use libmihomo_android.Streams.Worker.Laws.{IsSerial}
use libmihomo_android.Streams.Connections
use libmihomo_android.Streams.Connections.Senders.{connection_senders, connection_frees}
use libmihomo_android.Streams.Logs

-- A second subscribe waits for the first goroutine, which sends once more.
abbrev waiting_state : Streams
waiting_state = send 0 (cancel true 0 (begin init))

waited : Connections.Steps init waiting_state
unfolding begin cancel send
waited =
    Connections.next
      (Connections.next (Connections.next Connections.here (Connections.subscribe refl refl))
        (Connections.replace 0 refl refl))
      (Connections.tick 0 refl)

connection_senders_example : IsSerial waiting_state
connection_senders_example = connection_senders waited

connection_frees_example : (t : Streams) × Connections.Steps waiting_state t × (t.lock ≡ free)
unfolding begin cancel send
connection_frees_example = connection_frees true 0 waited refl

abbrev restarted_state : Streams
restarted_state = send 1 (begin (leave 0 (cancel true 0 (send 0 (begin init)))))

restarted : Logs.Steps init restarted_state
unfolding begin cancel send leave
restarted =
    Logs.next
      (Logs.next
        (Logs.next
          (Logs.next
            (Logs.next (Logs.next Logs.here (Logs.start_log refl refl)) (Logs.fan_out 0 refl))
            (Logs.restart_log 0 refl refl))
          (Logs.drained 0 refl))
        (Logs.restarted 0 refl refl))
      (Logs.fan_out 1 refl)
