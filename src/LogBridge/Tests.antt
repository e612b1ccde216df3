-- ===== src/LogBridge/Tests.antt =====
-- The log bridge on small inputs, and each theorem at an input.
use libmihomo_android.Base.{
  ℕ, [], ◌∷◌, ◌≡◌, refl, ◌≢◌, true, false, not, none, some, arith, if◌then◌else◌,
}
use libmihomo_android.Text.{Text, eq_text}
use libmihomo_android.LogBridge.Level.{debug, warning, error}
use libmihomo_android.LogBridge.Sink.Disk.{eq_text_iff, Files, rename, remove}
use libmihomo_android.LogBridge.Sink.{
  Sink, Os, rot_name, shift_up, move_files, write_file_sink, set_log_file_path, open_file_sink,
}
use libmihomo_android.LogBridge.Sink.Rotate.{Gap, rotation_moves}
use libmihomo_android.LogBridge.Sink.Keeps.{IsSink, set_path, call, call-IsSink}
use libmihomo_android.LogBridge.Sink.Writes.{Written, write_file_sink-Written}
use libmihomo_android.LogBridge.Sink.Paths.{stale_path}
use libmihomo_android.LogBridge.Bus.{Bus, dispatch, Turns, here, next, call as call_made, sent}
use libmihomo_android.LogBridge.Bus.Conserved.{start, IsConserved, Turns-IsConserved}
use libmihomo_android.LogBridge.Bus.Route.{Event, Router}

-- A system that allows everything, and one that opens no file at "b".
abbrev willing : Os
willing = record {
  can_mkdir = λ p. true;
  can_open = λ p. true;
  can_stat = λ p. true;
  can_crash = λ p. true;
  can_remove = λ p. true;
  can_rename = λ p q. true;
}

abbrev a_log : Text
a_log = b'a' ∷ []

abbrev b_log : Text
b_log = b'b' ∷ []

abbrev dir_name : Text
dir_name = b'd' ∷ []

abbrev crash_log : Text
crash_log = b'c' ∷ []

a_ne_b : a_log ≢ b_log
a_ne_b = ground (arith, eq_text_iff a_log b_log)

abbrev refusing : Os
refusing = record willing { can_open = λ p. not (eq_text p b_log) }

-- "a" has a backup of one line, and no other file is there.
abbrev disk : Files
disk p =
    if eq_text p a_log
    then some ((b'x' ∷ []) ∷ [])
    else if eq_text p (b'a' ∷ b'.' ∷ b'1' ∷ [])
    then some []
    else none

abbrev writing : Sink
writing = record {
  files = disk;
  path = a_log;
  file = true;
  writer = true;
  size = 1;
  enabled = true;
  crash = none;
}

moved :
    (move_files remove rename a_log disk (b'a' ∷ b'.' ∷ b'1' ∷ []) ≡ some ((b'x' ∷ []) ∷ []))
    × (move_files remove rename a_log disk (b'a' ∷ b'.' ∷ b'2' ∷ []) ≡ some [])
unfolding move_files shift_up rename remove rot_name
moved = (refl, refl)

rotation_moves_example : Gap a_log disk 0 (move_files remove rename a_log disk)
rotation_moves_example = rotation_moves a_log disk

writing-IsSink : IsSink writing
writing-IsSink = record {
  together = refl;
  measured = λ e. refl;
  named = λ e. λ p. cc;
  closed = λ e. cc;
}

call-IsSink_example : IsSink (call willing (set_path b_log dir_name crash_log) writing)
call-IsSink_example =
    call-IsSink willing (λ p. refl) (set_path b_log dir_name crash_log) writing writing-IsSink

write_file_sink-Written_example :
    Written willing (b'y' ∷ []) writing (write_file_sink willing true (b'y' ∷ []) writing)
write_file_sink-Written_example = write_file_sink-Written willing (b'y' ∷ []) writing refl refl

-- The change to "b" fails, and the change back to "a" succeeds and writes nowhere.
stale_path_example :
    let (ok, t) =
      set_log_file_path willing a_log dir_name crash_log
        (set_log_file_path refusing b_log dir_name crash_log writing).1 in
    (ok ≡ true) × (t.writer ≡ false)
unfolding set_log_file_path open_file_sink
stale_path_example =
    stale_path refusing b_log dir_name crash_log writing a_ne_b (λ p. cc) refl willing dir_name
      crash_log

abbrev shut : Sink
shut = record writing { file = false; writer = false; size = 0 }

abbrev two_events : Bus ℕ
two_events = record { queue = 1 ∷ 2 ∷ []; drop_count = 0 }

dispatch_runs : dispatch 2 3 two_events ≡ record { queue = 2 ∷ 3 ∷ []; drop_count = 1 }
unfolding dispatch
dispatch_runs = refl

one_sent : Turns {E = ℕ} 2 start (record {
  bus = record { queue = 7 ∷ []; drop_count = 0 };
  calls = [];
  made = 1;
  routed = [];
  reported = 0;
})
one_sent = next (next here (call_made 7)) (sent [] [] 7 refl (omega arith))

Turns-IsConserved_example : IsConserved {E = ℕ} 2 (record {
  bus = record { queue = 7 ∷ []; drop_count = 0 };
  calls = [];
  made = 1;
  routed = [];
  reported = 0;
})
Turns-IsConserved_example = Turns-IsConserved 2 one_sent

abbrev router : Router
router = record { logcat = []; logcat_level = debug; file_level = warning; sink = writing }

abbrev failure : Event
failure = record { when = 1; level = error; tag = a_log; payload = b_log; from_host = false }

abbrev no_stamp : ℕ → Text
no_stamp n = []
