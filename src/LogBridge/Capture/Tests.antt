-- ===== src/LogBridge/Capture/Tests.antt =====
-- A capture whose scanner fails after one line, while /dev/null cannot be opened.
use libmihomo_android.Base.{true, false, ◌≡◌, refl}
use libmihomo_android.LogBridge.Capture.{
  pipe, ended, Capture, init, make_pipe, dup, close_writer, line, scanner_failed, no_null,
  close_reader, Steps, here, next,
}
use libmihomo_android.LogBridge.Capture.Reads.{is_unread, has_leaked, capture_reads}

abbrev left : Capture
left = record {
  target = pipe;
  place = ended;
  r = false;
  w = false;
  null_fd = false;
  stuck = true;
  lines = 1;
  warnings = 1;
}

run : Steps init left
run =
    next
      (next
        (next
          (next (next (next (next here (make_pipe refl)) (dup refl)) (close_writer refl))
            (line refl))
          (scanner_failed refl))
        (no_null refl))
      (close_reader refl)

capture_reads_example : (is_unread left ≡ false) × (has_leaked left ≡ false)
capture_reads_example = capture_reads run
