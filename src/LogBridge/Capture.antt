-- ===== src/LogBridge/Capture.antt =====
-- `captureStdFd` of log_bridge.go for one descriptor, as steps: each call of the operating system succeeds or
-- fails, and the goroutine that reads the pipe goes on while the program writes to the descriptor.
pub mod Reads
pub mod Tests
use libmihomo_android.Base.{ℕ, suc, Bool, true, false, ◌≡◌, ◌≢◌}

-- What the descriptor refers to.
pub data Target : Type 0 where
  original : Target
  pipe : Target
  dev_null : Target

-- Where the call and its goroutine stand: before `Pipe`, with the pipe, after `Dup3`, in the loop of the
-- scanner, after it, with /dev/null opened, at the deferred `Close`, and at the end.
pub data Place : Type 0 where
  begun : Place
  piped : Place
  bound : Place
  scanning : Place
  scanned : Place
  null_opened : Place
  leaving : Place
  ended : Place

-- Whether `r`, `w` and `devNull` are open, and `stuck`, whether /dev/null could not be bound. `lines` are the
-- events dispatched, and `warnings` those of `emergencyLogcat`.
pub record Capture : Type 0 where
  pub target : Target
  pub place : Place
  pub r : Bool
  pub w : Bool
  pub null_fd : Bool
  pub stuck : Bool
  pub lines : ℕ
  pub warnings : ℕ

abbrev pub init : Capture
init = record {
  target = original;
  place = begun;
  r = false;
  w = false;
  null_fd = false;
  stuck = false;
  lines = 0;
  warnings = 0;
}

pub data Step (s : Capture) : Capture → Type 0 where
  no_pipe : s.place ≡ begun → Step s (record s { place = ended })
  make_pipe : s.place ≡ begun → Step s (record s { place = piped; r = true; w = true })
  no_dup : s.place ≡ piped → Step s (record s { place = ended; r = false; w = false })
  dup : s.place ≡ piped → Step s (record s { place = bound; target = pipe })
  close_writer : s.place ≡ bound → Step s (record s { place = scanning; w = false })
  line : s.place ≡ scanning → Step s (record s { lines = suc s.lines })
  end_of_input : s.place ≡ scanning → Step s (record s { place = scanned })
  scanner_failed :
      s.place ≡ scanning → Step s (record s { place = scanned; warnings = suc s.warnings })
  no_null : s.place ≡ scanned → Step s (record s { place = leaving; stuck = true })
  open_null : s.place ≡ scanned → Step s (record s { place = null_opened; null_fd = true })
  rebind :
      s.place ≡ null_opened
      → Step s (record s { place = leaving; target = dev_null; null_fd = false })
  no_rebind :
      s.place ≡ null_opened → Step s (record s { place = leaving; null_fd = false; stuck = true })
  close_reader : s.place ≡ leaving → Step s (record s { place = ended; r = false })

pub data Steps (s : Capture) : Capture → Type 0 where
  here : Steps s s
  next : {t u : Capture} → Steps s t → Step t u → Steps s u
