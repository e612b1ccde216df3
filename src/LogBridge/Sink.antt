-- ===== src/LogBridge/Sink.antt =====
-- The file sink of log_file.go. The files are a map from paths to lines, as they are once the buffer of
-- the writer is flushed; a `Flush` that fails, and loses what is buffered, is not modelled. What the
-- operating system allows in a call is a parameter of the call.
pub mod Disk
pub mod Rotate
pub mod Keeps
pub mod Writes
pub mod Paths
use libmihomo_android.Base.{
  ℕ, zero, suc, ◌+◌, ◌*◌, List, [], ◌∷◌, ◌++◌, Option, none, some, Bool, true, false, not,
  if◌then◌else◌, leb, length, ◌&&◌,
}
use libmihomo_android.Text.{Text, eq_text}
use libmihomo_android.LogBridge.Sink.Disk.{Files, write, append_line, remove, rename, bytes, create}

abbrev pub max_bytes : ℕ
max_bytes = 5 * 1024 * 1024

abbrev pub max_count : ℕ
max_count = 5

-- The variables of log_file.go and `fileEnabled`. `writer` and `file` say whether `fileSinkWr` and
-- `fileSink` are set; an open file is the one at `path`.
pub record Sink : Type 0 where
  pub files : Files
  pub path : Text
  pub file : Bool
  pub writer : Bool
  pub size : ℕ
  pub enabled : Bool
  pub crash : Option Text

-- Whether the system makes a directory, opens a file for appending, and hands it to the runtime as
-- its crash output; whether it says how large an open file is; and whether it removes and renames a file
-- that there is.
pub record Os : Type 0 where
  pub can_mkdir : Text → Bool
  pub can_open : Text → Bool
  pub can_stat : Text → Bool
  pub can_crash : Text → Bool
  pub can_remove : Text → Bool
  pub can_rename : Text → Text → Bool

-- `fmt.Sprintf("%s.%d", base, n)`, for an `n` of one digit.
unfoldable pub rot_name : Text → ℕ → Text
rot_name base n = base ++ (b'.' ∷ (48 + n) ∷ [])

-- On what a call of `os.Remove` and of `os.Rename` does to the files.
module _ (removed : Text → Files → Files) (renamed : Text → Text → Files → Files) where
  -- The loop of `rotateFileSinkLocked`: `base.i` becomes `base.(i + 1)`, for `i` from `n` down to 1.
  unfoldable pub shift_up : Text → ℕ → Files → Files
  shift_up base zero fs = fs
  shift_up base (suc n) fs =
      shift_up base n (renamed (rot_name base (suc n)) (rot_name base (suc (suc n))) fs)

  -- The renames of `rotateFileSinkLocked`: the oldest file goes, and the others move up by one.
  unfoldable pub move_files : Text → Files → Files
  unfolding shift_up
  move_files base fs =
      renamed base (rot_name base 1) (shift_up base 3 (removed (rot_name base 4) fs))

-- `closeFileSinkLocked`
unfoldable pub close_file_sink : Sink → Sink
close_file_sink s = record s { writer = false; file = false; size = 0 }

-- What the writer took, and its count.
unfoldable pub put_line : Text → Sink → Sink
put_line line s = record s { files = append_line s.path line s.files; size = s.size + length line }

module _ (os : Os) where
  -- The calls of package os, whose errors `rotateFileSinkLocked` ignores.
  abbrev pub try_remove : Text → Files → Files
  try_remove p fs = if os.can_remove p then remove p fs else fs

  abbrev pub try_rename : Text → Text → Files → Files
  try_rename from to fs = if os.can_rename from to then rename from to fs else fs

  -- `openFileSinkLocked`, and whether it succeeds.
  unfoldable pub open_file_sink : Text → Sink → Bool × Sink
  open_file_sink path s =
      if os.can_open path
      then (let files = create path s.files in
          (
            true,
            record s {
              files = files;
              size = if os.can_stat path then bytes (files path) else 0;
              file = true;
              writer = true;
            },
          ))
      else (false, s)

  -- `setCrashOutputLocked`
  unfoldable pub set_crash_output : Text → Sink → Sink
  set_crash_output path s =
      if os.can_open path
      then (let opened = record s { files = create path s.files } in
          if os.can_crash path then record opened { crash = some path } else opened)
      else s

  unfoldable pub rotate_file_sink : Sink → Sink
  rotate_file_sink s =
      if s.file
      then (let closed = record s {
        file = false;
        writer = false;
        files = move_files try_remove try_rename s.path s.files;
      } in
          let (opened, s') = open_file_sink s.path closed in
          if opened then s' else record s' { enabled = false; size = 0 })
      else s

  -- The end of `writeFileSink`.
  unfoldable pub roll : Sink → Sink
  roll s = if leb max_bytes s.size then rotate_file_sink s else s

  -- `writeFileSink` of a line; `ok` says whether the writer took it.
  unfoldable pub write_file_sink : Bool → Text → Sink → Sink
  write_file_sink false line s =
      if s.writer then record (close_file_sink s) { enabled = false } else s
  write_file_sink true line s = if s.writer then roll (put_line line s) else s

  -- `setLogFilePathImpl`, and whether it succeeds. `dir` is `filepath.Dir(path)` and `crash_path` the
  -- path of crash.log in it.
  unfoldable pub set_log_file_path : Text → Text → Text → Sink → Bool × Sink
  set_log_file_path path dir crash_path s =
      if eq_text s.path path
      then (true, s)
      else (let closed = close_file_sink s in
          if eq_text path []
          then (true, record closed { path = [] })
          else if not (os.can_mkdir dir)
          then (false, closed)
          else (let (opened, s') = open_file_sink path closed in
              if opened
              then (true, set_crash_output crash_path (record s' { path = path }))
              else (false, s')))

  -- `setFileEnabledImpl`
  unfoldable pub set_file_enabled : Bool → Sink → Sink
  set_file_enabled false s = record s { enabled = false }
  set_file_enabled true s =
      let reopened =
        if not s.writer && not (eq_text s.path []) then (open_file_sink s.path s).1 else s in
      record reopened { enabled = true }
