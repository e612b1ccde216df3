-- ===== src/LogBridge/Sink/Keeps.antt =====
-- What holds of the sink between calls, and what a write does.
use libmihomo_android.Base.{
  ◌+◌, List, [], ◌∷◌, ◌++◌, Bool, true, false, length, ◌≡◌, arith, ◌≢◌, Bool-cases, inl, inr, leb,
  if_true, if_false,
}
use mathlib.Core.Path.{subst, sym}
use libmihomo_android.Text.{Text}
use libmihomo_android.LogBridge.Sink.Disk.{
  Files, bytes, total, lines_of, create, append_line, eq_text_iff, eq_text_refl,
}
use libmihomo_android.LogBridge.Sink.{
  Sink, Os, open_file_sink, close_file_sink, set_crash_output, rotate_file_sink, write_file_sink,
  set_log_file_path, set_file_enabled, max_bytes, roll, put_line,
}

-- Writer and file are set together. An open file exists, its path is set, and its size is known; with no open file the size is 0.
pub record IsSink (s : Sink) : Type 0 where
  pub together : s.file ≡ s.writer
  pub measured : s.writer ≡ true → s.size ≡ bytes (s.files s.path)
  pub named : s.writer ≡ true → s.path ≢ []
  pub closed : s.writer ≡ false → s.size ≡ 0

-- The calls of the sink, with what each is given.
pub data Call : Type 0 where
  line : Bool → Text → Call
  enable : Bool → Call
  set_path : Text → Text → Text → Call

abbrev pub call : Os → Call → Sink → Sink
call os (line ok text) s = write_file_sink os ok text s
call os (enable on) s = set_file_enabled os on s
call os (set_path path dir crash_path) s = (set_log_file_path os path dir crash_path s).1

total-append : (xs : List Text) (text : Text) → total (xs ++ (text ∷ [])) ≡ total xs + length text
total-append [] text = omega arith
total-append (x ∷ xs) text = omega (arith, total-append xs text)

bytes-create : (p : Text) (fs : Files) → bytes (create p fs p) ≡ bytes (fs p)
unfolding create
bytes-create p fs = ground (arith, eq_text_refl p)

bytes-append_line :
    (p text : Text) (fs : Files) → bytes (append_line p text fs p) ≡ bytes (fs p) + length text
unfolding append_line
bytes-append_line p text fs = ground (arith, eq_text_refl p, total-append (lines_of (fs p)) text)

put_line-IsSink : (text : Text) (s : Sink) → IsSink s → s.writer ≡ true → IsSink (put_line text s)
unfolding put_line
put_line-IsSink text s v e = ground (arith, bytes-append_line s.path text s.files)

module _ (os : Os) (stat_works : (p : Text) → os.can_stat p ≡ true) where
  open_file_sink-IsSink :
      (s : Sink) → IsSink s → s.path ≢ [] → IsSink (open_file_sink os s.path s).1
  unfolding open_file_sink
  open_file_sink-IsSink s v h = ground (arith, stat_works s.path)

  rotate_file_sink-IsSink : (s : Sink) → s.path ≢ [] → IsSink s → IsSink (rotate_file_sink os s)
  unfolding rotate_file_sink open_file_sink
  rotate_file_sink-IsSink s h v = ground (arith, stat_works s.path)

  roll-IsSink : (s : Sink) → s.path ≢ [] → IsSink s → IsSink (roll os s)
  unfolding roll
  roll-IsSink s h v = elim (Bool-cases (leb max_bytes s.size)) [
    | inl full ↦ rw (if_true (leb max_bytes s.size) _ full) (rotate_file_sink-IsSink s h v)
    | inr room ↦ rw (if_false (leb max_bytes s.size) _ room) v
  ]

  pub write_file_sink-IsSink :
      (ok : Bool) (text : Text) (s : Sink) → IsSink s → IsSink (write_file_sink os ok text s)
  unfolding write_file_sink close_file_sink
  write_file_sink-IsSink false text s v = ground arith
  write_file_sink-IsSink true text s v = elim (Bool-cases s.writer) [
    | inr shut ↦ subst IsSink (sym (if_false s.writer _ shut)) v
    | inl writing ↦ subst IsSink (sym (if_true s.writer _ writing)) (
        roll-IsSink (put_line text s) (unfold put_line in v.named writing)
          (put_line-IsSink text s v writing))
  ]

  pub set_file_enabled-IsSink :
      (on : Bool) (s : Sink) → IsSink s → IsSink (set_file_enabled os on s)
  unfolding set_file_enabled open_file_sink
  set_file_enabled-IsSink false s v = ground arith
  set_file_enabled-IsSink true s v = ground (arith, stat_works s.path, eq_text_iff s.path [])

  pub set_log_file_path-IsSink :
      (path dir crash_path : Text) (s : Sink)
      → IsSink s
      → IsSink (set_log_file_path os path dir crash_path s).1
  unfolding set_log_file_path open_file_sink close_file_sink set_crash_output create
  set_log_file_path-IsSink path dir crash_path s v =
      ground (arith, stat_works path, eq_text_iff path [], eq_text_iff crash_path path)

  -- Where a file that is open can be measured, every call of the sink keeps it well formed, also one
  -- that fails: writer and file are set together, the counted size is that of the file at the path, and a
  -- sink with no open file counts 0.
  pub call-IsSink : (c : Call) (s : Sink) → IsSink s → IsSink (call os c s)
  call-IsSink (line ok text) s v = write_file_sink-IsSink ok text s v
  call-IsSink (enable on) s v = set_file_enabled-IsSink on s v
  call-IsSink (set_path path dir crash_path) s v = set_log_file_path-IsSink path dir crash_path s v
