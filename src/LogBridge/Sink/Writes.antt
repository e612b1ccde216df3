-- ===== src/LogBridge/Sink/Writes.antt =====
-- Where a line goes, and how large the current file grows.
use libmihomo_android.Base.{
  none, ◌+◌, ◌≤◌, ◌<◌, List, if◌then◌else◌, [], ◌∷◌, ◌++◌, some, true, false, if_true, if_false,
  length, ◌≡◌, refl, arith, ◌∙◌, Bool-cases, inl, inr, ◌⊎◌, leb, leb→le,
}
use mathlib.Core.Path.{subst, sym}
use libmihomo_android.Text.{Text, eq_text}
use libmihomo_android.LogBridge.Sink.Disk.{
  Files, rename, total, lines_of, create, append_line, eq_text_refl,
}
use libmihomo_android.LogBridge.Sink.Rotate.{same, before_rename}
use libmihomo_android.LogBridge.Sink.{
  Sink, Os, open_file_sink, rotate_file_sink, write_file_sink, max_bytes, move_files, rot_name,
  roll, put_line, shift_up, try_remove, try_rename,
}

-- What a rotation leaves: an empty current file, and the old one at the first place.
pub record Rotated (lines : List Text) (old new : Sink) : Type 0 where
  pub writing : new.writer ≡ true
  pub size : new.size ≡ 0
  pub current : new.files old.path ≡ some []
  pub backup : new.files (rot_name old.path 1) ≡ some lines

-- What it leaves where the current file is not renamed: the same file.
pub record Stuck (os : Os) (lines : List Text) (old new : Sink) : Type 0 where
  pub writing : new.writer ≡ true
  pub size : new.size ≡ (if os.can_stat old.path then total lines else 0)
  pub current : new.files old.path ≡ some lines

module _ (os : Os) where
  -- The files before the current one is renamed.
  abbrev shifted : Sink → Files
  shifted s =
      shift_up (try_remove os) (try_rename os) s.path 3 (try_remove os (rot_name s.path 4) s.files)

  -- The files after the renames, where the current file is among those that are renamed.
  moved_files :
      (lines : List Text) (p q : Text) (fs : Files)
      → eq_text p q ≡ false
      → os.can_rename p q ≡ true
      → fs p ≡ some lines
      → (try_rename os p q fs p ≡ none) × (try_rename os p q fs q ≡ some lines)
  unfolding rename
  moved_files lines p q fs ne m k =
      rw (m, k, rename) (ground (arith, eq_text_refl p), ground (arith, ne, eq_text_refl q))

  rotate_file_sink-Rotated :
      (lines : List Text) (s : Sink)
      → s.file ≡ true
      → os.can_open s.path ≡ true
      → os.can_rename s.path (rot_name s.path 1) ≡ true
      → shifted s s.path ≡ some lines
      → Rotated lines s (rotate_file_sink os s)
  unfolding rotate_file_sink open_file_sink create move_files
  rotate_file_sink-Rotated lines s e o m k =
      let other = same s.path s.files 0 1 in
      let (free, backup) = moved_files lines s.path (rot_name s.path 1) (shifted s) other m k in
      record {
        writing = ground arith;
        size = ground (arith, free, eq_text_refl s.path);
        current = ground (arith, free, eq_text_refl s.path);
        backup = ground (arith, backup, other);
      }

  rotate_file_sink-Stuck :
      (lines : List Text) (s : Sink)
      → s.file ≡ true
      → os.can_open s.path ≡ true
      → os.can_rename s.path (rot_name s.path 1) ≡ false
      → shifted s s.path ≡ some lines
      → Stuck os lines s (rotate_file_sink os s)
  unfolding rotate_file_sink open_file_sink create move_files
  rotate_file_sink-Stuck lines s e o m k =
      rw (e, m, o)
        record {
          writing = refl;
          size = rw (k, eq_text_refl s.path) refl;
          current = rw (k, eq_text_refl s.path) refl;
        }

  -- A rotation that cannot open the new file closes the sink and disables it.
  rotate_file_sink-closed :
      (s : Sink)
      → s.file ≡ true
      → os.can_open s.path ≡ false
      → ((rotate_file_sink os s).writer ≡ false) × ((rotate_file_sink os s).enabled ≡ false)
  unfolding rotate_file_sink open_file_sink
  rotate_file_sink-closed s e o = ground arith

  -- What a line that the writer takes leads to, by the size that the file then has.
  pub data Written (text : Text) (s t : Sink) : Type 0 where
    stays :
        s.size + length text < max_bytes
        → t.files s.path ≡ some (lines_of (s.files s.path) ++ (text ∷ []))
        → t.writer ≡ true
        → t.size ≡ s.size + length text
        → Written text s t
    rolls :
        max_bytes ≤ s.size + length text
        → os.can_rename s.path (rot_name s.path 1) ≡ true
        → t.files (rot_name s.path 1) ≡ some (lines_of (s.files s.path) ++ (text ∷ []))
        → t.files s.path ≡ some []
        → t.writer ≡ true
        → t.size ≡ 0
        → Written text s t
    sticks :
        max_bytes ≤ s.size + length text
        → os.can_rename s.path (rot_name s.path 1) ≡ false
        → t.files s.path ≡ some (lines_of (s.files s.path) ++ (text ∷ []))
        → t.writer ≡ true
        → t.size
          ≡ (if os.can_stat s.path then total (lines_of (s.files s.path) ++ (text ∷ [])) else 0)
        → Written text s t
    stops :
        max_bytes ≤ s.size + length text
        → os.can_open s.path ≡ false
        → t.writer ≡ false
        → t.enabled ≡ false
        → Written text s t

  roll-Written :
      (text : Text) (s : Sink)
      → s.writer ≡ true
      → s.file ≡ true
      → Written text s (roll os (put_line text s))
  unfolding roll put_line append_line
  roll-Written text s w f = elim (Bool-cases (leb max_bytes (s.size + length text))) [
    | inr room ↦
        subst (Written text s) (sym (if_false (leb max_bytes (s.size + length text)) _ room))
          (stays (ground arith) appended w refl)
    | inl full ↦
        subst (Written text s) (sym (if_true (leb max_bytes (s.size + length text)) _ full))
          (rolled (leb→le _ _ full) (Bool-cases (os.can_open s.path)))
  ]
    where
      new : Sink
      new = put_line text s

      appended : new.files s.path ≡ some (lines_of (s.files s.path) ++ (text ∷ []))
      appended = rw (eq_text_refl s.path) refl

      lines : List Text
      lines = lines_of (s.files s.path) ++ (text ∷ [])

      there : shifted new s.path ≡ some lines
      there = before_rename s.path new.files os ∙ appended

      reopened :
          max_bytes ≤ s.size + length text
          → os.can_open s.path ≡ true
          → Written text s (rotate_file_sink os new)
      reopened full o = elim (Bool-cases (os.can_rename s.path (rot_name s.path 1))) [
        | inl m ↦
            let r = rotate_file_sink-Rotated lines new f o m there in
            rolls full m r.backup r.current r.writing r.size
        | inr m ↦
            let r = rotate_file_sink-Stuck lines new f o m there in
            sticks full m r.current r.writing r.size
      ]

      rolled :
          max_bytes ≤ s.size + length text
          → (os.can_open s.path ≡ true) ⊎ (os.can_open s.path ≡ false)
          → Written text s (rotate_file_sink os new)
      rolled full (inl o) = reopened full o
      rolled full (inr o) = let (w', e') = rotate_file_sink-closed new f o in stops full o w' e'

  -- A line that the writer takes goes behind the lines of the current file (as that is once the buffer is
  -- flushed, which is taken to succeed), and its bytes are counted. If the file then has `max_bytes` or more,
  -- it becomes the first backup, with the line, and the sink writes to an empty file; where it cannot be
  -- renamed, the sink goes on in the same file, whatever it has; and only where no file can be opened is
  -- the sink closed and disabled.
  pub write_file_sink-Written :
      (text : Text) (s : Sink)
      → s.writer ≡ true
      → s.file ≡ true
      → Written text s (write_file_sink os true text s)
  unfolding write_file_sink
  write_file_sink-Written text s w f =
      subst (Written text s) (sym (if_true s.writer _ w)) (roll-Written text s w f)
