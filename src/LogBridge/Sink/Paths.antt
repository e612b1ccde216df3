-- ===== src/LogBridge/Sink/Paths.antt =====
-- Setting the log path, and how a failure is repaired.
use libmihomo_android.Base.{[], true, false, ◌≡◌, arith, ◌≢◌, not, ◌⊎◌}
use libmihomo_android.Text.{Text, eq_text}
use libmihomo_android.LogBridge.Sink.Disk.{eq_text_iff, eq_text_refl}
use libmihomo_android.LogBridge.Sink.{
  Sink, Os, open_file_sink, close_file_sink, set_crash_output, set_log_file_path, set_file_enabled,
}

module _ (os : Os) (path dir crash_path : Text) (s : Sink) where
  -- Setting another path either succeeds, keeps the path, and leaves a file open exactly if the path is
  -- not empty; or it fails because the system makes no directory or opens no file there, keeps
  -- the old path, and leaves the sink closed. It never changes whether the sink is enabled.
  pub set_log_file_path_lem :
      s.path ≢ path
      → let (ok, t) = set_log_file_path os path dir crash_path s in
        ((ok ≡ true) × (t.path ≡ path) × (t.writer ≡ not (eq_text path []))
          ⊎ (ok ≡ false)
            × (path ≢ [])
            × ((os.can_mkdir dir ≡ false) ⊎ (os.can_open path ≡ false))
            × (t.path ≡ s.path)
            × (t.writer ≡ false))
        × (t.enabled ≡ s.enabled)
  unfolding set_log_file_path open_file_sink close_file_sink set_crash_output
  set_log_file_path_lem ne = ground (arith, eq_text_iff s.path path, eq_text_iff path [])

  -- After a failed change of the path, setting the old path again reports success and leaves the sink
  -- closed, so that no line is written, although the system can open the file.
  pub stale_path :
      s.path ≢ path
      → path ≢ []
      → (set_log_file_path os path dir crash_path s).0 ≡ false
      → (os' : Os) (dir' crash_path' : Text)
      → let (ok, t) =
          set_log_file_path os' s.path dir' crash_path'
            (set_log_file_path os path dir crash_path s).1 in
        (ok ≡ true) × (t.writer ≡ false)
  unfolding set_log_file_path open_file_sink close_file_sink set_crash_output
  stale_path ne named failed os' dir' crash_path' =
      ground (arith, eq_text_iff s.path path, eq_text_iff path [], eq_text_refl s.path)

module _ (os : Os) (s : Sink) where
  -- Enabling a sink that has a path and no open file opens the file, if the system can open it.
  pub set_file_enabled_repairs :
      s.writer ≡ false
      → s.path ≢ []
      → os.can_open s.path ≡ true
      → let t = set_file_enabled os true s in
        (t.writer ≡ true) × (t.enabled ≡ true) × (t.path ≡ s.path)
  unfolding set_file_enabled open_file_sink
  set_file_enabled_repairs shut named o = ground (arith, eq_text_iff s.path [])
