-- ===== src/LogBridge/Bus/Route/Gates.antt =====
-- The sinks do not disturb one another.
use libmihomo_android.Base.{ℕ, ◌≡◌, Bool, true, false, ◌&&◌, if◌then◌else◌, arith}
use libmihomo_android.Text.{Text}
use libmihomo_android.LogBridge.Level.{Level, at_least}
use libmihomo_android.LogBridge.Sink.{Os, write_file_sink, close_file_sink}
use libmihomo_android.LogBridge.Bus.Route.{
  Event, Router, write_logcat, format_line, route, host_event,
}

module _ (stamp : ℕ → Text) (os : Os) where
  -- What the host logs goes to the file like any other event, and never to logcat.
  pub route-host :
      (ok : Bool) (now : ℕ) (level : Level) (tag payload : Text) (r : Router)
      → let t = route stamp os ok (host_event now level tag payload) r in
        (t.logcat ≡ r.logcat)
        × (t.sink ≡ (
            if r.sink.enabled && at_least level r.file_level
            then write_file_sink os ok (format_line stamp (host_event now level tag payload)) r.sink
            else r.sink))
  unfolding route host_event
  route-host ok now level tag payload r = ground arith

  -- When the writer fails on an event, the file sink is closed and disabled, and no later event changes
  -- it or the files, while an event of the bridge at the level of logcat still goes there.
  pub route-failed :
      (e later : Event) (ok : Bool) (r : Router)
      → r.sink.enabled ≡ true
      → r.sink.writer ≡ true
      → at_least e.level r.file_level ≡ true
      → later.from_host ≡ false
      → at_least later.level r.logcat_level ≡ true
      → let r1 = route stamp os false e r in
        let r2 = route stamp os ok later r1 in
        (r1.sink.writer ≡ false)
        × (r1.sink.files ≡ r.sink.files)
        × (r2.sink ≡ r1.sink)
        × (r2.logcat ≡ (write_logcat later r1).logcat)
  unfolding route write_file_sink close_file_sink
  route-failed e later ok r on w lv host lc = ground arith
