-- ===== src/LogBridge/Bus/Route.antt =====
-- `route` and `dispatchLoop` of log_bridge.go: an event to logcat and to the file, by their levels.
pub mod Gates
use libmihomo_android.Base.{
  ℕ, zero, suc, ◌<◌, List, [], ◌∷◌, ◌++◌, Bool, true, false, not, ◌&&◌, if◌then◌else◌, ltb, ℤ, pos,
  negsuc, pos_part, neg_part, ◌+◌, ltb_ℤ,
}
use libmihomo_android.Text.{Text}
use libmihomo_android.LogBridge.Level.{Level, warning, at_least, level_tag}
use libmihomo_android.LogBridge.Sink.{Sink, Os, write_file_sink}
use libmihomo_android.LogBridge.Bus.{Bus}

-- `dispatchEvent`; `from_host` marks what the host has written to logcat itself.
pub record Event : Type 0 where
  pub when : ℕ
  pub level : Level
  pub tag : Text
  pub payload : Text
  pub from_host : Bool

-- The lines of logcat with their priorities, the two levels, and the file sink.
pub record Router : Type 0 where
  pub logcat : List (ℕ × Text × Text)
  pub logcat_level : Level
  pub file_level : Level
  pub sink : Sink

-- ANDROID_LOG_DEBUG is 3, then INFO, WARN and ERROR; ANDROID_LOG_SILENT is 8.
unfoldable pub android_log_priority : Level → ℕ
android_log_priority (pos zero) = 3
android_log_priority (pos (suc zero)) = 4
android_log_priority (pos (suc (suc zero))) = 5
android_log_priority (pos (suc (suc (suc zero)))) = 6
android_log_priority (pos (suc (suc (suc (suc zero))))) = 8
android_log_priority (pos (suc (suc (suc (suc (suc n)))))) = 4
android_log_priority (negsuc n) = 4

unfoldable pub write_logcat : Event → Router → Router
unfolding android_log_priority
write_logcat e r = record r {
  logcat = r.logcat ++ ((android_log_priority e.level, e.tag, e.payload) ∷ []);
}

-- `"%s [%s] [%s] %s\n"`. The format of package time is a parameter.
unfoldable pub format_line : (ℕ → Text) → Event → Text
unfolding level_tag
format_line stamp e =
    stamp e.when
    ++ (32
        ∷ b'['
        ∷ level_tag e.level
        ∷ b']'
        ∷ 32
        ∷ b'['
        ∷ (e.tag ++ (b']' ∷ 32 ∷ (e.payload ++ (10 ∷ [])))))

module _ (stamp : ℕ → Text) (os : Os) where
  -- `ok` says whether the writer of the file takes the line.
  unfoldable pub route : Bool → Event → Router → Router
  unfolding write_logcat
  route ok e r =
      let r1 = if not e.from_host && at_least e.level r.logcat_level then write_logcat e r else r in
      if r1.sink.enabled && at_least e.level r1.file_level
      then record r1 { sink = write_file_sink os ok (format_line stamp e) r1.sink }
      else r1

  -- The tick of `dispatchLoop`: the drops since the last tick are reported through `route`, in the
  -- words of `overflow`, and counted anew. The flush before it leaves the files as they are here.
  unfoldable pub tick : Bool → ℕ → Text → (ℕ → Text) → Bus Event → Router → Bus Event × Router
  unfolding route
  tick ok now tag overflow b r =
      let emptied = record b { drop_count = 0 } in
      if ltb 0 b.drop_count
      then (let e : Event = record {
        when = now;
        level = warning;
        tag = tag;
        payload = overflow b.drop_count;
        from_host = false;
      } in
          (emptied, route ok e r))
      else (emptied, r)

-- `setLogcatLevelImpl` and `setFileLevelImpl`
unfoldable pub set_logcat_level : Level → Router → Router
set_logcat_level level r = record r { logcat_level = level }

unfoldable pub set_file_level : Level → Router → Router
set_file_level level r = record r { file_level = level }

-- The event that `hostLog` dispatches.
unfoldable pub host_event : ℕ → Level → Text → Text → Event
host_event now level tag payload = record {
  when = now;
  level = level;
  tag = elim tag [ [] ↦ b'h' ∷ b'o' ∷ b's' ∷ b't' ∷ [] | c ∷ rest ↦ c ∷ rest ];
  payload = payload;
  from_host = true;
}
