-- ===== src/Program/Ready/Stays.antt =====
-- The program after a setup, over any sequence of what reaches it.
use libmihomo_android.Base.{String, false, ◌≡◌, Option, none, some, List, ok}
use libmihomo_android.Bridge.Host.{Json}
use libmihomo_android.Bridge.Reply.{World}
use libmihomo_android.Config.Update.{Config}
use libmihomo_android.DnsQuery.Service.{Service, Reply}
use libmihomo_android.Program.{Core, Program, Outside}
use libmihomo_android.Program.Calls
use libmihomo_android.Program.Calls.{
  start_listener, stop_listener, clear_dns_queries, put_logcat_level, put_file_level, enable_file,
  put_log_file_path, host_log, put_in_use,
}
use libmihomo_android.Program.Runs.{Input, run}
use libmihomo_android.Bridge.Tun.Session.{Tun}
use libmihomo_android.Program.Ready.{IsReady, decode_error}

module _ {V L R S B Raw : Type 0} (out : Outside V L R S B Raw) (d : Config V)
    (default_parses : out.loader.parse out.loader.default_raw ≡ ok d) (json : Json Raw) where
  -- The state after a call that has not panicked.
  abbrev After : Option (World (Program V L R S)) → Type 0
  After none = Unit
  After (some w) = IsReady w.state.core

  -- A run that ends, after which an update that no setup runs beside is refused only by the decoder.
  pub record Updates (is : List Input) (w : World (Program V L R S)) : Type 0 where
    pub after : World (Program V L R S)
    pub ran : run out json is w ≡ some after
    pub answer :
        (text : String)
        → (Calls.update_config out false text after.state).1 ≡ decode_error (out.update_params text)
