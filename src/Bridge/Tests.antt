-- ===== src/Bridge/Tests.antt =====
-- Runs of the bridge at concrete inputs, and the theorems of its modules at them.
use libmihomo_android.Base.{
  Outcome, ok, err, ℕ, suc, ◌+◌, pos, Bool, true, false, none, some, List, [], ◌∷◌, ◌≡◌, refl,
}
use libmihomo_android.Bridge.Method.{method_name, method_of, init_clash}
use libmihomo_android.Bridge.Reply.{ActionResult, World, null, invoked, released}
use libmihomo_android.Bridge.Host.{string, Json, Os, Handlers, file}
use libmihomo_android.Bridge.Actions.{handle_action}
use libmihomo_android.Bridge.Actions.Steps.{parse_string}
use libmihomo_android.Bridge.Actions.Files.{del_file}
use libmihomo_android.Bridge.Actions.Entry.{Action, invoke_action}
use libmihomo_android.Bridge.Actions.Replies.{IsAnswered}
use libmihomo_android.Bridge.Actions.Answers.{handle_action-IsAnswered}
use libmihomo_android.Bridge.Actions.Balance.{
  total, is_release, is_call, owed, invoke_action-releases, invoke_action-calls,
}
use libmihomo_android.Bridge.Tun.Session.{Tun, start_call, dial_call, stop_tun_locked, run, Call}
use libmihomo_android.Bridge.Tun.Owned.{tally, starts, run-stopped}

-- A host whose state counts the calls that changed it.
abbrev pub handlers : Handlers ℕ Bool
handlers = record {
  init_clash = λ a0 s. (suc s, true);
  get_is_init = λ s. false;
  force_gc = λ s. suc s;
  validate_config = λ a0 s. (suc s, "");
  update_config = λ a0 s. (suc s, "");
  setup_config = λ a0 s. (suc s, "");
  get_config = λ a0 s. (suc s, err "no file");
  reset_traffic = λ s. suc s;
  reset_connections = λ s. (suc s, true);
  start_log = λ s. suc s;
  stop_log = λ s. suc s;
  start_listener = λ s. (suc s, true);
  stop_listener = λ s. (suc s, true);
  crash = λ s. suc s;
  get_proxies = λ s. "ok";
  change_proxy = λ a0 a1 s. (suc s, none);
  async_test_delay = λ a0 a1 a2 s. (suc s, pos 7);
  test_groups = λ a0 a1 a2 s. (suc s, "");
  probe_current_proxy_ip = λ a0 s. (suc s, "");
  query_external_providers = λ s. "ok";
  get_external_provider = λ a0 a1 s. "ok";
  update_external_provider = λ a0 a1 s. (suc s, "");
  get_traffic = λ s. "ok";
  get_total_traffic = λ s. "ok";
  get_memory = λ s. "ok";
  get_connections = λ s. "ok";
  query_proxy_group_order = λ s. "ok";
  subscribe_connections = λ s. suc s;
  unsubscribe_connections = λ s. suc s;
  close_connection = λ a0 s. (suc s, true);
  close_all_connections = λ s. (suc s, true);
  get_dns_queries = λ s. (s, "ok");
  clear_dns_queries = λ s. suc s;
  set_logcat_level = λ a0 s. suc s;
  set_file_level = λ a0 s. suc s;
  set_file_enabled = λ a0 s. suc s;
  set_log_file_path = λ a0 s. (suc s, none);
  host_log = λ a0 a1 a2 s. suc s;
}

abbrev pub json : Json Bool
json = record {
  marshal = λ r. some (method_name r.method);
  string_map = λ s. ok (λ key. s);
  change_proxy = λ s. ok (record { group_name = some s; proxy_name = none });
  test_delay = λ s. err s;
  test_groups = λ s. err s;
  provider = λ s. ok (record { type_ = s; name = s });
  host_log = λ s. err s;
}

abbrev pub os : Os ℕ
os = record {
  stat = λ path s. file;
  remove_all = λ path s. (suc s, none);
  remove = λ path s. (suc s, some "busy");
  providers = λ s name. none;
  update_mmdb = λ s. (suc s, none);
  update_asn = λ s. (suc s, none);
  update_geo_ip = λ s. (suc s, none);
  update_geo_site = λ s. (suc s, some "offline");
  lookup_code = λ ip s. "DE" ∷ [];
  level_mapping = λ s. none;
}

abbrev start : World ℕ
start = record { state = 0; events = released 5 ∷ [] }

abbrev delete_action : Outcome Action
delete_action = ok (record { id = "1"; method = "deleteFile"; data_ = string "/x" })

abbrev result : ActionResult Bool
result = record { id = "1"; method = init_clash; data_ = null; code = pos 0; callback = 9 }

deleted :
    (invoke_action json os handlers 9 delete_action start).events
    ≡ (released 5 ∷ invoked 9 "deleteFile" ∷ released 9 ∷ [])
unfolding invoke_action method_of parse_string del_file
deleted = refl

handle_action-IsAnswered_example :
    IsAnswered json.marshal result start
      (handle_action json os handlers init_clash (string "{}") result start)
handle_action-IsAnswered_example =
    handle_action-IsAnswered json os handlers result init_clash (string "{}") start

invoke_action-releases_example :
    total (is_release 9) (invoke_action json os handlers 9 delete_action start).events
    ≡ owed delete_action + total (is_release 9) start.events
invoke_action-releases_example = invoke_action-releases json os handlers 9 start delete_action

invoke_action-calls_example :
    total (is_call 9) (invoke_action json os handlers 9 (err "bad") start).events
    ≡ suc (total (is_call 9) start.events)
invoke_action-calls_example =
    invoke_action-calls json os handlers 9 start (λ r. (method_name r.method, refl)) (err "bad")

abbrev no_session : Tun
no_session = record { handler = none; hook = false; events = [] }

-- Two sessions, the first of which fails to open.
abbrev calls : List Call
calls = start_call 5 (pos 40) none ∷ start_call 6 (pos 41) (some 1) ∷ dial_call false 80 ∷ []

run-stopped_example : tally 5 (stop_tun_locked (run calls no_session)).events ≡ starts 5 calls
run-stopped_example = run-stopped 5 calls
