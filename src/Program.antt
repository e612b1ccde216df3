-- ===== src/Program.antt =====
-- The program as one state: the variables of the package `main` that its handlers share, with what they belong
-- to outside it (mihomo, encoding/json, the file system) as parameters. `V` is what a config only passes on,
-- `L` the listeners of mihomo, `R` its resolvers, `S` the rest of mihomo and of the system, `B` the bytes of a
-- file and `Raw` a raw config.
pub mod Calls
pub mod Handled
pub mod Exports
pub mod Contracts
pub mod Runs
pub mod Coherent
pub mod Owed
pub mod Ready
mod Tests
use libmihomo_android.Base.{
  ℕ, String, ℤ, Bool, true, false, Option, none, some, List, [], Outcome, pos,
}
use libmihomo_android.Text.{Text}
use libmihomo_android.Lifecycle.{InitParams, Lifecycle}
use libmihomo_android.Config.Update.{UpdateParams, Globals, Listening, Config}
use libmihomo_android.Config.Apply.{Loader, State, Proxy, nothing}
use libmihomo_android.Config.Read.{Reader}
use libmihomo_android.Bridge.Tunnel.{Mihomo, Encoder}
use libmihomo_android.DnsQuery.Ring.{Log, new_log}
use libmihomo_android.DnsQuery.Service.{Query, Msg, Tables, Reply, Service}
use libmihomo_android.LogBridge.Level.{debug, warning}
use libmihomo_android.LogBridge.Sink.{Sink, Os}
use libmihomo_android.LogBridge.Sink.Disk.{Files}
use libmihomo_android.LogBridge.Bus.{Bus}
use libmihomo_android.LogBridge.Bus.Route.{Event, Router}
use libmihomo_android.GeoUpdate.{Settings, Paths, Disk}
use libmihomo_android.Bridge.Tun.Session.{Tun}
use libmihomo_android.Bridge.Host.{Handlers, Os as Host}

-- The variables: `isInit`, `version` and the home directory; `isRunning`; `currentConfig` and the captured order;
-- mihomo's settings and listeners; `geoUpdaterOnce`; `resolver.DefaultService` and `dnsQueries`; `logDispatchCh`;
-- the levels with the file sink; and the TUN session. `panicked` is whether a goroutine has panicked, which ends the
-- process.
pub record Core (V L R : Type 0) : Type 0 where
  pub life : Lifecycle
  pub is_running : Bool
  pub config : State (Config V)
  pub globals : Globals
  pub listening : L
  pub geo_started : Bool
  pub service : Option (Service R)
  pub queries : Log Query
  pub bus : Bus Event
  pub router : Router
  pub tun : Tun
  pub panicked : Bool

pub record Program (V L R S : Type 0) : Type 0 where
  pub core : Core V L R
  pub rest : S

-- What `executor.ApplyConfig` changes.
pub record Executed (L R S : Type 0) : Type 0 where
  pub globals : Globals
  pub listening : L
  pub service : Option (Service R)
  pub rest : S

pub record Outside (V L R S B Raw : Type 0) : Type 0 where
  -- encoding/json
  pub init_params : String → Outcome InitParams
  pub update_params : String → Outcome (UpdateParams V)
  pub selected_map : String → Outcome (String → Option String)
  pub order_json : List String → String
  pub queries_json : List Query → String
  -- `filepath.Join(C.Path.HomeDir(), configFileName)`, the file system, and the texts of a path
  pub config_path : String → String
  pub reader : Reader S B
  pub text_of : String → Text
  pub dir_of : Text → Text
  pub crash_path : Text → Text
  pub path_error : Text → S → String
  pub sink_os : Os
  pub stamp : ℕ → Text
  pub overflow : ℕ → Text
  pub now : S → ℕ
  -- mihomo
  pub loader : Loader B Raw (Config V)
  pub listeners : Listening V L
  pub cleanup : L → L
  pub execute : Config V → Executed L R S → Executed L R S
  pub proxies : S → List Proxy
  pub force : List (String × String) → S → S
  pub geo_settings : S → Settings
  pub geo_disk : Disk S
  pub geo_paths : Paths
  pub mihomo : Mihomo S
  pub encoder : Encoder
  pub tables : Tables
  pub ask : R → Msg → Reply
  pub clock : Msg → ℕ × ℕ
  -- Whether this is a build with the tag `debug`.
  pub debug : Bool
  -- The handlers that only read the variables of the core.
  pub others : Core V L R → Handlers S Raw
  pub os : Host S

-- The zero value of a query.
abbrev pub blank : Query
blank = record { domain = []; kind = []; answers = []; rcode = []; error = []; delay = 0; time = 0 }

-- The capacity of `dnsQueries`.
abbrev pub dns_queries_capacity : ℕ
dns_queries_capacity = 500

-- The variables as the program begins, with mihomo's own settings, listeners and service.
abbrev pub fresh : {V L R : Type 0} → Files → Globals → L → Option (Service R) → Core V L R
fresh files globals listening service = record {
  life = record { is_init = false; version = pos 0; home_dir = "" };
  is_running = false;
  config = record { current = none; captured = nothing; applied = []; forced = [] };
  globals = globals;
  listening = listening;
  geo_started = false;
  service = service;
  queries = new_log blank dns_queries_capacity;
  bus = record { queue = []; drop_count = 0 };
  panicked = false;
  tun = record { handler = none; hook = false; events = [] };
  router = record {
    logcat = [];
    logcat_level = debug;
    file_level = warning;
    sink = record {
      files = files;
      path = [];
      file = false;
      writer = false;
      size = 0;
      enabled = false;
      crash = none;
    };
  };
}
