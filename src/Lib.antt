-- ===== src/Lib.antt =====
-- Verification of the Go bridge of libmihomo-android, src/main/jni/core, package by package.
--
-- The program wraps the mihomo proxy core for Android. The host calls exported C functions (lib.go): most
-- requests come as JSON actions with a JNI global reference to a callback, which the bridge answers once
-- and releases; a TUN session owns one more such reference. The handlers of the actions change the state of
-- the program: its log sinks, its DNS query log, its groups and listeners.
--
-- Parts, with the code that each models:
-- GroupTest: grouptest/grouptest.go. Order is `Order` (the recursive walk with its `seen` map), Run is
--   `Run` as a step relation on goroutines that wait for earlier ones, Pick is `Fastest`, `Seat`, `Leaf`.
-- DnsQuery: dnsquery/dnsquery.go. Ring is `Log` with `Add`, `Snapshot` and `Clear` (index arithmetic
--   written out, a panic is `none`), Service is `ServeMsg`, `Install` and `newQuery`.
-- LogBridge: log_file.go and log_bridge.go. Sink is the file sink with its rotation, Bus the bounded
--   channel that `dispatch` fills, Bus/Route the routing of an event to logcat and the file, Capture the
--   capture of a standard descriptor (`captureStdFd`), Loop `dispatchLoop` with its recovery from a panic, and
--   `init`.
-- Bridge/Method: the method names of constant.go. Bridge/Reply: `ActionResult` and `send` of action.go and
--   lib.go. Bridge/Host: the interface to the handlers of other files, to encoding/json and to the
--   operating system. Bridge/Actions: `handleAction` of action.go (Steps are its checks, Cases its longer
--   cases, Files the handlers of file_ops.go and geo_data.go, Entry is `invokeAction` of lib.go).
-- Bridge/Tun: lib.go. Session is `TunHandler`, `handleStartTun` and the hooks, Setup is `startTUN`, `stopTun`,
--   `quickSetup` and `setEventListener` with the listeners of tunnel_state.go.
--   Packages is the resolver of package names that the hook installs, Fence the semaphore of a `TunHandler` as
--   interleaved steps. Bridge/Listener: the event listener under `eventListenerMu`, as interleaved steps.
--   Bridge/Tunnel: the calls of tunnel_state.go, lifecycle.go and lib.go that pass on to mihomo.
-- Probe: probe.go, the proxy to probe and the request for the public address.
-- Config: common.go and config_apply.go. Apply is `applyConfig` with the captured group order and the forced
--   picks, Read `readFile`, InUse what is in use after it, Order the captured order, Update `updateConfig` and
--   `updateListeners` with `handleUpdateConfig`.
-- Lifecycle: `handleInitClash` of lifecycle.go.
-- GeoUpdate: geo_update.go, when a check of the geo databases is due, and a turn of its loop.
-- TunStart: `Start` of tun/tun.go, from the texts of the VpnService to the options of the listener.
-- Selection: selection/selection.go, `Apply` over any selector.
-- Proxies: Snapshot is `allProxies` and `proxyByName`, Change `handleChangeProxy`, Delay `testProxy` with its
--   256 slots, of proxies.go; Providers is providers.go; Groups is groups_delay.go, over GroupTest.
-- Streams: connections.go and log_stream.go. Worker is what they share, Connections and Logs the calls of
--   each with their goroutine, as step relations; Close is the calls that close connections.
-- Platform: platform/limit.go and platform/procfs.go, the guard of file descriptors and the search of
--   /proc/net.
-- Program: the variables of package main as one state that the parts above share, with everything outside as
--   parameters. Calls are the handlers on that state, Handled gives them to `handleAction`, Exports has
--   `startTUN`, `stopTun` and `quickSetup`, and Runs the sequences of actions, log events, turns of the loops,
--   DNS messages and exported calls. A handler is one step there; an `updateConfig` says in its action
--   whether its test of `currentConfig`, before it takes `runLock`, meets the nil of an `applyConfig` under way. A panic of this code ends the run.
-- Text: the functions of Go's strings package that these use, on lists of bytes. Base: shared helpers.
--
-- State is passed explicitly. Code under a lock (or the semaphore of a TUN session) is one step; where the
-- schedule matters (`Run`, `dispatch`, `testProxy`, the streams, the semaphore, the event listener) the steps
-- of the goroutines interleave in any order. Goroutines that `invokeAction` and `quickSetup` start are run to
-- their end.
--
-- Bounds and fuel: `Order` and `Leaf` run on fuel, since groups can point at each other; their totality
-- theorems show that the number of known names and one more is enough. The other loops are
-- structural. Sizes and times are natural numbers, and levels, ports and file descriptors integers of a size
-- that the code does not exceed; the interval of the geo updates wraps around as an int64. A float64 in an
-- action is given by the integer that Go's int makes of it.
--
-- Parameters: the JSON codec, the file system, the clock, the resolver and providers of mihomo, and the
-- handlers of files that are not modelled.
--
-- Not modelled: the C++ and Kotlin glue, the cgo wrappers of bridge.go; the text of a JSON value, for which
-- the value stands; a `Flush` of the log file that fails; and that `deleteFile` can take away a file that the log
-- sink has open. The calls of the TUN session's hooks are apart from the runs of Program, and so is what a call of
-- `Now` changes in a group, outside `Seat`.
pub mod Base
pub mod Bridge
pub mod Config
pub mod DnsQuery
pub mod GeoUpdate
pub mod GroupTest
pub mod Lifecycle
pub mod LogBridge
pub mod Platform
pub mod Probe
pub mod Program
pub mod Proxies
pub mod Selection
pub mod Streams
pub mod Text
pub mod TunStart
