-- ===== src/Lib.antt =====
-- V2bX runs proxy cores for the nodes of a panel. The node controller asks the panel for the node
-- and its users, tells the core about them, and reports their traffic back. Each connection goes
-- through the core's hook, which asks the limiter of the node whether the user may connect and at
-- what rate, and counts the user's traffic.
--
-- The files, and the code that they model:
--
-- - Base: shared helpers: 64-bit integers, maps as association lists (store, load, delete), text,
--   decimal numbers, results with an error or a panic (Result, Gives), and the lemmas on them.
-- - Format: common/format/user.go. Panel: api/panel. Node has the records of node.go, Client `New`,
--   `checkResponse` and `GetNodeInfo` (`get_node_info`), Routes its loop over the routes, and Users
--   the requests of user.go.
-- - Json5: common/json5/json5.go. A text is a size and the byte at each index; each `for` is a turn,
--   which stops or goes on.
-- - Limiter: limiter/limiter.go, dynamic.go, rule.go. The record `Limiter` has the maps of the
--   struct; a method is a function from the record to the new record and its answer. `CheckLimit`
--   is `check_limit`, in the steps of its body; `UpdateUser` is `update_user`, `AddLimiter` is
--   `new_limiter` with `add_limiter`, `GetOnlineDevice` is `get_online_device`.
-- - Counter: common/counter. A counter maps users to references; a heap has what these hold.
-- - Core: core/. Interface is core/interface.go, with a core as a record of operations on a state;
--   Selector is core/selector.go and core/core.go; Sing is the hook of core/sing/hook.go; Hysteria2
--   is core/hy2: the hook and the users of hook.go and user.go, Logger the events of logger.go,
--   Settings the structures of serverConfig.go, Outbound, Config, Listen, Masquerade and Server
--   what config.go makes of them, and Node the core of node.go and hy2.go; Sniffer is
--   core/xray/app/dispatcher/sniffer.go, and Dispatcher that folder's default.go and
--   linkmanager.go: Links is getLink and the user's part of DispatchLink, Managed CloseAll,
--   Sniffing the cached reader and func sniffer, Override shouldOverride, and Route routedDispatch
--   with Dispatch and DispatchLink as a whole; Xray is
--   core/xray/user.go, with the users that ss.go, vmess.go and trojan.go build; Sing/Users is
--   core/sing/user.go; Traffic is the loop of `GetUserTrafficSlice`, which
--   core/xray/user.go, core/sing/user.go and core/hy2/user.go write alike.
-- - Task: common/task/task.go. Its `Start` spawns a loop; the loops are part of the state, and a
--   step is a call or one event of one loop, so that all orders of events are covered.
-- - Node: node/. Users is the difference of two lists of users, Report the report of traffic and
--   devices, Controller the state, Monitor the rounds of `nodeInfoMonitor`, and Start the methods
--   Start, Close, startTasks and SpeedChecker, against any core.
--
-- Bounds. `int` and `int64` are integers; where the code adds or multiplies counts and rates the
-- wrap-around at 2^63 is written out (`wrap64`). `strconv.Itoa` is `itoa`, whose fuel of twenty
-- digits is enough for every 64-bit number. The loop of `sniffer` counts its attempts up to two, and
-- a fuel of two is enough for it. The loops of Json5 have the size of the text and one more, which
-- is enough as each turn but the last moves on. No other definition needs fuel.
--
-- Parameters. A rate bucket of juju/ratelimit, Go's regexp compiler and matcher, and the counts and
-- errors of a wrapped connection are arguments of the definitions that use them, and so are the
-- answers of the panel's HTTP server and how JSON libraries read them, and the core that a
-- controller or a selector drives. Of xray-core the pipes are numbers, and its router, its handlers,
-- its managers of users, and the time and the bytes of each read are arguments. Certificates,
-- sockets, outbounds and servers of hysteria's library, and the inbounds of sing-box, are values of
-- types that are parameters, with the functions that make them.
--
-- Not modelled. Calls into one limiter or one counter do not interleave with each other. A `Range`
-- over a map goes in the order of the association list. What Dispatch leaves to a goroutine comes
-- right after it. The set-up of xray and sing, the download of geo databases, certificates,
-- configuration files and the commands are left out: they fill in the structures of other
-- libraries, or do input and output.
pub mod Base
pub mod Format
pub mod Panel
pub mod Json5
pub mod Limiter
pub mod Counter
pub mod Core
pub mod Task
pub mod Node
