-- ===== src/Lib.antt =====
-- The hardware abstraction layer (HAL) of a traffic-steering function: a Go service beside a
-- DriveNets router that tells a controller which interfaces and flows there are, how they perform,
-- and that steers single flows to a next hop by rules of an access list on the router.
--
-- The parts, and the files that model them:
--   Registry    the interfaces, `hal.interfaces.Map` of pkg/hal/hal.go: `NewInterface`,
--               `RemoveInterface`, the copies of the lists and the three searches. Go shares one
--               pointer among four maps; here the maps hold places in a store that only grows.
--   Telemetry   `InterfaceMonitor.Update` of pkg/hal/gnmi.go, the loop of `monitorInterfaces` and
--               the visitors of pkg/hal/hal.go, and the stream of pkg/hal/stats_server.go. It
--               writes only the telemetry of the interfaces in the registry. Subscriptions has the
--               paths of `Add` and `interfaceOperPaths`, Channels the threads and channels around
--               the loop as a step relation, without the registry's calls of other threads.
--   Flow        `FlowKey`, its texts and `ToTelemetry`, of pkg/hal/api.go, fmt.go and hal.go, and
--               the rows of `FlowsDebugger`.
--   Mock        the mock of the HAL, pkg/hal/mock.go.
--   Collector   `Publish` and `GetFlows` of pkg/hal/hal.go: flows are aggregated under the text of
--               their key and named by the registry's interfaces.
--   Netconf     the rules of pkg/hal/structs.go, the requests of pkg/hal/hal.go, `commitChanges`.
--               Documents has the access list as encoding/xml writes it, element by element,
--               Decoding how a reply is read; elsewhere the device answers with the rules.
--   Steering    `Steer`, `RemoveSteer` and the rule cache (`hal.aclRules`, and `accessListID` of
--               pkg/hal/netconf_api.go). A next hop is looked up in the registry, a request goes
--               through Netconf.
--   Loading     `InitNetConf`, `GetSteerInterface` and `SteeringAclCleanup` of pkg/hal/hal.go.
--   Setup       the configuration of pkg/hal/config.go, the options, `NewDnHal` and `Init` of
--               pkg/hal/hal.go, which composes Startup, Loading and an empty Collector.
--   Startup     `getDnIfIndex` and `InitInterfaces` of pkg/hal/hal.go, which fill the registry.
--   Tunnels     `AddTunnel`, `DeleteTunnel` and `AddSiEnvironment` of pkg/hal/hal.go, with the
--               searches for interfaces in the tokens of a reply. Texts has the texts of the
--               requests, Filling what text/template does with them, Documents the functions
--               `Method...`, Markup a reader of XML that is no part of the code.
--   Management  the calls of pkg/hal/mgmt_server.go, through `NewInterface` and `RemoveInterface`.
--   Twamp       the TWAMP client of pkg/twamp: Control has the control connection, Probes the test
--               packets and the tally of `RunX`, whose results reach Telemetry as events, Ping
--               and Statistics the rest of test.go and results.go, Sessions the set-up of the
--               tests in `monitorInterfaces` and the command cmd/twamp/main.go.
--   Client      cmd/client/main.go: the commands, over the interface `DnHal`, which the models of
--               pkg/hal/hal.go fill, and the batch output with its accumulator.
--               Backend and Steered follow the steering command to the cache and the device.
--   Screen      cmd/stats/main.go: hosts are polled for the stream that Telemetry models, and the
--               samples shift through windows. The receive loop is on fuel, of which one more
--               than the messages of the stream is enough.
--   Net         what they use of Go's package net: `To4`, `Equal`, and the text of an address.
--   Outcome     a result, an error value, or the end of the process (a panic, `log.Fatal`).
--   Prelude     shared types and lemmas: maps, sorted lists, keys, integers.
--   Examples    runs at concrete inputs.
--
-- How code and model correspond. A function that changes shared state takes the state and returns
-- the new one; a function that a lock guards is one step. `Publish` and `GetFlows` take no lock:
-- the functions of these names are calls during which the other is not called, and the histories of
-- Collector/Histories let calls of `GetFlows` come between the fetch and the store of a message;
-- there one thread publishes, the calls of `GetFlows` do not overlap each other, and the counters of
-- one aggregate are read and written whole. A Go map is an association list, whose
-- order stands for the order of a `range`. A `uint64` counter is a natural number with its wrap at
-- 2 ^ 64 written out; a rule id (an `int`) and a pointer are natural numbers, a `time.Duration` is
-- an integer, its sum in the tally of `RunX` and `Ping` wraps as an int64, and what `Sub` returns,
-- saturated or not, is the clock's. A string is a list of bytes. A float64 is a bit
-- pattern that is moved, and where the code computes with it the operations are a parameter.
-- `SteerItem.Rule` is taken as a pointer that is not nil. Every function is by structural
-- recursion on a list, or on the number of rounds, so no fuel is needed, but for the digits of a
-- number, whose fuel is the number itself and one more, and the receive loop of Screen.
--
-- Parameters, for code outside the repository: the manager of gNMI subscriptions (`Manager`); the
-- router behind NETCONF (`Device`), which answers a request with decoded rules or an error text;
-- `net.ParseCIDR`, of which it is assumed, where it says so, that it reads back the text of an
-- address; `json.Unmarshal` into an `InterfaceTelemetry`; the replies of the gNMI client;
-- `net.ParseIP`; for tunnels the router's replies as decoded tokens; for TWAMP the sockets, the
-- clock and the random numbers (`Host`), the connections with the texts of their addresses and the
-- functions that read them (`Network`), and the arithmetic of `time.Time` (`Clock`), of which
-- nothing is assumed; for Screen the gRPC client (`StatsClient`); for Setup viper (`System`); for
-- Client and Twamp the arithmetic of float64 (`Floats`, `Floating`), and that `net.ParseIP`, where
-- it says so, reads back the text of an address; `ygot.StringToPath`, which reads back the texts of
-- two paths.
--
-- Not modelled: the XML text and the namespaces of the requests on the access list, the
-- connections, the reading of the configuration file, which is viper's, the terminal, the tables
-- and the flags of the commands, and the generated code under pkg/hal/proto.
pub mod Prelude
pub mod Outcome
pub mod Net
pub mod Registry
pub mod Telemetry
pub mod Flow
pub mod Collector
pub mod Netconf
pub mod Mock
pub mod Steering
pub mod Loading
pub mod Client
pub mod Screen
pub mod Setup
pub mod Startup
pub mod Management
pub mod Tunnels
pub mod Twamp
pub mod Examples
