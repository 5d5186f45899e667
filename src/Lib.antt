-- ===== src/Lib.antt =====
-- homedns: a CoreDNS server with plugins for a home network. This library models the plugins'
-- decisions on queries, lists and upstreams, and proves what they promise.
--
-- The program. CoreDNS passes a query through a chain of plugins, whose order directives.go fixes.
-- The plugin blocklist answers NXDOMAIN for names on downloaded lists and passes the others on. The
-- plugin peercache asks sibling replicas for an answer, and holds this replica's own answers for
-- them. The plugin race, at the end of the chain, sends the query to every upstream at once and
-- answers with the first useful reply.
--
-- The files.
--   Prelude, Prelude/*: the Boolean tests, lists and texts that the components share. A text is the
--     list of its bytes. Prelude/Text has the functions of Go's package strings that the code calls;
--     their results on text that is not ASCII, and netip.ParseAddr, are the fields of StdLib.
--   Dns: messages, errors and writers, as far as the plugins read and write them. The calls of
--     miekg/dns and CoreDNS are the fields of DnsLib, with what SetRcode does as laws.
--   Blocklist/Matcher: plugin/blocklist/matcher.go. `newNameSet` is new_name_set; its loops are
--     sort_strings, dedup and prune. Search, Covers, Build and Blocked are about its parts.
--   Blocklist/Parse: plugin/blocklist/parse.go. parse_list is `parseList` on the lines of a body.
--   Blocklist/Source: plugin/blocklist/source.go. fetch is `fetch` on what the network does; dial is
--     the `Dial` of the bootstrap resolver. Client has the settings of the HTTP client.
--   Blocklist/Plugin: plugin/blocklist/blocklist.go. The record Blocklist is the shared state and the
--     metrics; reload, serve_dns and fail_open_after_timeout are the operations. Reach is the
--     relation of queries, rounds and single accesses in any interleaving, and Reach/Calls finds the
--     calls in it; Startup is the same for the lines that publish and for the timer.
--   Race: plugin/race/race.go. exchange is a leg; dispatch reads the legs' results in the order of
--     their arrival, as a list of events, and `none` means that it still waits.
--   Fanout: the goroutines and the channel of `dispatch` and of peercache's `race`, as a step relation;
--     Race/Legs and Peercache/Contest/Legs put the two handlers into it. Race/Answers and
--     Peercache/Contest/HandBack write out what the handlers answer.
--   Directives: directives.go. A panic is `none`.
--   Peercache/Store: plugin/peercache/store.go. The cache of CoreDNS is the record CacheLib, whose
--     laws let it forget entries at any time. A time is in nanoseconds, after some fixed start.
--     Gauge is the same store with the gauge of its size.
--   Peercache/Contest: plugin/peercache/peercache.go, in the manner of Race, with the store passed on.
--     Count has its counters.
--   Peercache/Listener: plugin/peercache/listener.go. serve_probe gives the message of the reply.
--     Serve is the sequence of the probes, with the counters, and Bind is about `bind`.
--   Detached: internal/detached/writer.go, the writer of the leg that may outlive its query.
--   Corefile: what the caddy parser gives to a setup, and the functions of Go's packages time, net,
--     netip, url and strconv that setups call, as the fields of TextLib.
--   Blocklist/Setup: plugin/blocklist/setup.go. parse_config is `parseConfig`; an error is a value of
--     ConfigErr. Reads and Accepts describe the accepted blocks without the loop.
--   Blocklist/Plugin/Lifecycle: `start` and `shutdown`, with the refresh goroutine and the timer as a
--     step relation on Process.
--   Race/Setup: plugin/race/setup.go, where CoreDNS's reading of zones and addresses is UpstreamLib.
--   Peercache/Setup, Peercache/Lifecycle: plugin/peercache/setup.go. Lifecycle is the step relation of
--     `start`, `shutdown` and the goroutines of `listen` and `discover`, with their WaitGroup.
--   Peercache/Discovery: plugin/peercache/discovery.go on the lists of pods that the lister gives.
--   Peercache/Replicas: a replica's probe, answered by a sibling from its store. Circle
--     follows an answer from the one store to the other replica's client.
--   Chain: a query through the handlers of peercache and race, which is the next one. Between
--     blocklist and peercache stands CoreDNS's own cache, so that peercache sees its misses alone.
--   Loadgen: scripts/loadgen/main.go. run adds the workers' counts up; Feed is the channel between
--     the loop over the names and the workers, System the same with each worker's own place and
--     answers, and Report what is printed, as lines without their layout.
--   Buildinfo: buildinfo.go, without its gauge.
--   Tests: runs on concrete inputs, and each theorem at an input.
--
-- Bounds and fuel. `sort.Search` runs on the length of the slice, which each round lessens; the loop
-- of `covers` on the length of the name and one more, since a round drops a byte or more; the loop
-- of `exchange` on maxConnectAttempts and the loops over results on the number of legs, and `bind`
-- on bindAttempts, as in the source. The dialler's counter wraps at 2 ^ 32. The array that
-- deduplication overwrites while it reads is modelled as one array.
--
-- Not modelled. Logging; gauges and histograms that hold times; sockets and HTTP; the tokens of the
-- Corefile, which caddy splits it into; client-go, whose lister and events are arguments; the
-- registration with CoreDNS and with Prometheus, which is a call for each plugin and each metric; the
-- deployment files.
pub mod Prelude
pub mod Dns
pub mod Detached
pub mod Blocklist
pub mod Buildinfo
pub mod Chain
pub mod Corefile
pub mod Directives
pub mod Fanout
pub mod Loadgen
pub mod Peercache
pub mod Race
pub mod Tests
