-- ===== src/Lib.antt =====
-- A model of metrics-server 0.3.6, the Go program of this repository, in
-- terraform/Provisioning_an_EKS_Cluster/metrics-server-0.3.6; the paths below are from there.
--
-- The program asks every node's kubelet for its stats once a minute, keeps the last answers in
-- memory, and serves them to the Kubernetes API. Its parts, from the source of the data to the API:
--   * Sources (pkg/sources/interfaces.go): the points, the batches of them, and what a source is.
--   * Sources.Addresses (pkg/sources/summary/addrs.go): the address by which a node is reached.
--   * Sources.Kubelet (pkg/sources/summary/client.go, configs.go): the client of a kubelet. The
--     network, the URL and JSON parsers and the client-go library are parameters.
--   * Sources.Summary (pkg/sources/summary/summary.go): one kubelet's summary decoded into a
--     batch, with Sources.Stats for what it reads of other packages. A pointer that is written
--     through is an argument and its new value a result; a slice of zero values that a loop fills
--     is a list that `set` writes to.
--   * Sources.Provider (the same file): a source for each node that the lister knows.
--   * Sources.SourceManager (pkg/sources/manager.go): all sources scraped at once. A state has
--     the goroutines that are left, the contents of the two buffered channels, and the loop's
--     position; a step is a send, a receive or the return, in any order that the channels allow.
--     `Collects` is what a call may return, over all orders, starting times and random delays.
--   * Sources.Fetching: the client of the kubelets as the interface that a source is given, from
--     the HTTP answer to the batch. Manager.Kubelets has the whole way from there to a query.
--   * Manager (pkg/manager/manager.go): the cycle that collects and stores a batch, with the
--     health check. `Collect` is two parts, since the lock is free between them and a health check
--     may read the state there; `Reach` is the loop of RunUntil, which panics if its ticker would
--     have no positive period. Manager.Locking, ConcurrentChecks and ConcurrentQueries put health
--     checks and queries beside the running cycles, with the two locks between them. Float has the
--     float64 product of CheckHealth on integers: products are below 2 ^ 128, so 75 halvings find
--     the exponent.
--   * Sink (pkg/provider/sink/sinkprov.go, pkg/sink/interfaces.go) and Provider
--     (pkg/provider/interfaces.go): the last batch, by node and by pod. A Go map is an association
--     list. A call is one step on the state; Sink.Locking has the calls in their single accesses of
--     the maps, for any number of goroutines, and Sink.Snapshots relates the two. Sink.Contents is
--     the abstract view: batches up to the order of their points, a quotient. Manager.Interleavings
--     has the scrapes as a function into it.
--   * Storage.Nodes and Storage.Pods (pkg/storage): List and Get of the API. The informers'
--     listers and the selectors are parameters; an index out of range panics, and panics are values
--     of Run.
--   * Api and Api.Generic (pkg/apiserver/config.go, pkg/apiserver/generic/storage.go): the two
--     storages under the names of their resources, and the API server that they are installed in.
--     Version (pkg/version/version.go, version/version.go) has what it says of the build. The
--     apiserver library is a parameter. A provider is what it answers at one moment, so a request
--     at some state of the manager reads the group that is built over the sink of that state.
--   * Metrics (pkg/metrics/util.go): the histogram buckets around the scrape timeout, in float64.
--     A double is an integer in units of 2 ^ -1074 (Float.Double), and an operation rounds the
--     exact result, a quotient of integers: at most 2098 bits, so 2045 halvings find the exponent.
--     The registrations stand with the packages that make them (Manager.Durations,
--     Sources.SourceManager.Durations, Sources.Summary.Latency), over a prometheus library that is
--     a parameter with its default buckets; Metrics.Names has its rules for names and labels.
--   * Server (cmd/metrics-server/app/start.go): the options, and Run: the preparation that may
--     fail, the registrations, and the API server over the empty sink with the manager's health
--     check, with the scrape timeout of nine tenths of the resolution (also in Float). What the
--     libraries answer is an environment that is a parameter. Server.Command has the flags of the
--     command and main (cmd/metrics-server/metrics-server.go); a command line asks for the help
--     text or is any sequence of settings by flags, over a parser that is a parameter.
--     Server.InTime has the time that a scrape takes, and Manager.Provenance and Server.Provenance
--     follow an answer back to a kubelet.
--   * Sources.Fake (pkg/sources/fake/fakes.go): the test doubles.
--
-- Shared modules: Base (library names and helpers), Golang (package time, contexts), Golang.RwMutex
-- (sync.RWMutex around an object that is read and updated in single accesses: the steps of the
-- goroutines and the invariant of any such object; a `Lock` that waits keeps new readers out, as in
-- Go, and an access of a field under the lock is one step), Errors (a constructor for each error
-- that the program builds). Times and durations are integers of nanoseconds; a difference of times
-- saturates at int64 as in Go. Quantities are a parameter. The clock is an argument: the time of a
-- call, and for a further read of it in the call a function of the time read before. A recursion is
-- structural, or over a list that the code ranges over. Tests has concrete runs.
--
-- Not modelled: logging; the scheme and the codecs of the API, which only call libraries; the flags
-- of the apiserver's own options; the observations of the metrics inside the prometheus library,
-- which are events here; the number of processors and the environment, which are arguments; the
-- objects that Get returns beside an error; generated code, and everything under vendor.
pub mod Base
pub mod Golang
pub mod Float
pub mod Metrics
pub mod Errors
pub mod Sources
pub mod Provider
pub mod Sink
pub mod Storage
pub mod Version
pub mod Api
pub mod Manager
pub mod Server
pub mod Tests
