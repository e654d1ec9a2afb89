-- ===== src/Lib.antt =====
-- Sub Manager VPN: a manager of VPN subscriptions. It downloads the sources of a whitelist, parses
-- and filters their nodes, probes them through an engine, keeps results for each node in a database,
-- selects the best of each country as the members of a subscription, and serves the members as
-- generated files.
--
-- Parts and files
--
-- Base: lists, texts as lists of code points, maps as association lists, the stable sort, decimal
--   numbers, and loops in chunks.
-- Node: internal/model/model.go. A scheme is a text, as in the source.
-- Filter: internal/filter/filter.go. Filter/Defs has Dedup, the five passes and Apply in the order of
--   the source. Filter/Servable says what a node needs, with lists of its own of what is allowed and what is not,
--   Filter/Passes compares the pipeline with it, and Filter/Distinct is about Dedup.
-- Select: Select of internal/select/select.go, and of internal/scheduler capPerCountry, addToTopK
--   (scheduler.go) and applyDegrade with bestUnselected and medianInt (degrade.go). Select/Groups reads
--   a result by country, Select/Stream compares the bounded table of the cycle with a full sort, and
--   Select/Degrade is about the swaps.
-- State: internal/state/state.go. State/Tables is the database as one record with a list of rows for
--   each table; State/Nodes, State/Results, State/Subscription, State/Retention and State/Queries are
--   its statements, by the names of the source's methods in lower case.
-- Scheduler: internal/scheduler/scheduler.go. Scheduler/World is the configuration and the state,
--   which is the database and the nodes last written to the output directory (Persist of
--   internal/select/persist.go). Scheduler/Serve is regenerateSubs, Scheduler/Reconcile the end of
--   Cycle and SeedSubscription, Scheduler/Members ReplaceRoutine, SubValidity, SubPing and SubStatus,
--   and Scheduler/Cycle is Cycle with its stream of pages and defaultProbe.
-- Bans: internal/bans/bans.go, the banned hashes in memory and in the file.
-- Scheduler/Cache and Scheduler/Sources: defaultFetch of scheduler.go with its parse cache, the stored
--   validation headers, and parseFetched with its counters. The rewriting of the addresses, which the
--   source reads anew from the ranges and the file with the edge address, is an argument of each call
--   that gives one for each body: it may change at any time.
-- Net: internal/netutil/netutil.go, which hosts are public. Net/Blocks compares the test of an address
--   with the list of reserved blocks, and Net/Resolve the two ways to check a host.
-- Registry: internal/config/config.go, the whitelist of sources in a text file. Registry/File is its
--   parser and printer, Registry/Spec the whitelist as its user sees it, and Registry/Refined
--   compares the two.
-- Settings: internal/settings/settings.go, the settings in memory and on disk.
-- Cdn: internal/cdn/cdn.go, the rewriting of nodes behind Cloudflare.
-- Web: internal/web. Web/Hub is the hub of hub.go over the channels it made, where a send on a closed channel
--   or a second close is a panic, with its operations as steps in any order; Web/Log is the
--   captured log, Web/Auth the token, the tickets and the limiter of server.go, and Web/Sources the
--   handlers of handlers.go that change the whitelist.
--
-- How they interact: defaultFetch parses, rewrites (Cdn) and filters (Filter) the bodies of one source of
-- the Registry, or takes its nodes from the cache. Cycle upserts what the sources gave, reads the nodes
-- back in pages, probes them, keeps the best of each country, prunes, selects, reconciles the subscription with the selection and
-- generates the files. Between cycles SubValidity and SubPing probe the members and replace the dead.
-- A ban is a test on hashes that the scheduler is given. The handlers call the Registry, which asks Net
-- whether a literal address is public.
--
-- Parameters
--
-- Codec stands for SHA-256 with its hex form and for encoding/json of a node; `norm_name` for the
-- display name that selector.NormName builds; an Engine for the answers of mihomo during one routine;
-- `geo` for the country lookup; `clock` and `now` for time. Where a theorem needs that JSON gives back
-- what it was given, this is its hypothesis. Concurrent probes come back in any order, so the routines
-- over the members take their answers as a list. A Network stands for packages net and net/url,
-- SettingsCodec for encoding/json of the settings, Answers for what package fetch gives in one call, and
-- `parse` for parse.ParseSubscription; `contains`, `files` and `split_host` are functions of Go's library.
-- A file is written as a whole or stays, and how far a write comes is an argument.
--
-- Bounds and fuel
--
-- Numbers that the program keeps positive (latencies, cycles, times, ids) are natural numbers without
-- a bound; settings and ports are integers. RecordResultsBatch and its kin run on fuel that is the
-- number of rows, which is enough since a chunk takes at least one. The loop over the pages in
-- Scheduler/Cycle takes its fuel as an argument, and tells when it was not enough. One more than the
-- rows of the table is enough, since each page leads to a larger id and probing adds no row.
--
-- Not modelled
--
-- Failures of SQLite and of the file generators, cancelling a cycle, the timers and locks, the other
-- status counters, and a negative retention window. A routine of the scheduler runs as a whole before the
-- next one. SQL leaves the order of rows with equal keys open; here the row inserted first comes
-- first. A Go map is read in the order of insertion, on which no result here is meant to depend
-- except the choice between equally fast nodes. Lower and upper case follow ASCII and the letters
-- that fold into it. In the registry and its handlers a file that cannot be read is left out. The link
-- parsers, the downloads, country databases, the engine's configuration, the generators of the three
-- file formats, the display names, the public server and the handlers on nodes are not modelled.
pub mod Base
pub mod Node
pub mod Filter
pub mod Select
pub mod State
pub mod Scheduler
pub mod Bans
pub mod Net
pub mod Settings
pub mod Cdn
pub mod Registry
pub mod Web
