-- ===== src/Lib.antt =====
-- Torrent TV is a self-hosted media server in Go. A service (internal/application) keeps the
-- managed downloads of one or more torrent engines and enforces the storage limits; a hub
-- (internal/application/portal) caches the state of a remote portal; HTTP handlers and a desktop
-- shell call both. This library models the parts that decide on their own: what the portal cache
-- may show, what the storage enforcement may delete or admit, which requests may reach the API,
-- what a startup does about an unfinished update, when a download counts as streamed, what happens
-- to a failed or interrupted job, which events a client is sent, what counts as watched, which
-- settings are accepted, what an update archive may create, and what a torrent may list.
--
-- Prelude holds the shared helpers: lists and integers over native numbers, ASCII byte strings
-- with the few functions of package strings that the code calls, and three-way comparators. int64
-- arithmetic wraps (add64, sub64, mul64); an instant is a number of nanoseconds since the zero
-- time.
--
-- Portal models internal/application/portal/types.go (Portal.Types) and hub.go (Portal.Hub). Hub
-- is the record of the mutable fields of the Go struct. Each critical section under h.mu is one
-- function from a hub to a hub: gate, commit, noteSettings, observeAccountOutcome, expireDonor.
-- Portal.Hub.Cycle is refresh: it takes the answers of the client in the order of the calls (the
-- account answer as a function of the key that is read for it), and between any two critical
-- sections a list of actions says what other goroutines do there: noted keys, notices, expiries,
-- account outcomes and the commits of other cycles. Cycle.Flows, Invariant, Drafts, Phases, Walk,
-- Stale, Quiet, Slots and Surfaces prove, History is about whole histories with cycles that
-- overlap, and Portal.Tests runs it. The generation counter is a number that does not wrap.
--
-- Retention models internal/application/retention.go with the parts of service.go, engine.go and
-- internal/platform/config/config.go that it stands on. Retention itself has the protection tests,
-- the rules, the deficit and NormalizeEvictionRules; Order the eviction order; Victim the choice,
-- where sort.Slice is a parameter with what its documentation promises; Household and Latest the
-- facts of favorites and playback; Survey, with Rows, Answers and Routes, retentionSurvey,
-- routePrefix and EngineSet.Resolve; Eviction, with Shrinks, Removes and Spec, evictNext,
-- removeTorrent and forgetEngineRows; Run and Run.Finish the loop of runRetention; Admission the
-- gate ensureAllocationRoom. A Round is what the repository, the engines and the disk answer
-- during one survey and the removal before it, and may differ each time. The arithmetic of float64
-- is a parameter, Float. Leases and settings stay what they are during a run, and managed rows
-- change by the run alone: rows that other requests add meanwhile are outside the model.
--
-- Trust models internal/adapters/httpapi/trust.go: newTrustPolicy, the Host and Origin tests and
-- guard, which answers with an Outcome and the headers that it sets. net.SplitHostPort,
-- netip.ParseAddr and url.Parse are a parameter, Net. Names is about paths and names, Admin about
-- what the guard lets through, Policy about the policy that the environment makes, and Trust.Tests
-- runs it.
--
-- Updates models the decision of internal/application/updates/recovery.go (EvaluateRecovery,
-- liveState, Journal.Acknowledge) over a disk that holds the live executable, its backup and the
-- operation record, and the three changes that activate in install_unix.go makes to that disk. A
-- file is its SHA-256 digest. Each change is atomic, except that backupFile without hard links
-- makes two, with a partial copy between them. Crash is about a process that stops between two
-- changes. Updates.Transaction is what comes behind activate: runHelper, rollback, Cleanup,
-- Recover and recoverPending (of manager.go), each over a Site and with the answers of the file
-- system as arguments, so that every change may fail before or behind its rename. Decisions,
-- Guarded and Course are about any sequence of helpers and startups, Repair about backups that are
-- not restored or not complete; Updates.Tests runs it.
--
-- Manager models internal/application/updates/manager.go: each constructor of Manager.Step is one
-- critical section of an apply, of its installation or of a check, of which any number is running.
-- Manager.Token is about the operation token, Manager.Stale about a check that an operation
-- overtakes, and Manager.Install is the pipeline of install over what its steps answer, with at
-- most three attempts at the release; Manager.Tests runs them.
--
-- Leases models the stream leases of internal/application/service.go (Acquire, Release,
-- persistLease, dropLease). Any number of goroutines is running: the state counts how many of them
-- are about to make each call, and each constructor of Step is one critical section of one of
-- them. Leases.Flag is about the stored flag, Leases.Tests runs a history.
--
-- Jobs models the persisted jobs of service.go: the loop that finds a running job or numbers the
-- attempt of a new one, failOrWait, retryDueJobs and RetryJob, with proofs in Queue and Retry, and
-- recoverInterruptedJobs in Recovery. What the repository lists is an argument, SaveJob and
-- ListDueJobs of internal/adapters/sqlite/repository.go keep times as whole seconds, and time.Now
-- is one instant per call.
--
-- Trackers models the registry of internal/application/trackers.go, Trackers.Registry proves its
-- laws. A callback of a registration is a function of the settings.
--
-- Events models the event bus of service.go, ListEvents of internal/adapters/sqlite/repository.go
-- and the replay of the handler events in internal/adapters/httpapi/api.go. A history of the bus
-- is a list of actions. Fanout is about any history, Replay about a client that reconnects.
--
-- Playback models UpdatePlayback, SetWatched and the playback preferences of service.go: Progress
-- is about the row of a source and the watched mark, Preferences about the preferences, which one
-- file holds with their model. Config models validate of internal/platform/config/config.go;
-- Config.Checks relates its tests to conditions, Config.Providers is about the metadata providers,
-- Config.Validation about the whole.
--
-- Archive models what internal/application/updates/stage.go accepts of an update archive:
-- memberPath, markBundle, accountSize, checkLinkTarget and the loop of extractTarGz. Package path
-- is a parameter. The test of a link is the one of the code, on texts: where a link leads through
-- other links is outside the model. Contained is about the names and links, Sizes about the
-- declared sizes.
--
-- Torrent models internal/application/torrentmeta.go. Torrent is readBNode, where a position is
-- the rest of the data from there and a panic is a result; Torrent.Files is parseTorrentManifest
-- with bint, safeTorrentPath and isPlayable. strconv.Atoi, which stands for ParseInt too, and
-- filepath.Ext are parameters. Reader is about its fuel, Format says how the format writes values,
-- Numerals and RoundTrip read them back, Paths and Manifest are about what a manifest lists,
-- Overflow about lengths near 2^63, and Torrent.Tests runs it.
--
-- Flights models internal/application/singleflight.go: the table of the running calls and how far
-- each has come, where every call has a number of its own. The time limit of a fetch and the
-- contexts of the callers are left out: a caller that joins, returns or leaves changes nothing.
-- Flights.Single proves, Flights.Tests runs it.
--
-- Families models the cache of internal/application/families.go with the computation that
-- refreshes it, each critical section a step; tiles are known by the generation (familyGen) that
-- their computation read, and domain.ArtQuarter is a parameter. A change of the catalog that calls
-- neither RefreshFamilies nor invalidateFamilies is outside the model. Families.Fresh is about
-- what is served, Families.Tests runs it.
--
-- Outbound models internal/platform/outbound/retry.go: the loop of Do over the answers of a
-- provider, and retryDelay. The parsers of the headers are a parameter, and the loop recurses on
-- the attempts that are left, which the policy bounds.
--
-- The two loops of Retention run on fuel. One round uses one unit and an eviction deletes at least
-- one managed row, so that one unit more than there are rows is enough; the theorems ask for no
-- more and show that the fuel never runs out.
--
-- readBNode recurses on fuel. Each byte that it reads uses at most two units, so that twice as
-- many as there are bytes, and one more, are enough: the theorems show that it never runs out.
--
-- Not modelled: the select loop of Hub.Run with its timers, the logs and events of a retention
-- run, what a job does while it runs, and every other part of the server: the other HTTP handlers,
-- the SQL repository, the torrent engines, the tracker and metadata clients, subtitles, media
-- probing, the rest of the updates and the desktop shell. Most of these are glue around remote
-- services and the operating system.
pub mod Prelude
pub mod Portal
pub mod Retention
pub mod Trust
pub mod Updates
pub mod Leases
pub mod Jobs
pub mod Trackers
pub mod Events
pub mod Playback
pub mod Config
pub mod Archive
pub mod Outbound
pub mod Manager
pub mod Torrent
pub mod Flights
pub mod Families
