-- ===== src/Lib.antt =====
-- The utilities repository: sftp-loadtest (internal/...), a load generator for SFTP and FTP servers with a
-- web interface; http-cmd-runner, a server that runs one command per request; threaddump-analyzer and
-- sftp-admin. Every part that is modelled is Go.
--
-- How the parts interact. A run (internal/runner) is set up from a RunConfig (internal/config). Its
-- dispatchers choose a user and one of the user's patterns for each upload, add a row to the ledger
-- (internal/report) when the upload is over, and tell the disable policy how it ended. Watchers attach
-- track ids and downloads to the rows. A flusher asks isRecordFinal of each row, writes the final rows to
-- the CSV file and releases their memory. Latencies go to histograms (internal/latency). Every dial
-- checks the server's key against the store of host keys (internal/hostkeys). Schedules
-- (internal/web/schedule.go) start runs later. A watcher (internal/trackid) waits for the server to rename
-- uploads. A coordinator (internal/cluster) starts a run on several servers of this kind, and guards
-- (internal/web/security.go) stand before the web handlers. A vault (internal/vault) holds the passwords
-- that schedules and requests name by markers. http-cmd-runner and threaddump-analyzer stand
-- alone.
--
-- Files and the code that they model:
-- Base: names that the components share. Base/Lists and Base/Maps are Go's slices and maps (a map is an
--   association list, whose order stands for the order of range), Base/Int its signed integers, Base/Sorting sort.Slice: an
--   insertion sort, which gives one of the orders that sort.Slice may give. Base/Texts is the prefix of a text.
-- Report: sftp-loadtest/internal/report/report.go. Record has FileRecord, DownloadResult and what an
--   attach does to a row (apply_download, verify_hash, apply_track_id). Store has the Store with AddUpload
--   (add_upload), the four attaches, the lookups and Snapshot; a slot that was flushed is none. Flush has
--   FlushFinalized in its two halves, since it gives up the mutex while the stream writes (collect,
--   commit), and StampPendingDownloads. History runs any sequence of the calls; a flush is three of its
--   events (collects, writes, releases), which those of other flushes and the other calls may come
--   between, as may happen in runner.go, whose teardown does not wait for streamFlusher. Bounds, Attach,
--   Settle, Pending and the files under History have the lemmas.
-- Runner: sftp-loadtest/internal/runner/runner.go. Disable is disablePolicy, Rotation is pickActiveUser
--   and nextPattern, Final is isRecordFinal, Pool is clientPool. Disable/Streak has the policy's specification.
-- RunConfig: sftp-loadtest/internal/config/config.go. Source has SourceConfig, SinkConfig and RampConfig
--   with their Validate, Run has RunConfig.Validate, which changes the configuration as it checks it,
--   Users has parseUsersCSV.
-- Schedule: sftp-loadtest/internal/web/schedule.go. Entry has Schedule.every and scheduleStore.list,
--   Sweep has scheduleSweep.
-- HostKeys: sftp-loadtest/internal/hostkeys/store.go and callbacks.go, as Store and Callbacks, and
--   tlsstore.go, as Certificates.
-- CmdRunner: http-cmd-runner/config.go and main.go. Config has the configuration, Exec the handler,
--   Capped the capped output.
-- Latency: sftp-loadtest/internal/latency/histogram.go. Histogram has bucketIndex, bucketBoundsNs and Add.
-- Threads: threaddump-analyzer/internal. Dump is parser/parser.go (Thread with Holds and WaitingOn), Waits
--   and Deadlocks are analyzer/analyzer.go's Deadlocks: the wait-for graph, the search (find_cycles) and
--   dedupeCycles. Lifelines has Pool and StackSig of that file, and Lifelines and FrozenThreads of
--   session/session.go, whose loop over the signatures is Runs. Contended has States, TopContention,
--   SigGroups and the LockProgressions of session/progression.go, Predicted its PredictDeadlocks.
-- Cluster: sftp-loadtest/internal/cluster/cluster.go. Fleet has the requests to the workers, Coordinator
--   Start and Stop, Merge Status with mergeWorkerStatuses, Split splitConfig. Steps has the calls as their
--   two critical sections, in any order; Rollback and Stopped have the lemmas on what is sent.
-- Vault: sftp-loadtest/internal/vault/vault.go, as Format (the header and its bytes), Store (the unlocked
--   vault, its calls in memory, what is sealed and opened) and Files (the atomic write, Save, Open, Create and
--   ChangePassphrase), with the lemmas under them; refs.go and web/vault_refs.go are Refs, web/vault_migrate.go
--   is Migrate, web/vault_handlers.go is Session.
-- MockFtp: sftp-loadtest/internal/mockftp/server.go. Files has mockFS with acceptStor's two halves,
--   Promote promoteAll, Commands splitCmd, Control the commands of handle and the lines of a connection;
--   Login, Transfer, Promotion, Unique and Listing have the lemmas.
-- Guards: sftp-loadtest/internal/web/security.go. Requests has BasicAuth and CSRFGuard, Bucket the token
--   bucket, Limits RateLimit and Sweep the lemmas on its sweep.
-- TrackIds: sftp-loadtest/internal/trackid/watcher.go. Watcher has Register and tick; Kept and Answered
--   have the lemmas.
-- Each component's Tests have runs at concrete values and the theorems at concrete inputs.
--
-- How the code is translated. State is passed explicitly; a call that panics returns none. Instants and
-- durations are nanoseconds (those of a cluster are seconds), and the zero time is 0. A counter keeps its width where it wraps round (the
-- cursors, the histogram's counters, the product of a day interval). Errors are values of data types,
-- without their texts.
--
-- Bounds and fuel. The loop that advances a repeating schedule runs on now + 1 rounds of fuel, enough
-- since each round adds at least one nanosecond. The loop over the decades of the histogram has six
-- rounds, as many as the code allows. The loop over the users runs once for each user, as in the code.
-- A walk of the wait-for graph has one step more than there are waiting threads, since it does not come
-- by a thread twice. A token bucket counts halves of a billionth of a token, in which every refill of a
-- nanosecond is whole; the source uses floats.
--
-- Parameters of the model: whether a write to disk succeeds and how many rows a failed one leaves, the row finality that the runner passes to
-- the flush, the process that a command starts, whether startRun accepts a request, time.ParseDuration,
-- the records of encoding/csv, net.SplitHostPort, strings.ToLower and TrimSpace, strconv.Itoa, base64
-- (with decoding the inverse of encoding), the key formats of the ssh package, the answers of the workers
-- of a cluster and what is read off their JSON, argon2, chacha20poly1305, the JSON of the vault's payload, the disk
-- and the random source of the vault, path.Clean and ToUpper, what the network and the clock give to a
-- command of the mock FTP server, the folder listings of the watched servers, the
-- fields of a certificate, dialling from a slot of a pool, SHA-1, and whether an address is that of a
-- trusted proxy.
--
-- Not modelled: the web server's handlers and the user interface, the protocol clients and tunnels, the mock
-- SFTP server, the files of a run and the archives of a cluster, alerts, metrics, sources and
-- sinks, the readers of thread dumps, and sftp-admin, which is written in C. In the modelled files: CSV output, float
-- speeds and percentiles, JSON, log lines, and the order of the host keys in their file.
pub mod Base
pub mod Report
pub mod Runner
pub mod Schedule
pub mod HostKeys
pub mod CmdRunner
pub mod RunConfig
pub mod Latency
pub mod Threads
pub mod Cluster
pub mod Guards
pub mod TrackIds
pub mod MockFtp
pub mod Vault
