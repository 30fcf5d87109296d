-- ===== src/Lib.antt =====
-- The verification library of the observant agent, which collects host and container metrics and
-- pushes them as InfluxDB line protocol.
--
-- The program. Once per interval the main program (cmd/observant-agent/main.go) asks the collector
-- (internal/collect/collect.go) for a snapshot of the host and the Docker client
-- (internal/docker/docker.go) for a sample of each container, has both written into an encoder of
-- line protocol (internal/lineproto/lineproto.go), and hands the encoder's bytes to the pusher
-- (internal/push/push.go), which posts them to the endpoint and keeps the newest batches that it
-- could not deliver.
--
-- The files.
-- - Base: helpers. Tests has Boolean tests on native numbers, Lists the lists, Text and Trim Go
--   strings as lists of bytes, Decimal `strconv.FormatInt`, Clock `time.Time`, Dict the maps.
-- - Lineproto: internal/lineproto/lineproto.go. Escape has `writeEscaped`, Point the tags, the
--   fields and `writeValue`, Encoder the type `Encoder` with `New`, `Point`, `Bytes`, `Len`,
--   `Points` and `Reset`. Reader is a reader of line protocol that is written from the format and
--   shares no code with the encoder. Render, Reading, Sections and RoundTrip prove that it reads
--   what the encoder writes; Schema has the lines that METRICS.md describes, Tags is about the tags of
--   a line, Batch about the count of lines, and Broken about line breaks in tags.
-- - Push: internal/push/push.go. Transport has the errors, `retryable` and one request, Pusher the
--   type `Pusher` with `post`, `flushPending`, `sendWithRetry`, `Send` and `SendOnce`. Frame, Buffer,
--   Flush, Retry, Send and Ledger are proofs about a post, the buffer, a flush, the attempts, one
--   `Send`, and any history of calls.
-- - Docker: internal/docker/docker.go. Restart has the state of a `Client`, `plan`, `needsInspect`,
--   the restart counts and `pruneDead`; Sample has the arithmetic of `stats`; Collect has
--   `Containers`, `stopped` and `Collect`; Encode has `Encode`; Detect has `Detect` with `probe`; Http
--   has `getJSON`; Tasks has the goroutines of `Collect` as steps in any order. Schedule, Records,
--   Usage, Answers, Cycle, Kept, Lines, Detected and Replies are proofs about the inspect calls, the
--   kept records, the memory, what a cycle reports, keeps and leaves as it is, the lines, the socket
--   that is opened, and the replies that count. Local, InTurn and Interleave prove that the order of
--   the goroutines does not matter.
-- - Collect: internal/collect/collect.go. Metrics has the samples and `Snapshot`, Snapshot has
--   `Snapshot.Encode`, Inflight `begin` and `end` and the goroutines of `deadline`, Deadline
--   `deadline`, Note `note`, Filters the tests of filesystems, mounts, devices and interfaces, Percent
--   the rounding and the load of the processor, Readers the readers of the sections and `Prime`, Disks
--   `collectDisks`, Cycle `Collect`. Documented has the lines of METRICS.md for a snapshot, Items and
--   Lines are proofs about its lines, Skips about the filters, Mounts, Visits and Reports about the
--   mounts, Isolation and Sections about the sections.
-- - Config: internal/config/config.go. Settings has `Config`, `env` and `envInt`, Parse has `Parse`,
--   Validate `Validate`. Accepted is about the arguments that `Parse` accepts, and Sources
--   about where each setting comes from.
-- - Agent: cmd/observant-agent/main.go. State has the type `agent`, the search for a socket and
--   `logDockerFailure`, Batch `collectBatch` and `prime`, Loop `cycle`, `shutdown` and the steps of
--   `loop`, Human `human`, Print, Containers and Logs the lines that are printed and logged, SelfCheck
--   `selfCheck`, Start `run`, `once` and the exit status. Heartbeat is about the lines of a batch, Posts
--   about the batch that is pushed, Frame about what a cycle leaves, Calls about the calls of the
--   pusher, Wired and Wiring about every state of the loop, Redetect about the search for a socket,
--   Quiet about repeated failures, OneLine about the lines that are logged, Checked about a self check,
--   Modes about the way that a run takes, and Launch about what holds where it enters the loop.
-- - Each of the six has a file Tests, and some a file Runs, with runs and with the theorems at concrete
--   inputs.
--
-- How the code is modelled. A string is the list of its bytes. An instant is the number of
-- nanoseconds since the start of year 1, which is the zero `time.Time`. A counter of type `int` or
-- `int64` is its 64-bit pattern, so that it wraps around as in Go; an integer that only passes
-- through is an integer. A method takes the state and returns the new one. An error is its text,
-- with the status where `retryable` reads it. A map is an association list. `sort.SliceStable` is an
-- insertion sort, since the result of a stable sort is unique; `sort.Slice` is a parameter, since it
-- is not. The loop of the agent is a step relation: a step meets a Turn, which is what the host, the
-- engine, the sockets and the clock answer in one cycle, and a World.
--
-- Parameters. Floats and Arith stand for `float64`, `strconv.FormatFloat` and package math. Transport
-- stands for gzip, the HTTP client, the context, the sleep and the clock: its World is the state of
-- all of these, and each call may change it. Engine stands for the answers of the container runtime
-- during one cycle, the clock and `time.Parse`; Http and Decoder for the HTTP client on the socket and
-- the JSON decoder behind it; Machine for the environment, the files and the sockets; Probes for
-- gopsutil; System for packages flag, os, net/url and time; Printer for package fmt. `skip_mount`
-- takes `path.Clean`.
--
-- Fuel. Printing a number and trimming a text recurse on fuel, which is one more than the number and
-- the length of the text: each step makes the number or the text smaller. The loop of `human` has
-- fuel for five rounds, which it never uses up. All other loops recurse on the list or the number of
-- attempts that they go through.
--
-- Not modelled. `Collect` of the Docker client runs its tasks one after the other in Collect and in
-- any order in Tasks; the limit on the calls at a time is left out, since it only forbids some orders.
-- Of the main program neither the signals nor the waiting of `sleep` is modelled: a step of the loop
-- may end the context at any time, and the times of the summaries and the number that gives the jitter
-- are free. The set-up of the HTTP clients in `New` and `newClient` is that of package net/http.
-- The cycles of the loop let no goroutine of `deadline` return between two of them, so that a flag of
-- a call that was late stays set; Inflight has these returns, at any time.
mod Base
pub mod Lineproto
pub mod Push
pub mod Docker
pub mod Collect
pub mod Config
pub mod Agent
