-- ===== src/Lib.antt =====
-- TypeType-Downloader: a service that takes the address of a video, chooses a video and an audio
-- stream of it, downloads both, muxes them and keeps the artifact for a while. This library models
-- its core, the Go code under internal/, and proves what the parts promise.
--
-- A request comes to internal/api, which asks the job store (internal/job) for a job and puts its id
-- on the queue of the runner (internal/pipeline). A worker of the runner fetches the streams
-- (internal/typetype), selects two of them (internal/selector), reserves space on the disk
-- (internal/storage), downloads each in ranges (internal/downloader) or over the SABR protocol
-- (internal/sabr), muxes them, and tells the job store of each stage. The job store tells its
-- subscribers and its sinks.
--
-- Files:
--   Prelude and its children: lists, text, integers, words, maps as association lists, results.
--   Storage: internal/storage/monitor.go. `measure` is `check`, `reserve` is `Reserve`, `release` is
--   the function that Reserve returns. Storage/Calls has them in any order.
--   Typetype: internal/typetype/models.go. Typetype/Client: client.go; `public_media_url` is
--   `MediaURL`, `media_url` the unexported `mediaURL`.
--   Artifact: internal/artifact/paths.go and the local store of local.go.
--   Selector: internal/selector. `select_mp4_with_options` is `SelectMP4WithOptions`; `pick` is the
--   loop of `selectVideo` and `selectAudio`. Selector/Defaults has the options they work with, case
--   by case.
--   Sabr, Sabr/Stream: internal/sabr/types.go and stream_protocol.go. `consume_download_stream` is
--   `consumeDownloadStream`; Play has its specification, frame by frame.
--   Job: internal/job/models.go, cache.go, response.go. Job/Store: store.go, store_events.go,
--   store_expiry.go, an operation of the store for each method; `complete` is `Done`, `remove` is
--   `Delete`. Steps has the lock sections as steps in any order.
--   Pipeline/Capacity, Options, Attempts: internal/pipeline/capacity.go, options.go, retry.go and
--   failure.go. Pipeline/Running: the state of a run and what the world answers. Tasks: download.go,
--   sabr.go, media.go. Runs: sabr_runner.go, remote.go, work_cleanup.go. Process: runner.go,
--   remote_mux.go and `process` of lifecycle.go; `run_ranged` and `run_ranged_audio` are the ends of
--   `run` and `runAudioOnly`. Queue: the queue and the worker of lifecycle.go.
--   Api: internal/api, its replies and paths; Handlers has a function for each handler, and
--   `routes`; EventStream the loop of an event stream.
--   Downloader: internal/downloader. Requests has media_headers.go; Copying `copyChunk`; Fetch
--   `validateRangeResponse`, `fetchChunk` and `downloadChunk`; Ranged `rangedRequest`; Files
--   `DownloadFile`; Probe probe.go; Tracker the progress tracker; Workers the goroutines of
--   `downloadChunks` and `queueChunks`, which step in any order; Whole the chunks in the file.
--   Sabr/Progress: internal/sabr/progress.go. Sabr/Parts: part_files.go and the attempts at a part of
--   multipart.go. Fetching: `downloadPart`. Workers: `downloadParts`. Download: download.go. Assembly:
--   the tracks on the disk, with `downloadAttempt`. Delivered has them together.
--   Db/Writer: internal/db/job_writer.go.
--   Cleanup: the purge of internal/cleanup/s3_artifacts.go. Cleanup/Sweep: cleaner.go.
--   Config: internal/config/config.go.
--   Examples, Selector/Runs: concrete runs.
--
-- Conventions. A method of a shared object is a function from its state to its new state and what it
-- returns; what the system, the clock or another library answers is an argument. An int64 or a uint64
-- that can leave its range has its wrap-around written out (Prelude/Words). Text is a list of code
-- points. An error is a constructor that carries the values of its message. A removal of a partial
-- file, whose error the code drops, may be refused (Prelude/Disk).
--
-- A run of a job is a function of the job store, the disk monitor and the calls made so far; before
-- each of its calls of the job store the other goroutines may change the store, by a function that is
-- a parameter.
--
-- Fuel. Loops that read or copy get as much fuel as there are bytes to read or to copy, since each
-- round takes a byte at least; the loop over the chunks gets the size of the file. The pages of
-- the purge get any fuel: a repository that always lists a full page would keep the code busy for
-- ever.
--
-- Not modelled: the S3 client, SQL, net/http, libavformat and ffmpeg, the timers and the server's
-- start, since they are I/O or glue; JSON, SHA-256, net/url, filepath.Clean and filepath.WalkDir are
-- parameters. Nor are the header lines of a remote mux. To a run of a job, the outcomes of its
-- downloads, of the muxers and of the artifact store are answers of the world.
pub mod Prelude
pub mod Artifact
pub mod Config
pub mod Storage
pub mod Typetype
pub mod Sabr
pub mod Selector
pub mod Job
pub mod Pipeline
pub mod Downloader
pub mod Api
pub mod Db
pub mod Cleanup
pub mod Examples
