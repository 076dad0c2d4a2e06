-- ===== src/Lib.antt =====
-- Verification of media-processor, a pipeline on Temporal that turns downloads into library files.
--
-- A watcher (cmd/watcher) scans directories and starts one media workflow for each file that has no
-- marker. The workflow (workflows/media) probes the file, finds a crop, transcodes, asks Radarr or
-- Sonarr to import the output, and cleans up; each step is an activity on a task queue of its own.
-- The clients of Radarr and Sonarr (pkg/medialib) stand behind the import. The cleanup leaves the
-- marker that the watcher looks for next to a source that stays. The worker (cmd/worker) runs the
-- activities that its configuration lists; the transcode limiter (pkg/transcodelimiter) decides when
-- one more transcode may start, by the load that a sampler (pkg/loadprobe) reports until it fails,
-- and the idle poller (cmd/worker/idle.go) drains a worker without work. pkg/ffmpeg drives libav.
--
-- Files and what they model:
--   Prelude: the libraries' names, Boolean tests on numbers, lists, and integers (Prelude/Int).
--   Text: Go's package strings on code points.
--   Files/Paths: path/filepath on absolute clean paths, as lists of segments, innermost first.
--   Files/Tree: a file system as an association list from paths to files and directories.
--   Limiter/Defs: pkg/transcodelimiter/limiter.go. `new` is New, `admission_state` admissionState,
--     `reserve_slot` ReserveSlot, `mark_used` and `release` the methods of those names. Float64 is a
--     parameter, the clock and the load are arguments. Limiter/Admission has the admission rule,
--     Limiter/Bookkeeping the count of marked permits, Limiter/Starts and Limiter/History the rule
--     by the calls that were made, Limiter/Pollers the interleaving of pollers.
--   LoadProbe: pkg/loadprobe/sampler.go, as events that change a sampler: calls of Start and Close,
--     answers of the probe, ticks, and the end of the context. LoadProbe/Lifecycle and
--     LoadProbe/Fallback have its theorems.
--   LoadProbe/Cgroup: pkg/loadprobe/cgroup_linux.go, on the texts of cpu.max and cpu.stat;
--     Cgroup/Kernel has its theorem. Text/Decimal is strconv.ParseUint and strconv.ParseInt, and
--     the numbers that they read.
--   Idle: cmd/worker/idle.go, the tracker and the poller; Idle/Exit has its theorems.
--   Media/Types: the records of workflows/media and pkg/ffmpeg/types.go.
--   Media/Workflow: workflows/media/workflow.go and config.go. `media_workflow` is MediaWorkflow, as
--     the list of the activity calls it makes and its result; what activities answer is a parameter.
--     Workflow/Order, Sequence, Failure and Routing have its theorems.
--   Media/Probe: workflows/media/probe.go (`run_probe` is RunProbe).
--   Media/Streams: the choice of codec and streams of workflows/media/transcode.go.
--   Media/Languages: workflows/media/language.go.
--   Media/Crop: workflows/media/detectcrop.go.
--   Media/OutputPath, Media/Surroundings, Media/Transcode: the rest of RunTranscode, by the paths it
--     writes, the file system and ffmpeg it meets, and its steps. Transcode/Destination,
--     Transcode/Reusing, Transcode/Steps, Transcode/Atomic and Transcode/Placement have its theorems.
--   Media/Notify: Notify and getArrLibrary of workflows/media/activities.go.
--   Media/Activities: NewActivities and the Probe, DetectCrop and Transcode activities of the same
--     file; Activities/Handover goes from a transcode to its import.
--   Media/Cleanup: workflows/media/cleanup.go, and Cleanup of activities.go. Cleanup/Prune,
--     Cleanup/Exhaustion and Cleanup/Effects have its theorems.
--   Arr: pkg/medialib. Arr/Command is internal/arrcommand/arrcommand.go, Arr/Queue the loop of
--     findTrackedDownloadID, Arr/Import ImportByFilePath, Arr/Radarr and Arr/Sonarr the lookups of
--     radarr/client.go and sonarr/client.go, Arr/Artwork internal/artwork/artwork.go. Command/Polls,
--     Queue/Stops, Queue/Pages, Queue/Pending, Import/Rejection, Import/Outcome and Artwork/Secrecy have their
--     theorems, and Arr/Handover joins the clients to Notify.
--   Watcher/Walk, Watcher/Scan: scan of cmd/watcher/watcher.go, for one directory and over all
--     mappings; Walk/Selection and Scan/Isolation have its theorems, Watcher/Sentinels goes from a
--     cleanup to the next scan.
--   Watcher/Ids: the ids and search attributes of workflows, of the same file; Ids/Bounds is on them.
--   Worker/Activities: cmd/worker/activities_resolver.go; Activities/Mentions and
--     Activities/Resolution have its theorems.
--   Worker/Settings, Worker/Config: cmd/worker/config.go with internal/envvar, the parsers of single
--     variables and the whole configuration (`load_config` is loadConfig); Settings/Ranges,
--     Config/Validity and Config/Threshold have their theorems.
--   Ffmpeg/CropState, Ffmpeg/CropDetect: runCropdetectLoop and parseCropMetadata of
--     pkg/ffmpeg/cropdetect.go. CropDetect/Readings, Tracking, Steps and Detection have its theorems.
--   Ffmpeg/Packets: the path of copied packets to the muxer, in pkg/ffmpeg/stream.go, on the int64
--     of Ffmpeg/Int64, which wraps; Packets/Muxing has its theorem.
--   Ffmpeg/Rebase: pkg/ffmpeg/timestamps.go; Rebase/Shift has its theorem.
--   Ffmpeg/Builder, Ffmpeg/Plan, Ffmpeg/Output: pkg/ffmpeg/transcode.go, the builder of a transcode,
--     buildStreamStates, and what setupOutputContext makes of its streams. Plan/Streams and
--     Output/Defaults have their theorems. Ffmpeg/Demux is readAllPackets, Demux/Routing its theorem.
--   Ffmpeg/Audio: pkg/ffmpeg/stream_audio.go, a decoded stream on its way through the resampler and
--     the FIFO to the encoder; Audio/Chunks, Resampling, Timeline, Delivery, Flush and Whole have its theorems.
--     Ffmpeg/Audio/Setup is the format that the encoder is opened with, Setup/Choices its theorem.
--   Modules called Tests apply the theorems to concrete inputs.
--
-- Loops are structural recursion: pruning recurses on the directory path, which ends at / at the
-- latest; ReserveSlot's loop, the idle poller and the wait for a command recurse on the rounds they
-- are given, and a call that still waits at their end says so. The context of a scan stays alive for
-- a number of looks at it. On fuel run `search_queue`, one unit for each page, with `none` where it
-- runs out: where no page promises more than `limit` records, limit + 1 is enough, since every page
-- that does not end the search brings a record; and `drain_fifo`, one unit for each frame, with
-- `out_of_fuel`: a unit for each sample held, and one more, is enough, since a frame takes a sample.
--
-- What a file system, ffprobe, ffmpeg, the services and the libraries answer is a parameter: any
-- answers, with the refusals of the system as functions of the path. The decoder and the filter of a
-- crop detection answer as functions of what they were given. Stream indices, channel counts and
-- sizes are natural numbers; durations are integers of nanoseconds in place of float64 seconds.
--
-- Not modelled: stream titles (audio_title.go), the titles and posters that RunTranscode asks the
-- services for, and its progress goroutine; metrics, logging and webhooks, which only report; the
-- main functions of watcher and worker, the configuration of the watcher, its ticker and the memo
-- of a workflow; the counters of the GPU probe; flushAllEncoders; the opening of inputs, filter
-- graphs, and the decoding and encoding of video and subtitles, which are calls of libav;
-- connections to Temporal.
pub mod Prelude
pub mod Files
pub mod Idle
pub mod Limiter
pub mod Media
pub mod Ffmpeg
pub mod Worker
pub mod Watcher
pub mod Text
pub mod Arr
pub mod LoadProbe
