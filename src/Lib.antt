-- ===== src/Lib.antt =====
-- Collapsarr adds downmixed audio tracks to media files. This library models its core.
--
-- Parts, with the code they follow:
--   Downmix/Targets        collapsarr/downmix/targets.py: which tracks a file lacks
--   Downmix/DefaultAudio   collapsarr/downmix/default_audio.py: which track should be the default one
--   Downmix/Converge       both together: the layout after a job
--   Downmix/Files          the disk as a state, the subprocess runner, and Python's rendering
--   Downmix/Probe          collapsarr/downmix/probe.py: running ffprobe and reading its JSON
--   Downmix/Remux          collapsarr/downmix/remux.py: the ffmpeg command, and the temp file
--   Downmix/Apply          collapsarr/downmix/apply.py: the checks and the swap
--   Downmix/Pipeline       collapsarr/downmix/pipeline.py: the stages end to end
--   Downmix/DefaultPipeline  collapsarr/downmix/default_audio_pipeline.py: moving the default flag only
--   Downmix/Cancellation   collapsarr/downmix/cancellation.py: killing the subprocess of a job
--   Jobs/Job, Jobs/Queue   collapsarr/jobs/queue.py: a job, the dict of jobs, enqueue and cancel
--   Jobs/Pool              collapsarr/jobs/queue.py: priorities, claims, force start, shutdown
--   Jobs/Line              the same file from outside: a line of ids that the queue implements
--   Jobs/Run               collapsarr/jobs/queue.py: `_run_job`, its hooks and the pipeline arguments
--   Jobs/Threads           collapsarr/jobs/queue.py: the threads that share one queue
--   Jobs/History           collapsarr/jobs/history.py: the persisted state of the jobs
--   Jobs/Rehydrate         collapsarr/jobs/rehydrate.py: the queue of a restarted process
--   Jobs/Scheduler/Store   collapsarr/jobs/scheduler.py: what the scheduler reads and writes
--   Jobs/Scheduler/Active  collapsarr/jobs/scheduler.py: the jobs that wait or run for a path
--   Jobs/Scheduler/Guard   collapsarr/jobs/scheduler.py: de-duplication among the threads
--   Jobs/Scheduler/Enqueue, DefaultAudio  collapsarr/jobs/scheduler.py: `enqueue_file`, the triggers
--   Jobs/Scheduler/TopUp   collapsarr/jobs/scheduler.py: the Auto-Queue Limit
--   Jobs/Scheduler/Steer   collapsarr/jobs/scheduler.py: cancel, clear, bump, Process Now, requeue
--   Media                  collapsarr/media/service.py, collapsarr/jobs/tracked_media.py: tracked files
--   Library                collapsarr/library/service.py: the nodes, and their Tracked value
--   Arr                    collapsarr/arr/models.py, collapsarr/arr/service.py: path mappings
--   Common                 Boolean tests, lists, texts, signed integers, floats, JSON, results
--
-- A job holds the settings of Downmix/Targets and the handle of Downmix/Cancellation. A block of
-- `JobQueue` under its lock is one function on the record `JobQueue`, and Jobs/Threads composes the
-- blocks in any order: a step is one block by any thread, so that every interleaving is a sequence of
-- steps. `_run_job` is such a sequence (`settles`, then `ends`), and `run_job` is the same with no
-- other thread between.
--
-- The scheduler's methods are actions on a store: the queue, the history, the tables of the tracked
-- files and of the library, and the settings row. An action is the method where no other thread acts
-- meanwhile; a table is the list of its rows in the order of their ids, and a query is a function on it.
-- `enqueue_file` uses Library for its gate, Media for the row of the file, Downmix/Targets for the
-- targets, and Jobs/Queue and Jobs/History for the job. What the threads do to each other between the
-- test of a path and its enqueue is the step relation of Jobs/Scheduler/Guard, over the steps of
-- Jobs/Threads. What a probe, a fetch of another service, `uuid4` and `Path` answer is a parameter.
--
-- A stage of the pipeline takes the disk, a function from paths to contents, and returns it changed
-- with its result or its exception. The subprocess runner, `mkstemp`, `json.loads`, `float` of a text,
-- `str.lower` and the rendering of values in messages are parameters. The integers of a JSON value are
-- those that are not negative. A float is a whole number of microseconds,
-- an infinity or not a number: the precision of ffprobe's durations, without rounding.
--
-- Python's `str` is the list of its code points, a dict is a list in insertion order, an id (`UUID`), a
-- process and a time are numbers that are only compared, and an exception is a value. Priorities are
-- signed. What ffmpeg, the operating system, the recorders and the notifiers do is a parameter. Every
-- loop is a recursion on a list, but the walk from a library node to its ancestors: it has a fuel of 3,
-- the length of the longest chain (episode, season, series), and raises an exception of its own if that
-- does not do.
--
-- Not modelled: log lines, database sessions, a rename that fails, waiting with a timeout, the HTTP routes
-- and the parts of the program that no file above follows.
mod Common
pub mod Arr
pub mod Downmix
pub mod Jobs
pub mod Library
pub mod Media
