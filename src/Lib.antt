-- ===== src/Lib.antt =====
-- A verification of the media gateway of this repository, rk3588-media-gateway: the service that
-- keeps one FFmpeg worker per camera channel running.
--
-- The parts and how they interact. A configuration is read and validated (config.c); for each enabled
-- channel a supervisor (supervisor.c) drives the channel's state machine (channel_state.c), builds
-- the worker's command line (pipeline_builder.c), starts, watches and stops the worker
-- (process_manager.c), reads its progress records (progress_parser.c), and publishes a snapshot
-- after each change (channel_snapshot.c). The manager (channel_manager.c) owns one thread per enabled
-- channel, each of which runs a supervisor; it publishes their snapshots and takes the commands that
-- start, stop, restart or reload channels while the others run. The HTTP server (http_server.c) shows
-- the snapshots, the metrics (process_metrics.c) and the state of the recordings (recording_status.c),
-- and turns requests into the manager's commands.
--
-- Which file models which part, with paths from the repository's root:
--   Status              rk3588-media-gateway/src/common/error.c, include/gateway/error.h
--   Config              rk3588-media-gateway/include/gateway/config.h
--   Config/Redact       copy_text and gw_redact_url of rk3588-media-gateway/src/config/config.c
--   Config/Expand       gw_expand_environment of the same file
--   Config/Validate     gw_config_validate of the same file
--   Config/Read         the readers of one field, parse_channel, parse_document and
--                       gw_config_load_file of the same file, as `config_load_file`
--   Config/Mediamtx     rk3588-media-gateway/src/config/mediamtx_config.c
--   Channel             rk3588-media-gateway/src/channel/channel_state.c: gw_channel_transition is
--                       `channel_transition`, and `transition` behind its check for null pointers
--   Progress            rk3588-media-gateway/src/monitor/progress_parser.c:
--                       gw_progress_parser_consume is `consume`, one byte of it `consume_byte`
--   Snapshot            rk3588-media-gateway/src/channel/channel_snapshot.c
--   Manager             rk3588-media-gateway/src/channel/channel_manager.c: the entries; creation in
--                       Manager/Creating, start, stop and wait in Manager/Lifecycle,
--                       gw_channel_manager_reload in Manager/Reload, the commands in
--                       Manager/Control, the queries in Manager/Query, the sampler of the workers
--                       in Manager/Sampler
--   Metrics             rk3588-media-gateway/src/monitor/process_metrics.c: the tracker; the
--                       texts of /proc in Metrics/Proc
--   Http                rk3588-media-gateway/src/api/http_server.c: JSON strings, error responses and
--                       the targets that name a channel; the JSON of a channel in Http/Render, the
--                       page in Http/Page, what the routes show in Http/Shown, gw_http_route in
--                       Http/Route, handle_connection in Http/Connection, the responses in
--                       Http/Response, send_all in Http/Sending, run_server in Http/Serve, and the
--                       listener with start and stop in Http/Server
--   Recording           rk3588-media-gateway/src/monitor/recording_status.c
--   Pipeline            rk3588-media-gateway/src/pipeline/pipeline_builder.c: gw_pipeline_build is
--                       `pipeline_build`
--   Supervisor/Worker   rk3588-media-gateway/src/process/process_manager.c: gw_process_stop is
--                       `stop`, gw_process_poll_exit is `poll_exit`
--   Supervisor/Attempt  run_worker_attempt of rk3588-media-gateway/src/channel/supervisor.c, one
--                       function for each part of the loop's body, and the loop in Attempt/Loop
--   Supervisor/Run      gw_supervisor_run of the same file
--   Supervisor/Clock    timeout_elapsed and stop_timeout_ms of the same file
--   Supervisor/Stderr   consume_stderr, flush_stderr and emit_stderr_line of the same file
-- The modules below these prove what their names say. Base has the shared helpers: lists, integers,
-- bytes and decimal numbers over the native natural numbers. Tests runs the definitions at concrete
-- inputs and applies the theorems there.
--
-- How state is modelled. A structure is a record, and a call that changes it returns it. A `char`
-- array is the text before its terminating zero. Unsigned counters keep their wrap-around or their
-- saturation where the code has it. A diagnostic is an optional record, since the pointer to it may
-- be null; other null pointers are modelled where a function tests for them and is called by others
-- that may pass one, and otherwise left out.
--
-- What is a parameter: `getenv`, `inet_pton` (as `is_ipv4` and `is_ipv6`), `strtod` (its result as
-- the bits of a double), the arithmetic, the tests and the printing of doubles, the success of
-- `strdup`, libyaml's document (the node of each number), and the answers of the operating system.
-- The supervisor's environment is a list of rounds, each with the turns of a poll loop: what the
-- stop request, `poll`, `read`, `waitpid`, `kill` and the clock showed.
--
-- A call of the manager is given what `pthread_create` answers for each slot and how each thread that
-- it joins ends; between the calls, threads publish and end as steps of their own. The HTTP server's
-- thread is a list of turns, each with what `poll`, `recv` and `send` answer and with what the other
-- threads do to the manager before it.
--
-- Bounds and fuel. Environment expansion takes as fuel one step more than the input has bytes, since
-- each step reads at least one. The search for the source URL in a line takes one step more than the
-- line has bytes, enough for every URL that is not empty. Numbers are printed with at most twenty
-- digits, which 64 bits never exceed. The other loops are structural recursions on lists, or on the
-- number of failures.
--
-- What is not modelled: the parser inside libyaml, opening the files of /proc, the command line and
-- the signal loop of main.c, the other log lines, the spawn of a process, and the tool
-- gateway_metrics.c, which are mostly input and output, glue around the parts above, or modelled as
-- their result. The exercises under apue are not part of the gateway.
pub mod Base
pub mod Status
pub mod Config
pub mod Channel
pub mod Http
pub mod Manager
pub mod Metrics
pub mod Pipeline
pub mod Progress
pub mod Recording
pub mod Snapshot
pub mod Supervisor
mod Tests
