-- ===== src/Supervisor.antt =====
-- One supervised channel: rk3588-media-gateway/src/channel/supervisor.c, with what it uses of
-- src/process/process_manager.c. `Worker` has the child process, `Attempt` one start of it, `Run`
-- the retries around the attempts, `Stderr` what is logged of the worker's error output, and `Clock`
-- when a timeout has elapsed.
pub mod Worker
pub mod Attempt
pub mod Run
pub mod Stderr
pub mod Clock
