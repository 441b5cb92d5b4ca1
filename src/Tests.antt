-- ===== src/Tests.antt =====
-- Runs of the model at concrete inputs, and the theorems applied there.
mod Channel
mod Config
mod Http
mod Manager
mod Mediamtx
mod Monitor
mod Pipeline
mod Progress
mod Server
mod Stderr
mod Supervisor
