-- ===== src/Dispatcher.antt =====
-- app/dispatcher: the names of the jobs (jobspec.py), the run of one job (jobrunner.py), and the
-- checks of a request (server.py).
pub mod Names
pub mod Labels
pub mod Manifest
pub mod Runner
pub mod Polling
pub mod Server
