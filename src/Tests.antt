-- ===== src/Tests.antt =====
-- Runs of the daemon and the GUI on small concrete inputs, with in-memory stand-ins for the
-- libraries.
pub mod Samples
mod Storage
mod Requests
mod Verdicts
mod Settings
mod Startup
mod Window
mod Callers
mod Chains
mod Wire
mod Scanned
mod Restart
