-- ===== src/CmdRunner.antt =====
-- http-cmd-runner: a server that runs one command per request.
pub mod Config
pub mod Capped
pub mod Exec
pub mod Output
pub mod Allowed
mod Tests
