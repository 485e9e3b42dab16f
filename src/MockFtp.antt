-- ===== src/MockFtp.antt =====
-- mockftp/server.go: the FTP server of the tests, its file system and its control connection.
pub mod Files
pub mod Promote
pub mod Commands
pub mod Control
pub mod Login
pub mod Transfer
pub mod Promotion
pub mod Unique
pub mod Listing
mod Tests
