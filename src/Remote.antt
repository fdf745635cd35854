-- ===== src/Remote.antt =====
-- internal/transfer over SFTP, FTPS and SCP.
pub mod Walk
pub mod Ftps
pub mod Sftp
pub mod Scp
mod Tests
