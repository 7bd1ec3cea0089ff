-- ===== src/Commands.antt =====
-- The commands of tools/decb.py on a disk image that is loaded.
pub mod Edit
pub mod Killed
pub mod Kill
pub mod Moved
pub mod Rename
pub mod Succeeds
pub mod Wipe
pub mod Recover
pub mod Load
pub mod Rawpack
pub mod Check
mod Tests
