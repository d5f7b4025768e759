-- ===== src/Utils.antt =====
-- The utils package: utils/fs.go and utils/hash.go, and the files of the operating system that it
-- works on.
pub mod Content
pub mod Chunks
pub mod Fs
