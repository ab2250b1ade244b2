-- ===== src/Fuse.antt =====
-- cdfs-fuse/src/bin/cdfs_fuse.rs: the file system as FUSE sees it, a state and a handler for each
-- request. A reply is what the handler returns, and `reply.error` is its error.
pub mod Types
pub mod Handlers
pub mod Readdir
pub mod Requests
