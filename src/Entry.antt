-- ===== src/Entry.antt =====
-- cdfs/src/directory_entry: directories, files and symbolic links.
pub mod Types
pub mod Names
pub mod Attributes
pub mod Reader
pub mod Meta
pub mod Directory
pub mod Find
