-- ===== src/Examples.antt =====
-- cdfs/examples: the two example programs, as clients of the library.
pub mod PrintFile
pub mod PrintTree
