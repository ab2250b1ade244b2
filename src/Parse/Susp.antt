-- ===== src/Parse/Susp.antt =====
-- cdfs/src/parse/susp.rs: the system use entries of a directory record.
pub mod Types
pub mod Flags
pub mod Frame
pub mod Entries
pub mod RoundTrip
pub mod Mode
