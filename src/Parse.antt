-- ===== src/Parse.antt =====
-- cdfs/src/parse: the parsers. Each takes the `Crates` that it is built with.
pub mod Fuel
pub mod Lengths
pub mod BothEndian
pub mod DateTime
pub mod Encoding
pub mod Susp
pub mod DirectoryEntry
pub mod VolumeDescriptor
