-- ===== src/Lib.antt =====
-- A model of cdfs, a reader of ISO 9660 images, and of its FUSE file system.
--
-- The program. `ISO9660::new` reads the volume descriptors of an image and finds the root
-- directory. A directory is a run of 2048-byte blocks of records; a record may carry system use
-- entries (SUSP and Rock Ridge), which give names, modes, times and links, and which may go on in
-- continuation areas. `find_recursive` follows a path through directories, `ISOFileReader` reads
-- a file by whole blocks and keeps the last one, and the FUSE handlers answer requests of the
-- kernel with tables of inodes and handles.
--
-- The parts, with the code each is about:
-- - Outcome: values, errors, panics and missing fuel as one result type; the errors of
--   cdfs/src/error.rs. Where overflow checks are a switch of the build, so is the panic.
-- - Crates: nom, bitflags, itertools, encoding_rs, time and the switches of a build, as
--   parameters. Crates/Documented states what the documentation of nom, bitflags and itertools
--   promises, as hypotheses, and functions that fulfil them.
-- - Text, Machine, HashMap: what the code uses of the standard library of Rust: strings as lists
--   of characters, machine integers, slices, maps as association lists.
-- - State: functions that change a state and may fail, for do blocks, and in Ensures what holds
--   where they succeed. Parse/Lengths has the like for parsers.
-- - FileRef: cdfs/src/fileref.rs. The trait `ISO9660Reader` is a record of one operation on a
--   state T; the shared `Rc<RefCell<T>>` is that state, passed from call to call.
-- - Parse: cdfs/src/parse. BothEndian, DateTime, Encoding, DirectoryEntry, VolumeDescriptor, and
--   Susp for susp.rs: Frame (`parse_sig`), Entries (the parsers of all entries and the loop),
--   Flags, Mode. Fuel is about all parsers of a record: they have no loop that could lack fuel.
-- - Entry: cdfs/src/directory_entry. Names (`new` of directories, files and links), Attributes
--   (extra_meta.rs), Reader (`ISOFileReader`), Directory and Meta (`read_entry_at`), Find (the
--   iterator, `find`, `find_recursive`). Directory/Chains is about its loop over continuation areas.
-- - Iso: cdfs/src/lib.rs.
-- - Fuse: cdfs-fuse/src/bin/cdfs_fuse.rs. Types has the state and the replies, Handlers and
--   Readdir the requests; a handler is a function from the state to an answer and a state. Requests
--   puts the handlers together as a relation between states, in whatever order the kernel asks.
-- - Examples: the programs cdfs/examples/print_file.rs and print_tree.rs, from the opened image to
--   what they print. `read_to_end` of the standard library stands in Entry/Reader/ToEnd.
-- - Tests: a small image and runs of the definitions.
--
-- Bounds and fuel. `read` has one round for each byte asked for, and every round reads at least
-- one. `find` and `readdir` have two blocks more rounds than the directory has bytes, since each
-- record starts behind the one before it. The number of descriptors and of continuation areas is
-- bounded by a parameter: the code has no bound of its own there, and an image can keep it
-- running. `read_to_end` is given a number of calls of `read`, and `print_tree` a depth of
-- directories. A model that runs out of fuel says so with a result of its own.
--
-- Not modelled: the main program of the file system and the arguments and logging of the examples,
-- output for debugging, the tests of the repository, and the packages above, which are parameters.
pub mod Prelude
pub mod Outcome
pub mod Crates
pub mod Text
pub mod Machine
pub mod Parse
pub mod State
pub mod FileRef
pub mod Entry
pub mod Iso
pub mod Examples
pub mod HashMap
pub mod Fuse
pub mod Tests
