-- ===== src/Parse/Susp/Flags.antt =====
-- cdfs/src/parse/susp.rs: the flag sets, each flag by the number of its bit. The names carry the
-- flag set's first word; `..._all` is all of a set's bits.
use iso9660_rs.Prelude.{ℕ}

-- AlternateNameFlags
abbrev pub name_continue : ℕ
name_continue = 1

abbrev pub name_current : ℕ
name_current = 2

abbrev pub name_parent : ℕ
name_parent = 4

abbrev pub name_host : ℕ
name_host = 32

abbrev pub name_all : ℕ
name_all = 0x27

-- PosixTimestampFlags
abbrev pub time_creation : ℕ
time_creation = 1

abbrev pub time_modify : ℕ
time_modify = 2

abbrev pub time_access : ℕ
time_access = 4

abbrev pub time_attributes : ℕ
time_attributes = 8

abbrev pub time_backup : ℕ
time_backup = 16

abbrev pub time_expiration : ℕ
time_expiration = 32

abbrev pub time_effective : ℕ
time_effective = 64

abbrev pub time_long_form : ℕ
time_long_form = 128

abbrev pub time_all : ℕ
time_all = 0xff

-- RockRidgeFlags
abbrev pub rock_ridge_all : ℕ
rock_ridge_all = 0xff

-- SymbolicLinkRecordFlags
abbrev pub link_continue : ℕ
link_continue = 1

abbrev pub link_current : ℕ
link_current = 2

abbrev pub link_parent : ℕ
link_parent = 4

abbrev pub link_root : ℕ
link_root = 8

abbrev pub link_volume_root : ℕ
link_volume_root = 16

abbrev pub link_hostname : ℕ
link_hostname = 32

abbrev pub link_all : ℕ
link_all = 0x3f

-- PosixFileMode
abbrev pub type_socket : ℕ
type_socket = 0o140000

abbrev pub type_symlink : ℕ
type_symlink = 0o120000

abbrev pub type_file : ℕ
type_file = 0o100000

abbrev pub type_block_dev : ℕ
type_block_dev = 0o060000

abbrev pub type_directory : ℕ
type_directory = 0o040000

abbrev pub type_char_dev : ℕ
type_char_dev = 0o020000

abbrev pub type_pipe : ℕ
type_pipe = 0o010000

abbrev pub set_uid : ℕ
set_uid = 0o004000

abbrev pub set_gid : ℕ
set_gid = 0o002000

abbrev pub sticky : ℕ
sticky = 0o001000

abbrev pub own_read : ℕ
own_read = 0o000400

abbrev pub own_write : ℕ
own_write = 0o000200

abbrev pub own_exec : ℕ
own_exec = 0o000100

abbrev pub group_read : ℕ
group_read = 0o000040

abbrev pub group_write : ℕ
group_write = 0o000020

abbrev pub group_exec : ℕ
group_exec = 0o000010

abbrev pub world_read : ℕ
world_read = 0o000004

abbrev pub world_write : ℕ
world_write = 0o000002

abbrev pub world_exec : ℕ
world_exec = 0o000001

abbrev pub all_permissions : ℕ
all_permissions = 0o006777

abbrev pub mode_all : ℕ
mode_all = 0o177777
