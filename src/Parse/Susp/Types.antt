-- ===== src/Parse/Susp/Types.antt =====
-- cdfs/src/parse/susp.rs: the System Use Sharing Protocol entries as data. `D` is the time stamp
-- of the crate `time`. A flag set is the number of its bits.
use iso9660_rs.Prelude.{ℕ, Bool, Option, List, none}
use iso9660_rs.Crates.{Bytes, Str}

pub data SuspExtension : Type 0 where
  rock_ridge_1_09 : SuspExtension
  rock_ridge_1_12 : SuspExtension

pub record AlternateName : Type 0 where
  pub name : Str
  pub flags : ℕ

pub record ContinuationArea : Type 0 where
  pub block_location : ℕ
  pub offset : ℕ
  pub length : ℕ

pub record ExtensionsReference : Type 0 where
  pub extensions : List SuspExtension

pub record PosixTimestamp (D : Type 0) : Type 0 where
  pub access : Option D
  pub attributes : Option D
  pub backup : Option D
  pub creation : Option D
  pub effective : Option D
  pub expiration : Option D
  pub modify : Option D

pub record PosixAttributes : Type 0 where
  pub mode : ℕ
  pub links : ℕ
  pub uid : ℕ
  pub gid : ℕ
  pub inode : Option ℕ

pub record SymbolicLinkRecord : Type 0 where
  pub flags : ℕ
  pub component : Str

pub record SymbolicLink : Type 0 where
  pub should_continue : Bool
  pub records : List SymbolicLinkRecord

pub record Unknown : Type 0 where
  pub sig : Bytes
  pub version : ℕ
  pub payload : Bytes

-- `PosixTimestamp::default()`.
abbrev pub no_timestamps : {D : Type 0} → PosixTimestamp D
no_timestamps = record {
  access = none;
  attributes = none;
  backup = none;
  creation = none;
  effective = none;
  expiration = none;
  modify = none;
}

pub data SystemUseEntry (D : Type 0) : Type 0 where
  continuation_area : ContinuationArea → SystemUseEntry D
  extensions_reference : ExtensionsReference → SystemUseEntry D
  susp_indicator : ℕ → SystemUseEntry D
  alternate_name : AlternateName → SystemUseEntry D
  posix_attributes : PosixAttributes → SystemUseEntry D
  posix_timestamp : PosixTimestamp D → SystemUseEntry D
  rock_ridge : ℕ → SystemUseEntry D
  symbolic_link : SymbolicLink → SystemUseEntry D
  child_link : ℕ → SystemUseEntry D
  relocated_directory : Bool → SystemUseEntry D
  unknown : Unknown → SystemUseEntry D
