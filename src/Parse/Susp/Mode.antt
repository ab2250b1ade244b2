-- ===== src/Parse/Susp/Mode.antt =====
-- cdfs/src/parse/susp.rs: a `PosixFileMode` as the permission bits of a `u16`, and as text.
use iso9660_rs.Prelude.{ℕ, [], ◌∷◌, ltb, if◌then◌else◌}
use iso9660_rs.Outcome.{Result, ok, panic, ◌>>=◌}
use iso9660_rs.Crates.{Crates, Str}
use iso9660_rs.Parse.Susp.Flags.{
  type_socket, type_symlink, type_file, type_block_dev, type_directory, type_char_dev, type_pipe,
  set_uid, set_gid, own_read, own_write, own_exec, group_read, group_write, group_exec, world_read,
  world_write, world_exec, all_permissions,
}

module _ (c : Crates) where
  -- `impl From<PosixFileMode> for u16`: `try_into` panics where the bits do not fit.
  unfoldable pub u16_from : {E : Type 0} → ℕ → Result E ℕ
  u16_from mode =
      let bits = c.bitflags.intersection mode all_permissions in
      if ltb bits 65536 then ok bits else panic

  -- `impl Display for PosixFileMode`: the file type, or `?`, which panics where the assertions are
  -- compiled in.
  unfoldable pub show_type : {E : Type 0} → ℕ → Result E ℕ
  show_type mode =
      if c.bitflags.contains mode type_socket
      then ok b's'
      else if c.bitflags.contains mode type_symlink
      then ok b'l'
      else if c.bitflags.contains mode type_file
      then ok b'-'
      else if c.bitflags.contains mode type_block_dev
      then ok b'b'
      else if c.bitflags.contains mode type_directory
      then ok b'd'
      else if c.bitflags.contains mode type_char_dev
      then ok b'c'
      else if c.bitflags.contains mode type_pipe
      then ok b'p'
      else if c.assertions
      then panic
      else ok b'?'

  abbrev letter : ℕ → ℕ → ℕ → ℕ
  letter mode flag ch = if c.bitflags.contains mode flag then ch else b'-'

  abbrev exec_letter : ℕ → ℕ → ℕ → ℕ
  exec_letter mode exec set_id =
      if c.bitflags.contains mode exec
      then (if c.bitflags.contains mode set_id then b'S' else b'x')
      else if c.bitflags.contains mode set_id
      then b's'
      else b'-'

  unfoldable pub show_permissions : ℕ → Str
  show_permissions mode =
      letter mode own_read b'r'
      ∷ letter mode own_write b'w'
      ∷ exec_letter mode own_exec set_uid
      ∷ letter mode group_read b'r'
      ∷ letter mode group_write b'w'
      ∷ exec_letter mode group_exec set_gid
      ∷ letter mode world_read b'r'
      ∷ letter mode world_write b'w'
      ∷ letter mode world_exec b'x'
      ∷ []

  unfoldable pub show : {E : Type 0} → ℕ → Result E Str
  unfolding show_type show_permissions
  show mode = show_type mode >>= λ ch. ok (ch ∷ show_permissions mode)
