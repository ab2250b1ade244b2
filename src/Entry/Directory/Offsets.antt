-- ===== src/Entry/Directory/Offsets.antt =====
-- Where the records of a directory lie: `block_count` and the next offset of `read_entry_at` in
-- cdfs/src/directory_entry/isodirectory.rs.
use iso9660_rs.Prelude.{
  ℕ, ◌+◌, ◌-◌, ◌*◌, ◌/◌, ◌%◌, ◌^◌, ◌≤◌, ◌<◌, ◌≡◌, ◌≢◌, ◌⊎◌, ◌||◌, ◌==◌, inl, inr, Bool-cases, some,
  arith, get_or, leb, ltb, Bool, false, Option, none, if◌then◌else◌,
}
use iso9660_rs.Outcome.{Result, ok, IsoError}
use iso9660_rs.Crates.{Crates, Bytes}
use iso9660_rs.FileRef.{Iso9660Reader, block_size}
use iso9660_rs.Entry.Directory.{block_count, next_offset}
use iso9660_rs.Entry.Types.{IsoDirectory}

-- Where the record behind one of a certain length may lie.
abbrev pub IsPlaced : Bytes → ℕ → ℕ → ℕ → Type 0
IsPlaced block offset entry_length next =
    ((next ≡ offset + entry_length)
      × (offset % block_size + entry_length + 33 < block_size)
      × (get_or block (offset % block_size + entry_length) 0 ≢ 0))
    ⊎ (next ≡ (offset / block_size + 1) * block_size)

-- The test of the code for the end of a block.
abbrev ends_block : Bytes → ℕ → Bool
ends_block block pos = leb (2048 - 33) pos || (get_or block pos 0 == 0)

goes_on :
    (block : Bytes) (pos : ℕ)
    → ends_block block pos ≡ false
    → (pos + 33 < block_size) × (get_or block pos 0 ≢ 0)
goes_on block pos h = ground arith

within :
    (block_num blocks block_pos next : ℕ)
    → ◌≡◌ {A = Result IsoError (Option ℕ)}
        (ok (if ltb block_num blocks then some (2048 * block_num + block_pos) else none))
        (ok (some next))
    → (block_num < blocks) × (next ≡ 2048 * block_num + block_pos)
within block_num blocks block_pos next e = ground arith

behind_all :
    (block_num blocks block_pos : ℕ)
    → ◌≡◌ {A = Result IsoError (Option ℕ)}
        (ok (if ltb block_num blocks then some (2048 * block_num + block_pos) else none))
        (ok none)
    → blocks ≤ block_num
behind_all block_num blocks block_pos e = ground arith

module _ (c : Crates) {T : Type 0} (reader : Iso9660Reader T) where
  abbrev D : Type 0
  D = c.time.OffsetDateTime

  -- Up to a length of 2 ^ 32 - 2049 the count of blocks is the length in blocks, rounded up: the
  -- blocks hold the directory, and one less would not. No overflow check strikes.
  pub block_count_lem :
      (E : Type 0) (dir : IsoDirectory D)
      → dir.header.extent_length + block_size < 2 ^ 32
      → (n : ℕ) × (block_count c reader {E = E} dir ≡ ok n)
        × (dir.header.extent_length ≤ n * block_size)
        × (n * block_size < dir.header.extent_length + block_size)
  unfolding block_count
  block_count_lem E dir h =
      ((dir.header.extent_length + 2047) / block_size, ground arith, omega arith, omega arith)

  pub next_offset-rises :
      (dir : IsoDirectory D) (block : Bytes) (offset entry_length next : ℕ)
      → 0 < entry_length
      → dir.header.extent_length + block_size < 2 ^ 32
      → next_offset c reader {E = IsoError} dir block
          (offset / block_size)
          (offset % block_size + entry_length)
        ≡ ok (some next)
      → (offset < next)
        × (next / block_size * block_size < dir.header.extent_length)
        × IsPlaced block offset entry_length next
  unfolding next_offset
  next_offset-rises dir block offset entry_length next pos h e =
      let (n, count, lo, hi) = block_count_lem IsoError dir h in placed n count hi
    where
      placed :
          (n : ℕ)
          → block_count c reader {E = IsoError} dir ≡ ok n
          → n * block_size < dir.header.extent_length + block_size
          → (offset < next)
            × (next / block_size * block_size < dir.header.extent_length)
            × IsPlaced block offset entry_length next
      placed n count hi =
          let e' = rw count at e in
          elim (Bool-cases (ends_block block (offset % block_size + entry_length))) [
            | inl at_end ↦
                let (a, b) = within ((offset / block_size) + 1) n 0 next (rw at_end at e') in
                (omega arith, omega arith, inr (omega arith))
            | inr inside ↦
                let (a, b) =
                  within (offset / block_size) n (offset % block_size + entry_length) next
                    (rw inside at e') in
                let (room, more) = goes_on block (offset % block_size + entry_length) inside in
                (omega arith, omega arith, inl (omega arith, omega arith, more))
          ]

  -- There is no next record only where no block of the directory is behind the present one.
  pub next_offset-last :
      (dir : IsoDirectory D) (block : Bytes) (offset entry_length : ℕ)
      → dir.header.extent_length + block_size < 2 ^ 32
      → next_offset c reader {E = IsoError} dir block
          (offset / block_size)
          (offset % block_size + entry_length)
        ≡ ok none
      → dir.header.extent_length ≤ (offset / block_size + 1) * block_size
  unfolding next_offset
  next_offset-last dir block offset entry_length h e =
      let (n, count, lo, hi) = block_count_lem IsoError dir h in
      let e' = rw count at e in
      elim (Bool-cases (ends_block block (offset % block_size + entry_length))) [
        | inl at_end ↦
            let a = behind_all ((offset / block_size) + 1) n 0 (rw at_end at e') in omega arith
        | inr inside ↦
            let a =
              behind_all (offset / block_size) n (offset % block_size + entry_length)
                (rw inside at e') in
            omega arith
      ]
