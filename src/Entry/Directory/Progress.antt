-- ===== src/Entry/Directory/Progress.antt =====
-- `read_entry_at` of cdfs/src/directory_entry/isodirectory.rs moves on with every record.
use iso9660_rs.Prelude.{
  ℕ, zero, suc, ◌+◌, ◌*◌, ◌/◌, ◌%◌, ◌^◌, ◌≤◌, ◌<◌, ◌≡◌, refl, ap, subst, sym, ◌∙◌, inl, inr,
  Bool-cases, Option, none, some, List, [], ◌++◌, arith, length, length-drop, drop, replicate,
}
use iso9660_rs.Outcome.{Result, ok, err, panic, out_of_fuel, IoError, IsoError}
use iso9660_rs.State.{continue}
use iso9660_rs.State.Ensures.{Ensures, Ensures-bind, Ensures-lift, Ensures-pure}
use iso9660_rs.Crates.{Crates, Bytes, NomRes}
use iso9660_rs.Crates.Documented.{IsCrates}
use iso9660_rs.FileRef.{Iso9660Reader, block_size}
use iso9660_rs.Parse.DirectoryEntry.{Record, parse, directory_entry}
use iso9660_rs.Parse.DirectoryEntry.Framing.{directory_entry-Extends}
use iso9660_rs.Parse.Encoding.{CharacterEncoding, finish}
use iso9660_rs.Parse.Susp.Types.{ContinuationArea, SystemUseEntry}
use iso9660_rs.Entry.Meta.{split_continuation, take_continuation, child_link_of, extra_meta}
use iso9660_rs.Entry.Names.{new_entry}
use iso9660_rs.Entry.Types.{IsoDirectory, DirectoryEntry}
use iso9660_rs.Entry.Directory.{
  DirState, is_block, load_block, loaded, area_read, read_area, continuations, next_offset,
  relocate, read_entry_at,
}
use iso9660_rs.Entry.Directory.Offsets.{next_offset-rises, next_offset-last}
use mathlib.Core.Option.{get_or as option_or}

-- A reader that fills a buffer and does not change its size, which the type `&mut [u8]` sees to.
pub record IsFilling {T : Type 0} (reader : Iso9660Reader T) : Type 0 where
  pub keeps_size :
      (t : T) (buf : Bytes) (lba : ℕ) → length (reader.read_at t buf lba).1 ≡ length buf

module _ (c : Crates) {T : Type 0} (reader : Iso9660Reader T) (fuel : ℕ) where
  abbrev D : Type 0
  D = c.time.OffsetDateTime

  -- A continuation area is read into a buffer of its own.
  area_read-block :
      (cont : ContinuationArea) (s : DirState T) (r : Result IoError ℕ × Bytes × T)
      → (area_read c reader cont s r).1.block ≡ s.block
  unfolding area_read
  area_read-block cont s (ok count, b, t) = refl
  area_read-block cont s (err e, b, t) = refl
  area_read-block cont s (panic, b, t) = refl
  area_read-block cont s (out_of_fuel, b, t) = refl

  read_area-block :
      (cont : ContinuationArea) (s : DirState T) → (read_area c reader cont s).1.block ≡ s.block
  unfolding read_area
  read_area-block cont s =
      area_read-block cont s (reader.read_at s.reader (replicate block_size 0) cont.block_location)

  continuations-block :
      (f : ℕ) (susp : List (SystemUseEntry D) × Option ContinuationArea) (s : DirState T)
      → (continuations c reader f susp s).1.block ≡ s.block
  unfolding continuations
  continuations-block f (susp, none) s = refl
  continuations-block zero (susp, some cont) s = refl
  continuations-block (suc f) (susp, some cont) s =
      go (λ more. continuations-block f (take_continuation (susp ++ more)))
        (read_area c reader cont s) (read_area-block cont s)
    where
      go :
          ((more : List (SystemUseEntry D)) (s : DirState T)
            → (continuations c reader f (take_continuation (susp ++ more)) s).1.block ≡ s.block)
          → (r : Result IsoError (List (SystemUseEntry D)) × DirState T) → r.1.block ≡ s.block
          → (continue
              (λ more. continuations c reader f (take_continuation (susp ++ more)))
              r).1.block
            ≡ s.block
      go ih (ok more, s') e = ih more s' ∙ e
      go ih (err x, s') e = e
      go ih (panic, s') e = e
      go ih (out_of_fuel, s') e = e

  loaded-size :
      (n : ℕ) (s : DirState T) (r : Result IoError ℕ × Bytes × T)
      → length r.1 ≡ block_size
      → length (loaded c reader n s r).1.block ≡ block_size
  unfolding loaded
  loaded-size n s (ok count, b, t) h = ground arith
  loaded-size n s (err e, b, t) h = h
  loaded-size n s (panic, b, t) h = h
  loaded-size n s (out_of_fuel, b, t) h = h

  load_block-size :
      IsFilling reader
      → (dir : IsoDirectory D) (n : ℕ) (s : DirState T) → length s.block ≡ block_size
      → length (load_block c reader dir n s).1.block ≡ block_size
  unfolding load_block
  load_block-size fills dir n s h =
      let r = reader.read_at s.reader s.block (dir.header.extent_loc + n) in
      let size =
        loaded-size n s r (fills.keeps_size s.reader s.block (dir.header.extent_loc + n) ∙ h) in
      elim (Bool-cases (is_block s.block_num n)) [ inl e ↦ rw e h | inr e ↦ rw e size ]

  -- Where the next record of a directory may lie: further on, in a block that begins within the
  -- directory. There is none only where no block of the directory is left.
  abbrev pub IsBehind : IsoDirectory D → ℕ → Option ℕ → Type 0
  IsBehind dir offset none = dir.header.extent_length ≤ (offset / block_size + 1) * block_size
  IsBehind dir offset (some next) =
      (offset < next) × (next / block_size * block_size < dir.header.extent_length)

  -- As many rounds as are left are enough for the offsets that are left.
  abbrev pub IsEnough : IsoDirectory D → ℕ → Option ℕ → Type 0
  IsEnough dir n none = Unit {0}
  IsEnough dir n (some o) = (0 < n) × (dir.header.extent_length + block_size ≤ n + o)

  pub IsBehind-IsEnough :
      (dir : IsoDirectory D) (n o : ℕ) (next : Option ℕ)
      → dir.header.extent_length + block_size ≤ suc n + o
      → IsBehind dir o next
      → IsEnough dir n next
  IsBehind-IsEnough dir n o none h b = tt
  IsBehind-IsEnough dir n o (some o') h b = omega arith

  abbrev pub MovesOn : IsoDirectory D → ℕ → DirectoryEntry D × Option ℕ → DirState T → Type 0
  MovesOn dir offset r s = (length s.block ≡ block_size) × IsBehind dir offset r.1

  -- Only the number of bytes of the block matters: it is far below the largest length.
  finish-length :
      IsCrates c
      → (encoding : CharacterEncoding) (i : Bytes) (r : Record c) (p : NomRes (Record c))
      → length i < 2 ^ 63
      → directory_entry c encoding i ≡ p
      → finish p ≡ ok r
      → 33 ≤ r.0.length
  finish-length d encoding i r (ok (rest, r')) small e h =
      let same : r' ≡ r = cc in
      subst (λ (x : Record c). 33 ≤ x.0.length) same
        (directory_entry-Extends c d encoding i rest r' small e).0
  finish-length d encoding i r (err x) small e h = absurd (cc h)
  finish-length d encoding i r panic small e h = absurd (cc h)
  finish-length d encoding i r out_of_fuel small e h = absurd (cc h)

  parse-length :
      IsCrates c
      → (encoding : CharacterEncoding) (block : Bytes) (pos : ℕ) (r : Record c)
      → length block ≡ block_size
      → parse c encoding (drop pos block) ≡ ok r
      → 33 ≤ r.0.length
  unfolding parse
  parse-length d encoding block pos r h e =
      finish-length d encoding (drop pos block) r (directory_entry c encoding (drop pos block))
        (omega (arith, length-drop pos block)) refl e

  next-IsBehind :
      (dir : IsoDirectory D) (block : Bytes) (offset len : ℕ) (next : Option ℕ)
      → 0 < len
      → dir.header.extent_length + block_size < 2 ^ 32
      → next_offset c reader {E = IsoError} dir block
          (offset / block_size)
          (offset % block_size + len)
        ≡ ok next
      → IsBehind dir offset next
  next-IsBehind dir block offset len none pos h e =
      next_offset-last c reader dir block offset len h e
  next-IsBehind dir block offset len (some n) pos h e =
      let (rises, inside, _) = next_offset-rises c reader dir block offset len n pos h e in
      (rises, inside)

  -- In a directory of less than 2 ^ 32 - 2048 bytes, with a whole block as buffer and a reader that
  -- keeps its size, a record that is read leaves a whole block in the buffer. The next record starts
  -- behind it, in a block that begins before the directory's end; there is none only where no block
  -- of the directory is behind the one of the record.
  pub read_entry_at-MovesOn :
      IsCrates c
      → IsFilling reader
      → (dir : IsoDirectory D) (offset : ℕ) (s : DirState T)
      → dir.header.extent_length + block_size < 2 ^ 32
      → length s.block ≡ block_size
      → Ensures (MovesOn dir offset) (read_entry_at c reader fuel dir offset s)
  unfolding read_entry_at
  read_entry_at-MovesOn d fills dir offset s small h =
      Ensures-bind Q (load_block c reader dir (offset / block_size) s) _ λ u s₁ p₁.
        Ensures-lift Q (parse c dir.header.character_encoding (drop (offset % block_size) s₁.block))
          s₁ _
          λ rec p₂.
            Ensures-bind Q
              (continuations c reader fuel (split_continuation (option_or rec.2 [])) s₁) _
              λ susp s₃ p₃. Ensures-lift Q (extra_meta c susp) s₃ _ λ ext p₄.
                Ensures-lift Q (new_entry c rec.0 ext rec.1) s₃ _ λ entry p₅.
                  Ensures-lift Q
                    (next_offset c reader dir s₁.block (offset / block_size)
                      (offset % block_size + rec.0.length))
                    s₃ _
                    λ next p₆.
                      Ensures-lift Q (relocate c reader entry (child_link_of susp)) s₃ _
                        λ entry' p₇.
                          let whole : length s₁.block ≡ block_size =
                            ap (λ x. length x.1.block) (sym p₁)
                            ∙ load_block-size fills dir (offset / block_size) s h in
                          Ensures-pure Q (entry', next) s₃
                            (
                              ap (λ x. length x.1.block) (sym p₃)
                                  ∙ ap length (
                                      continuations-block fuel
                                        (split_continuation (option_or rec.2 [])) s₁)
                                  ∙ whole,
                              next-IsBehind dir s₁.block offset rec.0.length next
                                  (omega (
                                    arith,
                                    parse-length d dir.header.character_encoding s₁.block
                                        (offset % block_size) rec whole p₂,
                                  ))
                                  small p₆,
                            )
    where
      Q : DirectoryEntry D × Option ℕ → DirState T → Type 0
      Q = MovesOn dir offset
