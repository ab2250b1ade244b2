-- ===== src/Entry/Directory/Chains.antt =====
-- `read_entry_at` of cdfs/src/directory_entry/isodirectory.rs lacks fuel only for the loop over the
-- continuation areas of a record.
use iso9660_rs.Prelude.{
  ℕ, zero, suc, ◌/◌, ◌%◌, ◌+◌, ◌≡◌, ◌≢◌, refl, ap, Bool-cases, inl, inr, ◌⊎◌, Option, none, some,
  List, [], ◌++◌, arith, drop, replicate,
}
use iso9660_rs.Outcome.{Result, ok, err, panic, out_of_fuel, IoError, IsoError}
use iso9660_rs.State.{M, continue}
use iso9660_rs.Crates.{Crates, Bytes, Str}
use iso9660_rs.Crates.Documented.{IsCrates}
use iso9660_rs.FileRef.{Iso9660Reader, block_size}
use iso9660_rs.Parse.DirectoryEntry.{DirectoryEntryHeader, Record, parse}
use iso9660_rs.Parse.Fuel.{record_parse-Ends, area_parse-Ends}
use iso9660_rs.Parse.Susp.Types.{ContinuationArea, SystemUseEntry}
use iso9660_rs.Entry.Meta.{split_continuation, take_continuation, child_link_of, extra_meta}
use iso9660_rs.Entry.Meta.Fuel.{extra_meta-Ends}
use iso9660_rs.Entry.Names.{new_entry, versioned}
use iso9660_rs.Entry.Types.{ExtraMeta, IsoDirectory, DirectoryEntry}
use iso9660_rs.Entry.Directory.{
  DirState, is_block, load_block, loaded, block_count, area_read, read_area, continuations,
  next_offset, relocate, read_entry_at,
}
use mathlib.Core.Option.{get_or as option_or}

-- A reader that always answers, as any reader of the program does.
pub record IsAnswering {T : Type 0} (reader : Iso9660Reader T) : Type 0 where
  pub answers : (t : T) (buf : Bytes) (lba : ℕ) → (reader.read_at t buf lba).0 ≢ out_of_fuel

-- A step that does not lack fuel itself is followed by one that does.
continue-Ends :
    {S E A B : Type 0} (f : A → M S E B) (r : Result E A × S) (s' : S)
    → r.0 ≢ out_of_fuel
    → continue f r ≡ (out_of_fuel, s')
    → (a : A) × (s : S) × (r ≡ (ok a, s)) × (f a s ≡ (out_of_fuel, s'))
continue-Ends f (ok a, s) s' h e = (a, s, refl, e)
continue-Ends f (err x, s) s' h e = absurd (cc (ap (λ x. x.0) e))
continue-Ends f (panic, s) s' h e = absurd (cc (ap (λ x. x.0) e))
continue-Ends f (out_of_fuel, s) s' h e = absurd (h refl)

lift-Ends :
    {S E A B : Type 0} (f : A → M S E B) (r : Result E A) (s s' : S)
    → r ≢ out_of_fuel
    → continue f (r, s) ≡ (out_of_fuel, s')
    → (a : A) × (r ≡ ok a) × (f a s ≡ (out_of_fuel, s'))
lift-Ends f (ok a) s s' h e = (a, refl, e)
lift-Ends f (err x) s s' h e = absurd (cc (ap (λ x. x.0) e))
lift-Ends f panic s s' h e = absurd (cc (ap (λ x. x.0) e))
lift-Ends f out_of_fuel s s' h e = absurd (h refl)

not_ok :
    {S E A : Type 0} (a : A) (s s' : S) → ¬ (◌≡◌ {A = Result E A × S} (ok a, s) (out_of_fuel, s'))
not_ok a s s' e = cc (ap (λ x. x.0) e)

-- Where a step or what comes behind it lacks fuel, one of the two does.
continue_cases :
    {S E A B : Type 0} (f : A → M S E B) (r : Result E A × S) (s' : S)
    → continue f r ≡ (out_of_fuel, s')
    → (r ≡ (out_of_fuel, s')) ⊎ ((a : A) × (s : S) × (f a s ≡ (out_of_fuel, s')))
continue_cases f (ok a, s) s' e = inr (a, s, e)
continue_cases f (err x, s) s' e = absurd (cc (ap (λ x. x.0) e))
continue_cases f (panic, s) s' e = absurd (cc (ap (λ x. x.0) e))
continue_cases f (out_of_fuel, s) s' e = inl (ap (λ x. (out_of_fuel, x.1)) e)

module _ (c : Crates) {T : Type 0} (reader : Iso9660Reader T) where
  abbrev D : Type 0
  D = c.time.OffsetDateTime

  -- One continuation area after the other is read, n of them, and there is one more.
  abbrev pub Chains : ℕ → List (SystemUseEntry D) × Option ContinuationArea → DirState T → Type 0
  Chains n (susp, none) s = ⊥
  Chains zero (susp, some cont) s = Unit {0}
  Chains (suc n) (susp, some cont) s =
      (more : List (SystemUseEntry D)) × (s' : DirState T) × (read_area c reader cont s
        ≡ (ok more, s'))
      × Chains n (take_continuation (susp ++ more)) s'

  new_entry-Ends :
      (header : DirectoryEntryHeader D) (ext : ExtraMeta D) (identifier : Str)
      → new_entry c header ext identifier ≢ out_of_fuel
  unfolding new_entry versioned
  new_entry-Ends header ext identifier e = ground arith

  next_offset-Ends :
      (dir : IsoDirectory D) (block : Bytes) (num pos : ℕ)
      → next_offset c reader {E = IsoError} dir block num pos ≢ out_of_fuel
  unfolding next_offset block_count
  next_offset-Ends dir block num pos e = ground arith

  relocate-Ends :
      (entry : DirectoryEntry D) (o : Option ℕ) → relocate c reader entry o ≢ out_of_fuel
  unfolding relocate
  relocate-Ends entry none e = cc e
  relocate-Ends (DirectoryEntry.file f) (some lba) e = cc e
  relocate-Ends (DirectoryEntry.directory dir) (some lba) e = cc e
  relocate-Ends (DirectoryEntry.symlink link) (some lba) e = cc e

  -- A record of the directory is read into the buffer and parses, and its continuation areas go on
  -- for more than n.
  abbrev pub ChainsAt : ℕ → IsoDirectory D → ℕ → DirState T → Type 0
  ChainsAt n dir offset s =
      (s' : DirState T) × (rec : Record c) × (load_block c reader dir (offset / block_size) s
        ≡ (ok tt, s'))
      × (parse c dir.header.character_encoding (drop (offset % block_size) s'.block) ≡ ok rec)
      × Chains n (split_continuation (option_or rec.2 [])) s'

  module _ (d : IsCrates c) (answers : IsAnswering reader) where
    loaded-Ends :
        (n : ℕ) (s : DirState T) (r : Result IoError ℕ × Bytes × T)
        → r.0 ≢ out_of_fuel
        → (loaded c reader n s r).0 ≢ out_of_fuel
    unfolding loaded
    loaded-Ends n s (ok count, b, t) h e = ground arith
    loaded-Ends n s (err x, b, t) h e = cc e
    loaded-Ends n s (panic, b, t) h e = cc e
    loaded-Ends n s (out_of_fuel, b, t) h e = h refl

    load_block-Ends :
        (dir : IsoDirectory D) (n : ℕ) (s : DirState T)
        → (load_block c reader dir n s).0 ≢ out_of_fuel
    unfolding load_block
    load_block-Ends dir n s =
        let r = reader.read_at s.reader s.block (dir.header.extent_loc + n) in
        let h = loaded-Ends n s r (answers.answers s.reader s.block (dir.header.extent_loc + n)) in
        elim (Bool-cases (is_block s.block_num n)) [ inl m ↦ rw m (λ e. cc e) | inr m ↦ rw m h ]

    area_read-Ends :
        (cont : ContinuationArea) (s : DirState T) (r : Result IoError ℕ × Bytes × T)
        → r.0 ≢ out_of_fuel
        → (area_read c reader cont s r).0 ≢ out_of_fuel
    unfolding area_read
    area_read-Ends cont s (ok count, b, t) h e = grind (arith, area_parse-Ends c d)
    area_read-Ends cont s (err x, b, t) h e = cc e
    area_read-Ends cont s (panic, b, t) h e = cc e
    area_read-Ends cont s (out_of_fuel, b, t) h e = h refl

    read_area-Ends :
        (cont : ContinuationArea) (s : DirState T) → (read_area c reader cont s).0 ≢ out_of_fuel
    unfolding read_area
    read_area-Ends cont s =
        area_read-Ends cont s (reader.read_at s.reader (replicate block_size 0) cont.block_location)
          (answers.answers s.reader (replicate block_size 0) cont.block_location)

    continuations-Chains :
        (n : ℕ) (susp : List (SystemUseEntry D) × Option ContinuationArea) (s s' : DirState T)
        → continuations c reader n susp s ≡ (out_of_fuel, s')
        → Chains n susp s
    unfolding continuations
    continuations-Chains zero (susp, none) s s' e = absurd (cc (ap (λ x. x.0) e))
    continuations-Chains (suc n) (susp, none) s s' e = absurd (cc (ap (λ x. x.0) e))
    continuations-Chains zero (susp, some cont) s s' e = tt
    continuations-Chains (suc n) (susp, some cont) s s' e =
        let (more, s₁, p, q) =
          continue-Ends (λ more. continuations c reader n (take_continuation (susp ++ more)))
            (read_area c reader cont s) s' (read_area-Ends cont s) e in
        (more, s₁, p, continuations-Chains n (take_continuation (susp ++ more)) s₁ s' q)

    -- All but the continuation areas takes no fuel.
    pub read_entry_at-ChainsAt :
        (n : ℕ) (dir : IsoDirectory D) (offset : ℕ) (s s' : DirState T)
        → read_entry_at c reader n dir offset s ≡ (out_of_fuel, s')
        → ChainsAt n dir offset s
    unfolding read_entry_at
    read_entry_at-ChainsAt n dir offset s s' e =
        let (_, s₁, p₁, e₁) =
          continue-Ends _ (load_block c reader dir (offset / block_size) s) s'
            (load_block-Ends dir (offset / block_size) s) e in
        let (rec, p₂, e₂) =
          lift-Ends _ (parse c dir.header.character_encoding (drop (offset % block_size) s₁.block))
            s₁ s'
            (record_parse-Ends c d dir.header.character_encoding
              (drop (offset % block_size) s₁.block))
            e₁ in
        let susp = split_continuation (option_or rec.2 []) in
        elim (continue_cases _ (continuations c reader n susp s₁) s' e₂) [
          | inl lacks ↦ (s₁, rec, p₁, p₂, continuations-Chains n susp s₁ s' lacks)
          | inr (all, s₃, e₃) ↦
              let (ext, _, e₄) = lift-Ends _ (extra_meta c all) s₃ s' (extra_meta-Ends c all) e₃ in
              let (entry, _, e₅) =
                lift-Ends _ (new_entry c rec.0 ext rec.1) s₃ s' (new_entry-Ends rec.0 ext rec.1)
                  e₄ in
              let (next, _, e₆) =
                lift-Ends _
                  (next_offset c reader dir s₁.block (offset / block_size)
                    (offset % block_size + rec.0.length))
                  s₃ s'
                  (next_offset-Ends dir s₁.block (offset / block_size)
                    (offset % block_size + rec.0.length))
                  e₅ in
              let (entry', _, e₇) =
                lift-Ends _ (relocate c reader entry (child_link_of all)) s₃ s'
                  (relocate-Ends entry (child_link_of all)) e₆ in
              absurd (not_ok (entry', next) s₃ s' e₇)
        ]
