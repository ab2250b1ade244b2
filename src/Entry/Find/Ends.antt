-- ===== src/Entry/Find/Ends.antt =====
-- `find` of cdfs/src/directory_entry/isodirectory.rs comes to an end.
use iso9660_rs.Prelude.{
  ℕ, zero, suc, ◌+◌, ◌^◌, ◌<◌, ◌≡◌, refl, ap, Bool-cases, if◌then◌else◌, inl, inr, Option, none,
  some, arith, length, length-replicate, replicate,
}
use iso9660_rs.Outcome.{Result, ok, err, panic, out_of_fuel, IsoError}
use iso9660_rs.State.Ensures.{Ensures-elim}
use iso9660_rs.Crates.{Crates, Str}
use iso9660_rs.Crates.Documented.{IsCrates}
use iso9660_rs.FileRef.{Iso9660Reader, block_size}
use iso9660_rs.Entry.Types.{IsoDirectory, DirectoryEntry}
use iso9660_rs.Entry.Directory.{DirState, read_entry_at}
use iso9660_rs.Entry.Directory.Chains.{IsAnswering, ChainsAt, read_entry_at-ChainsAt}
use iso9660_rs.Entry.Directory.Progress.{
  IsFilling, IsEnough, IsBehind-IsEnough, MovesOn, read_entry_at-MovesOn,
}
use iso9660_rs.Entry.Find.{
  IsoDirectoryIterator, advance, is_match, next, contents, find_loop, find, rounds,
}

module _ (c : Crates) {T : Type 0} (reader : Iso9660Reader T) (fuel : ℕ) where
  abbrev D : Type 0
  D = c.time.OffsetDateTime

  -- Reading the records of a directory one after the other, from an offset and a state on, comes to
  -- one whose continuation areas go on for more than the fuel.
  pub data RunsAway (dir : IsoDirectory D) : ℕ → DirState T → Type 0 where
    lacks :
        (offset : ℕ) (s : DirState T) → ChainsAt c reader fuel dir offset s → RunsAway dir offset s
    later :
        (offset next : ℕ) (s s' : DirState T) (entry : DirectoryEntry D)
        → read_entry_at c reader fuel dir offset s ≡ (ok (entry, some next), s')
        → RunsAway dir next s'
        → RunsAway dir offset s

  -- The same, from the next record on, where there is one.
  abbrev pub RunsAwayFrom : IsoDirectory D → Option ℕ → DirState T → Type 0
  RunsAwayFrom dir none s = ⊥
  RunsAwayFrom dir (some offset) s = RunsAway dir offset s

  pub later_from :
      (dir : IsoDirectory D) (offset : ℕ) (nxt : Option ℕ) (s s' : DirState T)
      (entry : DirectoryEntry D)
      → read_entry_at c reader fuel dir offset s ≡ (ok (entry, nxt), s')
      → RunsAwayFrom dir nxt s'
      → RunsAway dir offset s
  later_from dir offset none s s' entry q h = absurd h
  later_from dir offset (some next) s s' entry q h = later offset next s s' entry q h

  -- What a round of the loop does with the record that was read.
  abbrev pub after :
      IsoDirectory D
      → Str
      → ℕ
      → IsoDirectoryIterator T
      → Result IsoError (DirectoryEntry D × Option ℕ) × DirState T
      → Result IsoError (Option (DirectoryEntry D)) × T
  after dir name n it r =
      let (item, it') = advance c reader fuel it r in
      elim item [
        | none ↦ (ok none, it'.state.reader)
        | some (ok entry) ↦
            let rest = find_loop c reader fuel n dir name it' in
            if is_match c reader fuel entry name then (ok (some entry), it'.state.reader) else rest
        | some (err e) ↦ (err e, it'.state.reader)
        | some panic ↦ (panic, it'.state.reader)
        | some out_of_fuel ↦ (out_of_fuel, it'.state.reader)
      ]

  module _ (d : IsCrates c) (fills : IsFilling reader) (answers : IsAnswering reader)
      (dir : IsoDirectory D) (name : Str)
      (small : dir.header.extent_length + block_size < 2 ^ 32) where
    -- One round: it ends, goes on behind the record that was read, or meets the one that runs away.
    round :
        (n o : ℕ) (s : DirState T) (t : T)
        → IsEnough c reader fuel dir (suc n) (some o)
        → length s.block ≡ block_size
        → ((nxt : Option ℕ) (s' : DirState T)
            → IsEnough c reader fuel dir n nxt
            → length s'.block ≡ block_size
            → find_loop c reader fuel n dir name (record { next_offset = nxt; state = s' })
              ≡ (out_of_fuel, t)
            → RunsAwayFrom dir nxt s')
        → (r : Result IsoError (DirectoryEntry D × Option ℕ) × DirState T)
        → read_entry_at c reader fuel dir o s ≡ r
        → after dir name n (record { next_offset = some o; state = s }) r ≡ (out_of_fuel, t)
        → RunsAway dir o s
    unfolding advance
    round n o s t h w ih (ok (entry, nxt), s') q e =
        let (w', behind) =
          Ensures-elim (MovesOn c reader fuel dir o) (read_entry_at c reader fuel dir o s)
            (entry, nxt) s' (read_entry_at-MovesOn c reader fuel d fills dir o s small w) q in
        elim (Bool-cases (is_match c reader fuel entry name)) [
          | inl m ↦ absurd (cc (ap (λ x. x.0) (rw m at e)))
          | inr m ↦
              later_from dir o nxt s s' entry q
                (ih nxt s' (IsBehind-IsEnough c reader fuel dir n o nxt h.1 behind) w' (rw m at e))
        ]
    round n o s t h w ih (err x, s') q e = absurd (cc (ap (λ x. x.0) e))
    round n o s t h w ih (panic, s') q e = absurd (cc (ap (λ x. x.0) e))
    round n o s t h w ih (out_of_fuel, s') q e =
        lacks o s (read_entry_at-ChainsAt c reader d answers fuel dir o s s' q)

    loop :
        (n : ℕ) (nxt : Option ℕ) (s : DirState T) (t : T)
        → IsEnough c reader fuel dir n nxt
        → length s.block ≡ block_size
        → find_loop c reader fuel n dir name (record { next_offset = nxt; state = s })
          ≡ (out_of_fuel, t)
        → RunsAwayFrom dir nxt s
    unfolding find_loop next
    loop zero none s t h w e = absurd (cc (ap (λ x. x.0) e))
    loop zero (some o) s t h w e = absurd (omega arith)
    loop (suc n) none s t h w e = absurd (cc (ap (λ x. x.0) e))
    loop (suc n) (some o) s t h w e =
        round n o s t h w (λ nxt s' h' w' e'. loop n nxt s' t h' w' e')
          (read_entry_at c reader fuel dir o s) refl e

    -- In a directory of less than 2 ^ 32 - 2048 bytes, on a reader that always answers and keeps the
    -- size of the buffers it fills, a search for any name has rounds enough: where it lacks fuel,
    -- reading the records of the directory one after the other from its start, with an empty buffer,
    -- comes to one that parses and whose continuation areas go on for more than the fuel.
    pub find-RunsAway :
        (t t' : T)
        → find c reader fuel dir name t ≡ (out_of_fuel, t')
        → RunsAway dir 0 (contents c reader fuel t).state
    unfolding find contents
    find-RunsAway t t' e =
        loop (rounds c reader fuel dir) (some 0)
          (record { block = replicate block_size 0; block_num = none; reader = t }) t' (omega arith)
          (length-replicate {A = ℕ} block_size 0) e
