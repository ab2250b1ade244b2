-- ===== src/Examples/PrintTree/Lines.antt =====
-- cdfs/examples/print_tree.rs: what the program prints for a tree of entries.
use iso9660_rs.Prelude.{
  ◌≢◌, ◌≤◌, ◌∷◌, ℕ, zero, suc, ◌+◌, ◌*◌, ◌^◌, ◌<◌, ◌≡◌, refl, ap, ◌∙◌, subst, Option, none, some,
  [], ◌++◌, append_assoc, append-nil, arith, length, length-replicate, replicate,
}
use iso9660_rs.Outcome.{Result, ok, err, panic, out_of_fuel, IsoError}
use iso9660_rs.State.Ensures.{Ensures-elim}
use iso9660_rs.Crates.{Crates, Str}
use iso9660_rs.Crates.Documented.{IsCrates}
use iso9660_rs.FileRef.{Iso9660Reader, block_size}
use iso9660_rs.Text.{chars, str_eq}
use iso9660_rs.Entry.Attributes.{
  directory_attributes, file_attributes, symlink_attributes, mode, modify_time,
}
use iso9660_rs.Entry.Directory.{DirState, read_entry_at}
use iso9660_rs.Entry.Directory.Progress.{
  IsFilling, IsEnough, IsBehind-IsEnough, MovesOn, read_entry_at-MovesOn,
}
use iso9660_rs.Entry.Find.{IsoDirectoryIterator, advance, contents, next, rounds}
use iso9660_rs.Entry.Find.Listing.{no_end}
use iso9660_rs.Entry.Types.{IsoDirectory, DirectoryEntry}
use iso9660_rs.Examples.PrintTree.{
  indent, shown_target, target, print_line, print_entries, print_next, print_tree, print_entry,
  print_file, print_symlink,
}
-- The entries of a directory in order, with those of the directories in it.
use iso9660_rs.Examples.PrintTree.Trees.{
  Tree, empty, dots, file, symlink, branch, depth, margin, link_text, line, lines, HasTexts,
  AllTexts, Walks,
}

module _ (c : Crates) {T : Type 0} (reader : Iso9660Reader T) (fuel : ℕ) where
  abbrev D : Type 0
  D = c.time.OffsetDateTime

  -- An iterator that gives an entry has a round left, and is behind it in the next.
  no_rounds :
      (dir : IsoDirectory D) (nxt : Option ℕ) (s : DirState T) (e : DirectoryEntry D)
      (it' : IsoDirectoryIterator T)
      → IsEnough c reader fuel dir zero nxt
      → next c reader fuel dir (record { next_offset = nxt; state = s }) ≢ (some (ok e), it')
  unfolding next
  no_rounds dir none s e it' h p = absurd (cc (ap (λ x. x.0) p))
  no_rounds dir (some o) s e it' h p = absurd (omega arith)

  next-IsEnough :
      IsCrates c
      → IsFilling reader
      → (dir : IsoDirectory D) → dir.header.extent_length + block_size < 2 ^ 32
      → (m : ℕ) (nxt : Option ℕ) (s : DirState T) (e : DirectoryEntry D)
        (it' : IsoDirectoryIterator T)
      → IsEnough c reader fuel dir (suc m) nxt
      → length s.block ≡ block_size
      → next c reader fuel dir (record { next_offset = nxt; state = s }) ≡ (some (ok e), it')
      → IsEnough c reader fuel dir m it'.next_offset × (length it'.state.block ≡ block_size)
  unfolding next advance
  next-IsEnough d fills dir small m none s e it' h w p = absurd (cc (ap (λ x. x.0) p))
  next-IsEnough d fills dir small m (some o) s e it' h w p =
      go (read_entry_at c reader fuel dir o s) refl p
    where
      go :
          (r : Result IsoError (DirectoryEntry D × Option ℕ) × DirState T)
          → read_entry_at c reader fuel dir o s ≡ r
          → advance c reader fuel (record { next_offset = some o; state = s }) r
            ≡ (some (ok e), it')
          → IsEnough c reader fuel dir m it'.next_offset × (length it'.state.block ≡ block_size)
      go (ok (entry, nxt), s') q p =
          let (w', behind) =
            Ensures-elim (MovesOn c reader fuel dir o) (read_entry_at c reader fuel dir o s)
              (entry, nxt) s' (read_entry_at-MovesOn c reader fuel d fills dir o s small w) q in
          subst
            (λ i. IsEnough c reader fuel dir m i.next_offset × (length i.state.block ≡ block_size))
            (ap (λ x. x.1) p) (IsBehind-IsEnough c reader fuel dir m o nxt h.1 behind, w')
      go (err x, s') q p = absurd (cc (ap (λ x. x.0) p))
      go (panic, s') q p = absurd (cc (ap (λ x. x.0) p))
      go (out_of_fuel, s') q p = absurd (cc (ap (λ x. x.0) p))

  indent-margin : (level : ℕ) → indent level ≡ margin level
  unfolding indent
  indent-margin zero = refl
  indent-margin (suc level) =
      let twice : 2 * suc level ≡ suc (suc (2 * level)) = omega arith in
      rw (indent-margin level, twice)

  shown_target-link_text : (o : Option Str) → shown_target o ≡ link_text o
  unfolding shown_target str_eq
  shown_target-link_text none = refl
  shown_target-link_text (some []) = refl
  shown_target-link_text (some (zero ∷ [])) = refl
  shown_target-link_text (some (suc zero ∷ [])) = refl
  shown_target-link_text (some (suc (suc ch) ∷ [])) = ground arith
  shown_target-link_text (some (ch ∷ d ∷ s)) = ground arith

  module _ (d : IsCrates c) (fills : IsFilling reader) (format : D → Option Str)
      (formatted : D → Str) (shown : ℕ → Str) where
    print_line_lem :
        (m : Option ℕ) (x : D) (text out : Str) (t : T)
        → HasTexts c format shown formatted m x
        → print_line c format {E = IsoError} m x text (out, t)
          ≡ (ok tt, (out ++ line shown formatted m x text, t))
    unfolding print_line
    print_line_lem none x text out t h = rw (h.1)
    print_line_lem (some m) x text out t h = rw (h.0, h.1, append_assoc)

    abbrev Prints : ℕ → Type 0
    Prints k =
        (dir : IsoDirectory D) (level : ℕ) (tree : Tree D) (out : Str) (t t' : T)
        → dir.header.extent_length + block_size < 2 ^ 32
        → depth tree < k
        → AllTexts c format shown formatted dir tree
        → Walks c reader fuel tree dir (contents c reader fuel t) t'
        → print_tree c format reader fuel k dir level (out, t)
          ≡ (ok tt, (out ++ lines shown formatted dir level tree, t'))

    abbrev descend : ℕ → IsoDirectory D → ℕ → Str × T → Result IsoError (Unit {0}) × (Str × T)
    descend k sub level s = print_tree c format reader fuel k sub level s

    abbrev again :
        ℕ
        → ℕ
        → IsoDirectory D
        → ℕ
        → IsoDirectoryIterator T
        → Str
        → Result IsoError (Unit {0}) × (Str × T)
    again k n dir level it out = print_entries c format reader fuel (descend k) n dir level it out

    abbrev round :
        ℕ
        → ℕ
        → IsoDirectory D
        → ℕ
        → Str
        → Option (Result IsoError (DirectoryEntry D)) × IsoDirectoryIterator T
        → Result IsoError (Unit {0}) × (Str × T)
    round k n dir level out r =
        print_next c format reader fuel (descend k) dir level (again k n dir level) out r

    ends :
        (k : ℕ) (dir : IsoDirectory D) (level n : ℕ) (nxt : Option ℕ) (s : DirState T) (out : Str)
        (t' : T) (it' : IsoDirectoryIterator T)
        → next c reader fuel dir (record { next_offset = nxt; state = s }) ≡ (none, it')
        → it'.state.reader ≡ t'
        → again k n dir level (record { next_offset = nxt; state = s }) out
          ≡ (ok tt, (out ++ [], t'))
    unfolding print_entries print_next next
    ends k dir level zero none s out t' it' p q =
        let here : s.reader ≡ t' = ap (λ x. x.1.state.reader) p ∙ q in rw (here, append-nil)
    ends k dir level (suc n) none s out t' it' p q =
        let here : s.reader ≡ t' = ap (λ x. x.1.state.reader) p ∙ q in rw (here, append-nil)
    ends k dir level n (some o) s out t' it' p q = absurd (
        no_end c reader fuel (record { next_offset = some o; state = s })
          (read_entry_at c reader fuel dir o s) (ap (λ x. x.0) p))

    loop :
        (k : ℕ)
        → Prints k
        → (dir : IsoDirectory D) (level : ℕ) (tree : Tree D) (n : ℕ) (nxt : Option ℕ)
          (s : DirState T) (out : Str) (t' : T)
        → dir.header.extent_length + block_size < 2 ^ 32
        → depth tree ≤ k
        → AllTexts c format shown formatted dir tree
        → IsEnough c reader fuel dir n nxt
        → length s.block ≡ block_size
        → Walks c reader fuel tree dir (record { next_offset = nxt; state = s }) t'
        → again k n dir level (record { next_offset = nxt; state = s }) out
          ≡ (ok tt, (out ++ lines shown formatted dir level tree, t'))
    unfolding print_entries print_next print_entry print_file print_symlink target
    loop k ih dir level empty n nxt s out t' small h a e w (it', p, q) =
        ends k dir level n nxt s out t' it' p q
    loop k ih dir level (dots sub rest) zero nxt s out t' small h a e w (it', p, q, g) =
        absurd (no_rounds dir nxt s _ it' e p)
    loop k ih dir level (dots sub rest) (suc n) nxt s out t' small h a e w (it', p, q, g) =
        let (e', w') = next-IsEnough d fills dir small n nxt s _ it' e w p in
        ap (round k n dir level out) p
        ∙ rw (q) (loop k ih dir level rest n it'.next_offset it'.state out t' small h a e' w' g)
    loop k ih dir level (file f rest) zero nxt s out t' small h a e w (it', p, g) =
        absurd (no_rounds dir nxt s _ it' e p)
    loop k ih dir level (file f rest) (suc n) nxt s out t' small h a e w (it', p, g) =
        let (e', w') = next-IsEnough d fills dir small n nxt s _ it' e w p in
        ap (round k n dir level out) p
        ∙ rw
            (
              indent-margin level,
              print_line_lem (mode file_attributes f) (modify_time file_attributes f)
                  (margin level ++ f.identifier) out it'.state.reader a.0,
            )
            (loop k ih dir level rest n it'.next_offset it'.state _ t' small h a.1 e' w' g
              ∙ rw append_assoc)
    loop k ih dir level (symlink f rest) zero nxt s out t' small h a e w (it', p, g) =
        absurd (no_rounds dir nxt s _ it' e p)
    loop k ih dir level (symlink f rest) (suc n) nxt s out t' small h a e w (it', p, g) =
        let (e', w') = next-IsEnough d fills dir small n nxt s _ it' e w p in
        ap (round k n dir level out) p
        ∙ rw
            (
              indent-margin level,
              shown_target-link_text f.ext.symlink_target,
              print_line_lem (mode symlink_attributes f) (modify_time directory_attributes dir)
                  (margin level
                    ++ (f.identifier ++ (32 ∷ 8594 ∷ 32 ∷ link_text f.ext.symlink_target)))
                  out it'.state.reader a.0,
            )
            (loop k ih dir level rest n it'.next_offset it'.state _ t' small h a.1 e' w' g
              ∙ rw append_assoc)
    loop k ih dir level (branch sub inner rest) zero nxt s out t' small h a e w
          (it', t₁, p, q, small', g, g') =
        absurd (no_rounds dir nxt s _ it' e p)
    loop k ih dir level (branch sub inner rest) (suc n) nxt s out t' small h a e w
          (it', t₁, p, q, small', g, g') =
        let (e', w') = next-IsEnough d fills dir small n nxt s _ it' e w p in
        ap (round k n dir level out) p
        ∙ rw
            (
              q,
              indent-margin level,
              print_line_lem (mode directory_attributes sub) (modify_time directory_attributes sub)
                  (margin level ++ (sub.identifier ++ chars "/")) out it'.state.reader a.0,
              ih sub (level + 1) inner _ it'.state.reader t₁ small' (omega arith) a.1 g,
            )
            (loop k ih dir level rest n it'.next_offset (record it'.state { reader = t₁ }) _ t'
                small (omega arith) a.2 e' w' g'
              ∙ rw (append_assoc, append_assoc))

    prints : (k : ℕ) → Prints k
    unfolding print_tree contents
    prints zero dir level tree out t t' small h a g = absurd (omega arith)
    prints (suc k) dir level tree out t t' small h a g =
        loop k (λ dir level tree out t t' small h a g. prints k dir level tree out t t' small h a g)
          dir level tree (rounds c reader fuel dir) (some 0)
          (record { block = replicate block_size 0; block_num = none; reader = t }) out t' small
          (omega arith) a (omega arith) (length-replicate {A = ℕ} block_size 0) g

    -- On a reader that keeps the size of the buffers it fills, for a directory of less than
    -- 2 ^ 32 - 2048 bytes whose iterator gives the entries of a tree, with more depth allowed than the
    -- tree has, `print_tree` ends, and has printed the lines of the tree in order, indented by two
    -- blanks for each level, where each mode and each time that is shown has a text. The line of a
    -- link shows the time of the directory that holds it.
    pub print_tree-lines :
        (k : ℕ) (dir : IsoDirectory D) (level : ℕ) (tree : Tree D) (out : Str) (t t' : T)
        → dir.header.extent_length + block_size < 2 ^ 32
        → depth tree < k
        → AllTexts c format shown formatted dir tree
        → Walks c reader fuel tree dir (contents c reader fuel t) t'
        → print_tree c format reader fuel k dir level (out, t)
          ≡ (ok tt, (out ++ lines shown formatted dir level tree, t'))
    print_tree-lines k dir level tree out t t' small h a g =
        prints k dir level tree out t t' small h a g
