-- ===== src/Examples/PrintTree.antt =====
-- cdfs/examples/print_tree.rs: the program that prints the tree of a directory of an image. The
-- state is what was printed, and the state of the reader.
pub mod Trees
pub mod Lines
use iso9660_rs.Prelude.{ℕ, zero, suc, ◌+◌, Option, none, some, [], ◌∷◌, ◌++◌, ◌||◌, if◌then◌else◌}
use iso9660_rs.Outcome.{Result, ok, err, panic, out_of_fuel, IoError, IsoError, unwrap}
use iso9660_rs.State.{M, ◌>>=◌, ◌>>◌, pure, lift}
use iso9660_rs.Crates.{Crates, Str}
use iso9660_rs.FileRef.{Iso9660Reader}
use iso9660_rs.Text.{chars, str_eq}
use iso9660_rs.Parse.Susp.Mode.{show}
use iso9660_rs.Entry.Attributes.{
  directory_attributes, file_attributes, symlink_attributes, mode, modify_time,
}
use iso9660_rs.Entry.Find.{IsoDirectoryIterator, contents, next, rounds}
use iso9660_rs.Entry.Types.{IsoDirectory, IsoFile, Symlink, DirectoryEntry}
use iso9660_rs.Iso.{Iso9660, new, root, open_path}

-- What makes the program fail: an `anyhow::Error` with one of these behind it.
pub data Failure : Type 0 where
  io : IoError → Failure
  iso : IsoError → Failure
  not_utf8 : Failure
  not_a_directory : Str → Failure
  does_not_exist : Str → Failure

unfoldable pub indent : ℕ → Str
indent zero = []
indent (suc level) = chars "  " ++ indent level

interrobangs : Str
interrobangs = 8253 ∷ 8253 ∷ 8253 ∷ []

-- `Symlink::target` of symlink.rs.
unfoldable pub target : {D : Type 0} → Symlink D → Option Str
target link = link.ext.symlink_target

pub shown_target : Option Str → Str
unfolding interrobangs
shown_target none = interrobangs
shown_target (some []) = interrobangs
shown_target (some (ch ∷ s)) =
    if str_eq (ch ∷ s) (0 ∷ [])
    then chars ".."
    else if str_eq (ch ∷ s) (1 ∷ [])
    then chars "."
    else ch ∷ s

-- `format` is the formatting of a time, which may fail.
module _ (c : Crates) (format : c.time.OffsetDateTime → Option Str) where
  abbrev D : Type 0
  D = c.time.OffsetDateTime

  print_mode : {T E : Type 0} → Option ℕ → M (Str × T) E (Unit {0})
  print_mode none s = (ok tt, s)
  print_mode (some m) (out, t) =
      (lift (show c m) >>= λ text (out, t). (ok tt, (out ++ (text ++ chars " "), t))) (out, t)

  -- One line: the mode if there is one, the time, and the text behind them.
  unfoldable pub print_line : {T E : Type 0} → Option ℕ → D → Str → M (Str × T) E (Unit {0})
  unfolding print_mode
  print_line m d text =
      print_mode m
      >> (lift (unwrap (format d)) >>= λ shown (out, t).
          (ok tt, (out ++ (chars " " ++ (shown ++ (chars " " ++ (text ++ (10 ∷ []))))), t)))

  print_file : {T E : Type 0} → IsoFile D → ℕ → M (Str × T) E (Unit {0})
  unfolding print_line indent
  print_file f level =
      print_line (mode file_attributes f) (modify_time file_attributes f)
        (indent level ++ f.identifier)

  -- The time is that of the directory that holds the link.
  print_symlink : {T E : Type 0} → IsoDirectory D → Symlink D → ℕ → M (Str × T) E (Unit {0})
  unfolding print_line indent target shown_target
  print_symlink dir link level =
      print_line (mode symlink_attributes link) (modify_time directory_attributes dir)
        (indent level ++ (link.identifier ++ (32 ∷ 8594 ∷ 32 ∷ shown_target (target link))))

  -- `fuel` bounds the continuation areas of a record.
  module _ {T : Type 0} (reader : Iso9660Reader T) (fuel : ℕ) where
    abbrev pub Print : Type 0
    Print = M (Str × T) IsoError (Unit {0})

    unfoldable pub print_entry :
        (IsoDirectory D → ℕ → Print) → IsoDirectory D → ℕ → DirectoryEntry D → Print
    unfolding print_file print_symlink
    print_entry descend dir level (DirectoryEntry.directory sub) =
        if str_eq sub.identifier (chars ".") || str_eq sub.identifier (chars "..")
        then pure tt
        else print_line (mode directory_attributes sub) (modify_time directory_attributes sub)
            (indent level ++ (sub.identifier ++ chars "/"))
          >> descend sub (level + 1)
    print_entry descend dir level (DirectoryEntry.file f) = print_file f level
    print_entry descend dir level (DirectoryEntry.symlink link) = print_symlink dir link level

    -- One round of the loop, which goes on with `again`. What an entry does with the shared reader is
    -- seen by the iterator.
    print_next :
        (IsoDirectory D → ℕ → Print)
        → IsoDirectory D
        → ℕ
        → (IsoDirectoryIterator T → Str → Result IsoError (Unit {0}) × (Str × T))
        → Str
        → Option (Result IsoError (DirectoryEntry D)) × IsoDirectoryIterator T
        → Result IsoError (Unit {0}) × (Str × T)
    unfolding print_entry
    print_next descend dir level again out (none, it) = (ok tt, (out, it.state.reader))
    print_next descend dir level again out (some (ok entry), it) =
        (print_entry descend dir level entry >>= λ _ (out, t).
        again (record it { state = record it.state { reader = t } }) out)
          (out, it.state.reader)
    print_next descend dir level again out (some (err e), it) = (panic, (out, it.state.reader))
    print_next descend dir level again out (some panic, it) = (panic, (out, it.state.reader))
    print_next descend dir level again out (some out_of_fuel, it) =
        (out_of_fuel, (out, it.state.reader))

    -- The `for` loop over at most `rounds` entries.
    unfoldable pub print_entries :
        (IsoDirectory D → ℕ → Print)
        → ℕ
        → IsoDirectory D
        → ℕ
        → IsoDirectoryIterator T
        → Str
        → Result IsoError (Unit {0}) × (Str × T)
    unfolding print_next
    print_entries descend zero dir level it out = elim it.next_offset [
      | none ↦ (ok tt, (out, it.state.reader))
      | some _ ↦ (out_of_fuel, (out, it.state.reader))
    ]
    print_entries descend (suc n) dir level it out =
        print_next descend dir level (λ it out. print_entries descend n dir level it out) out
          (next c reader fuel dir it)

    -- `depth` bounds the directories inside each other.
    unfoldable pub print_tree : ℕ → IsoDirectory D → ℕ → Print
    unfolding print_entries
    print_tree zero dir level s = (out_of_fuel, s)
    print_tree (suc depth) dir level (out, t) =
        print_entries (λ sub level s. print_tree depth sub level s) (rounds c reader fuel dir) dir
          level (contents c reader fuel t) out

    -- What came of the printing, as the result of `main`.
    finished : Result IsoError (Unit {0}) × (Str × T) → Result Failure (Unit {0}) × Str
    finished (ok _, (out, t)) = (ok tt, out)
    finished (err e, (out, t)) = (err (iso e), out)
    finished (panic, (out, t)) = (panic, out)
    finished (out_of_fuel, (out, t)) = (out_of_fuel, out)

    print_opened :
        ℕ → Str → Result IsoError (Option (DirectoryEntry D)) × T → Result Failure (Unit {0}) × Str
    unfolding finished print_tree
    print_opened depth path (ok (some (DirectoryEntry.directory dir)), t) =
        finished (print_tree depth dir 0 ([], t))
    print_opened depth path (ok (some (DirectoryEntry.file f)), t) =
        (err (not_a_directory path), [])
    print_opened depth path (ok (some (DirectoryEntry.symlink link)), t) =
        (err (not_a_directory path), [])
    print_opened depth path (ok none, t) = (err (does_not_exist path), [])
    print_opened depth path (err e, t) = (err (iso e), [])
    print_opened depth path (panic, t) = (panic, [])
    print_opened depth path (out_of_fuel, t) = (out_of_fuel, [])

    print_root : ℕ → Result IsoError (IsoDirectory D) × T → Result Failure (Unit {0}) × Str
    unfolding finished print_tree
    print_root depth (ok dir, t) = finished (print_tree depth dir 0 ([], t))
    print_root depth (err e, t) = (err (iso e), [])
    print_root depth (panic, t) = (panic, [])
    print_root depth (out_of_fuel, t) = (out_of_fuel, [])

    -- The path of the command line may be missing, and may not be UTF-8.
    with_image :
        ℕ → Option (Option Str) → Result IsoError (Iso9660 D) × T → Result Failure (Unit {0}) × Str
    unfolding print_opened print_root
    with_image depth (some (some path)) (ok fs, t) =
        print_opened depth path (open_path c reader fuel fs path t)
    with_image depth (some none) (ok fs, t) = (err not_utf8, [])
    with_image depth none (ok fs, t) = print_root depth (root c reader fuel fs t)
    with_image depth path (err e, t) = (err (iso e), [])
    with_image depth path (panic, t) = (panic, [])
    with_image depth path (out_of_fuel, t) = (out_of_fuel, [])

    -- `main`, with the result of `File::open`: how it ends, and what it has printed.
    unfoldable pub main :
        ℕ → Result IoError T → Option (Option Str) → Result Failure (Unit {0}) × Str
    unfolding with_image
    main depth (ok t) path = with_image depth path (new c reader fuel t)
    main depth (err e) path = (err (io e), [])
    main depth panic path = (panic, [])
    main depth out_of_fuel path = (out_of_fuel, [])
