-- ===== src/Entry/Reader/ToEnd.antt =====
-- `Read::read_to_end` of the standard library on an `ISOFileReader` of
-- cdfs/src/directory_entry/isofile.rs, and the whole file that it reads.
use iso9660_rs.Prelude.{
  ℕ, zero, suc, ◌+◌, ◌-◌, ◌<◌, ◌≡◌, refl, sym, ap, ◌∙◌, [], ◌∷◌, ◌++◌, length, take, drop, arith,
  append_assoc, append-nil, length-take_le, length-take, length-drop, drop-drop, ◌*◌,
}
use iso9660_rs.Outcome.{
  Result, ok, err, panic, out_of_fuel, IoError, interrupted, invalid_input, other,
}
use iso9660_rs.Crates.{Bytes}
use iso9660_rs.FileRef.{Iso9660Reader, block_size}
use iso9660_rs.Entry.Reader.{IsoFileReader, Io, read}
use iso9660_rs.Entry.Reader.Contents.{Serves, IsCoherent, SameFile, contents, read-contents}

-- `room` is the space that the vector has when it holds the bytes read so far.
module _ {T : Type 0} (reader : Iso9660Reader T) (room : Bytes → ℕ) where
  -- An interrupted call is tried again, and a call that reads nothing is the last.
  abbrev pub after_read :
      (Bytes → Io reader Bytes)
      → Bytes
      → Result IoError Bytes × (IsoFileReader × T)
      → Result IoError Bytes × (IsoFileReader × T)
  after_read again text (ok [], s) = (ok text, s)
  after_read again text (ok (b ∷ bs), s) = again (text ++ (b ∷ bs)) s
  after_read again text (err interrupted, s) = again text s
  after_read again text (err invalid_input, s) = (err invalid_input, s)
  after_read again text (err other, s) = (err other, s)
  after_read again text (panic, s) = (panic, s)
  after_read again text (out_of_fuel, s) = (out_of_fuel, s)

  -- `fuel` bounds the calls of `read`.
  unfoldable pub read_to_end : ℕ → Bytes → Io reader Bytes
  read_to_end zero text s = (out_of_fuel, s)
  read_to_end (suc fuel) text s =
      after_read (λ text s. read_to_end fuel text s) text (read reader (room text) s)

-- A piece in front, as long as it came out, and what is behind it.
take-drop_rest : (n : ℕ) (xs : Bytes) → take n xs ++ drop (length (take n xs)) xs ≡ xs
take-drop_rest zero xs = refl
take-drop_rest (suc n) [] = refl
take-drop_rest (suc n) (x ∷ xs) = ap (λ ys. x ∷ ys) (take-drop_rest n xs)

no_bytes : (xs : Bytes) → length xs ≡ 0 → xs ≡ []
no_bytes [] e = refl
no_bytes (x ∷ xs) e = absurd (omega arith)

module _ {T : Type 0} (reader : Iso9660Reader T) (room : Bytes → ℕ) (img : Bytes)
    (serves : Serves reader img) (has_room : (text : Bytes) → 0 < room text) where
  length-rest :
      (r : IsoFileReader)
      → IsCoherent img r
      → length (drop r.seek (contents img r)) ≡ r.size - r.seek
  length-rest r v =
      length-drop r.seek (contents img r)
      ∙ ap (λ n. n - r.seek)
          (length-take_le r.size (drop (r.start_lba * block_size) img)
            (omega (arith, v.inside, length-drop (r.start_lba * block_size) img)))

  -- What is left of the file when the reader has moved behind a piece of it.
  rest_moves :
      (r r' : IsoFileReader) (text : Bytes) (n : ℕ)
      → let out = take n (drop r.seek (contents img r)) in
        SameFile r r'
        → r'.seek ≡ r.seek + length out
        → (text ++ out) ++ drop r'.seek (contents img r') ≡ text ++ drop r.seek (contents img r)
  rest_moves r r' text n f e =
      let out = take n (drop r.seek (contents img r)) in
      rw (e, f.same_start, f.same_size)
        (append_assoc text out (drop (r.seek + length out) (contents img r))
          ∙ ap (λ ys. text ++ ys)
              (ap (λ ys. out ++ ys)
                  (sym (
                    drop-drop (length out) r.seek (r.seek + length out) (contents img r)
                      (omega arith)))
                ∙ take-drop_rest n (drop r.seek (contents img r))))

  -- So many calls read what is left of a file.
  abbrev pub ReadsRest : ℕ → Type 0
  ReadsRest fuel =
      (text : Bytes) (r : IsoFileReader) (t : T)
      → IsCoherent img r
      → r.size - r.seek < fuel
      → (s : IsoFileReader × T) × (read_to_end reader room fuel text (r, t)
          ≡ (ok (text ++ drop r.seek (contents img r)), s))

  goes_on :
      (fuel : ℕ) (text : Bytes) (r r' : IsoFileReader) (t' : T)
      → let D = drop r.seek (contents img r) in
        ReadsRest fuel
        → IsCoherent img r
        → r.size - r.seek < suc fuel
        → IsCoherent img r'
        → SameFile r r'
        → r'.seek ≡ r.seek + length (take (room text) D)
        → (out : Bytes) → out ≡ take (room text) D
        → (s : IsoFileReader × T) × (after_read reader room
              (λ text s. read_to_end reader room fuel text s)
              text
              (ok out, (r', t'))
            ≡ (ok (text ++ D), s))
  goes_on fuel text r r' t' ih v h v' f m [] q =
      let rest = drop r.seek (contents img r) in
      let none_left : rest ≡ [] =
        no_bytes rest (omega (arith, has_room text, length-take (room text) rest, ap length q)) in
      ((r', t'), rw (none_left, append-nil))
  goes_on fuel text r r' t' ih v h v' f m (b ∷ bs) q =
      let (s, e) = ih (text ++ (b ∷ bs)) r' t' v' (
        omega (
          arith,
          f.same_size,
          m,
          h,
          ap length q,
          length-rest r v,
          length-take (room text) (drop r.seek (contents img r)),
        )) in
      (
        s,
        e
            ∙ ap (λ ys. (ok ys, s))
                (ap (λ xs. (text ++ xs) ++ drop r'.seek (contents img r')) q
                  ∙ rest_moves r r' text (room text) f m),
      )

  -- On a reader that serves the image, reading a coherent file reader to its end gives what is left
  -- of the file: as many calls as there are bytes left, and one that finds the end, are enough.
  pub read_to_end_lem : (fuel : ℕ) → ReadsRest fuel
  unfolding read_to_end
  read_to_end_lem zero text r t v h = absurd (omega arith)
  read_to_end_lem (suc fuel) text r t v h =
      let (r', t', e, v', f, m) = read-contents reader img serves r t (room text) v in
      rw e (
        goes_on fuel text r r' t' (λ text r t v h. read_to_end_lem fuel text r t v h) v h v' f m
          (take (room text) (drop r.seek (contents img r))) refl)
