-- ===== src/Entry/Reader/Contents.antt =====
-- `ISOFileReader::read` of cdfs/src/directory_entry/isofile.rs against the file as a sequence of
-- bytes, on a reader that serves an image.
use iso9660_rs.Prelude.{
  ℕ, zero, suc, ◌+◌, ◌-◌, ◌*◌, ◌/◌, ◌%◌, ◌≤◌, ◌<◌, min, ◌≡◌, refl, sym, ap, ◌∙◌, true, Option, none,
  some, [], ◌++◌, leb, ◌==◌, ◌||◌, length, take, drop, arith, drop-drop, take-take, drop-take,
  take-split, length-take_le, length-drop, Bool-cases, ==_iff, inl, inr,
}
use iso9660_rs.Outcome.{Result, ok, IoError}
use iso9660_rs.Crates.{Bytes}
use iso9660_rs.Machine.{slice_lem}
use iso9660_rs.FileRef.{Iso9660Reader, block_size}
use iso9660_rs.Entry.Reader.{IsoFileReader, is_lba, fetch, write_chunk, read_round, read_loop, read}

abbrev pub block : Bytes → ℕ → Bytes
block img lba = take block_size (drop (lba * block_size) img)

-- A reader of an image in memory, or of a file that is read whole blocks at a time: every block
-- that lies in the image is read into a block's buffer, whatever was read before.
pub record Serves {T : Type 0} (reader : Iso9660Reader T) (img : Bytes) : Type 0 where
  pub serves :
      (t : T) (buf : Bytes) (lba : ℕ)
      → length buf ≡ block_size
      → (lba + 1) * block_size ≤ length img
      → reader.read_at t buf lba ≡ (ok block_size, block img lba, (reader.read_at t buf lba).2)

-- The file of a reader: `size` bytes from the first block on.
abbrev pub contents : Bytes → IsoFileReader → Bytes
contents img r = take r.size (drop (r.start_lba * block_size) img)

-- A buffer that says which block it holds does hold it.
abbrev Holds : Bytes → Bytes → Option ℕ → Type 0
Holds img buf none = Unit {0}
Holds img buf (some lba) = buf ≡ block img lba

-- The buffer is a block, it holds what it says, and the blocks of the file lie in the image.
pub record IsCoherent (img : Bytes) (r : IsoFileReader) : Type 0 where
  pub whole : length r.buf ≡ block_size
  pub holds : Holds img r.buf r.buf_lba
  pub inside : (r.start_lba + (r.size + 2047) / block_size) * block_size ≤ length img

-- Two readers of one file.
pub record SameFile (r s : IsoFileReader) : Type 0 where
  pub same_start : s.start_lba ≡ r.start_lba
  pub same_size : s.size ≡ r.size

SameFile-trans : (r s t : IsoFileReader) → SameFile r s → SameFile s t → SameFile r t
SameFile-trans r s t f g = omega (arith, f.same_start, f.same_size, g.same_start, g.same_size)

pub length-block :
    (img : Bytes) (lba : ℕ)
    → (lba + 1) * block_size ≤ length img
    → length (block img lba) ≡ block_size
length-block img lba h =
    length-take_le block_size (drop (lba * block_size) img)
      (omega (arith, length-drop (lba * block_size) img))

held :
    (img buf : Bytes) (o : Option ℕ) (lba : ℕ)
    → is_lba o lba ≡ true
    → Holds img buf o
    → (buf ≡ block img lba) × (o ≡ some lba)
held img buf none lba e h = cc
held img buf (some l) lba e h =
    let same : l ≡ lba = (==_iff l lba).0 e in (h ∙ ap (block img) same, ap some same)

module _ {T : Type 0} (reader : Iso9660Reader T) (img : Bytes) (s : Serves reader img) where
  -- After `fetch` the buffer is the block asked for, and nothing else of the reader has changed.
  fetch_lem :
      (r : IsoFileReader) (t : T) (lba : ℕ)
      → IsCoherent img r
      → (lba + 1) * block_size ≤ length img
      → (t' : T) × (fetch reader lba (r, t)
          ≡ (ok tt, (record r { buf = block img lba; buf_lba = some lba }, t')))
  unfolding fetch
  fetch_lem r t lba v h = elim (Bool-cases (is_lba r.buf_lba lba)) [
    | inl same ↦
        let p = held img r.buf r.buf_lba lba same v.holds in
        (t, rw same (λ i. (ok tt, (record r { buf = p.0 i; buf_lba = p.1 i }, t))))
    | inr new ↦ ((reader.read_at t r.buf lba).2, rw (new, s.serves t r.buf lba v.whole h))
  ]

  -- How many bytes the block has for the file from a position on.
  abbrev room : IsoFileReader → ℕ → ℕ
  room r seek = min (r.size - seek / block_size * block_size) block_size - seek % block_size

  -- Position p of the file stands at s in a block that starts at b of the image.
  chunk_slices :
      (n m e p b : ℕ)
      → m ≤ e
      → e ≤ 2048
      → p ≡ m + b
      → take n (take (e - m) (drop m (take 2048 (drop b img)))) ≡ take (min n (e - m)) (drop p img)
  chunk_slices n m e p b hm he hp =
      ap (λ xs. take n (take (e - m) xs))
        (drop-take m 2048 (drop b img) ∙ ap (take (2048 - m)) (drop-drop m b p img hp))
      ∙ ap (take n) (take-take (e - m) (2048 - m) (e - m) (drop p img) (omega arith))
      ∙ take-take n (e - m) (min n (e - m)) (drop p img) refl

  chunk_lem :
      (r : IsoFileReader) (t : T) (seek n : ℕ)
      → seek < r.size
      → length r.buf ≡ block_size
      → r.buf ≡ block img (r.start_lba + seek / block_size)
      → write_chunk reader seek n (r, t)
        ≡ (ok (take (min n (room r seek)) (drop (r.start_lba * block_size + seek) img)), (r, t))
  unfolding write_chunk
  chunk_lem r t seek n h w e =
      let k = min (r.size - seek / block_size * block_size) block_size in
      rw (slice_lem r.buf (seek % block_size) k (omega arith) (omega arith))
        (λ i. (ok (chunk i), (r, t)))
    where
      chunk :
          take n (take (room r seek) (drop (seek % block_size) r.buf))
          ≡ take (min n (room r seek)) (drop (r.start_lba * block_size + seek) img)
      chunk =
          ap (λ b. take n (take (room r seek) (drop (seek % block_size) b))) e
          ∙ chunk_slices n (seek % block_size)
              (min (r.size - seek / block_size * block_size) block_size)
              (r.start_lba * block_size + seek) ((r.start_lba + seek / block_size) * block_size)
              (omega arith) (omega arith) (omega arith)

  -- What a round writes is the next piece of the file.
  round_lem :
      (r : IsoFileReader) (t : T) (seek n : ℕ)
      → IsCoherent img r
      → seek < r.size
      → (r' : IsoFileReader) × (t' : T) × (read_round reader seek n (r, t) ≡ (
        ok (take (min n (room r seek)) (drop (r.start_lba * block_size + seek) img)),
        (r', t'),
      ))
        × IsCoherent img r'
        × SameFile r r'
        × (r'.seek ≡ r.seek)
  unfolding read_round
  round_lem r t seek n v h =
      let lba = r.start_lba + seek / block_size in
      let inside : (lba + 1) * block_size ≤ length img = omega (arith, v.inside) in
      let f = fetch_lem r t lba v inside in
      let r' : IsoFileReader = record r { buf = block img lba; buf_lba = some lba } in
      let full = length-block img lba inside in
      (
        r',
        f.0,
        rw f.1 (chunk_lem r' f.0 seek n h full refl),
        record { whole = full; holds = refl; inside = v.inside },
        record { same_start = refl; same_size = refl },
        refl,
      )

  -- The loop has nothing left to do.
  stop :
      (k seek : ℕ) (xs : Bytes)
      → k ≡ 0
      → let nothing : Result IoError (ℕ × Bytes) = ok (seek, []) in
        nothing ≡ ok (seek + k, take k xs)
  stop zero seek xs e = let p : seek ≡ seek + 0 = omega arith in λ i. ok (p i, [])
  stop (suc k) seek xs e = absurd (omega arith)

  joined :
      (p c k' k p' : ℕ)
      → k ≡ c + k'
      → p' ≡ c + p
      → take c (drop p img) ++ take k' (drop p' img) ≡ take k (drop p img)
  joined p c k' k p' e e' = sym (
      take-split c k' k (drop p img) e
      ∙ ap (λ ys. take c (drop p img) ++ take k' ys) (drop-drop c p p' img e'))

  -- What a piece of the file holds, where the file lies in the image.
  length-piece :
      (r : IsoFileReader) (seek n : ℕ)
      → IsCoherent img r
      → seek < r.size
      → length (take (min n (room r seek)) (drop (r.start_lba * block_size + seek) img))
        ≡ min n (room r seek)
  length-piece r seek n v h =
      length-take_le (min n (room r seek)) (drop (r.start_lba * block_size + seek) img)
        (omega (arith, v.inside, length-drop (r.start_lba * block_size + seek) img))

  -- With n bytes of fuel the loop stops by its test: it has written the file from `seek` on, up to
  -- n bytes or to the end of the file.
  loop_lem :
      (fuel : ℕ) (r : IsoFileReader) (t : T) (seek n : ℕ)
      → n ≤ fuel
      → IsCoherent img r
      → let k = min n (r.size - seek) in
        (r' : IsoFileReader) × (t' : T) × (read_loop reader fuel seek n (r, t)
          ≡ (ok (seek + k, take k (drop (r.start_lba * block_size + seek) img)), (r', t')))
        × IsCoherent img r'
        × SameFile r r'
        × (r'.seek ≡ r.seek)
  unfolding read_loop
  loop_lem zero r t seek n h v =
      let e : min n (r.size - seek) ≡ 0 = omega arith in
      let done : ((n == 0) || leb r.size seek) ≡ true = ground arith in
      (
        r,
        t,
        rw (done, read_loop)
            (λ i. (stop _ seek (drop (r.start_lba * block_size + seek) img) e i, (r, t))),
        v,
        record { same_start = refl; same_size = refl },
        refl,
      )
  loop_lem (suc fuel) r t seek n h v = elim (Bool-cases ((n == 0) || leb r.size seek)) [
    | inl done ↦
        let e : min n (r.size - seek) ≡ 0 = ground arith in
        (
          r,
          t,
          rw (done, read_loop)
              (λ i. (stop _ seek (drop (r.start_lba * block_size + seek) img) e i, (r, t))),
          v,
          record { same_start = refl; same_size = refl },
          refl,
        )
    | inr more ↦
        let lt : seek < r.size = ground arith in
        let pos : 0 < n = ground arith in
        let c = min n (room r seek) in
        let (r₁, t₁, e₁, v₁, f₁, s₁) = round_lem r t seek n v lt in
        let (r₂, t₂, e₂, v₂, f₂, s₂) = loop_lem fuel r₁ t₁ (seek + c) (n - c) (omega arith) v₁ in
        (
          r₂,
          t₂,
          rw (more, read_loop, e₁, length-piece r seek n v lt, e₂)
              (λ i. (ok (position r r₁ seek n f₁ lt i, piece r r₁ seek n f₁ lt i), (r₂, t₂))),
          v₂,
          SameFile-trans r r₁ r₂ f₁ f₂,
          omega (arith, s₁, s₂),
        )
  ]
    where
      position :
          (r r₁ : IsoFileReader) (seek n : ℕ)
          → SameFile r r₁
          → seek < r.size
          → seek
              + min n (room r seek)
              + min (n - min n (room r seek)) (r₁.size - (seek + min n (room r seek)))
            ≡ seek + min n (r.size - seek)
      position r r₁ seek n f h = omega (arith, f.same_size)

      piece :
          (r r₁ : IsoFileReader) (seek n : ℕ)
          → SameFile r r₁
          → seek < r.size
          → take (min n (room r seek)) (drop (r.start_lba * block_size + seek) img)
              ++ take
                  (min (n - min n (room r seek)) (r₁.size - (seek + min n (room r seek))))
                  (drop (r₁.start_lba * block_size + (seek + min n (room r seek))) img)
            ≡ take (min n (r.size - seek)) (drop (r.start_lba * block_size + seek) img)
      piece r r₁ seek n f h =
          joined _ _ _ _ _ (omega (arith, f.same_size)) (omega (arith, f.same_start))

  wanted :
      (r : IsoFileReader) (n : ℕ)
      → take (min n (r.size - r.seek)) (drop (r.start_lba * block_size + r.seek) img)
        ≡ take n (drop r.seek (contents img r))
  wanted r n = sym (
      ap (take n) (
        drop-take r.seek r.size (drop (r.start_lba * block_size) img)
        ∙ ap (take (r.size - r.seek)) (
            drop-drop r.seek (r.start_lba * block_size) (r.start_lba * block_size + r.seek) img
              (omega arith)))
      ∙ take-take n (r.size - r.seek) (min n (r.size - r.seek))
          (drop (r.start_lba * block_size + r.seek) img) refl)

  length-wanted :
      (r : IsoFileReader) (n : ℕ)
      → IsCoherent img r
      → length (take n (drop r.seek (contents img r))) ≡ min n (r.size - r.seek)
  length-wanted r n v =
      ap length (sym (wanted r n))
      ∙ length-take_le (min n (r.size - r.seek)) (drop (r.start_lba * block_size + r.seek) img)
          (omega (arith, v.inside, length-drop (r.start_lba * block_size + r.seek) img))

  -- On a reader that serves the image, a coherent file reader never fails, panics or runs on: into n
  -- bytes it reads the next n bytes of the file, or those that are left, moves its position by as
  -- many, and stays a coherent reader of the same file.
  pub read-contents :
      (r : IsoFileReader) (t : T) (n : ℕ)
      → IsCoherent img r
      → let out = take n (drop r.seek (contents img r)) in
        (r' : IsoFileReader) × (t' : T) × (read reader n (r, t) ≡ (ok out, (r', t')))
        × IsCoherent img r'
        × SameFile r r'
        × (r'.seek ≡ r.seek + length out)
  unfolding read
  read-contents r t n v =
      let (r₁, t₁, e₁, v₁, f₁, s₁) = loop_lem n r t r.seek n (omega arith) v in
      let k = min n (r.size - r.seek) in
      (
        record r₁ { seek = r.seek + k },
        t₁,
        rw e₁ (λ i. (ok (wanted r n i), (record r₁ { seek = r.seek + k }, t₁))),
        record { whole = v₁.whole; holds = v₁.holds; inside = v₁.inside },
        record { same_start = f₁.same_start; same_size = f₁.same_size },
        omega (arith, length-wanted r n v),
      )
