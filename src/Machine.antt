-- ===== src/Machine.antt =====
-- Rust's arithmetic on unsigned words: an overflow panics where the overflow checks are on, as in
-- a debug build, and wraps otherwise. `usize` has 64 bits.
pub mod Masks
use iso9660_rs.Prelude.{
  ℕ, ◌-◌, ◌+◌, ◌%◌, ◌^◌, ltb, leb, if◌then◌else◌, ℤ, pos, negsuc, ◌+ℤ◌, Bool, ◌&&◌, List, length,
  take, drop, ◌≡◌, ◌≤◌, le→leb,
}
use iso9660_rs.Outcome.{Result, ok, panic}
use iso9660_rs.Crates.{Crates}

abbrev pub usize_mod : ℕ
usize_mod = 2 ^ 64

-- `x as i64` of a `u64` or a `usize`.
abbrev pub to_i64 : ℕ → ℤ
to_i64 x = if ltb x (2 ^ 63) then pos x else negsuc (2 ^ 64 - x - 1)

-- The low bits of the two's complement, such as `x as u8`.
abbrev pub wrap : ℕ → ℤ → ℕ
wrap m (pos n) = n % m
wrap m (negsuc n) = m - 1 - n % m

abbrev pub is_i64 : ℤ → Bool
is_i64 (pos n) = ltb n (2 ^ 63)
is_i64 (negsuc n) = ltb n (2 ^ 63)

module _ (c : Crates) {E : Type 0} where
  -- A result that has to be below m.
  unfoldable pub fit : ℕ → ℕ → Result E ℕ
  fit m x = if ltb x m then ok x else if c.overflow_checks then panic else ok (x % m)

  -- a - b in words below m.
  unfoldable pub sub_word : ℕ → ℕ → ℕ → Result E ℕ
  sub_word m a b =
      if ltb a b then (if c.overflow_checks then panic else ok ((a + m - b) % m)) else ok (a - b)

  -- a + b in `i64`.
  unfoldable pub add_i64 : ℤ → ℤ → Result E ℤ
  add_i64 a b =
      let sum = a +ℤ b in
      if is_i64 sum
      then ok sum
      else if c.overflow_checks
      then panic
      else ok (to_i64 (wrap (2 ^ 64) sum))

-- `&buf[start..end]`, which panics outside the buffer.
unfoldable pub slice : {E A : Type 0} → List A → ℕ → ℕ → Result E (List A)
slice buf start end =
    if leb start end && leb end (length buf)
    then ok (take (end - start) (drop start buf))
    else panic

pub slice_lem :
    {E A : Type 0} (buf : List A) (start end : ℕ)
    → start ≤ end
    → end ≤ length buf
    → slice {E = E} buf start end ≡ ok (take (end - start) (drop start buf))
unfolding slice
slice_lem buf start end h k = rw (le→leb start end h, le→leb end (length buf) k)
