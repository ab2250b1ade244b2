-- ===== src/Parse/BothEndian/RoundTrip.antt =====
-- What both_endian.rs reads back from a number that was written in both orders.
use iso9660_rs.Prelude.{ℕ, ◌/◌, ◌%◌, ◌^◌, ◌<◌, ◌≡◌, [], ◌∷◌, ◌++◌, arith}
use iso9660_rs.Outcome.{ok}
use iso9660_rs.Crates.{Crates, Bytes}
use iso9660_rs.Crates.Documented.{IsCrates, by_documentation}
use iso9660_rs.Parse.BothEndian.{both_endian16, both_endian32}

abbrev pub le16 : ℕ → Bytes
le16 n = n % 256 ∷ n / 256 ∷ []

abbrev pub be16 : ℕ → Bytes
be16 n = n / 256 ∷ n % 256 ∷ []

abbrev pub le32 : ℕ → Bytes
le32 n = n % 256 ∷ n / 256 % 256 ∷ n / 65536 % 256 ∷ n / 16777216 ∷ []

abbrev pub be32 : ℕ → Bytes
be32 n = n / 16777216 ∷ n / 65536 % 256 ∷ n / 256 % 256 ∷ n % 256 ∷ []

-- A 16-bit number, written in little endian and then in big endian, is read back whichever order
-- the build prefers, and what follows it is left.
pub both_endian16-read :
    (c : Crates)
    → IsCrates c
    → (n : ℕ) (rest : Bytes) → n < 2 ^ 16
    → both_endian16 c (le16 n ++ (be16 n ++ rest)) ≡ ok (rest, n)
unfolding both_endian16
both_endian16-read c d n rest h =
    by_documentation c (λ c. both_endian16 c (le16 n ++ (be16 n ++ rest)) ≡ ok (rest, n)) d
      (ground arith)

-- A 32-bit number, written in little endian and then in big endian, is read back whichever order
-- the build prefers, and what follows it is left.
pub both_endian32-read :
    (c : Crates)
    → IsCrates c
    → (n : ℕ) (rest : Bytes) → n < 2 ^ 32
    → both_endian32 c (le32 n ++ (be32 n ++ rest)) ≡ ok (rest, n)
unfolding both_endian32
both_endian32-read c d n rest h =
    by_documentation c (λ c. both_endian32 c (le32 n ++ (be32 n ++ rest)) ≡ ok (rest, n)) d
      (ground arith)
