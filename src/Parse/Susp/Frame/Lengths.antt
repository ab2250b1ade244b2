-- ===== src/Parse/Susp/Frame/Lengths.antt =====
-- The frame of a system use entry, `ParseSusp::parse_sig` of cdfs/src/parse/susp.rs: what it reads.
use iso9660_rs.Prelude.{
  ℕ, ◌+◌, ◌-◌, ◌^◌, ◌≤◌, ◌<◌, ◌≡◌, refl, ap, sym, ◌∙◌, true, Option, none, some, [], ◌∷◌, ◌++◌,
  arith, length, length-take, length-append, take, take-append-drop,
}
use iso9660_rs.Outcome.{ok, >>=-eq-ok}
use iso9660_rs.Crates.{Crates, Bytes}
use iso9660_rs.Crates.Documented.{IsCrates, by_documentation, documented, is_prefix}
use iso9660_rs.Parse.Susp.Frame.{parse_sig, sig_parser, sig_tail}

-- What a frame that was read says: the input is the signature of two bytes, the length of the whole
-- entry, its version, its data, and what is left.
pub record Framed (signature : Option Bytes) (i rest sig payload : Bytes) (entry_length version : ℕ)
    : Type 0 where
  pub frame : 4 ≤ entry_length
  pub bytes : i ≡ sig ++ (entry_length ∷ version ∷ (payload ++ rest))
  pub sig_length : length sig ≡ 2
  pub data_length : length payload + 4 ≡ entry_length
  pub asked : (s : Bytes) → signature ≡ some s → sig ≡ s

is_prefix-take : (s i : Bytes) → is_prefix s i ≡ true → take (length s) i ≡ s
is_prefix-take [] i e = refl
is_prefix-take (x ∷ s) [] e = cc
is_prefix-take (x ∷ s) (y ∷ i) e = ground (arith, is_prefix-take s i)

-- The signature is the first two bytes, and the one that is asked for.
signature_two :
    (c : Crates) (signature : Option Bytes) (i rest sig : Bytes)
    → ((s : Bytes) → signature ≡ some s → length s ≡ 2)
    → sig_parser (documented c) signature i ≡ ok (rest, sig)
    → (i ≡ sig ++ rest) × (length sig ≡ 2) × ((s : Bytes) → signature ≡ some s → sig ≡ s)
signature_two c none i rest sig two e =
    (ground (arith, take-append-drop 2 i), ground (arith, length-take 2 i), λ s q. absurd (cc q))
signature_two c (some s) i rest sig two e = (
  ground (arith, take-append-drop (length s) i),
  ground (arith, is_prefix-take s i, two s refl),
  λ s' q. ground (arith, is_prefix-take s i),
)

after_signature :
    (c : Crates) (i rest sig sig' payload : Bytes) (entry_length version : ℕ)
    → length i < 2 ^ 63
    → sig_tail (documented c) sig i ≡ ok (rest, (sig', entry_length, version, payload))
    → (4 ≤ entry_length)
      × (i ≡ entry_length ∷ version ∷ (payload ++ rest))
      × (length payload + 4 ≡ entry_length)
      × (sig' ≡ sig)
unfolding sig_tail
after_signature c [] rest sig sig' payload entry_length version small e = absurd (cc e)
after_signature c (a ∷ []) rest sig sig' payload entry_length version small e = absurd (cc e)
after_signature c (a ∷ b ∷ i) rest sig sig' payload entry_length version small e =
    ground (arith, take-append-drop (a - 4) i, length-take (a - 4) i)

-- An entry that is framed, with a signature of two bytes where one is asked for, is at least four
-- bytes long, so that the loop over the entries goes on. The input is the signature, which is the
-- one asked for, the length, the version, as much data as the length says, and what is left. The
-- input is shorter than 2 ^ 63 bytes.
pub parse_sig-Framed :
    (c : Crates)
    → IsCrates c
    → (signature : Option Bytes) (i rest sig payload : Bytes) (entry_length version : ℕ)
    → ((s : Bytes) → signature ≡ some s → length s ≡ 2)
    → length i < 2 ^ 63
    → parse_sig c signature i ≡ ok (rest, (sig, entry_length, version, payload))
    → Framed signature i rest sig payload entry_length version
unfolding parse_sig
parse_sig-Framed c d signature i rest sig payload entry_length version two small e =
    by_documentation c
      (λ c.
        parse_sig c signature i ≡ ok (rest, (sig, entry_length, version, payload))
        → Framed signature i rest sig payload entry_length version)
      d whole e
  where
    whole :
        parse_sig (documented c) signature i ≡ ok (rest, (sig, entry_length, version, payload))
        → Framed signature i rest sig payload entry_length version
    whole e =
        let ((i₁, sig₁), p, q) =
          >>=-eq-ok (sig_parser (documented c) signature i)
            (λ (input, sig). sig_tail (documented c) sig input) e in
        let (parts, two_long, asked) = signature_two c signature i i₁ sig₁ two p in
        let shorter : length i₁ < 2 ^ 63 =
          omega (arith, ap length parts, length-append {0} sig₁ i₁) in
        let (frame, more, data_length, same) =
          after_signature c i₁ rest sig₁ sig payload entry_length version shorter q in
        record {
          frame = frame;
          bytes =
              parts
              ∙ ap (λ x. sig₁ ++ x) more
              ∙ ap (λ x. x ++ (entry_length ∷ version ∷ (payload ++ rest))) (sym same);
          sig_length = ap length same ∙ two_long;
          data_length = data_length;
          asked = λ s q. same ∙ asked s q;
        }
