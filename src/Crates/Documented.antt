-- ===== src/Crates/Documented.antt =====
-- The documented behaviour of nom's complete parsers, of bitflags and of itertools, as concrete functions, and
-- the hypothesis that the parameters behave so.
use iso9660_rs.Prelude.{
  ℕ, zero, suc, ◌+◌, ◌*◌, ◌≡◌, refl, sym, subst, Bool, true, false, Option, none, some, List, [],
  ◌∷◌, ◌&&◌, ltb, ◌==◌, if◌then◌else◌, length, take, drop, bit_and, bit_or,
}
use iso9660_rs.Outcome.{ok, err, panic, out_of_fuel, error, ◌>>=◌}
use iso9660_rs.Crates.{Bytes, NomRes, Parser, Nom, Bitflags, Itertools, Crates}

abbrev pub fail : {A : Type 0} → NomRes A
fail = err error

abbrev pub is_prefix : Bytes → Bytes → Bool
is_prefix [] i = true
is_prefix (x ∷ xs) [] = false
is_prefix (x ∷ xs) (y ∷ ys) = (x == y) && is_prefix xs ys

-- The first n bytes, or an error where there are fewer.
abbrev pub doc_take : ℕ → Parser Bytes
doc_take n i = if ltb (length i) n then fail else ok (drop n i, take n i)

abbrev pub doc_tag : Bytes → Parser Bytes
doc_tag t i = if is_prefix t i then ok (drop (length t) i, take (length t) i) else fail

abbrev pub doc_rest : Parser Bytes
doc_rest i = ok ([], i)

abbrev pub doc_u8 : Parser ℕ
doc_u8 (a ∷ i) = ok (i, a)
doc_u8 [] = fail

abbrev pub doc_le_u16 : Parser ℕ
doc_le_u16 (a ∷ b ∷ i) = ok (i, a + 256 * b)
doc_le_u16 _ = fail

abbrev pub doc_be_u16 : Parser ℕ
doc_be_u16 (a ∷ b ∷ i) = ok (i, 256 * a + b)
doc_be_u16 _ = fail

abbrev pub doc_le_u32 : Parser ℕ
doc_le_u32 (a ∷ b ∷ c ∷ d ∷ i) = ok (i, a + 256 * b + 65536 * c + 16777216 * d)
doc_le_u32 _ = fail

abbrev pub doc_be_u32 : Parser ℕ
doc_be_u32 (a ∷ b ∷ c ∷ d ∷ i) = ok (i, 16777216 * a + 65536 * b + 256 * c + d)
doc_be_u32 _ = fail

abbrev pub res_of : {B : Type 0} → Bytes → Option B → NomRes B
res_of r none = fail
res_of r (some b) = ok (r, b)

module _ {A B : Type 0} where
  abbrev pub doc_map : Parser A → (A → B) → Parser B
  doc_map p f i = p i >>= λ (r, a). ok (r, f a)

  abbrev pub doc_map_res : Parser A → (A → Option B) → Parser B
  doc_map_res p f i = p i >>= λ (r, a). res_of r (f a)

module _ {A : Type 0} where
  -- The inner parser runs on what the outer one found; what it leaves there is dropped.
  abbrev pub doc_map_parser : Parser Bytes → Parser A → Parser A
  doc_map_parser p q i = p i >>= λ (r, o). q o >>= λ (_, a). ok (r, a)

  -- An error becomes `none`, with the input as it was.
  abbrev pub opt_of : Bytes → NomRes A → NomRes (Option A)
  opt_of i (ok (r, a)) = ok (r, some a)
  opt_of i (err e) = ok (i, none)
  opt_of i panic = panic
  opt_of i out_of_fuel = out_of_fuel

  abbrev pub doc_opt : Parser A → Parser (Option A)
  doc_opt p i = opt_of i (p i)

  -- The first alternative that does not fail.
  abbrev pub or_else : NomRes A → NomRes A → NomRes A
  or_else (ok x) next = ok x
  or_else (err e) next = next
  or_else panic next = panic
  or_else out_of_fuel next = out_of_fuel

  abbrev pub doc_alt : List (Parser A) → Parser A
  doc_alt [] i = fail
  doc_alt (p ∷ ps) i = or_else (p i) (doc_alt ps i)

  -- Repeats until the parser fails. A round that reads nothing is an error.
  unfoldable pub many_loop : ℕ → Parser A → Parser (List A)
  many_loop zero p i = fail
  many_loop (suc f) p i = elim (p i) [
    | ok (r, a) ↦
        let more = many_loop f p r >>= λ (r', as'). ok (r', a ∷ as') in
        if ltb (length r) (length i) then more else fail
    | err e ↦ ok (i, [])
    | panic ↦ panic
    | out_of_fuel ↦ out_of_fuel
  ]

  abbrev pub doc_many1 : Parser A → Parser (List A)
  doc_many1 p i = p i >>= λ (r, a). many_loop (suc (length r)) p r >>= λ (r', as'). ok (r', a ∷ as')

  abbrev pub doc_count : Parser A → ℕ → Parser (List A)
  doc_count p zero i = ok (i, [])
  doc_count p (suc n) i = p i >>= λ (r, a). doc_count p n r >>= λ (r', as'). ok (r', a ∷ as')

abbrev pub doc_length_data : Parser ℕ → Parser Bytes
doc_length_data p i = p i >>= λ (r, n). doc_take n r

abbrev pub doc_nom : Nom
doc_nom = record {
  take = doc_take;
  tag = doc_tag;
  rest = doc_rest;
  le_u8 = doc_u8;
  le_u16 = doc_le_u16;
  be_u16 = doc_be_u16;
  le_u32 = doc_le_u32;
  be_u32 = doc_be_u32;
  map = doc_map;
  map_res = doc_map_res;
  map_parser = doc_map_parser;
  opt = doc_opt;
  alt = doc_alt;
  many1 = doc_many1;
  count = doc_count;
  length_data = doc_length_data;
}

-- The hypothesis on nom: each parser behaves as documented, on every input.
pub record IsNom (n : Nom) : Type 1 where
  pub take_doc : (k : ℕ) (i : Bytes) → n.take k i ≡ doc_take k i
  pub tag_doc : (t i : Bytes) → n.tag t i ≡ doc_tag t i
  pub rest_doc : (i : Bytes) → n.rest i ≡ doc_rest i
  pub le_u8_doc : (i : Bytes) → n.le_u8 i ≡ doc_u8 i
  pub le_u16_doc : (i : Bytes) → n.le_u16 i ≡ doc_le_u16 i
  pub be_u16_doc : (i : Bytes) → n.be_u16 i ≡ doc_be_u16 i
  pub le_u32_doc : (i : Bytes) → n.le_u32 i ≡ doc_le_u32 i
  pub be_u32_doc : (i : Bytes) → n.be_u32 i ≡ doc_be_u32 i
  pub map_doc : (A B : Type 0) (p : Parser A) (f : A → B) (i : Bytes) → n.map p f i ≡ doc_map p f i
  pub map_res_doc :
      (A B : Type 0) (p : Parser A) (f : A → Option B) (i : Bytes)
      → n.map_res p f i ≡ doc_map_res p f i
  pub map_parser_doc :
      (A : Type 0) (p : Parser Bytes) (q : Parser A) (i : Bytes)
      → n.map_parser p q i ≡ doc_map_parser p q i
  pub opt_doc : (A : Type 0) (p : Parser A) (i : Bytes) → n.opt p i ≡ doc_opt p i
  pub alt_doc : (A : Type 0) (ps : List (Parser A)) (i : Bytes) → n.alt ps i ≡ doc_alt ps i
  pub many1_doc : (A : Type 0) (p : Parser A) (i : Bytes) → n.many1 p i ≡ doc_many1 p i
  pub count_doc : (A : Type 0) (p : Parser A) (k : ℕ) (i : Bytes) → n.count p k i ≡ doc_count p k i
  pub length_data_doc : (p : Parser ℕ) (i : Bytes) → n.length_data p i ≡ doc_length_data p i

-- So a theorem about `doc_nom` is one about every such nom.
pub IsNom-eq : (n : Nom) → IsNom n → doc_nom ≡ n
IsNom-eq n d = sym λ j. record {
  take = λ k i. d.take_doc k i j;
  tag = λ t i. d.tag_doc t i j;
  rest = λ i. d.rest_doc i j;
  le_u8 = λ i. d.le_u8_doc i j;
  le_u16 = λ i. d.le_u16_doc i j;
  be_u16 = λ i. d.be_u16_doc i j;
  le_u32 = λ i. d.le_u32_doc i j;
  be_u32 = λ i. d.be_u32_doc i j;
  map = λ {A} {B} p f i. d.map_doc A B p f i j;
  map_res = λ {A} {B} p f i. d.map_res_doc A B p f i j;
  map_parser = λ {A} p q i. d.map_parser_doc A p q i j;
  opt = λ {A} p i. d.opt_doc A p i j;
  alt = λ {A} ps i. d.alt_doc A ps i j;
  many1 = λ {A} p i. d.many1_doc A p i j;
  count = λ {A} p k i. d.count_doc A p k i j;
  length_data = λ p i. d.length_data_doc p i j;
}

abbrev pub doc_bitflags : Bitflags
doc_bitflags = record {
  from_bits_truncate = λ all bits. bit_and bits all;
  contains = λ flags flag. bit_and flags flag == flag;
  union = bit_or;
  intersection = bit_and;
}

-- The hypothesis on bitflags.
pub record IsBitflags (b : Bitflags) : Type 0 where
  pub from_bits_truncate_doc : (all bits : ℕ) → b.from_bits_truncate all bits ≡ bit_and bits all
  pub contains_doc : (flags flag : ℕ) → b.contains flags flag ≡ (bit_and flags flag == flag)
  pub union_doc : (x y : ℕ) → b.union x y ≡ bit_or x y
  pub intersection_doc : (x y : ℕ) → b.intersection x y ≡ bit_and x y

pub IsBitflags-eq : (b : Bitflags) → IsBitflags b → doc_bitflags ≡ b
IsBitflags-eq b d = sym λ j. record {
  from_bits_truncate = λ all bits. d.from_bits_truncate_doc all bits j;
  contains = λ flags flag. d.contains_doc flags flag j;
  union = λ x y. d.union_doc x y j;
  intersection = λ x y. d.intersection_doc x y j;
}

abbrev pub doc_take_while_inclusive : {A : Type 0} → (A → Bool) → List A → List A
doc_take_while_inclusive p [] = []
doc_take_while_inclusive p (x ∷ xs) =
    let more = doc_take_while_inclusive p xs in x ∷ (if p x then more else [])

abbrev pub doc_itertools : Itertools
doc_itertools = record { take_while_inclusive = doc_take_while_inclusive }

-- The hypothesis on itertools.
pub record IsItertools (t : Itertools) : Type 1 where
  pub take_while_inclusive_doc :
      (A : Type 0) (p : A → Bool) (xs : List A)
      → t.take_while_inclusive p xs ≡ doc_take_while_inclusive p xs

pub IsItertools-eq : (t : Itertools) → IsItertools t → doc_itertools ≡ t
IsItertools-eq t d =
    sym λ j. record { take_while_inclusive = λ {A} p xs. d.take_while_inclusive_doc A p xs j }

pub record IsCrates (c : Crates) : Type 1 where
  pub nom_doc : IsNom c.nom
  pub bitflags_doc : IsBitflags c.bitflags
  pub itertools_doc : IsItertools c.itertools

abbrev pub documented : Crates → Crates
documented c = record c { nom = doc_nom; bitflags = doc_bitflags; itertools = doc_itertools }

-- A statement that holds with the documented functions holds with all that behave so.
pub by_documentation {ℓ} : (c : Crates) (P : Crates → Type ℓ) → IsCrates c → P (documented c) → P c
by_documentation c P d h =
    subst (λ n. P (record c { nom = n })) (IsNom-eq c.nom d.nom_doc)
      (subst (λ b. P (record c { nom = doc_nom; bitflags = b }))
        (IsBitflags-eq c.bitflags d.bitflags_doc)
        (subst (λ t. P (record c { nom = doc_nom; bitflags = doc_bitflags; itertools = t }))
          (IsItertools-eq c.itertools d.itertools_doc) h))

-- The documented functions meet the hypothesis.
pub documented-IsCrates : (c : Crates) → IsCrates (documented c)
documented-IsCrates c = record {
  nom_doc = record {
    take_doc = λ k i. refl;
    tag_doc = λ t i. refl;
    rest_doc = λ i. refl;
    le_u8_doc = λ i. refl;
    le_u16_doc = λ i. refl;
    be_u16_doc = λ i. refl;
    le_u32_doc = λ i. refl;
    be_u32_doc = λ i. refl;
    map_doc = λ A B p f i. refl;
    map_res_doc = λ A B p f i. refl;
    map_parser_doc = λ A p q i. refl;
    opt_doc = λ A p i. refl;
    alt_doc = λ A ps i. refl;
    many1_doc = λ A p i. refl;
    count_doc = λ A p k i. refl;
    length_data_doc = λ p i. refl;
  };
  bitflags_doc = record {
    from_bits_truncate_doc = λ all bits. refl;
    contains_doc = λ flags flag. refl;
    union_doc = λ x y. refl;
    intersection_doc = λ x y. refl;
  };
  itertools_doc = record { take_while_inclusive_doc = λ A p xs. refl };
}
