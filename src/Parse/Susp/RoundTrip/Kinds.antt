-- ===== src/Parse/Susp/RoundTrip/Kinds.antt =====
-- Each kind of entry that was written, read back by `system_use_entries` of
-- cdfs/src/parse/susp.rs with whatever follows it.
use iso9660_rs.Prelude.{
  ℕ, ◌^◌, ◌<◌, ◌≡◌, refl, Bool, true, Option, none, some, [], ◌∷◌, ◌++◌, length, ◌==◌, ◌||◌,
}
use iso9660_rs.Crates.{Crates, Bytes}
use iso9660_rs.Crates.Documented.{documented, documented-IsCrates, doc_opt}
use iso9660_rs.Outcome.{ok}
use iso9660_rs.Text.{chars}
use iso9660_rs.Text.Plain.{from_utf8-plain, trim_matches-plain}
use iso9660_rs.Parse.Susp.Frame.{parse, parse_sig}
use iso9660_rs.Parse.BothEndian.{both_endian32}
use iso9660_rs.Parse.Susp.Entries.{
  system_use_entry, parse_susp_indicator, parse_alternate_name, parse_posix_attributes,
  parse_continuation_area, parse_rock_ridge, parse_child_link, parse_relocated_directory,
}
use iso9660_rs.Parse.BothEndian.RoundTrip.{both_endian32-read}
use iso9660_rs.Parse.Susp.RoundTrip.Frames.{check-true, check_sig-same, sig_tail_lem}
use iso9660_rs.Parse.Susp.Types.{
  AlternateName, ContinuationArea, PosixAttributes, SystemUseEntry, continuation_area,
  extensions_reference, susp_indicator, alternate_name, posix_attributes, posix_timestamp,
  rock_ridge, symbolic_link, child_link, relocated_directory, unknown,
}
use iso9660_rs.Parse.Susp.RoundTrip.{both, inode_bytes, IsInode, written, IsWritable}

module _ (c : Crates) (rest : Bytes) where
  abbrev number :
      (n : ℕ) (more : Bytes)
      → n < 2 ^ 32
      → both_endian32 (documented c) (both c n more) ≡ ok (more, n)
  number n more h = both_endian32-read (documented c) (documented-IsCrates c) n more h

  indicator-data :
      (skip : ℕ)
      → parse_susp_indicator (documented c) (0xbe ∷ 0xef ∷ skip ∷ []) (chars "SP") 1 ≡ ok ([], skip)
  unfolding parse_susp_indicator
  indicator-data skip = rw (check_sig-same (documented c) (chars "SP")) refl

  indicator :
      (skip : ℕ)
      → system_use_entry (documented c) (written c (susp_indicator skip) ++ rest)
        ≡ ok (rest, susp_indicator skip)
  unfolding system_use_entry parse parse_sig
  indicator skip =
      rw (sig_tail_lem c (chars "SP") (0xbe ∷ 0xef ∷ skip ∷ []) rest, indicator-data skip) refl

  area-data :
      (ce : ContinuationArea)
      → IsWritable c (continuation_area ce)
      → parse_continuation_area
          (documented c)
          (both c ce.block_location (both c ce.offset (both c ce.length [])))
          (chars "CE")
          1
        ≡ ok ([], ce)
  unfolding parse_continuation_area
  area-data ce h =
      rw
        (
          check_sig-same (documented c) (chars "CE"),
          check-true (documented c),
          number ce.block_location (both c ce.offset (both c ce.length [])) h.0,
          number ce.offset (both c ce.length []) h.1,
          number ce.length [] h.2,
        )
        refl

  area :
      (ce : ContinuationArea)
      → IsWritable c (continuation_area ce)
      → system_use_entry (documented c) (written c (continuation_area ce) ++ rest)
        ≡ ok (rest, continuation_area ce)
  unfolding system_use_entry parse parse_sig
  area ce h =
      rw
        (
          sig_tail_lem c (chars "CE")
              (both c ce.block_location (both c ce.offset (both c ce.length []))) rest,
          area-data ce h,
        )
        refl

  name-data :
      (nm : AlternateName)
      → IsWritable c (alternate_name nm)
      → parse_alternate_name (documented c) (nm.flags ∷ nm.name) (chars "NM") 1 ≡ ok ([], nm)
  unfolding parse_alternate_name
  name-data nm h =
      rw
        (
          check_sig-same (documented c) (chars "NM"),
          from_utf8-plain nm.name h.1,
          trim_matches-plain nm.name h.1,
          h.0,
        )
        refl

  name :
      (nm : AlternateName)
      → IsWritable c (alternate_name nm)
      → system_use_entry (documented c) (written c (alternate_name nm) ++ rest)
        ≡ ok (rest, alternate_name nm)
  unfolding system_use_entry parse parse_sig
  name nm h = rw (sig_tail_lem c (chars "NM") (nm.flags ∷ nm.name) rest, name-data nm h) refl

  rock-data :
      (flags : ℕ)
      → IsWritable c (rock_ridge flags)
      → parse_rock_ridge (documented c) (flags ∷ []) (chars "RR") 1 ≡ ok ([], flags)
  unfolding parse_rock_ridge
  rock-data flags h =
      rw (check_sig-same (documented c) (chars "RR"), check-true (documented c), h) refl

  rock :
      (flags : ℕ)
      → IsWritable c (rock_ridge flags)
      → system_use_entry (documented c) (written c (rock_ridge flags) ++ rest)
        ≡ ok (rest, rock_ridge flags)
  unfolding system_use_entry parse parse_sig
  rock flags h = rw (sig_tail_lem c (chars "RR") (flags ∷ []) rest, rock-data flags h) refl

  child-data :
      (lba : ℕ)
      → IsWritable c (child_link lba)
      → parse_child_link (documented c) (both c lba []) (chars "CL") 1 ≡ ok ([], lba)
  unfolding parse_child_link
  child-data lba h = rw (check_sig-same (documented c) (chars "CL"), number lba [] h) refl

  child :
      (lba : ℕ)
      → IsWritable c (child_link lba)
      → system_use_entry (documented c) (written c (child_link lba) ++ rest)
        ≡ ok (rest, child_link lba)
  unfolding system_use_entry parse parse_sig
  child lba h = rw (sig_tail_lem c (chars "CL") (both c lba []) rest, child-data lba h) refl

  moved-data :
      (b : Bool)
      → IsWritable c (relocated_directory b)
      → parse_relocated_directory (documented c) ([]) (chars "RE") 1 ≡ ok ([], b)
  unfolding parse_relocated_directory
  moved-data b h =
      rw (check_sig-same (documented c) (chars "RE"), check-true (documented c), h) refl

  moved :
      (b : Bool)
      → IsWritable c (relocated_directory b)
      → system_use_entry (documented c) (written c (relocated_directory b) ++ rest)
        ≡ ok (rest, relocated_directory b)
  unfolding system_use_entry parse parse_sig
  moved b h = rw (sig_tail_lem c (chars "RE") ([]) rest, moved-data b h) refl

  inode-read :
      (o : Option ℕ)
      → IsInode c o
      → doc_opt (both_endian32 (documented c)) (inode_bytes c o) ≡ ok ([], o)
  inode-read none h = unfold both_endian32 in refl
  inode-read (some n) h = rw (number n [] h) refl

  attributes-length :
      (mode links uid gid : ℕ) (o : Option ℕ)
      → let i = both c mode (both c links (both c uid (both c gid (inode_bytes c o)))) in
        ((length i == 32) || (length i == 40)) ≡ true
  attributes-length mode links uid gid none = refl
  attributes-length mode links uid gid (some n) = refl

  attributes-data :
      (px : PosixAttributes)
      → IsWritable c (posix_attributes px)
      → parse_posix_attributes
          (documented c)
          (both c px.mode
            (both c px.links (both c px.uid (both c px.gid (inode_bytes c px.inode)))))
          (chars "PX")
          1
        ≡ ok ([], px)
  unfolding parse_posix_attributes
  attributes-data px h =
      rw
        (
          check_sig-same (documented c) (chars "PX"),
          attributes-length px.mode px.links px.uid px.gid px.inode,
          check-true (documented c),
          number px.mode (both c px.links (both c px.uid (both c px.gid (inode_bytes c px.inode))))
              h.0,
          h.1,
          number px.links (both c px.uid (both c px.gid (inode_bytes c px.inode))) h.2,
          number px.uid (both c px.gid (inode_bytes c px.inode)) h.3,
          number px.gid (inode_bytes c px.inode) h.4,
          inode-read px.inode h.5,
        )
        refl

  attributes :
      (px : PosixAttributes)
      → IsWritable c (posix_attributes px)
      → system_use_entry (documented c) (written c (posix_attributes px) ++ rest)
        ≡ ok (rest, posix_attributes px)
  unfolding system_use_entry parse parse_sig
  attributes px h =
      rw
        (
          sig_tail_lem c (chars "PX")
              (both c px.mode
                (both c px.links (both c px.uid (both c px.gid (inode_bytes c px.inode)))))
              rest,
          attributes-data px h,
        )
        refl

  pub one :
      (e : SystemUseEntry c.time.OffsetDateTime)
      → IsWritable c e
      → system_use_entry (documented c) (written c e ++ rest) ≡ ok (rest, e)
  one (susp_indicator skip) h = indicator skip
  one (continuation_area ce) h = area ce h
  one (alternate_name nm) h = name nm h
  one (posix_attributes px) h = attributes px h
  one (rock_ridge flags) h = rock flags h
  one (child_link lba) h = child lba h
  one (relocated_directory b) h = moved b h
  one (extensions_reference er) h = absurd (cc h)
  one (posix_timestamp t) h = absurd (cc h)
  one (symbolic_link l) h = absurd (cc h)
  one (unknown u) h = absurd (cc h)
