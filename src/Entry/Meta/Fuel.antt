-- ===== src/Entry/Meta/Fuel.antt =====
-- cdfs/src/directory_entry/isodirectory.rs, the middle of `read_entry_at`, takes no fuel.
use iso9660_rs.Prelude.{◌≢◌, List, [], ◌∷◌, arith}
use iso9660_rs.Outcome.{Result, out_of_fuel}
use iso9660_rs.Crates.{Crates}
use iso9660_rs.Parse.Susp.Frame.{check}
use iso9660_rs.Parse.Susp.Types.{SymbolicLink, SymbolicLinkRecord, SystemUseEntry}
use iso9660_rs.Entry.Meta.{
  map_result, component_path, link_path, as_link, symlink_target_of, extra_meta,
}
use mathlib.Core.List.{filter_map}

map_result-Ends :
    {E A B : Type 0} (f : A → Result E B) (xs : List A)
    → ((x : A) → f x ≢ out_of_fuel)
    → map_result f xs ≢ out_of_fuel
unfolding map_result
map_result-Ends f [] h e = cc e
map_result-Ends f (x ∷ xs) h e = ground (arith, h x, map_result-Ends f xs h)

module _ (c : Crates) {E : Type 0} where
  component_path-Ends : (r : SymbolicLinkRecord) → component_path c {E = E} r ≢ out_of_fuel
  unfolding component_path check
  component_path-Ends r e = ground arith

  link_path-Ends : (link : SymbolicLink) → link_path c {E = E} link ≢ out_of_fuel
  unfolding link_path
  link_path-Ends link e =
      ground (arith, map_result-Ends (component_path c {E = E}) link.records component_path-Ends)

  symlink_target_of-Ends :
      {D : Type 0} (susp : List (SystemUseEntry D)) → symlink_target_of c {E = E} susp ≢ out_of_fuel
  unfolding symlink_target_of
  symlink_target_of-Ends susp e = ground (
    arith,
    map_result-Ends (link_path c {E = E})
        (c.itertools.take_while_inclusive (λ (link : SymbolicLink). link.should_continue)
          (filter_map as_link susp))
        link_path-Ends,
  )

  pub extra_meta-Ends :
      {D : Type 0} (susp : List (SystemUseEntry D)) → extra_meta c {E = E} susp ≢ out_of_fuel
  unfolding extra_meta
  extra_meta-Ends susp e = ground (arith, symlink_target_of-Ends susp)
