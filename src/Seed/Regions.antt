-- ===== src/Seed/Regions.antt =====
-- api/internal/seedfiles/regions.go: the rows of a regions file are validated. A row's sort_priority is
-- an integer, as the file may hold a negative one.
pub mod Valid
pub mod Tests
use urbanist_atlas.Base.{
  ℕ, zero, suc, ◌+◌, Bool, true, false, not, ◌&&◌, ◌||◌, List, [], ◌∷◌, ◌++◌, Option, none, some,
  Bytes, bytes_eq, ◌==◌, Table, find_or, put, member, map, if◌then◌else◌, Result, ok, err, ℤ, pos,
  int_ltb,
}
use urbanist_atlas.Atlas.Types.{Region, scope_local, scope_regional, scope_national}

pub data RegionError : Type 0 where
  no_regions : RegionError
  slug_required duplicate_slug kind_required name_required bad_scope_tier negative_priority :
      ℕ → RegionError

-- One round of the loop, for the row `i`; `none` where the row passes.
unfoldable pub check_region : ℕ → List Bytes → Region → Option RegionError
check_region i seen r =
    if r.slug == []
    then some (slug_required i)
    else if member r.slug seen
    then some (duplicate_slug i)
    else if r.kind == []
    then some (kind_required i)
    else if r.name == []
    then some (name_required i)
    else if not (
        r.scope_tier == scope_local
        || r.scope_tier == scope_regional
        || r.scope_tier == scope_national)
    then some (bad_scope_tier i)
    else if int_ltb r.sort_priority (pos 0)
    then some (negative_priority i)
    else none

unfoldable pub region_rows : ℕ → List Bytes → List Region → Result RegionError (Unit {0})
unfolding check_region
region_rows i seen [] = ok tt
region_rows i seen (r ∷ rs) =
    let rest = region_rows (suc i) (r.slug ∷ seen) rs in
    elim (check_region i seen r) [ some e ↦ err e | none ↦ rest ]

unfoldable pub validate_regions : List Region → Result RegionError (Unit {0})
unfolding region_rows
validate_regions [] = err no_regions
validate_regions (r ∷ rs) = region_rows 0 [] (r ∷ rs)
