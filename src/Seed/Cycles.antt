-- ===== src/Seed/Cycles.antt =====
-- DetectCycles and DetectCyclesGraph of api/internal/seedfiles/regions.go: a depth-first search with
-- three colors over the parent edges. `color` is an association list, where a slug without an entry is
-- white. The recursion takes fuel.
pub mod Paths
pub mod Colors
pub mod Fuel
pub mod Sound
pub mod Complete
pub mod Accepts
pub mod Tests
use urbanist_atlas.Base.{
  ℕ, zero, suc, ◌+◌, Bool, true, false, List, [], ◌∷◌, ◌++◌, Bytes, bytes_eq, bytes_ltb, Table,
  find_or, put, length, member, map, if◌then◌else◌, Result, ok, err, ◌>>=◌,
}
use urbanist_atlas.Base.Sort.{sort_by}
use urbanist_atlas.Atlas.Types.{Region}

pub data Color : Type 0 where
  white gray black : Color

abbrev pub Colors : Type 0
Colors = Table Bytes Color

-- The parents of each slug.
abbrev pub Parents : Type 0
Parents = Table Bytes (List Bytes)

-- The path that the error names, or the end of the fuel.
pub data Stopped : Type 0 where
  cycle : List Bytes → Stopped
  out_of_fuel : Stopped

-- The loop of dfs over the parents of one slug; `visit` is the recursive call.
unfoldable pub visit_parents :
    (Bytes → Bool)
    → (Bytes → List Bytes → Colors → Result Stopped Colors)
    → List Bytes
    → List Bytes
    → Colors
    → Result Stopped Colors
visit_parents keep visit [] path color = ok color
visit_parents keep visit (p ∷ ps) path color = elim (keep p) [
  | false ↦ visit_parents keep visit ps path color
  | true ↦ visit p path color >>= λ c. visit_parents keep visit ps path c
]

unfoldable pub dfs :
    (Bytes → Bool) → Parents → ℕ → Bytes → List Bytes → Colors → Result Stopped Colors
unfolding find_or put visit_parents
dfs keep parents zero slug path color = err out_of_fuel
dfs keep parents (suc fuel) slug path color = elim (find_or slug color white) [
  | black ↦ ok color
  | gray ↦ err (cycle (path ++ slug ∷ []))
  | white ↦
      visit_parents keep (dfs keep parents fuel) (find_or slug parents []) (path ++ slug ∷ [])
        (put slug gray color)
      >>= λ c. ok (put slug black c)
]

-- The loop over `order`.
unfoldable pub visit_all :
    (Bytes → Bool) → Parents → ℕ → List Bytes → Colors → Result Stopped (Unit {0})
unfolding dfs
visit_all keep parents fuel [] color = ok tt
visit_all keep parents fuel (slug ∷ rest) color =
    dfs keep parents fuel slug [] color >>= λ c. visit_all keep parents fuel rest c

-- Every slug that the search may come to.
unfoldable pub all_slugs : List Bytes → Parents → List Bytes
all_slugs order [] = order
all_slugs order ((slug, ps) ∷ parents) = ps ++ all_slugs order parents

unfoldable pub detect_cycles_3_color :
    List Bytes → Parents → (Bytes → Bool) → Result Stopped (Unit {0})
unfolding visit_all all_slugs
detect_cycles_3_color order parents keep =
    visit_all keep parents (suc (length (all_slugs order parents))) order []

-- `parents[r.Slug] = r.ParentSlugs` for the rows of a file
unfoldable pub parents_of : List Region → Parents → Parents
unfolding put
parents_of [] parents = parents
parents_of (r ∷ rs) parents = parents_of rs (put r.slug r.parent_slugs parents)

unfoldable pub detect_cycles : List Region → Result Stopped (Unit {0})
unfolding detect_cycles_3_color parents_of
detect_cycles rs =
    let order = map (λ r. r.slug) rs in
    detect_cycles_3_color order (parents_of rs []) (λ p. member p order)

unfoldable pub detect_cycles_graph : Parents → Result Stopped (Unit {0})
unfolding detect_cycles_3_color bytes_ltb sort_by
detect_cycles_graph parents =
    detect_cycles_3_color (sort_by bytes_ltb (map (λ e. e.0) parents)) parents (λ p. true)
