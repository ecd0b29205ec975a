-- ===== src/Seed/Assembly.antt =====
-- Two checks of api/internal/seedfiles/build.go: an org's slugs resolve to region ids, and every local
-- leaf of the graph can be reached. A Go map to true is the list of its keys.
pub mod Checked
pub mod Tests
use urbanist_atlas.Base.{
  ℕ, Bool, true, false, not, ◌&&◌, ◌||◌, List, [], ◌∷◌, ◌++◌, Option, none, some, Bytes, bytes_eq,
  bytes_ltb, nat_eq, ltb, Table, find, find_or, member, select, take, if◌then◌else◌, Result, ok,
  err,
}
use urbanist_atlas.Base.Sort.{sort_by}

-- The loop of resolveOrgRegions: the ids and the missing slugs so far.
unfoldable pub resolve_loop : Table Bytes ℕ → List Bytes → List ℕ → List Bytes → List ℕ × List Bytes
unfolding find
resolve_loop ids [] out missing = (out, missing)
resolve_loop ids (slug ∷ rest) out missing = elim (find slug ids) [
  | none ↦ resolve_loop ids rest out (missing ++ slug ∷ [])
  | some id ↦ elim (member id out) [
    | true ↦ resolve_loop ids rest out missing
    | false ↦ resolve_loop ids rest (out ++ id ∷ []) missing
  ]
]

-- The error names the missing slugs.
unfoldable pub resolve_org_regions : List Bytes → Table Bytes ℕ → Result (List Bytes) (List ℕ)
unfolding resolve_loop sort_by
resolve_org_regions slugs ids =
    let (out, missing) = resolve_loop ids slugs [] [] in
    elim missing [ [] ↦ ok (sort_by ltb out) | m ∷ ms ↦ err (m ∷ ms) ]

-- A local region that no child, postal code or org leads to.
unfoldable pub is_orphan : Table Bytes ℕ → List Bytes → List Bytes → Bytes → Bool
unfolding find_or
is_orphan child_count anchored org_slugs slug =
    not (ltb 0 (find_or slug child_count 0)) && not (member slug anchored || member slug org_slugs)

abbrev pub max_shown : ℕ
max_shown = 20

-- The error names the first orphans in order.
unfoldable pub assert_reachable_leaves :
    List Bytes → Table Bytes ℕ → List Bytes → List Bytes → Result (List Bytes) (Unit {0})
unfolding is_orphan bytes_ltb sort_by
assert_reachable_leaves local_tier child_count anchored org_slugs =
    elim (select (is_orphan child_count anchored org_slugs) local_tier) [
      | [] ↦ ok tt
      | slug ∷ more ↦ err (take max_shown (sort_by bytes_ltb (slug ∷ more)))
    ]
