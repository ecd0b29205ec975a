-- ===== src/Atlas/Buckets.antt =====
-- api/pkg/atlas/region_scope.go: the orgs of a query are split into tiers by the regions of theirs
-- that are in scope.
pub mod Matches
pub mod Tiers
use urbanist_atlas.Base.{
  ℕ, ℤ, int_ltb, int_eqb, Bool, true, false, not, ◌||◌, List, [], ◌∷◌, ◌++◌, Option, none, some,
  map, Bytes, ◌==◌, bytes_eq, nat_eq, Table, find, any, bytes_ltb, if◌then◌else◌,
}
use urbanist_atlas.Base.Sort.{sort_by}
use urbanist_atlas.Atlas.Types.{Region, Org, scope_local}
use urbanist_atlas.Atlas.Kinds.{is_state_kind}

pub record ScopeBucketed : Type 0 where
  pub org : Org
  pub sort_key : ℤ

pub data Tier : Type 0 where
  local_tier statewide_tier regional_tier : Tier

-- The regions of an org that are in scope, as the scope holds them.
unfoldable pub matched_regions : Table ℕ Region → List Region → List Region
unfolding find
matched_regions in_scope [] = []
matched_regions in_scope (r ∷ rs) = elim (find r.id in_scope) [
  | some mr ↦ mr ∷ matched_regions in_scope rs
  | none ↦ matched_regions in_scope rs
]

unfoldable pub best_sort : ℤ → List Region → ℤ
best_sort best [] = best
best_sort best (r ∷ rs) =
    best_sort (if int_ltb r.sort_priority best then r.sort_priority else best) rs

unfoldable pub tier_of : List Region → Tier
unfolding is_state_kind
tier_of matched =
    if any (λ r. r.scope_tier == scope_local) matched
    then local_tier
    else if any (λ r. is_state_kind r.kind) matched
    then statewide_tier
    else regional_tier

-- The body of the loop: `none` is an org with no match, which `continue` drops.
unfoldable pub bucket_org : Table ℕ Region → Org → Option (Tier × ScopeBucketed)
unfolding matched_regions best_sort tier_of
bucket_org in_scope org = elim (matched_regions in_scope org.regions) [
  | [] ↦ none
  | m ∷ ms ↦ some (
    tier_of (m ∷ ms),
    record {
      org = record org { matched_region_slugs = map (λ r. r.slug) (m ∷ ms) };
      sort_key = best_sort m.sort_priority (m ∷ ms);
    },
  )
]

pub record ScopeBuckets : Type 0 where
  pub local : List ScopeBucketed
  pub regional : List ScopeBucketed
  pub statewide : List ScopeBucketed

unfoldable pub add_to_tier : Tier → ScopeBucketed → ScopeBuckets → ScopeBuckets
add_to_tier local_tier b t = record t { local = t.local ++ b ∷ [] }
add_to_tier statewide_tier b t = record t { statewide = t.statewide ++ b ∷ [] }
add_to_tier regional_tier b t = record t { regional = t.regional ++ b ∷ [] }

unfoldable pub bucket_loop : Table ℕ Region → List Org → ScopeBuckets → ScopeBuckets
unfolding bucket_org add_to_tier
bucket_loop in_scope [] t = t
bucket_loop in_scope (org ∷ orgs) t = elim (bucket_org in_scope org) [
  | none ↦ bucket_loop in_scope orgs t
  | some (tier, b) ↦ bucket_loop in_scope orgs (add_to_tier tier b t)
]

unfoldable pub scope_less : ScopeBucketed → ScopeBucketed → Bool
unfolding bytes_ltb
scope_less a b =
    if not (int_eqb a.sort_key b.sort_key)
    then int_ltb a.sort_key b.sort_key
    else bytes_ltb a.org.name b.org.name

unfoldable pub extract_scope_orgs : List ScopeBucketed → List Org
extract_scope_orgs = map (λ b. b.org)

abbrev pub no_buckets : ScopeBuckets
no_buckets = record { local = []; regional = []; statewide = [] }

pub record OrgBuckets : Type 0 where
  pub local : List Org
  pub regional : List Org
  pub statewide : List Org

unfoldable pub sort_scope_buckets : List ScopeBucketed → List ScopeBucketed
unfolding scope_less sort_by
sort_scope_buckets = sort_by scope_less

unfoldable pub bucket_orgs_by_scope : Table ℕ Region → List Org → OrgBuckets
unfolding bucket_loop sort_scope_buckets extract_scope_orgs
bucket_orgs_by_scope in_scope orgs =
    let t = bucket_loop in_scope orgs no_buckets in
    record {
      local = extract_scope_orgs (sort_scope_buckets t.local);
      regional = extract_scope_orgs (sort_scope_buckets t.regional);
      statewide = extract_scope_orgs (sort_scope_buckets t.statewide);
    }
