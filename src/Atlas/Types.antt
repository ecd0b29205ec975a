-- ===== src/Atlas/Types.antt =====
-- The data types of api/pkg/atlas/atlas.go, browse.go and stats.go. Countries, kinds, tiers and tags
-- are strings in the source too. A time is a number of nanoseconds since the zero time.
use urbanist_atlas.Base.{ℕ, ℤ, pos, Bool, List, [], Bytes, codes, ◌==◌, bytes_eq}

abbrev pub country_us : Bytes
country_us = codes "US"

abbrev pub country_ca : Bytes
country_ca = codes "CA"

abbrev pub scope_local : Bytes
scope_local = codes "local"

abbrev pub scope_regional : Bytes
scope_regional = codes "regional"

abbrev pub scope_national : Bytes
scope_national = codes "national"

pub record Region : Type 0 where
  pub id : ℕ
  pub kind : Bytes
  pub name : Bytes
  pub slug : Bytes
  pub country : Bytes
  pub scope_tier : Bytes
  pub parent_slugs : List Bytes
  pub sort_priority : ℤ
  pub rollup_states : List Bytes

-- `Region{}`
abbrev pub zero_region : Region
zero_region = record {
  id = 0;
  kind = [];
  name = [];
  slug = [];
  country = [];
  scope_tier = [];
  parent_slugs = [];
  sort_priority = pos 0;
  rollup_states = [];
}

unfoldable pub is_national : Region → Bool
is_national r = r.scope_tier == scope_national

pub record Org : Type 0 where
  pub id : ℕ
  pub slug : Bytes
  pub name : Bytes
  pub short_desc : Bytes
  pub website_url : Bytes
  pub contact_url : Bytes
  pub tags : List Bytes
  pub regions : List Region
  pub matched_region_slugs : List Bytes
  pub added_at : ℕ

pub record LookupQuery : Type 0 where
  pub postal_code : Bytes
  pub country : Bytes

pub record LookupResult : Type 0 where
  pub query : LookupQuery
  pub resolved_place_label : Bytes
  pub resolved_ancestry : List Region
  pub local : List Org
  pub regional : List Org
  pub statewide : List Org

pub record RegionSummary : Type 0 where
  pub region : Region
  pub org_count : ℕ
  pub direct_org_count : ℕ
  pub browse_parent_slug : Bytes

pub record RegionSearchResult : Type 0 where
  pub region : Region
  pub context_label : Bytes

pub record RegionDetail : Type 0 where
  pub region : Region
  pub local : List Org
  pub regional : List Org
  pub statewide : List Org
  pub ancestry : List Region
  pub descendant_region_names : List (Bytes × Bytes)
