-- ===== src/Atlas/Kinds.antt =====
-- The kind sets of api/pkg/atlas/state_kinds.go, metro_kinds.go and browse_kinds.go. A Go map from
-- kinds to true is the list of its keys.
use urbanist_atlas.Base.{
  ◌≡◌, refl, Bool, true, false, ◌||◌, List, [], ◌∷◌, Bytes, codes, ◌==◌, bytes_eq, bytes_eqb,
  member, member_subset, member_apart,
}

state_kinds : List Bytes
state_kinds =
    codes "us:state" ∷ codes "us:territory" ∷ codes "ca:province" ∷ codes "ca:territory" ∷ []

metro_kinds : List Bytes
metro_kinds =
    codes "us:metro"
    ∷ codes "ca:cma"
    ∷ codes "ca:regional-district"
    ∷ codes "pt:area-metropolitana"
    ∷ []

default_browse_kinds : List Bytes
default_browse_kinds =
    codes "us:metro"
    ∷ codes "us:city"
    ∷ codes "ca:cma"
    ∷ codes "ca:regional-district"
    ∷ codes "ca:city"
    ∷ codes "pt:area-metropolitana"
    ∷ []

unfoldable pub is_state_kind : Bytes → Bool
unfolding state_kinds
is_state_kind k = member k state_kinds

unfoldable pub is_rollup_target_kind : Bytes → Bool
unfolding state_kinds
is_rollup_target_kind k = member k state_kinds || k == codes "us:federal-district"

unfoldable pub is_metro_kind : Bytes → Bool
unfolding metro_kinds
is_metro_kind k = member k metro_kinds

unfoldable pub is_default_browse_kind : Bytes → Bool
unfolding default_browse_kinds
is_default_browse_kind k = member k default_browse_kinds

-- Every metro kind is a browse kind.
pub metro_kind_browse : (k : Bytes) → is_metro_kind k ≡ true → is_default_browse_kind k ≡ true
unfolding is_metro_kind is_default_browse_kind bytes_eqb
metro_kind_browse k h = member_subset k metro_kinds default_browse_kinds refl h

-- No kind is both a metro kind and a state kind.
pub metro_kind_not_state : (k : Bytes) → is_metro_kind k ≡ true → is_state_kind k ≡ false
unfolding is_metro_kind is_state_kind bytes_eqb
metro_kind_not_state k h = member_apart k metro_kinds state_kinds refl h
