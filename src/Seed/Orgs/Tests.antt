-- ===== src/Seed/Orgs/Tests.antt =====
-- An orgs file with two entries, and two faults.
use urbanist_atlas.Base.{
  ◌≡◌, ◌≢◌, ◌↔◌, refl, List, [], ◌∷◌, none, some, map, All, Distinct, ok, err, codes, bytes_eqb,
  lower_byte, ascii_only,
}
use urbanist_atlas.Atlas.Fields.{UrlParser, url_bad_scheme}
use urbanist_atlas.Seed.Orgs.{OrgEntry, bad_website, org_field, org_slug_repeated, validate_orgs}
use urbanist_atlas.Seed.Orgs.Valid.{ValidOrg, validate_orgs_iff}

-- Reads every text as an address at one host, but for the empty one.
abbrev one_host : UrlParser
one_host [] = none
one_host (c ∷ s) =
    some (record { scheme = codes "https"; host = codes "example.org"; opaque_part = [] })

abbrev mail_only : UrlParser
mail_only raw =
    some (record { scheme = codes "mailto"; host = []; opaque_part = codes "a@example.org" })

abbrev riders : OrgEntry
riders = record {
  org = record {
    id = 0;
    slug = codes "riders";
    name = codes "Riders";
    short_desc = codes "Riders of the city";
    website_url = codes "https://example.org";
    contact_url = [];
    tags = codes "transit" ∷ [];
    regions = [];
    matched_region_slugs = [];
    added_at = 0;
  };
  region_slugs = codes "nyc" ∷ [];
  added_at = record { year = 2026; month = 1; day = 2 };
}

abbrev entries : List OrgEntry
entries = riders ∷ record riders { org = record riders.org { slug = codes "walkers" } } ∷ []

entries_ok : validate_orgs ascii_only one_host entries ≡ ok tt
unfolding validate_orgs bytes_eqb lower_byte
entries_ok = refl

twice : validate_orgs ascii_only one_host (riders ∷ riders ∷ []) ≡ err (org_slug_repeated 1)
unfolding validate_orgs bytes_eqb lower_byte
twice = refl

website_by_mail :
    validate_orgs ascii_only mail_only entries ≡ err (org_field 0 (bad_website url_bad_scheme))
unfolding validate_orgs bytes_eqb lower_byte
website_by_mail = refl

validate_orgs_iff_example : (validate_orgs ascii_only one_host entries ≡ ok tt) ↔ (
    (entries ≢ [])
    × All (ValidOrg ascii_only one_host) entries
    × Distinct (map (λ o. o.org.slug) entries))
validate_orgs_iff_example = validate_orgs_iff ascii_only one_host entries
