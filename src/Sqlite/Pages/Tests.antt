-- ===== src/Sqlite/Pages/Tests.antt =====
-- Three submissions in pages of one.
use urbanist_atlas.Base.{
  ◌≡◌, refl, inl, inr, [], ◌∷◌, some, All, In, Distinct, bytes_eq, bytes_eqb, codes, ok, pos,
  length, suc, map, ℕ, true, false, nat_eqb, nat_eqb_iff, member_iff,
}
use urbanist_atlas.Base.Sort.{sort_by}
use urbanist_atlas.Sqlite.Rows.{Row, Queue, newer, approved}
use urbanist_atlas.Sqlite.Submissions.Tests.{plain, row}
use urbanist_atlas.Sqlite.Pages.Cuts.{Addressable, listing}
use urbanist_atlas.Sqlite.Pages.Visit.{all_pages, all_pages-listing}

abbrev later : Row
later = record row { public_id = codes "b"; created_at = 51 ∷ [] }

abbrev same_time : Row
same_time = record row { public_id = codes "c"; status = approved }

abbrev queue : Queue
queue = record { rows = row ∷ later ∷ same_time ∷ []; next_id = 4 }

newest_first : listing [] queue ≡ later ∷ same_time ∷ row ∷ []
unfolding newer sort_by bytes_eqb
newest_first = refl

distinct : Distinct (map (λ r. r.public_id) queue.rows)
unfolding bytes_eqb
distinct = (
  λ m. let found : false ≡ true = (member_iff (codes "a") (codes "b" ∷ codes "c" ∷ [])).1 m in cc,
  (
    λ m. let found : false ≡ true = (member_iff (codes "b") (codes "c" ∷ [])).1 m in cc,
    (λ m. m, tt),
  ),
)

no_bar : (t : ℕ) → nat_eqb b'|' t ≡ false → ¬ In b'|' (t ∷ [])
no_bar t h (inl e) = cc (h, (nat_eqb_iff b'|' t).1 e)
no_bar t h (inr m) = m

addressable : All Addressable queue.rows
addressable = (
  (λ e. cc, no_bar 50 refl, λ e. cc),
  ((λ e. cc, no_bar 51 refl, λ e. cc), ((λ e. cc, no_bar 50 refl, λ e. cc), tt)),
)

all_pages-listing_example :
    all_pages plain [] (pos 1) (suc (length queue.rows)) [] queue ≡ ok (some (listing [] queue))
all_pages-listing_example = all_pages-listing plain [] (pos 1) queue distinct addressable
