-- ===== src/Sqlite/Pages/Sorted.antt =====
-- The order of the listing, and what a cursor cuts off in it.
use urbanist_atlas.Base.{
  ◌≡◌, refl, sym, ap, ◌∙◌, inl, inr, Bool, true, false, Bool-cases, List, [], ◌∷◌, ◌++◌, arith,
  bytes_eq, bytes_eqb_iff, bytes_ltb_irrefl, bytes_ltb_total, bytes_ltb_asym, bytes_ltb_not_trans,
  All, All-intro, All-In, In, map, select, Distinct, In-map,
}
use urbanist_atlas.Base.Sort.{
  insert_by, sort_by, SortedBy, StrictWeak, In-sort_by, In-insert_by, sort_by-SortedBy,
}
use urbanist_atlas.Sqlite.Rows.{Row, newer}

pub newer-StrictWeak : StrictWeak newer
unfolding newer
newer-StrictWeak = record {
  asym = λ a b h. ground (
    arith,
    bytes_ltb_asym b.created_at a.created_at,
    bytes_ltb_asym b.public_id a.public_id,
    bytes_ltb_irrefl a.created_at,
    bytes_eqb_iff b.created_at a.created_at,
    bytes_eqb_iff a.created_at b.created_at,
  );
  not_less_trans = λ x y z h k. ground (
    arith,
    bytes_ltb_not_trans z.created_at y.created_at x.created_at,
    bytes_ltb_not_trans z.public_id y.public_id x.public_id,
    bytes_ltb_total x.created_at y.created_at,
    bytes_eqb_iff x.created_at y.created_at,
    bytes_eqb_iff y.created_at z.created_at,
    bytes_eqb_iff x.created_at z.created_at,
  );
}

-- A filter does not disturb the sorting.
module _ {A : Type 0} (less : A → A → Bool) (w : StrictWeak less) (p : A → Bool) where
  select-front :
      (x : A) (ys : List A)
      → All (λ y. less y x ≡ false) ys
      → insert_by less x (select p ys) ≡ x ∷ select p ys
  unfolding insert_by
  select-front x [] h = refl
  select-front x (y ∷ ys) h = elim (Bool-cases (p y)) [
    | inl e ↦ rw (e, h.0) refl
    | inr e ↦ rw (e) (select-front x ys h.1)
  ]

  select-insert_by :
      (x : A) (ys : List A)
      → SortedBy less ys
      → p x ≡ true
      → select p (insert_by less x ys) ≡ insert_by less x (select p ys)
  unfolding insert_by
  select-insert_by x [] s h = rw (h) refl
  select-insert_by x (y ∷ ys) s h = elim (Bool-cases (less y x)) [
    | inl e ↦ elim (Bool-cases (p y)) [
      | inl k ↦ rw (e, k) (rw (e) (ap (λ t. y ∷ t) (select-insert_by x ys s.1 h)))
      | inr k ↦ rw (e, k) (select-insert_by x ys s.1 h)
    ]
    | inr e ↦
        rw (e, h)
          (sym (
            select-front x (y ∷ ys)
              (e, All-intro _ ys (λ a m. w.not_less_trans x y a e (All-In _ a ys s.0 m)))))
  ]

  drop-insert_by :
      (x : A) (ys : List A) → p x ≡ false → select p (insert_by less x ys) ≡ select p ys
  unfolding insert_by
  drop-insert_by x [] h = rw (h) refl
  drop-insert_by x (y ∷ ys) h = elim (Bool-cases (less y x)) [
    | inl e ↦ elim (Bool-cases (p y)) [
      | inl k ↦ rw (e, k) (ap (λ t. y ∷ t) (drop-insert_by x ys h))
      | inr k ↦ rw (e, k) (drop-insert_by x ys h)
    ]
    | inr e ↦ rw (e, h) refl
  ]

  pub select-sort_by : (xs : List A) → select p (sort_by less xs) ≡ sort_by less (select p xs)
  unfolding sort_by
  select-sort_by [] = refl
  select-sort_by (x ∷ xs) = elim (Bool-cases (p x)) [
    | inl e ↦ rw (e) (
        select-insert_by x (sort_by less xs) (sort_by-SortedBy less w xs) e
        ∙ ap (insert_by less x) (select-sort_by xs))
    | inr e ↦ rw (e) (drop-insert_by x (sort_by less xs) e ∙ select-sort_by xs)
  ]

newer_total : (a b : Row) → newer a b ≡ false → newer b a ≡ false → a.public_id ≡ b.public_id
unfolding newer
newer_total a b h k = ground (
  arith,
  bytes_ltb_total a.created_at b.created_at,
  bytes_ltb_total a.public_id b.public_id,
  bytes_eqb_iff a.created_at b.created_at,
  bytes_eqb_iff b.created_at a.created_at,
)

pub newer_irrefl : (a : Row) → newer a a ≡ false
unfolding newer
newer_irrefl a = ground (arith, bytes_ltb_irrefl a.created_at, bytes_ltb_irrefl a.public_id)

-- Every row is newer than all behind it.
pub Descending : List Row → Type 0
Descending [] = Unit
Descending (x ∷ xs) = All (λ y. newer x y ≡ true) xs × Descending xs

-- A row that is not older than another stands before it, unless the two are one.
newer_or_same : (a b : Row) → newer b a ≡ false → ¬ (a.public_id ≡ b.public_id) → newer a b ≡ true
newer_or_same a b h apart = elim (Bool-cases (newer a b)) [
  | inl e ↦ e
  | inr e ↦ absurd (apart (newer_total a b e h))
]

insert_by-Descending :
    (x : Row) (ys : List Row)
    → ((y : Row) → In y ys → ¬ (x.public_id ≡ y.public_id))
    → Descending ys
    → Descending (insert_by newer x ys)
unfolding insert_by Descending
insert_by-Descending x [] apart d = (tt, tt)
insert_by-Descending x (y ∷ ys) apart d = elim (Bool-cases (newer y x)) [
  | inl e ↦ rw (e) (
    All-intro _ (insert_by newer x ys) (λ a m. elim ((In-insert_by newer a x ys).0 m) [
      | inl same ↦ rw same e
      | inr old ↦ All-In _ a ys d.0 old
    ]),
    insert_by-Descending x ys (λ a m. apart a (inr m)) d.1,
  )
  | inr e ↦ rw (e) (
    (
      newer_or_same x y e (apart y (inl refl)),
      All-intro _ ys (λ a m.
          newer_or_same x a
            (newer-StrictWeak.not_less_trans x y a e
              (newer-StrictWeak.asym y a (All-In _ a ys d.0 m)))
            (apart a (inr m))),
    ),
    d,
  )
]

pub sort_by-Descending :
    (rows : List Row) → Distinct (map (λ r. r.public_id) rows) → Descending (sort_by newer rows)
unfolding sort_by Descending
sort_by-Descending [] d = tt
sort_by-Descending (r ∷ rows) d =
    insert_by-Descending r (sort_by newer rows)
      (λ y m same.
        d.0 (rw (same) (In-map (λ q. q.public_id) y rows ((In-sort_by newer y rows).0 m))))
      (sort_by-Descending rows d.1)

pub In-middle : (before : List Row) (a : Row) (behind : List Row) → In a (before ++ a ∷ behind)
In-middle [] a behind = inl refl
In-middle (b ∷ before) a behind = inr (In-middle before a behind)

-- Of the rows in order, those after the key of one are those behind it.
pub select-behind :
    (front : List Row) (last : Row) (behind : List Row)
    → Descending (front ++ last ∷ behind)
    → select (newer last) (front ++ last ∷ behind) ≡ behind
unfolding Descending
select-behind [] last behind d = rw (newer_irrefl last) (all_kept behind d.0)
  where
    all_kept :
        (rows : List Row) → All (λ y. newer last y ≡ true) rows → select (newer last) rows ≡ rows
    all_kept [] h = refl
    all_kept (r ∷ rows) h = rw (h.0) (ap (λ t. r ∷ t) (all_kept rows h.1))
select-behind (x ∷ front) last behind d =
    rw
      (newer-StrictWeak.asym x last
        (All-In _ last (front ++ last ∷ behind) d.0 (In-middle front last behind)))
      (select-behind front last behind d.1)
