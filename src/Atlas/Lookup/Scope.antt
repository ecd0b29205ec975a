-- ===== src/Atlas/Lookup/Scope.antt =====
-- The scope of a lookup, and the orgs that surface in it.
use urbanist_atlas.Base.{
  ℕ, ◌≡◌, refl, sym, ap, subst, ◌∙◌, ◌⊎◌, inl, inr, ◌↔◌, List, [], ◌∷◌, some, ◌==◌, nat_eq,
  nat_eqb_iff, Table, find, put, find-put, find-put_self, In, Bool-cases, some_inj, bytes_eq,
}
use urbanist_atlas.Atlas.Types.{Region, Org}
use urbanist_atlas.Atlas.Store.{MemStore}
use urbanist_atlas.Atlas.Buckets.Matches.{Matches}
use urbanist_atlas.Atlas.Queries.{with_regions}
use urbanist_atlas.Atlas.Queries.Members.{Stored, attached, In-regions_for_org}
use urbanist_atlas.Atlas.Lookup.{scope_of}

-- Every region is registered under its own id.
abbrev pub IdsMatch : MemStore → Type 0
IdsMatch s = (id : ℕ) (r : Region) → Stored s id r → r.id ≡ id

scope_of_sound :
    (k : ℕ) (rs : List Region) (m : Table ℕ Region) (mr : Region)
    → find k (scope_of rs m) ≡ some mr
    → In mr rs × (mr.id ≡ k) ⊎ (find k m ≡ some mr)
unfolding scope_of
scope_of_sound k [] m mr e = inr e
scope_of_sound k (r ∷ rs) m mr e = elim (scope_of_sound k rs (put r.id r m) mr e) [
  | inl (here, same) ↦ inl (inr here, same)
  | inr old ↦ elim (Bool-cases (r.id == k)) [
    | inl eq ↦
        let same : r ≡ mr = some_inj (rw (find-put, eq) at old) in
        inl (inl (sym same), ap (λ q. q.id) (sym same) ∙ (nat_eqb_iff r.id k).0 eq)
    | inr ne ↦ inr (rw (find-put, ne) at old)
  ]
]

scope_of_old :
    (k : ℕ) (rs : List Region) (m : Table ℕ Region) (mr : Region)
    → find k m ≡ some mr
    → (q : Region) × (find k (scope_of rs m) ≡ some q)
unfolding scope_of
scope_of_old k [] m mr e = (mr, e)
scope_of_old k (r ∷ rs) m mr e = elim (Bool-cases (r.id == k)) [
  | inl eq ↦ scope_of_old k rs (put r.id r m) r (rw find-put (rw eq refl))
  | inr ne ↦ scope_of_old k rs (put r.id r m) mr (rw find-put (rw ne e))
]

scope_of_has :
    (r : Region) (rs : List Region) (m : Table ℕ Region)
    → In r rs
    → (q : Region) × (find r.id (scope_of rs m) ≡ some q)
unfolding scope_of
scope_of_has r [] m h = elim h [ ]
scope_of_has r (x ∷ rs) m (inl e) =
    scope_of_old r.id rs (put x.id x m) x (rw e (find-put_self x.id x m))
scope_of_has r (x ∷ rs) m (inr h) = scope_of_has r rs (put x.id x m) h

module _ (s : MemStore) (ids : IdsMatch s) where
  -- A scope of registered regions holds exactly those regions, each under its id.
  pub scope_of_iff :
      (rs : List Region) (k : ℕ) (mr : Region)
      → ((r : Region) → In r rs → Stored s r.id r)
      → (find k (scope_of rs []) ≡ some mr) ↔ (In mr rs × (mr.id ≡ k))
  unfolding find
  scope_of_iff rs k mr stored = (
    λ e. elim (scope_of_sound k rs [] mr e) [ inl h ↦ h | inr old ↦ cc ],
    λ (m, e).
        let (q, f) = scope_of_has mr rs [] m in
        elim (scope_of_sound mr.id rs [] q f) [
          | inl (j, same) ↦
              let stored_q : Stored s mr.id q = subst (λ i. Stored s i q) same (stored q j) in
              subst (λ i. find i (scope_of rs []) ≡ some mr) e (f ∙ sym stored_q ∙ stored mr m)
          | inr old ↦ cc
        ],
  )

  -- An org, with its regions filled in, matches in the scope at the stored regions that it serves.
  pub Matches-scope_of :
      (rs : List Region) (org : Org) (mr : Region)
      → ((r : Region) → In r rs → Stored s r.id r)
      → Matches (scope_of rs []) (with_regions s org) mr
        ↔ ((id : ℕ) × In id (attached s org) × Stored s id mr × In mr rs)
  unfolding with_regions
  Matches-scope_of rs org mr stored = (
    λ (r, m, f).
        let (id, k, e) = (In-regions_for_org s org r).0 m in
        let (j, same) = (scope_of_iff rs r.id mr stored).0 f in
        (id, k, subst (λ i. Stored s i mr) (same ∙ ids id r e) (stored mr j), j),
    λ (id, k, e, j). (
      mr,
      (In-regions_for_org s org mr).1 (id, k, e),
      (scope_of_iff rs mr.id mr stored).1 (j, refl),
    ),
  )
